-- ===== src/Security/SettingsSessions.antt =====
-- src/app/settingsSessions.ts. The map is the
-- list of its entries in the order of insertion, keyed by the hash of the token.
pub mod OneTime
use mailbridge_mcp.Common.{
  ℕ, ◌+◌, ◌*◌, String, Bool, true, false, not, ◌&&◌, ◌||◌, Option, none, some, List, [], ◌∷◌, ◌++◌,
  str_eq, ◌==◌, ltb, leb, find, any, update_where, delete_where, if◌then◌else◌, Exec, pure,
  throw_if, gets, modify, or_throw, ◌>>=◌, ◌>>◌,
}
use mailbridge_mcp.Common.Maps.{Entry, has_key, put}
use mailbridge_mcp.Common.Text.{unique, utf16_length, is_empty}
use mailbridge_mcp.Domain.Errors.{plain}

pub record IssuedSettingsSession : Type 0 where
  pub token : String
  pub csrf : String
  pub expires_at : ℕ

pub record StoredSession : Type 0 where
  pub user_key : String
  pub scopes : List String
  pub client_id : String
  pub csrf_hash : String
  pub expires_at_ms : ℕ

pub record SettingsSessionContext : Type 0 where
  pub scopes : List String
  pub client_id : String
  pub oauth_expires_at_seconds : Option ℕ

-- What `consume` hands back.
pub record Authorization : Type 0 where
  pub user_key : String
  pub scopes : List String
  pub client_id : String
  pub expires_at_ms : ℕ

abbrev pub is_expired : ℕ → Entry StoredSession → Bool
is_expired now entry = leb entry.value.expires_at_ms now

-- #prune
unfoldable pub prune : ℕ → List (Entry StoredSession) → List (Entry StoredSession)
unfolding delete_where
prune now entries = delete_where (is_expired now) entries

-- `Math.min(now + ttlMs, oauthExpiryMs)`; an expiry that is missing or 0 is infinite.
abbrev pub earlier : ℕ → Option ℕ → ℕ
earlier own none = own
earlier own (some seconds) =
    if seconds == 0 then own else if ltb (seconds * 1000) own then seconds * 1000 else own

-- `!token || !csrf || token.length > 256 || csrf.length > 256`
unfoldable pub is_malformed : String → String → Bool
unfolding utf16_length
is_malformed token csrf =
    (is_empty token || is_empty csrf)
    || (ltb 256 (utf16_length token) || ltb 256 (utf16_length csrf))

-- `hash_text` is SHA-256; two digests have the same length, and timingSafeEqual compares them.
module _ (hash_text : String → String) where
  -- `token` and `csrf` are the random strings; the three times are those that the method reads.
  unfoldable pub issue :
      ℕ
      → String
      → SettingsSessionContext
      → String
      → String
      → ℕ
      → ℕ
      → ℕ
      → Exec (List (Entry StoredSession)) IssuedSettingsSession
  unfolding any put prune utf16_length unique
  issue ttl_ms user context token csrf pruned_at now checked_at = do
    modify (prune pruned_at)
    throw_if (not (any (λ s. str_eq s "mail.settings.write") context.scopes))
        (plain "Mailbox settings scope is required")
    throw_if (is_empty context.client_id || ltb 256 (utf16_length context.client_id))
        (plain "OAuth client identity is required")
    let expires_at_ms = earlier (now + ttl_ms) context.oauth_expires_at_seconds
    throw_if (leb expires_at_ms checked_at) (plain "OAuth session has expired")
    modify (
        put (hash_text token) (record {
          user_key = user;
          scopes = unique context.scopes;
          client_id = context.client_id;
          csrf_hash = hash_text csrf;
          expires_at_ms = expires_at_ms;
        }))
    pure (record { token = token; csrf = csrf; expires_at = expires_at_ms })

  -- The entry is deleted before any test of it, so a wrong guess uses it up.
  unfoldable pub consume : String → String → ℕ → Exec (List (Entry StoredSession)) Authorization
  unfolding is_malformed find delete_where
  consume token csrf now = do
    throw_if (is_malformed token csrf) (plain "Invalid settings authorization")
    stored ← gets (find (has_key (hash_text token)))
    modify (delete_where (has_key (hash_text token)))
    entry ← or_throw stored (plain "Settings authorization expired or already used")
    throw_if (is_expired now entry) (plain "Settings authorization expired or already used")
    throw_if (not (str_eq (hash_text csrf) entry.value.csrf_hash)) (plain "Invalid CSRF token")
    pure (record {
      user_key = entry.value.user_key;
      scopes = entry.value.scopes;
      client_id = entry.value.client_id;
      expires_at_ms = entry.value.expires_at_ms;
    })

unfoldable pub revoke_user : String → Exec (List (Entry StoredSession)) (Unit {0})
unfolding delete_where
revoke_user user = modify (delete_where (λ e. str_eq e.value.user_key user))
