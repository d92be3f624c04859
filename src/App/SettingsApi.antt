-- ===== src/App/SettingsApi.antt =====
-- src/app/settingsApi.ts: authorizeSettings and the routes that change a mailbox, a policy or the whole
-- account, over the store and the sessions. A body is one that its schema accepts; origins, the rate
-- limit and the headers of the answer are left out.
pub mod Rotation
use mailbridge_mcp.Common.Text.{without, all_word_chars}
use mailbridge_mcp.Common.{
  ℕ, ◌/◌, ◌≤◌, String, Bool, true, false, not, ◌&&◌, ◌||◌, Option, none, some, List, [], ◌∷◌,
  str_eq, ◌==◌, leb, any, if◌then◌else◌, Result, ok, err, Exec, pure, throw_if, or_throw, ◌>>=◌,
  ◌>>◌,
}
use Prim.Native.Char.{code}
use Prim.Native.String
use mailbridge_mcp.Common.Maps.{Entry}
use mailbridge_mcp.Common.Text.{is_space, is_empty, utf16_length, starts_with, trim_start}
use mailbridge_mcp.Domain.Errors.{Error, mail_bridge, plain}
use mailbridge_mcp.Domain.Types.{MailboxView, SendPolicyView, SendPolicyInput}
use mailbridge_mcp.Store.Rows.{Db}
use mailbridge_mcp.Store.Policies.{get_send_policy, set_send_policy}
use mailbridge_mcp.Store.Mailboxes.{set_enabled}
use mailbridge_mcp.Store.Mailboxes.Removal.{delete_mailbox, delete_all}
use mailbridge_mcp.Security.SettingsSessions.{
  StoredSession, IssuedSettingsSession, Authorization, issue, consume, revoke_user,
}

abbrev pub starts_with_space : String → Bool
starts_with_space String.[] = false
starts_with_space (String.◌∷◌ c s) = is_space (code c)

-- `\s+([A-Za-z0-9_-]{20,256})$`; a token has no space, so the spaces before it are all of them.
abbrev pub token_after : Option String → Option String
token_after none = none
token_after (some rest) =
    let token = trim_start rest in
    if starts_with_space rest
      && (all_word_chars token && (leb 20 (utf16_length token) && leb (utf16_length token) 256))
    then some token
    else none

-- `/^Settings\s+([A-Za-z0-9_-]{20,256})$/`
unfoldable pub settings_token : String → Option String
unfolding trim_start utf16_length is_space
settings_token header = token_after (without header "Settings")

-- What authorizeSettings reads: the two headers, the random strings of the next token, and the times
-- in their order.
pub record SettingsRequest : Type 0 where
  pub authorization : String
  pub csrf : String
  pub next_token : String
  pub next_csrf : String
  pub consumed_at : ℕ
  pub pruned_at : ℕ
  pub issued_at : ℕ
  pub checked_at : ℕ

-- The calls of the routes.
pub data SettingsCall : Type 0 where
  enable disable read_send_policy : String → SettingsCall
  write_send_policy : String → SendPolicyInput → SettingsCall
  remove_mailbox : (id confirmation : String) → SettingsCall
  remove_account_data : SettingsCall

pub data SettingsBody : Type 0 where
  mailbox : MailboxView → SettingsBody
  policy : SendPolicyView → SettingsBody
  deleted : ℕ → SettingsBody
  nothing : SettingsBody
  problem : String → SettingsBody

pub record SettingsResponse : Type 0 where
  pub status : ℕ
  pub body : SettingsBody

pub record SettingsWorld : Type 0 where
  pub db : Db
  pub sessions : List (Entry StoredSession)

abbrev pub response : ℕ → SettingsBody → SettingsResponse
response status body = record { status = status; body = body }

-- The last handler of the router.
abbrev pub failure : Error → SettingsResponse
failure (mail_bridge code retryable) = response 422 (problem "settings_operation_failed")
failure (plain message) =
    if str_eq message "Mailbox not found"
    then response 404 (problem "mailbox_not_found")
    else response 422 (problem "settings_operation_failed")

abbrev pub answered : {A : Type 0} → (A → SettingsResponse) → Result A → SettingsResponse
answered f (ok a) = f a
answered f (err e) = failure e

-- A route whose work is a call of the store.
abbrev pub in_store :
    {A : Type 0}
    → (A → SettingsResponse)
    → Exec Db A
    → SettingsWorld
    → SettingsResponse × SettingsWorld
in_store f call world =
    let (result, db) = call world.db in (answered f result, record world { db = db })

-- `/^mbx_[a-z0-9_]+$/` of 5 to 64 characters.
abbrev pub is_small_char : ℕ → Bool
is_small_char c = (leb b'a' c && leb c b'z') || ((leb b'0' c && leb c b'9') || c == b'_')

abbrev pub all_small_chars : String → Bool
all_small_chars String.[] = true
all_small_chars (String.◌∷◌ c s) = is_small_char (code c) && all_small_chars s

unfoldable pub is_mailbox_id : String → Bool
unfolding utf16_length
is_mailbox_id id =
    starts_with id "mbx_"
    && (all_small_chars id && (leb 5 (utf16_length id) && leb (utf16_length id) 64))

abbrev pub for_id :
    String
    → (SettingsWorld → SettingsResponse × SettingsWorld)
    → SettingsWorld
    → SettingsResponse × SettingsWorld
for_id id route world =
    if is_mailbox_id id then route world else (response 400 (problem "invalid_request"), world)

-- `deleteAll`, and `revokeUser` if it has not thrown.
abbrev pub account_removed :
    String → Result ℕ × Db → SettingsWorld → SettingsResponse × SettingsWorld
account_removed user (ok count, db) world = (
  response 200 (deleted count),
  record { db = db; sessions = (revoke_user user world.sessions).1 },
)
account_removed user (err e, db) world = (failure e, record world { db = db })

unfoldable pub run_call :
    String → SettingsCall → ℕ → SettingsWorld → SettingsResponse × SettingsWorld
unfolding set_enabled get_send_policy set_send_policy delete_mailbox delete_all revoke_user
    is_mailbox_id
run_call user (enable id) now =
    for_id id (in_store (λ view. response 200 (mailbox view)) (set_enabled user id true now))
run_call user (disable id) now =
    for_id id (in_store (λ view. response 200 (mailbox view)) (set_enabled user id false now))
run_call user (read_send_policy id) now =
    for_id id (in_store (λ view. response 200 (policy view)) (get_send_policy user id))
run_call user (write_send_policy id input) now =
    for_id id (in_store (λ view. response 200 (policy view)) (set_send_policy user id input now))
run_call user (remove_mailbox id confirmation) now = for_id id (
    if str_eq confirmation id
    then in_store (λ _. response 204 nothing) (delete_mailbox user id now)
    else λ world. (response 422 (problem "settings_operation_failed"), world))
run_call user remove_account_data now =
    λ world. account_removed user (delete_all user world.db) world

module _ (hash_text : String → String) (ttl_ms : ℕ) where
  unfoldable pub authorize_settings :
      SettingsRequest → Exec (List (Entry StoredSession)) (Authorization × IssuedSettingsSession)
  unfolding settings_token consume any issue
  authorize_settings request = do
    token ← or_throw (settings_token request.authorization) (plain "Missing settings authorization")
    consumed ← consume hash_text token request.csrf request.consumed_at
    throw_if (not (any (λ s. str_eq s "mail.settings.write") consumed.scopes))
        (plain "Mailbox settings scope is required")
    rotated ←
        issue hash_text ttl_ms consumed.user_key
          (record {
            scopes = consumed.scopes;
            client_id = consumed.client_id;
            oauth_expires_at_seconds = some (consumed.expires_at_ms / 1000);
          })
          request.next_token request.next_csrf request.pruned_at request.issued_at
          request.checked_at
    pure (consumed, rotated)

  abbrev pub after_authorization :
      SettingsCall
      → ℕ
      → Db
      → Result (Authorization × IssuedSettingsSession) × List (Entry StoredSession)
      → SettingsResponse × SettingsWorld
  after_authorization call now db (err e, sessions) = (
    response 401 (problem "settings_authorization_invalid"),
    record { db = db; sessions = sessions },
  )
  after_authorization call now db (ok (consumed, rotated), sessions) =
      run_call consumed.user_key call now (record { db = db; sessions = sessions })

  -- A request to one of the routes.
  unfoldable pub handle :
      SettingsRequest → SettingsCall → ℕ → SettingsWorld → SettingsResponse × SettingsWorld
  unfolding authorize_settings run_call
  handle request call now world =
      after_authorization call now world.db (authorize_settings request world.sessions)
