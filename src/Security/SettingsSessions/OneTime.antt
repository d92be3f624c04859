-- ===== src/Security/SettingsSessions/OneTime.antt =====
-- src/app/settingsSessions.ts: what a token opens, and how often.
use mailbridge_mcp.Common.{
  ℕ, ◌<◌, ◌≡◌, ◌≢◌, ◌+◌, find-delete_where_kept, String, false, some, List, arith, str_eq, eq_iff,
  find, find-delete_where-none, delete_where, ok, err, Option-cases, inl, inr,
}
use mailbridge_mcp.Common.Text.{unique}
use mailbridge_mcp.Domain.Errors.{plain}
use mailbridge_mcp.Common.Maps.{Entry, has_key, find-put}
use mailbridge_mcp.Security.SettingsSessions.{
  StoredSession, IssuedSettingsSession, SettingsSessionContext, Authorization, prune, earlier,
  issue, consume, is_malformed, revoke_user,
}

module _ (hash_text : String → String) (entries : List (Entry StoredSession)) (token csrf : String)
    (now : ℕ) where
  -- Whatever a well-formed call has come to, a well-formed call with its token that follows it is
  -- refused.
  pub consume-once :
      (csrf' : String) (later : ℕ)
      → is_malformed token csrf ≡ false
      → is_malformed token csrf' ≡ false
      → (consume hash_text token csrf' later (consume hash_text token csrf now entries).1).0
        ≡ err (plain "Settings authorization expired or already used")
  unfolding consume
  consume-once csrf' later formed formed' =
      elim (Option-cases (find (has_key (hash_text token)) entries)) [
        | inl missing ↦ ground (
          arith,
          find-delete_where-none (has_key (hash_text token)) (has_key (hash_text token)) entries
              (λ e h. h),
        )
        | inr (e, found) ↦ ground (
          arith,
          find-delete_where-none (has_key (hash_text token)) (has_key (hash_text token)) entries
              (λ e h. h),
        )
      ]

module _ (hash_text : String → String) (ttl_ms : ℕ) (user : String)
    (context : SettingsSessionContext) (token csrf : String) (pruned_at now checked_at : ℕ)
    (entries entries' : List (Entry StoredSession)) (issued : IssuedSettingsSession)
    (h : issue hash_text ttl_ms user context token csrf pruned_at now checked_at entries
      ≡ (ok issued, entries')) where
  abbrev pub stored : StoredSession
  stored = record {
    user_key = user;
    scopes = unique context.scopes;
    client_id = context.client_id;
    csrf_hash = hash_text csrf;
    expires_at_ms = issued.expires_at;
  }

  pub issue-find :
      find (has_key (hash_text token)) entries'
      ≡ some (record { key = hash_text token; value = stored })
  unfolding issue
  issue-find =
      let written : StoredSession = record {
        user_key = user;
        scopes = unique context.scopes;
        client_id = context.client_id;
        csrf_hash = hash_text csrf;
        expires_at_ms = earlier (now + ttl_ms) context.oauth_expires_at_seconds;
      } in
      ground (arith, find-put (hash_text token) written (prune pruned_at entries))

  -- A token that was issued, with the CSRF token that was issued with it, opens the settings of its
  -- user with the scopes of its context until it expires, and is used up; both are well-formed.
  pub issue-consume :
      (later : ℕ)
      → is_malformed token csrf ≡ false
      → later < issued.expires_at
      → consume hash_text token csrf later entries' ≡ (
        ok (record {
          user_key = user;
          scopes = unique context.scopes;
          client_id = context.client_id;
          expires_at_ms = issued.expires_at;
        }),
        delete_where (has_key (hash_text token)) entries',
      )
  unfolding consume
  issue-consume later formed fresh =
      ground (arith, issue-find, eq_iff (hash_text csrf) (hash_text csrf))

module _ (hash_text : String → String) (entries entries' : List (Entry StoredSession))
    (token csrf : String) (now : ℕ) (a : Authorization)
    (h : consume hash_text token csrf now entries ≡ (ok a, entries')) where
  -- A call that returns has found the session that was stored for the token, unexpired and with the
  -- hash of the CSRF token, and hands back what is stored.
  pub consume-stored :
      (e : Entry StoredSession) × (find (has_key (hash_text token)) entries ≡ some e)
      × (now < e.value.expires_at_ms)
      × (e.value.csrf_hash ≡ hash_text csrf)
      × (e.value.user_key ≡ a.user_key)
      × (e.value.scopes ≡ a.scopes)
      × (e.value.expires_at_ms ≡ a.expires_at_ms)
  unfolding consume
  consume-stored = elim (Option-cases (find (has_key (hash_text token)) entries)) [
    | inl missing ↦ ground arith
    | inr (e, found) ↦ (
      e,
      found,
      ground arith,
      ground (arith, eq_iff (hash_text csrf) e.value.csrf_hash),
      ground arith,
      ground arith,
      ground arith,
    )
  ]

-- Right after a user is revoked, no call with any token opens the settings of that user.
pub revoke_user-consume :
    (hash_text : String → String) (user : String) (entries entries' : List (Entry StoredSession))
    (token csrf : String) (now : ℕ) (a : Authorization)
    → consume hash_text token csrf now (revoke_user user entries).1 ≡ (ok a, entries')
    → a.user_key ≢ user
unfolding revoke_user
revoke_user-consume hash_text user entries entries' token csrf now a h =
    let (e, found, _, _, same, _, _) =
      consume-stored hash_text (revoke_user user entries).1 entries' token csrf now a h in
    λ mine. ground (
      arith,
      same,
      mine,
      eq_iff e.value.user_key user,
      find-delete_where_kept (has_key (hash_text token))
          (λ (x : Entry StoredSession). str_eq x.value.user_key user) entries e,
      found,
    )
