-- ===== src/App/SettingsApi/Rotation.antt =====
-- What a request does to its token.
use mailbridge_mcp.Common.{◌<◌}
use mailbridge_mcp.Common.{throw_if-ok}
use mailbridge_mcp.App.SettingsApi.{not}
use mailbridge_mcp.App.SettingsApi.{throw_if}
use mailbridge_mcp.Common.{or_throw-ok}
use mailbridge_mcp.App.SettingsApi.{or_throw}
use mailbridge_mcp.Common.{bind-ok}
use mailbridge_mcp.Common.{
  ℕ, ◌+◌, ◌*◌, ◌/◌, ◌≤◌, ◌≡◌, ◌∙◌, ap, sym, String, some, List, arith, str_eq, any, find, ok,
}
use mailbridge_mcp.Common.Maps.{Entry, has_key}
use mailbridge_mcp.Domain.Errors.{plain}
use mailbridge_mcp.Security.SettingsSessions.{
  StoredSession, IssuedSettingsSession, SettingsSessionContext, Authorization, earlier, issue,
  consume,
}
use mailbridge_mcp.Security.SettingsSessions.OneTime.{issue-find, consume-stored}
use mailbridge_mcp.App.SettingsApi.{SettingsRequest, settings_token, authorize_settings}

-- A second is never rounded up.
seconds-le : (ms : ℕ) → ms / 1000 * 1000 ≤ ms
seconds-le ms = omega arith

-- The expiry of a session for whole seconds of another is no later.
earlier-le : (own ms : ℕ) → 1000 ≤ ms → earlier own (some (ms / 1000)) ≤ ms
earlier-le own ms h =
    let positive : 1 ≤ ms / 1000 = omega (arith, h) in ground (arith, positive, seconds-le ms)

issue-expiry :
    (hash_text : String → String) (ttl_ms : ℕ) (user : String) (context : SettingsSessionContext)
    (token csrf : String) (pruned_at now checked_at : ℕ)
    (entries entries' : List (Entry StoredSession)) (issued : IssuedSettingsSession)
    → issue hash_text ttl_ms user context token csrf pruned_at now checked_at entries
      ≡ (ok issued, entries')
    → (issued.token ≡ token)
      × (issued.expires_at ≡ earlier (now + ttl_ms) context.oauth_expires_at_seconds)
unfolding issue
issue-expiry hash_text ttl_ms user context token csrf pruned_at now checked_at entries entries'
      issued h =
    (ground (arith, h), ground (arith, h))

module _ (hash_text : String → String) (ttl_ms : ℕ) (request : SettingsRequest)
    (entries entries' : List (Entry StoredSession)) (consumed : Authorization)
    (rotated : IssuedSettingsSession)
    (h : authorize_settings hash_text ttl_ms request entries
      ≡ (ok (consumed, rotated), entries')) where
  abbrev next_context : SettingsSessionContext
  next_context = record {
    scopes = consumed.scopes;
    client_id = consumed.client_id;
    oauth_expires_at_seconds = some (consumed.expires_at_ms / 1000);
  }

  -- The token that the request shows, and the two calls that it has come to.
  parts :
      (token : String) × (left : List (Entry StoredSession)) × (settings_token request.authorization
        ≡ some token)
      × (consume hash_text token request.csrf request.consumed_at entries ≡ (ok consumed, left))
      × (issue hash_text ttl_ms consumed.user_key next_context request.next_token request.next_csrf
            request.pruned_at request.issued_at request.checked_at left
          ≡ (ok rotated, entries'))
  unfolding authorize_settings
  parts =
      let (token, s1, shown, k1) =
        bind-ok
          (or_throw (settings_token request.authorization) (plain "Missing settings authorization"))
          _ entries h in
      let (is_token, same1) = or_throw-ok _ _ entries s1 token shown in
      let (a, s2, used, k2) =
        bind-ok (consume hash_text token request.csrf request.consumed_at) _ s1 k1 in
      let (u, s3, passed, k3) =
        bind-ok
          (throw_if (not (any (λ s. str_eq s "mail.settings.write") a.scopes))
            (plain "Mailbox settings scope is required"))
          _ s2 k2 in
      let same2 = throw_if-ok _ _ s2 s3 u passed in
      let (r, s4, issued, last) =
        bind-ok
          (issue hash_text ttl_ms a.user_key
            (record {
              scopes = a.scopes;
              client_id = a.client_id;
              oauth_expires_at_seconds = some (a.expires_at_ms / 1000);
            })
            request.next_token request.next_csrf request.pruned_at request.issued_at
            request.checked_at)
          _ s3 k3 in
      let same_a : a ≡ consumed = ground (arith, last) in
      let same_r : r ≡ rotated = ground (arith, last) in
      let same_s : s4 ≡ entries' = ground (arith, last) in
      (
        token,
        s2,
        is_token,
        (λ i. consume hash_text token request.csrf request.consumed_at (same1 i))
            ∙ (used ∙ (λ i. (ok (same_a i), s2))),
        (λ i.
              issue hash_text ttl_ms (sym same_a i).user_key
                (record {
                  scopes = (sym same_a i).scopes;
                  client_id = (sym same_a i).client_id;
                  oauth_expires_at_seconds = some ((sym same_a i).expires_at_ms / 1000);
                })
                request.next_token request.next_csrf request.pruned_at request.issued_at
                request.checked_at (same2 i))
            ∙ (issued ∙ (λ i. (ok (same_r i), same_s i))),
      )

  -- A request that is authorised has shown a token that was stored, unexpired; the next token is then
  -- stored for the same user, and, if the shown one ends no earlier than a second after 1970, does not
  -- outlive it, however long a new session would live.
  pub authorize_settings-rotated :
      (token : String) × (shown : Entry StoredSession) × (next : Entry StoredSession)
      × (settings_token request.authorization ≡ some token)
      × (find (has_key (hash_text token)) entries ≡ some shown)
      × (request.consumed_at < shown.value.expires_at_ms)
      × (find (has_key (hash_text rotated.token)) entries' ≡ some next)
      × (next.value.user_key ≡ shown.value.user_key)
      × (1000 ≤ shown.value.expires_at_ms → next.value.expires_at_ms ≤ shown.value.expires_at_ms)
  authorize_settings-rotated =
      let (token, left, is_token, used, issued) = parts in
      let (shown, found, fresh, _, user, _, expiry) =
        consume-stored hash_text entries left token request.csrf request.consumed_at consumed
          used in
      let (named, ends) =
        issue-expiry hash_text ttl_ms consumed.user_key next_context request.next_token
          request.next_csrf request.pruned_at request.issued_at request.checked_at left entries'
          rotated issued in
      let kept =
        issue-find hash_text ttl_ms consumed.user_key next_context request.next_token
          request.next_csrf request.pruned_at request.issued_at request.checked_at left entries'
          rotated issued in
      (
        token,
        shown,
        _,
        is_token,
        found,
        fresh,
        ap (λ t. find (has_key (hash_text t)) entries') named ∙ kept,
        sym user,
        λ late. ground (
          arith,
          ends,
          expiry,
          late,
          earlier-le (request.issued_at + ttl_ms) shown.value.expires_at_ms late,
        ),
      )
