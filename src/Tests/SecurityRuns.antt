-- ===== src/Tests/SecurityRuns.antt =====
-- Runs of the sessions, the rate limiter and the semaphore.
use mailbridge_mcp.Common.{
  ◌≡◌, ◌≢◌, ◌≤◌, ◌⊎◌, refl, inl, String, some, none, [], ◌∷◌, List, arith, find, any, update_where,
  delete_where, length, ok, err,
}
use mailbridge_mcp.Common.Maps.{Entry, put}
use mailbridge_mcp.Common.Text.{unique, utf16_length}
use mailbridge_mcp.Domain.Errors.{plain}
use mailbridge_mcp.Security.SettingsSessions.{
  StoredSession, Authorization, IssuedSettingsSession, SettingsSessionContext, prune, is_malformed,
  issue, consume, revoke_user,
}
use mailbridge_mcp.Security.SettingsSessions.OneTime.{
  consume-once, issue-consume, revoke_user-consume,
}
use mailbridge_mcp.Admin.Sessions.{create, get, destroy}
use mailbridge_mcp.Admin.Sessions.Sliding.{create-get, destroy-get}
use mailbridge_mcp.Security.RateLimit.{set, limit, admitted}
use mailbridge_mcp.Security.RateLimit.Window.{window-le}
use mailbridge_mcp.Security.Semaphore.{acquire, release, leave}
use mailbridge_mcp.Security.Semaphore.Bound.{
  fresh, start, next, acquires, releases, History-IsBounded,
}

security_code : Unit {0}
unfolding create get destroy find any update_where delete_where unique utf16_length put prune
    is_malformed issue consume revoke_user set limit admitted acquire release leave
security_code = tt

-- A digest for the runs: the text itself.
abbrev digest : String → String
digest s = s

abbrev context : SettingsSessionContext
context = record {
  scopes = "mail.settings.write" ∷ [];
  client_id = "c";
  oauth_expires_at_seconds = none;
}

abbrev issued : IssuedSettingsSession
issued = record { token = "t"; csrf = "x"; expires_at = 110 }

abbrev entries : List (Entry StoredSession)
entries = (issue digest 100 "u" context "t" "x" 10 10 10 []).1

issues : issue digest 100 "u" context "t" "x" 10 10 10 [] ≡ (ok issued, entries)
unfolding security_code
issues = refl

issue-consume_example : consume digest "t" "x" 50 entries ≡ (
  ok (record {
    user_key = "u";
    scopes = "mail.settings.write" ∷ [];
    client_id = "c";
    expires_at_ms = 110;
  }),
  [],
)
unfolding security_code
issue-consume_example =
    issue-consume digest 100 "u" context "t" "x" 10 10 10 [] entries issued issues 50 refl
      (omega arith)

consume-once_example :
    (consume digest "t" "x" 60 (consume digest "t" "x" 50 entries).1).0
    ≡ err (plain "Settings authorization expired or already used")
unfolding security_code
consume-once_example = consume-once digest entries "t" "x" 50 "x" 60 refl refl

abbrev other : Authorization
other = record {
  user_key = "u";
  scopes = "mail.settings.write" ∷ [];
  client_id = "c";
  expires_at_ms = 110;
}

others : consume digest "t" "x" 50 (revoke_user "v" entries).1 ≡ (ok other, [])
unfolding security_code
others = refl

revoke_user-consume_example : other.user_key ≢ "v"
revoke_user-consume_example = revoke_user-consume digest "v" entries [] "t" "x" 50 other others

window-le_example : (admitted 100 2 "a" (10 ∷ 20 ∷ 30 ∷ []) []).0 ≤ 2
unfolding security_code
window-le_example =
    window-le 100 2 "a" 10 (20 ∷ 30 ∷ []) [] (inl refl) (omega arith, (omega arith, tt))

History-IsBounded_example :
    (length (release "a" (acquire "b" (acquire "a" (fresh 1)))).running ≤ 1)
    × (((release "a" (acquire "b" (acquire "a" (fresh 1)))).queue ≡ [])
        ⊎ (length (release "a" (acquire "b" (acquire "a" (fresh 1)))).running ≡ 1))
unfolding security_code
History-IsBounded_example = History-IsBounded 1 (
    next (next (next start (acquires "a" (fresh 1))) (acquires "b" (acquire "a" (fresh 1))))
      (releases "a" (acquire "b" (acquire "a" (fresh 1))) refl))

create-get_example :
    (get digest "op" 100
      (some "i")
      80
      81
      (get digest "op" 100 (some "i") 50 51 (create digest "op" 100 "i" "x" 10 []).1).1).0
    ≡ some (record { actor = "op"; csrf = "x"; expires_at = 181 })
unfolding security_code
create-get_example = create-get digest "op" 100 "i" refl "x" 10 50 51 80 81 [] (omega arith)

destroy-get_example :
    (get digest "op" 100
      (some "i")
      20
      20
      (destroy digest "op" 100 (some "i") (create digest "op" 100 "i" "x" 10 []).1)).0
    ≡ none
destroy-get_example =
    destroy-get digest "op" 100 "i" refl 20 20 (create digest "op" 100 "i" "x" 10 []).1
