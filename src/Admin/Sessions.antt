-- ===== src/Admin/Sessions.antt =====
-- src/admin/auth.ts: the sessions of AdminSessions. A session is an object that `get` changes in
-- place, so what it hands back is what is stored. Passwords and cookies are not modelled here.
pub mod Sliding
use mailbridge_mcp.Common.{
  ℕ, ◌+◌, String, Bool, Option, none, some, List, leb, find, any, update_where, delete_where,
  if◌then◌else◌,
}
use mailbridge_mcp.Common.Maps.{Entry, has_key, put}
use mailbridge_mcp.Common.Text.{is_empty}

pub record Session : Type 0 where
  pub actor : String
  pub csrf : String
  pub expires_at : ℕ

-- `digest` is the HMAC of an identifier under the key of the panel.
module _ (digest : String → String) (operator_username : String) (timeout_ms : ℕ) where
  -- `id` and `csrf` are the random strings.
  unfoldable pub create :
      String → String → ℕ → List (Entry Session) → Session × List (Entry Session)
  unfolding put
  create id csrf now sessions =
      let session : Session = record {
        actor = operator_username;
        csrf = csrf;
        expires_at = now + timeout_ms;
      } in
      (session, put (digest id) session sessions)

  -- A session that is found is extended, or deleted when it is over: the clock is read at `now` for
  -- the test and at `after` for the extension.
  abbrev pub touch :
      String
      → ℕ
      → ℕ
      → List (Entry Session)
      → Option (Entry Session)
      → Option Session × List (Entry Session)
  touch key now after sessions none = (none, sessions)
  touch key now after sessions (some entry) =
      let session = entry.value in
      let extended : Session = record session { expires_at = after + timeout_ms } in
      if leb session.expires_at now
      then (none, delete_where (has_key key) sessions)
      else (some extended, update_where (has_key key) (λ e. record e { value = extended }) sessions)

  unfoldable pub get :
      Option String → ℕ → ℕ → List (Entry Session) → Option Session × List (Entry Session)
  unfolding find delete_where update_where
  get none now after sessions = (none, sessions)
  get (some id) now after sessions =
      if is_empty id
      then (none, sessions)
      else touch (digest id) now after sessions (find (has_key (digest id)) sessions)

  unfoldable pub destroy : Option String → List (Entry Session) → List (Entry Session)
  unfolding delete_where
  destroy none sessions = sessions
  destroy (some id) sessions =
      if is_empty id then sessions else delete_where (has_key (digest id)) sessions
