-- ===== src/Admin/Sessions/Sliding.antt =====
-- src/admin/auth.ts: how long a session lives.
use mailbridge_mcp.Common.{
  ℕ, ◌+◌, ◌<◌, ◌≡◌, refl, String, false, none, some, List, arith, eq_iff, leb, find,
  find-update_where, find-delete_where-none, if◌then◌else◌,
}
use mailbridge_mcp.Common.Maps.{Entry, has_key, put, find-put}
use mailbridge_mcp.Common.Text.{is_empty}
use mailbridge_mcp.Admin.Sessions.{Session, create, get, destroy}

module _ (digest : String → String) (operator : String) (timeout : ℕ) (id : String)
    (named : is_empty id ≡ false) where
  -- The session of an identifier that is not empty, at a time when it is used: it is extended
  -- before its end, and is over from then on.
  get-found :
      (s : Session) (now after : ℕ) (sessions : List (Entry Session))
      → find (has_key (digest id)) sessions ≡ some (record { key = digest id; value = s })
      → (get digest operator timeout (some id) now after sessions).0
        ≡ (if leb s.expires_at now then none else some (record s { expires_at = after + timeout }))
  unfolding get
  get-found s now after sessions found = ground (arith, found)

  get-next :
      (s : Session) (now after : ℕ) (sessions : List (Entry Session))
      → find (has_key (digest id)) sessions ≡ some (record { key = digest id; value = s })
      → now < s.expires_at
      → find (has_key (digest id)) (get digest operator timeout (some id) now after sessions).1
        ≡ some (record { key = digest id; value = record s { expires_at = after + timeout } })
  unfolding get
  get-next s now after sessions found fresh = ground (
    arith,
    found,
    eq_iff (digest id) (digest id),
    find-update_where (has_key (digest id)) (has_key (digest id))
        (λ (e : Entry Session). record e { value = record s { expires_at = after + timeout } })
        sessions (λ e. refl),
  )

  -- A new session that is used before its end lives for the timeout from that use: a second use gets
  -- it, extended, if it comes before the end that the first has set, and nothing otherwise. The two
  -- clock readings of a use may differ. The
  -- identifier is not empty.
  pub create-get :
      (csrf : String) (at now after later last : ℕ) (sessions : List (Entry Session))
      → now < at + timeout
      → let created = (create digest operator timeout id csrf at sessions).1 in
        (get digest operator timeout
          (some id)
          later
          last
          (get digest operator timeout (some id) now after created).1).0
        ≡ (if leb (after + timeout) later
            then none
            else some (record { actor = operator; csrf = csrf; expires_at = last + timeout }))
  unfolding create
  create-get csrf at now after later last sessions fresh =
      let made : Session = record { actor = operator; csrf = csrf; expires_at = at + timeout } in
      let kept : Session = record { actor = operator; csrf = csrf; expires_at = after + timeout } in
      let created = put (digest id) made sessions in
      get-found kept later last (get digest operator timeout (some id) now after created).1
        (get-next made now after created (find-put (digest id) made sessions) fresh)

  -- Right after a session is destroyed nothing is got for its identifier, which is not empty.
  pub destroy-get :
      (now after : ℕ) (sessions : List (Entry Session))
      → (get digest operator timeout
          (some id)
          now
          after
          (destroy digest operator timeout (some id) sessions)).0
        ≡ none
  unfolding get destroy
  destroy-get now after sessions = ground (
    arith,
    find-delete_where-none (has_key (digest id)) (has_key (digest id)) sessions (λ e h. h),
  )
