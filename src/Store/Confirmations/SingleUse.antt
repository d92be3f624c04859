-- ===== src/Store/Confirmations/SingleUse.antt =====
-- What it takes to consume a confirmation, and what is left of it.
use mailbridge_mcp.Common.{
  ℕ, ◌<◌, ◌≡◌, String, true, false, none, some, arith, str_eq, leb, eq_iff, find, ok, Option-cases,
  inl, inr,
}
use mailbridge_mcp.Store.Rows.{Db, ConfirmationRow, is_confirmation}
use mailbridge_mcp.Store.Confirmations.{is_used, is_stale, consume_send_confirmation}

-- The confirmation that a successful call has found.
pub record IsGood (db : Db) (user id draft_id : String) (version : ℕ) (hash : String)
    (policy now : ℕ) (c : ConfirmationRow) : Type 0 where
  pub found : find (is_confirmation user id) db.confirmations ≡ some c
  pub same_draft : c.draft_id ≡ draft_id
  pub unused : c.used_at ≡ none
  pub unexpired : now < c.expires_at
  pub same_version : c.draft_version ≡ version
  pub same_payload : c.payload_hash ≡ hash
  pub same_policy : c.policy_version ≡ policy

-- The tests that a successful call has passed.
consume-tests :
    (db db' : Db) (user id draft_id : String) (version : ℕ) (hash : String) (policy now : ℕ)
    (c : ConfirmationRow)
    → find (is_confirmation user id) db.confirmations ≡ some c
    → consume_send_confirmation user id draft_id version hash policy now db ≡ (ok tt, db')
    → (str_eq c.draft_id draft_id ≡ true)
      × (is_used c.used_at ≡ false)
      × (leb c.expires_at now ≡ false)
      × (is_stale c version hash policy ≡ false)
unfolding consume_send_confirmation
consume-tests db db' user id draft_id version hash policy now c found h = ground arith

tests-IsGood :
    (db : Db) (user id draft_id : String) (version : ℕ) (hash : String) (policy now : ℕ)
    (c : ConfirmationRow)
    → find (is_confirmation user id) db.confirmations ≡ some c
    → (str_eq c.draft_id draft_id ≡ true)
      × (is_used c.used_at ≡ false)
      × (leb c.expires_at now ≡ false)
      × (is_stale c version hash policy ≡ false)
    → IsGood db user id draft_id version hash policy now c
tests-IsGood db user id draft_id version hash policy now c found h =
    ground (arith, eq_iff c.draft_id draft_id, eq_iff c.payload_hash hash)

consume-missing :
    (db db' : Db) (user id draft_id : String) (version : ℕ) (hash : String) (policy now : ℕ)
    → find (is_confirmation user id) db.confirmations ≡ none
    → consume_send_confirmation user id draft_id version hash policy now db ≡ (ok tt, db')
    → ⊥
unfolding consume_send_confirmation
consume-missing db db' user id draft_id version hash policy now missing h = ground arith

-- A call that returns has found a confirmation of the user that is for this draft, its version, the
-- hash of its payload and the version of the policy, neither used nor expired.
pub consume-found :
    (db db' : Db) (user id draft_id : String) (version : ℕ) (hash : String) (policy now : ℕ)
    → consume_send_confirmation user id draft_id version hash policy now db ≡ (ok tt, db')
    → (c : ConfirmationRow) × IsGood db user id draft_id version hash policy now c
consume-found db db' user id draft_id version hash policy now h =
    elim (Option-cases (find (is_confirmation user id) db.confirmations)) [
      | inl missing ↦
          absurd (consume-missing db db' user id draft_id version hash policy now missing h)
      | inr (c, found) ↦ (
        c,
        tests-IsGood db user id draft_id version hash policy now c found
            (consume-tests db db' user id draft_id version hash policy now c found h),
      )
    ]
