-- ===== src/Store/Operations/Doubt.antt =====
-- src/app/store.ts: what can still be done with an operation whose outcome is unknown.
use mailbridge_mcp.Common.{
  ℕ, ◌≡◌, refl, String, none, some, [], ◌∷◌, arith, str_eq, eq_iff, find, find-append,
  find-update_where, err, ok, if◌then◌else◌,
}
use mailbridge_mcp.Domain.Types.{SendPolicyView, SendOperationState, SendReceipt}
use mailbridge_mcp.Domain.Errors.{
  Code, coded, idempotency_conflict, send_status_unknown, send_operation_state_conflict,
}
use mailbridge_mcp.Store.Rows.{Db, SendOperationRow, is_operation}
use mailbridge_mcp.Store.Cipher.{Cipher}
use mailbridge_mcp.Store.Operations.{
  Reservation, reserve_send_operation, is_active, resume_operation,
}
use mailbridge_mcp.Store.Operations.Completion.{
  complete_send_operation, mark_send_operation_unknown, record_outcome, record_unknown,
}
use mailbridge_mcp.Store.Operations.Reserving.{new_operation, reserve-operations}

module _ (cipher : Cipher) (db : Db) (user key mailbox hash : String) (policy : SendPolicyView)
    (recipients external : ℕ) (id : String) (at now : ℕ)
    (free : find (is_operation user key) db.operations ≡ none) (r : Reservation) (db' : Db)
    (h : reserve_send_operation cipher user key mailbox hash policy recipients external id at now db
      ≡ (ok r, db')) where
  reserve-found :
      find (is_operation user key) db'.operations
      ≡ some (new_operation user key mailbox hash id now)
  unfolding find
  reserve-found = ground (
    arith,
    free,
    eq_iff user user,
    eq_iff key key,
    reserve-operations cipher db user key mailbox hash policy recipients external id at now free r
        db' h,
    find-append (is_operation user key) db.operations
        (new_operation user key mailbox hash id now ∷ []),
  )

  module _ (code : Code) (rs es later : ℕ) where
    -- The database after the operation was marked.
    abbrev pub marked : Db
    marked = (mark_send_operation_unknown user key code rs es later db').1

    -- The operation as it is marked.
    abbrev in_doubt : SendOperationRow
    in_doubt =
        let fresh = new_operation user key mailbox hash id now in
        record fresh {
          state = SendOperationState.unknown;
          error_code = some code;
          updated_at = later;
        }

    marked-found : find (is_operation user key) marked.operations ≡ some in_doubt
    unfolding mark_send_operation_unknown record_unknown
    marked-found = ground (
      arith,
      reserve-found,
      eq_iff user user,
      eq_iff key key,
      find-update_where (is_operation user key) (is_active user key)
          (λ (o : SendOperationRow). record o {
            state = SendOperationState.unknown;
            error_code = some code;
            updated_at = later;
          })
          db'.operations (λ x. refl),
    )

    -- Right after a new key is reserved and its operation is marked as unknown, whether that call
    -- returns or throws, a reservation of the key is refused, with the same content as of unknown
    -- status and with other content as a conflict, a completion is refused as well, and neither
    -- changes anything.
    pub unknown-reserve :
        (m g : String) (p : SendPolicyView) (a b : ℕ) (i : String) (s t : ℕ) (receipt : SendReceipt)
        → (reserve_send_operation cipher user key m g p a b i s t marked ≡ (
          err (coded (if str_eq hash g then send_status_unknown else idempotency_conflict)),
          marked,
        ))
          × (complete_send_operation cipher user key receipt a b marked
              ≡ (err (coded send_operation_state_conflict), marked))
    unfolding reserve_send_operation resume_operation complete_send_operation record_outcome
    unknown-reserve m g p a b i s t receipt =
        (ground (arith, marked-found), ground (arith, marked-found))
