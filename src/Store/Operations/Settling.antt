-- ===== src/Store/Operations/Settling.antt =====
-- What settling an operation does to the operations of the database.
use mailbridge_mcp.Common.{
  find-holds, ok, ℕ, ◌≡◌, refl, String, Option, none, some, List, arith, find, find-update_where,
  update_where, length,
}
use mailbridge_mcp.Store.Operations.{SendOperationView, outcome, is_active}
use mathlib.Core.Option
use mailbridge_mcp.Domain.Types.{SendOperationState, SendReceipt}
use mailbridge_mcp.Domain.Errors.{Code}
use mailbridge_mcp.Store.Rows.{Db, SendOperationRow, is_operation}
use mailbridge_mcp.Store.Cipher.{Cipher}
use mailbridge_mcp.Store.Operations.Completion.{
  complete_send_operation, mark_send_operation_unknown, record_outcome, record_unknown,
}

-- How many operations of a key there are to find: 0 or 1.
abbrev pub taken : Option SendOperationRow → ℕ
taken none = 0
taken (some _) = 1

abbrev pub claims : String → String → Db → ℕ
claims user key db = taken (find (is_operation user key) db.operations)

taken-map :
    (f : SendOperationRow → SendOperationRow) (o : Option SendOperationRow)
    → taken (Option.map f o) ≡ taken o
taken-map f none = refl
taken-map f (some r) = refl

module _ (u k : String) (user key : String) (f : SendOperationRow → SendOperationRow)
    (keeps : (r : SendOperationRow) → is_operation u k (f r) ≡ is_operation u k r)
    (ops : List SendOperationRow) where
  taken-update :
      taken (find (is_operation u k) (update_where (is_active user key) f ops))
      ≡ taken (find (is_operation u k) ops)
  taken-update =
      rw (find-update_where (is_operation u k) (is_active user key) f ops keeps) (taken-map _ _)

module _ (u k : String) (cipher : Cipher) (db : Db) (user key : String) (receipt : SendReceipt)
    (recipients external : ℕ) where
  record_outcome-claims :
      claims u k (record_outcome cipher user key receipt recipients external db).1 ≡ claims u k db
  unfolding record_outcome
  record_outcome-claims = ground (
    arith,
    taken-update u k user key
        (λ (o : SendOperationRow). record o {
          state = outcome receipt;
          accepted_count = length receipt.accepted;
          rejected_count = length receipt.rejected;
          updated_at = receipt.sent_at;
        })
        (λ r. refl) db.operations,
  )

  pub complete-claims :
      claims u k (complete_send_operation cipher user key receipt recipients external db).1
      ≡ claims u k db
  unfolding complete_send_operation
  complete-claims = ground (arith, record_outcome-claims)

module _ (u k : String) (db : Db) (user key : String) (code : Code)
    (recipients external now : ℕ) where
  record_unknown-claims :
      claims u k (record_unknown user key code recipients external now db).1 ≡ claims u k db
  unfolding record_unknown
  record_unknown-claims = ground (
    arith,
    taken-update u k user key
        (λ (o : SendOperationRow). record o {
          state = SendOperationState.unknown;
          error_code = some code;
          updated_at = now;
        })
        (λ r. refl) db.operations,
  )

  pub unknown-claims :
      claims u k (mark_send_operation_unknown user key code recipients external now db).1
      ≡ claims u k db
  unfolding mark_send_operation_unknown
  unknown-claims = ground (arith, record_unknown-claims)

module _ (cipher : Cipher) (db : Db) (user key : String) (receipt : SendReceipt)
    (recipients external : ℕ) (row : SendOperationRow)
    (found : find (is_operation user key) db.operations ≡ some row) where
  module _ (db' : Db) (view : SendOperationView)
      (h : complete_send_operation cipher user key receipt recipients external db
        ≡ (ok view, db')) where
    -- The operation as it is completed.
    abbrev pub completed : SendOperationRow
    completed = record row {
      state = outcome receipt;
      accepted_count = length receipt.accepted;
      rejected_count = length receipt.rejected;
      updated_at = receipt.sent_at;
    }

    pub complete-operation : find (is_operation user key) db'.operations ≡ some completed
    unfolding complete_send_operation record_outcome
    complete-operation = ground (
      arith,
      find-update_where (is_operation user key) (is_active user key)
          (λ (o : SendOperationRow). record o {
            state = outcome receipt;
            accepted_count = length receipt.accepted;
            rejected_count = length receipt.rejected;
            updated_at = receipt.sent_at;
          })
          db.operations (λ r. refl),
      find-holds (is_operation user key) db.operations row found,
    )
