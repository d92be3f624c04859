-- ===== src/Store/Operations/Replay.antt =====
-- src/app/store.ts: reserving the key of an operation that has been completed.
use mailbridge_mcp.Store.Operations.{
  parse_send_receipt, to_send_operation_view, sealed, resume_operation, is_receipt,
  reserve_send_operation, SendOperationView, is_operation, SendOperationRow, is_completed,
  SendReceipt, Db, outcome, get_send_receipt,
}
use mailbridge_mcp.Common.{
  find-append, eq_iff, ok, some, arith, none, false, true, ℕ, List, ◌≡◌, String, Bool, find, any,
  ◌∷◌, ◌++◌, [],
}
use mailbridge_mcp.Store.Operations.Completion.{record_outcome, complete_send_operation}
use mailbridge_mcp.Store.Rows.{ReceiptRow}
use mailbridge_mcp.Store.Cipher.{Cipher}
use mailbridge_mcp.Domain.Types.{SendPolicyView}
use mailbridge_mcp.Store.Operations.Settling.{complete-operation, completed}

outcome-completed : (receipt : SendReceipt) → is_completed (outcome receipt) ≡ true
unfolding outcome
outcome-completed receipt = ground arith

any-false-find {ℓ} : {A : Type ℓ} (p : A → Bool) (xs : List A) → any p xs ≡ false → find p xs ≡ none
unfolding any find
any-false-find p [] h = ground arith
any-false-find p (x ∷ xs) h = ground (arith, any-false-find p xs)

module _ (cipher : Cipher) (db db' : Db) (user key : String) (receipt : SendReceipt)
    (recipients external : ℕ) (row : SendOperationRow)
    (found : find (is_operation user key) db.operations ≡ some row) (view : SendOperationView)
    (h : complete_send_operation cipher user key receipt recipients external db
      ≡ (ok view, db')) where
  abbrev new_receipt : ReceiptRow
  new_receipt = record {
    user_key = user;
    idempotency_key = key;
    payload_hash = row.payload_hash;
    receipt_json = sealed (cipher.encrypt_receipt user key receipt);
    created_at = receipt.sent_at;
  }

  complete-receipts :
      (db'.receipts ≡ db.receipts ++ new_receipt ∷ [])
      × (any (is_receipt user key) db.receipts ≡ false)
  unfolding complete_send_operation record_outcome
  complete-receipts = (ground arith, ground arith)

  is-new : is_receipt user key new_receipt ≡ true
  is-new = ground (arith, eq_iff user user, eq_iff key key)

  complete-receipt : find (is_receipt user key) db'.receipts ≡ some new_receipt
  unfolding find
  complete-receipt = ground (
    arith,
    complete-receipts,
    is-new,
    find-append (is_receipt user key) db.receipts (new_receipt ∷ []),
    any-false-find (is_receipt user key) db.receipts,
  )

  -- After an operation is completed, a reservation of its key for the same content is answered with
  -- the operation and the stored receipt and changes nothing, if the cipher opens the receipt that
  -- it has sealed.
  pub reserve_complete :
      (mailbox : String) (policy : SendPolicyView) (rs es : ℕ) (id : String) (at now : ℕ)
      → cipher.decrypt_receipt user key (cipher.encrypt_receipt user key receipt) ≡ ok receipt
      → reserve_send_operation cipher user key mailbox row.payload_hash policy rs es id at now db'
        ≡ (
          ok (record {
            operation =
                to_send_operation_view
                  (completed cipher db user key receipt recipients external row found db' view h);
            replayed = true;
            receipt = some (parse_send_receipt receipt);
          }),
          db',
        )
  unfolding reserve_send_operation resume_operation get_send_receipt
  reserve_complete mailbox policy rs es id at now opens = ground (
    arith,
    complete-receipt,
    complete-operation cipher db user key receipt recipients external row found db' view h,
    outcome-completed receipt,
    opens,
    eq_iff row.payload_hash row.payload_hash,
  )
