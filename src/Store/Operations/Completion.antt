-- ===== src/Store/Operations/Completion.antt =====
-- src/app/store.ts: completeSendOperation, recordSendReceipt and markSendOperationUnknown.
use mailbridge_mcp.Common.{
  ℕ, String, true, false, not, none, some, update_where, length, if◌then◌else◌, Exec, pure,
  throw_if, lift, gets, modify, or_throw, transaction, ◌>>=◌, ◌>>◌,
}
use mailbridge_mcp.Domain.Errors.{
  Code, coded, send_operation_missing, send_operation_state_conflict, other_code,
}
use mailbridge_mcp.Domain.Types.{SendOperationState, SendReceipt}
use mailbridge_mcp.Store.Rows.{Db, sealed, is_receipt, insert_row, audit, send_audit}
use mailbridge_mcp.Store.Cipher.{Cipher}
use mailbridge_mcp.Store.Operations.{
  SendOperationView, outcome, is_rejected, is_active, operation_by_key, operation_id_of,
  get_send_operation, is_submitting,
}

module _ (cipher : Cipher) where
  -- The transaction of completeSendOperation.
  unfoldable pub record_outcome : String → String → SendReceipt → ℕ → ℕ → Exec Db (Unit {0})
  unfolding operation_by_key insert_row send_audit
  record_outcome user key receipt recipients external = do
    let state = outcome receipt
    found ← operation_by_key user key
    row ← or_throw found (coded send_operation_missing)
    throw_if (not (is_submitting row.state)) (coded send_operation_state_conflict)
    modify (λ db. record db {
      operations =
          update_where (is_active user key)
            (λ o. record o {
              state = state;
              accepted_count = length receipt.accepted;
              rejected_count = length receipt.rejected;
              updated_at = receipt.sent_at;
            })
            db.operations;
    })
    receipts ← gets (λ db. db.receipts)
    receipts' ← lift (
        insert_row (is_receipt user key)
          (record {
            user_key = user;
            idempotency_key = key;
            payload_hash = row.payload_hash;
            receipt_json = sealed (cipher.encrypt_receipt user key receipt);
            created_at = receipt.sent_at;
          })
          receipts)
    modify (λ db. record db { receipts = receipts' })
    send_audit user (some row.operation_id) receipt.mailbox_id "MAIL_SENT" (not (is_rejected state))
        (some state) recipients external
        (if is_rejected state then some (other_code "SMTP_REJECTED") else none) receipt.sent_at

  unfoldable pub complete_send_operation :
      String → String → SendReceipt → ℕ → ℕ → Exec Db SendOperationView
  unfolding transaction operation_id_of get_send_operation
  complete_send_operation user key receipt recipients external = do
    transaction (record_outcome user key receipt recipients external)
    operation ← operation_id_of user key
    get_send_operation user operation

  unfoldable pub record_send_receipt : String → String → String → SendReceipt → Exec Db (Unit {0})
  unfolding insert_row audit
  record_send_receipt user key payload_hash receipt = do
    receipts ← gets (λ db. db.receipts)
    receipts' ← lift (
        insert_row (is_receipt user key)
          (record {
            user_key = user;
            idempotency_key = key;
            payload_hash = payload_hash;
            receipt_json = sealed (cipher.encrypt_receipt user key receipt);
            created_at = receipt.sent_at;
          })
          receipts)
    modify (λ db. record db { receipts = receipts' })
    audit user (some receipt.mailbox_id) "MAIL_SENT" true receipt.sent_at

-- The transaction of markSendOperationUnknown; it hands back the operation's identifier.
unfoldable pub record_unknown : String → String → Code → ℕ → ℕ → ℕ → Exec Db String
unfolding operation_by_key send_audit
record_unknown user key code recipients external now = do
  found ← operation_by_key user key
  row ← or_throw found (coded send_operation_missing)
  modify (λ db. record db {
    operations =
        update_where (is_active user key)
          (λ o. record o {
            state = SendOperationState.unknown;
            error_code = some code;
            updated_at = now;
          })
          db.operations;
  })
  send_audit user (some row.operation_id) row.mailbox_id "SEND_OUTCOME_UNKNOWN" false
      (some SendOperationState.unknown) recipients external (some code) now
  pure row.operation_id

-- An identifier that is the empty string would be read again by #operationId, with the same result.
unfoldable pub mark_send_operation_unknown :
    String → String → Code → ℕ → ℕ → ℕ → Exec Db SendOperationView
unfolding transaction record_unknown get_send_operation
mark_send_operation_unknown user key code recipients external now = do
  operation ← transaction (record_unknown user key code recipients external now)
  get_send_operation user operation
