-- ===== src/Store/Operations.antt =====
-- src/app/store.ts: reserveSendOperation to getSendReceipt.
pub mod Completion
pub mod Reserving
pub mod Settling
pub mod Doubt
pub mod Replay
use mailbridge_mcp.Common.{
  ℕ, String, Bool, true, false, not, ◌&&◌, Option, none, some, [], ◌∷◌, ◌++◌, str_eq, ltb, leb,
  ◌==◌, find, update_where, length, if◌then◌else◌, Result, ok, Exec, pure, throw, throw_if, lift,
  gets, modify, or_throw, transaction, ◌>>=◌, ◌>>◌,
}
use mailbridge_mcp.Domain.Errors.{
  Code, coded, idempotency_conflict, send_receipt_missing, send_already_submitting,
  send_status_unknown, hourly_send_limit_exceeded, daily_send_limit_exceeded,
  send_operation_missing, send_operation_state_conflict, send_operation_not_found, other_code,
}
use mailbridge_mcp.Domain.Types.{
  SendOperationState, submitting, smtp_accepted, partial_rejected, rejected, SendReceipt,
  SentCopyResult, SentCopyState, SendPolicyView,
}
use mailbridge_mcp.Store.Rows.{
  Db, SendOperationRow, StoredReceipt, sealed, bare, is_operation, is_receipt, has_operation_id,
  insert_row, audit, send_audit,
}
use mailbridge_mcp.Store.Cipher.{Cipher}
use mailbridge_mcp.Store.Policies.{send_usage}

pub record SendOperationView : Type 0 where
  pub operation_id : String
  pub mailbox_id : String
  pub state : SendOperationState
  pub accepted_count : ℕ
  pub rejected_count : ℕ
  pub created_at : ℕ
  pub updated_at : ℕ
  pub error_code : Option Code

abbrev pub to_send_operation_view : SendOperationRow → SendOperationView
to_send_operation_view row = record {
  operation_id = row.operation_id;
  mailbox_id = row.mailbox_id;
  state = row.state;
  accepted_count = row.accepted_count;
  rejected_count = row.rejected_count;
  created_at = row.created_at;
  updated_at = row.updated_at;
  error_code = row.error_code;
}

-- The states of an operation whose outcome is known.
abbrev pub is_completed : SendOperationState → Bool
is_completed smtp_accepted = true
is_completed partial_rejected = true
is_completed rejected = true
is_completed submitting = false
is_completed SendOperationState.unknown = false

abbrev pub is_submitting : SendOperationState → Bool
is_submitting submitting = true
is_submitting smtp_accepted = false
is_submitting partial_rejected = false
is_submitting rejected = false
is_submitting SendOperationState.unknown = false

abbrev pub Receipt : Type 0
Receipt = record { payload_hash : String; receipt : SendReceipt }

-- The part of parseSendReceipt that changes a value: a receipt from before copies were tracked.
abbrev pub tracked : Option SentCopyResult → Option SentCopyResult
tracked (some copy) = some copy
tracked none = some (record {
  state = SentCopyState.legacy_untracked;
  folder = none;
  attempts = 0;
  error_code = none;
})

abbrev pub parse_send_receipt : SendReceipt → SendReceipt
parse_send_receipt receipt = record receipt { sent_copy = tracked receipt.sent_copy }

pub record Reservation : Type 0 where
  pub operation : SendOperationView
  pub replayed : Bool
  pub receipt : Option SendReceipt

-- The state that completeSendOperation records.
unfoldable pub outcome : SendReceipt → SendOperationState
outcome receipt =
    if length receipt.accepted == 0
    then rejected
    else if ltb 0 (length receipt.rejected)
    then partial_rejected
    else smtp_accepted

abbrev pub is_rejected : SendOperationState → Bool
is_rejected rejected = true
is_rejected submitting = false
is_rejected smtp_accepted = false
is_rejected partial_rejected = false
is_rejected SendOperationState.unknown = false

-- WHERE user_key = ? AND idempotency_key = ? AND state = 'submitting'
abbrev pub is_active : String → String → SendOperationRow → Bool
is_active user key row = is_operation user key row && is_submitting row.state

-- SELECT * FROM send_operations WHERE user_key = ? AND idempotency_key = ?
unfoldable pub operation_by_key : String → String → Exec Db (Option SendOperationRow)
operation_by_key user key = gets (λ db. find (is_operation user key) db.operations)

unfoldable pub get_send_operation : String → String → Exec Db SendOperationView
get_send_operation user operation = do
  found ← gets (λ db. find (has_operation_id user operation) db.operations)
  row ← or_throw found (coded send_operation_not_found)
  pure (to_send_operation_view row)

unfoldable pub get_send_operation_by_key : String → String → Exec Db (Option SendOperationView)
unfolding operation_by_key
get_send_operation_by_key user key = do
  found ← operation_by_key user key
  elim found [ none ↦ pure none | some row ↦ pure (some (to_send_operation_view row)) ]

-- #operationId
unfoldable pub operation_id_of : String → String → Exec Db String
unfolding operation_by_key
operation_id_of user key = do
  found ← operation_by_key user key
  row ← or_throw found (coded send_operation_missing)
  pure row.operation_id

module _ (cipher : Cipher) where
  abbrev pub open_receipt : String → String → StoredReceipt → Result SendReceipt
  open_receipt user key (sealed envelope) = cipher.decrypt_receipt user key envelope
  open_receipt user key (bare receipt) = ok receipt

  unfoldable pub get_send_receipt : String → String → Exec Db (Option Receipt)
  get_send_receipt user key = do
    found ← gets (λ db. find (is_receipt user key) db.receipts)
    elim found [
      | none ↦ pure none
      | some row ↦ do
        receipt ← lift (open_receipt user key row.receipt_json)
        pure (
            some (record { payload_hash = row.payload_hash; receipt = parse_send_receipt receipt }))
    ]

  -- The branch of reserveSendOperation for a key that is taken.
  unfoldable pub resume_operation :
      String → String → String → SendOperationRow → Exec Db Reservation
  unfolding get_send_receipt
  resume_operation user key payload_hash existing = do
    throw_if (not (str_eq existing.payload_hash payload_hash)) (coded idempotency_conflict)
    elim (is_completed existing.state) [
      | true ↦ do
        found ← get_send_receipt user key
        prior ← or_throw found (coded send_receipt_missing)
        pure (record {
          operation = to_send_operation_view existing;
          replayed = true;
          receipt = some prior.receipt;
        })
      | false ↦ throw (
          coded
            (if is_submitting existing.state then send_already_submitting else send_status_unknown))
    ]

  -- The branch for a new key: the limits, the operation, and the event that they count.
  unfoldable pub start_operation :
      String
      → String
      → String
      → String
      → SendPolicyView
      → ℕ
      → ℕ
      → String
      → ℕ
      → ℕ
      → Exec Db Reservation
  unfolding send_usage insert_row send_audit
  start_operation user key mailbox payload_hash policy recipients external id at now = do
    usage ← gets (send_usage user mailbox at)
    throw_if (leb policy.max_per_hour usage.last_hour) (coded hourly_send_limit_exceeded)
    throw_if (leb policy.max_per_day usage.last_day) (coded daily_send_limit_exceeded)
    operations ← gets (λ db. db.operations)
    operations' ← lift (
        insert_row (has_operation_id user id)
          (record {
            operation_id = id;
            user_key = user;
            idempotency_key = key;
            mailbox_id = mailbox;
            payload_hash = payload_hash;
            state = submitting;
            accepted_count = 0;
            rejected_count = 0;
            error_code = none;
            created_at = now;
            updated_at = now;
          })
          operations)
    modify (λ db. record db {
      operations = operations';
      rate_events =
          db.rate_events
          ++ record { operation_id = id; user_key = user; mailbox_id = mailbox; created_at = now }
            ∷ [];
    })
    send_audit user (some id) mailbox "SEND_SUBMITTING" true (some submitting) recipients external
        none now
    pure (record {
      operation = record {
        operation_id = id;
        mailbox_id = mailbox;
        state = submitting;
        accepted_count = 0;
        rejected_count = 0;
        created_at = now;
        updated_at = now;
        error_code = none;
      };
      replayed = false;
      receipt = none;
    })

  -- `at` is the time that sendUsage reads, `now` the time of the new rows.
  unfoldable pub reserve_send_operation :
      String
      → String
      → String
      → String
      → SendPolicyView
      → ℕ
      → ℕ
      → String
      → ℕ
      → ℕ
      → Exec Db Reservation
  unfolding transaction operation_by_key
  reserve_send_operation user key mailbox payload_hash policy recipients external id at now =
      transaction (do
        existing ← operation_by_key user key
        elim existing [
          | some row ↦ resume_operation user key payload_hash row
          | none ↦
              start_operation user key mailbox payload_hash policy recipients external id at now
        ])
