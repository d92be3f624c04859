-- ===== src/Store/Rows.antt =====
-- src/app/store.ts: the rows of the tables that #migrate creates, the database, and the statements
-- that several methods share. A 0/1 column is a `Bool`; a JSON column holds the value itself.
use mailbridge_mcp.Common.{
  ℕ, suc, String, Bool, ◌&&◌, Option, List, [], ◌∷◌, ◌++◌, str_eq, any, if◌then◌else◌, Result, ok,
  err, Exec, modify,
}
use mailbridge_mcp.Domain.Errors.{Code, plain}
use mailbridge_mcp.Domain.Types.{
  MailboxSettings, ConnectionStatus, SendPolicyInput, StoredCredentialEnvelope, SendReceipt,
  DraftStatus, SendOperationState,
}

pub record UserRow : Type 0 where
  pub user_key : String
  pub created_at : ℕ
  pub updated_at : ℕ

pub record MailboxRow : Type 0 where
  pub mailbox_id : String
  pub user_key : String
  pub settings : MailboxSettings
  pub open settings use *
  pub encrypted_credentials : StoredCredentialEnvelope
  pub created_at : ℕ
  pub updated_at : ℕ
  pub last_health_status : ConnectionStatus
  pub last_successful_check : Option ℕ
  pub last_error_category : Option String

pub record AuditRow : Type 0 where
  pub id : ℕ
  pub user_key : String
  pub mailbox_id : Option String
  pub action : String
  pub pass : Bool
  pub at : ℕ

pub record DraftRow : Type 0 where
  pub draft_id : String
  pub user_key : String
  pub mailbox_id : String
  pub version : ℕ
  pub encrypted_payload : StoredCredentialEnvelope
  pub status : DraftStatus
  pub created_at : ℕ
  pub updated_at : ℕ
  pub sent_at : Option ℕ
  pub message_id : Option String

-- `receipt_json` is an envelope, or the bare receipt that early versions wrote.
pub data StoredReceipt : Type 0 where
  sealed : StoredCredentialEnvelope → StoredReceipt
  bare : SendReceipt → StoredReceipt

pub record ReceiptRow : Type 0 where
  pub user_key : String
  pub idempotency_key : String
  pub payload_hash : String
  pub receipt_json : StoredReceipt
  pub created_at : ℕ

pub record SendPolicyRow : Type 0 where
  pub user_key : String
  pub mailbox_id : String
  pub policy : SendPolicyInput
  pub policy_version : ℕ
  pub updated_at : ℕ

pub record ConfirmationRow : Type 0 where
  pub confirmation_id : String
  pub user_key : String
  pub draft_id : String
  pub draft_version : ℕ
  pub payload_hash : String
  pub policy_version : ℕ
  pub expires_at : ℕ
  pub used_at : Option ℕ
  pub created_at : ℕ

pub record SendOperationRow : Type 0 where
  pub operation_id : String
  pub user_key : String
  pub idempotency_key : String
  pub mailbox_id : String
  pub payload_hash : String
  pub state : SendOperationState
  pub accepted_count : ℕ
  pub rejected_count : ℕ
  pub error_code : Option Code
  pub created_at : ℕ
  pub updated_at : ℕ

pub record RateEventRow : Type 0 where
  pub operation_id : String
  pub user_key : String
  pub mailbox_id : String
  pub created_at : ℕ

pub record SendAuditRow : Type 0 where
  pub event_id : ℕ
  pub user_key : String
  pub operation_id : Option String
  pub mailbox_id : String
  pub action : String
  pub pass : Bool
  pub state : Option SendOperationState
  pub recipient_count : ℕ
  pub external_recipient_count : ℕ
  pub reason_code : Option Code
  pub at : ℕ

-- The two sequences are those of the AUTOINCREMENT columns: no identifier is given out twice.
pub record Db : Type 0 where
  pub users : List UserRow
  pub mailboxes : List MailboxRow
  pub audit_events : List AuditRow
  pub audit_sequence : ℕ
  pub drafts : List DraftRow
  pub receipts : List ReceiptRow
  pub policies : List SendPolicyRow
  pub confirmations : List ConfirmationRow
  pub operations : List SendOperationRow
  pub rate_events : List RateEventRow
  pub send_audit_events : List SendAuditRow
  pub send_audit_sequence : ℕ

abbrev pub empty_db : Db
empty_db = record {
  users = [];
  mailboxes = [];
  audit_events = [];
  audit_sequence = 0;
  drafts = [];
  receipts = [];
  policies = [];
  confirmations = [];
  operations = [];
  rate_events = [];
  send_audit_events = [];
  send_audit_sequence = 0;
}

-- WHERE user_key = ? AND mailbox_id = ?, and the like.
abbrev pub is_mailbox : String → String → MailboxRow → Bool
is_mailbox user mailbox row = str_eq row.user_key user && str_eq row.mailbox_id mailbox

abbrev pub is_draft : String → String → DraftRow → Bool
is_draft user draft row = str_eq row.user_key user && str_eq row.draft_id draft

abbrev pub is_receipt : String → String → ReceiptRow → Bool
is_receipt user key row = str_eq row.user_key user && str_eq row.idempotency_key key

abbrev pub is_policy : String → String → SendPolicyRow → Bool
is_policy user mailbox row = str_eq row.user_key user && str_eq row.mailbox_id mailbox

abbrev pub is_confirmation : String → String → ConfirmationRow → Bool
is_confirmation user confirmation row =
    str_eq row.user_key user && str_eq row.confirmation_id confirmation

abbrev pub of_draft : String → String → ConfirmationRow → Bool
of_draft user draft row = str_eq row.user_key user && str_eq row.draft_id draft

abbrev pub is_operation : String → String → SendOperationRow → Bool
is_operation user key row = str_eq row.user_key user && str_eq row.idempotency_key key

abbrev pub has_operation_id : String → String → SendOperationRow → Bool
has_operation_id user operation row = str_eq row.user_key user && str_eq row.operation_id operation

-- INSERT INTO a table whose PRIMARY KEY or UNIQUE columns are those of `same`.
unfoldable pub insert_row {ℓ} : {A : Type ℓ} → (A → Bool) → A → List A → Result (List A)
insert_row same row rows =
    if any same rows then err (plain "UNIQUE constraint failed") else ok (rows ++ row ∷ [])

-- #audit
unfoldable pub audit : String → Option String → String → Bool → ℕ → Exec Db (Unit {0})
audit user mailbox action pass at = modify λ db. record db {
  audit_events =
      db.audit_events
      ++ record {
        id = suc db.audit_sequence;
        user_key = user;
        mailbox_id = mailbox;
        action = action;
        pass = pass;
        at = at;
      }
        ∷ [];
  audit_sequence = suc db.audit_sequence;
}

-- #sendAudit
unfoldable pub send_audit :
    String
    → Option String
    → String
    → String
    → Bool
    → Option SendOperationState
    → ℕ
    → ℕ
    → Option Code
    → ℕ
    → Exec Db (Unit {0})
send_audit user operation mailbox action pass state recipients external reason at = modify λ db.
    record db {
      send_audit_events =
          db.send_audit_events
          ++ record {
            event_id = suc db.send_audit_sequence;
            user_key = user;
            operation_id = operation;
            mailbox_id = mailbox;
            action = action;
            pass = pass;
            state = state;
            recipient_count = recipients;
            external_recipient_count = external;
            reason_code = reason;
            at = at;
          }
            ∷ [];
      send_audit_sequence = suc db.send_audit_sequence;
    }
