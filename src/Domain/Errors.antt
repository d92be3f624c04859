-- ===== src/Domain/Errors.antt =====
-- src/domain/errors.ts. `MailBridgeError` carries a code and whether a retry may help; any other
-- exception is `plain`, with its message.
use Prim.Native.String.{String}
use mathlib.Core.Bool.{Bool, false}

pub data Code : Type 0 where
  draft_already_sent draft_version_conflict mailbox_mismatch : Code
  attachment_conflict attachment_not_found attachment_limit_exceeded : Code
  invalid_attachment attachment_type_blocked invalid_argument : Code
  send_policy_blocked send_not_configured send_confirmation_required : Code
  send_confirmation_invalid send_confirmation_used send_confirmation_expired : Code
  send_confirmation_stale idempotency_conflict send_receipt_missing : Code
  send_already_submitting send_status_unknown send_operation_missing : Code
  send_operation_state_conflict send_operation_not_found : Code
  hourly_send_limit_exceeded daily_send_limit_exceeded draft_confirmation_required : Code
  mailbox_not_found mailbox_disabled folder_not_allowed : Code
  threading_headers_missing reply_address_missing : Code
  invalid_message_id endpoint_host_invalid endpoint_dns_failed endpoint_not_public : Code
  internal_error : Code
  other_code : String → Code

pub data Error : Type 0 where
  mail_bridge : (code : Code) (retryable : Bool) → Error
  plain : (message : String) → Error

-- `new MailBridgeError(message, code)`.
abbrev pub coded : Code → Error
coded c = mail_bridge c false

pub record SafeError : Type 0 where
  pub code : Code
  pub retryable : Bool

unfoldable pub safe_error : Error → SafeError
safe_error (mail_bridge c r) = record { code = c; retryable = r }
safe_error (plain m) = record { code = internal_error; retryable = false }
