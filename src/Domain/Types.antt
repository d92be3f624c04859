-- ===== src/Domain/Types.antt =====
-- src/app/types.ts: the values that the store, the send service and the tools exchange. A date is
-- the number of milliseconds since the epoch; the program keeps dates as ISO strings, whose order
-- is that of these numbers. Fields of one value, `send_transport` and `credentials_stored`, are left
-- out.
use Prim.Native.Nat.{ℕ}
use Prim.Native.String.{String}
use mathlib.Core.Bool.{Bool}
use mathlib.Core.Option.{Option}
use mathlib.Core.List.{List}

pub data MailboxBrand : Type 0 where
  general business private other : MailboxBrand

pub data TlsMode : Type 0 where
  implicit starttls : TlsMode

pub data SendMode : Type 0 where
  disabled draft_only direct_allowed : SendMode

pub data ExternalRecipientPolicy : Type 0 where
  allow warn block : ExternalRecipientPolicy

pub data ConnectionStatus : Type 0 where
  unknown connected error : ConnectionStatus

pub record SendPolicyInput : Type 0 where
  pub send_mode : SendMode
  pub require_confirmation : Bool
  pub allowed_domains : List String
  pub denied_domains : List String
  pub max_recipients : ℕ
  pub max_per_hour : ℕ
  pub max_per_day : ℕ
  pub external_recipients : ExternalRecipientPolicy
  pub confirmation_ttl_seconds : ℕ

pub record SendPolicyView : Type 0 where
  pub mailbox_id : String
  pub policy : SendPolicyInput
  pub open policy use *
  pub policy_version : ℕ
  pub updated_at : Option ℕ

pub record MailboxSettings : Type 0 where
  pub display_name : String
  pub email : String
  pub brand : MailboxBrand
  pub purpose : String
  pub imap_host : String
  pub imap_port : ℕ
  pub tls_mode : TlsMode
  pub allowed_folders : List String
  pub send_enabled : Bool
  pub smtp_host : Option String
  pub smtp_port : ℕ
  pub smtp_tls_mode : TlsMode
  pub enabled : Bool

pub record MailboxCredentials : Type 0 where
  pub username : String
  pub password : String

-- Of a connection test the store reads the status and the category of the error.
pub record MailboxConnectionTestResult : Type 0 where
  pub pass : Bool
  pub error_category : Option String

pub record MailboxView : Type 0 where
  pub mailbox_id : String
  pub settings : MailboxSettings
  pub open settings use *
  pub connection_status : ConnectionStatus
  pub last_successful_check : Option ℕ
  pub last_error_category : Option String
  pub created_at : ℕ
  pub updated_at : ℕ

pub record StoredCredentialEnvelope : Type 0 where
  pub key_version : String
  pub payload_iv : String
  pub payload_tag : String
  pub payload_ciphertext : String
  pub wrapped_key_iv : String
  pub wrapped_key_tag : String
  pub wrapped_key_ciphertext : String

pub record DraftAttachmentView : Type 0 where
  pub attachment_id : String
  pub filename : String
  pub mime_type : String
  pub size : ℕ
  pub sha256 : String

pub record DraftAttachment : Type 0 where
  pub metadata : DraftAttachmentView
  pub open metadata use *
  pub content_base64 : String

pub record DraftMessage : Type 0 where
  pub mailbox_id : String
  pub to : List String
  pub cc : List String
  pub bcc : List String
  pub subject : String
  pub text_body : String
  pub in_reply_to : Option String
  pub references : List String

pub record DraftPayload : Type 0 where
  pub message : DraftMessage
  pub open message use *
  pub attachments : List DraftAttachment

pub data DraftStatus : Type 0 where
  draft sent : DraftStatus

pub record MailDraftView : Type 0 where
  pub draft_id : String
  pub version : ℕ
  pub message : DraftMessage
  pub open message use *
  pub attachments : List DraftAttachmentView
  pub status : DraftStatus
  pub created_at : ℕ
  pub updated_at : ℕ
  pub sent_at : Option ℕ
  pub message_id : Option String

pub data SentCopyState : Type 0 where
  disabled not_applicable provider_saved imap_appended failed legacy_untracked : SentCopyState

pub record SentCopyResult : Type 0 where
  pub state : SentCopyState
  pub folder : Option String
  pub attempts : ℕ
  pub error_code : Option String

pub record SendReceipt : Type 0 where
  pub mailbox_id : String
  pub message_id : String
  pub accepted : List String
  pub rejected : List String
  pub sent_at : ℕ
  pub sent_copy : Option SentCopyResult

pub record DraftValidation : Type 0 where
  pub draft_id : String
  pub draft_version : ℕ
  pub mailbox_id : String
  pub policy_version : ℕ
  pub blocked : Bool
  pub reasons : List String
  pub warnings : List String
  pub recipient_count : ℕ
  pub external_recipient_count : ℕ
  pub remaining_hour : ℕ
  pub remaining_day : ℕ

pub record SendConfirmationView : Type 0 where
  pub confirmation_id : String
  pub draft_id : String
  pub draft_version : ℕ
  pub expires_at : ℕ
  pub validation : DraftValidation

pub data SendOperationState : Type 0 where
  submitting smtp_accepted partial_rejected rejected unknown : SendOperationState
