-- ===== src/Mail/Summaries.antt =====
-- src/services/mailService.ts: #summary, and MessageSummary of src/domain/types.ts without the fixed
-- warning.
use mailbridge_mcp.Common.{ℕ, String, Bool, Option, List, ltb, length}
use mailbridge_mcp.Config.Registry.{MailboxConfig}
use mailbridge_mcp.Imap.Messages.{AddressValue, RawMessageSummary}
use mailbridge_mcp.Mail.Ids.{Ids}

pub record MessageSummary : Type 0 where
  pub stable_message_id : String
  pub mailbox_id : String
  pub mailbox_email : String
  pub brand : String
  pub folder : String
  pub source_folder : String
  pub from : List AddressValue
  pub to : List AddressValue
  pub cc : List AddressValue
  pub subject : String
  pub received_at : ℕ
  pub unread : Bool
  pub has_attachments : Bool
  pub attachment_count : ℕ
  pub safe_snippet : Option String

abbrev pub summary : Ids → MailboxConfig → RawMessageSummary → MessageSummary
summary ids mailbox raw = record {
  stable_message_id = ids.encode (record {
    mailbox_id = mailbox.id;
    folder_id = raw.folder;
    uid_validity = raw.uid_validity;
    uid = raw.uid;
  });
  mailbox_id = mailbox.id;
  mailbox_email = mailbox.email;
  brand = mailbox.brand;
  folder = raw.folder;
  source_folder = raw.folder;
  from = raw.from;
  to = raw.to;
  cc = raw.cc;
  subject = raw.subject;
  received_at = raw.received_at;
  unread = raw.unread;
  has_attachments = ltb 0 (length raw.attachments);
  attachment_count = length raw.attachments;
  safe_snippet = raw.snippet;
}
