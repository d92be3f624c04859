-- ===== src/Mail/Attachments.antt =====
-- src/services/mailService.ts: fetchAttachment. An offset is a whole number that is not negative; the
-- digest and the base64 text of a chunk stand for its bytes. Timeouts and the order in which calls
-- for a mailbox wait are left out.
pub mod Whole
use mailbridge_mcp.Common.{
  ℕ, ◌+◌, String, Bool, true, false, ◌&&◌, not, Option, none, some, List, [], str_eq, ◌==◌, length,
  find, if◌then◌else◌, Result, ok, err,
}
use mailbridge_mcp.Send.Policy.{◌>>=◌}
use mailbridge_mcp.Domain.Errors.{coded, other_code, attachment_not_found}
use mailbridge_mcp.Config.Registry.{MailboxConfig, get_mailbox, assert_folder_allowed}
use mailbridge_mcp.Imap.Parts.{RawAttachment}
use mailbridge_mcp.Imap.Adapter.{Client, min, max, list_attachment_parts, fetch_attachment}
use mailbridge_mcp.Mail.Ids.{Locator, Ids}
use mailbridge_mcp.Mail.Pages.{Page}

pub record AttachmentContent : Type 0 where
  pub attachment_id : String
  pub filename : Option String
  pub mime_type : String
  pub declared_size : Option ℕ
  pub offset : ℕ
  pub returned_bytes : ℕ
  pub next_offset : Option ℕ
  pub truncated : Bool
  pub bytes : List ℕ

abbrev page_of : AttachmentContent → Page
page_of content = record { bytes = content.bytes; next_offset = content.next_offset }

abbrev pub paged : Result AttachmentContent → Result Page
paged (ok content) = ok (page_of content)
paged (err e) = err e

abbrev pub the_part : Option RawAttachment → Result RawAttachment
the_part none = err (coded attachment_not_found)
the_part (some a) = ok a

abbrev pub progress : Bool → Result (Unit {0})
progress true = ok tt
progress false = err (coded (other_code "ATTACHMENT_SOURCE_UNAVAILABLE"))

-- `connect` is `adapters.create(mailbox)`, `attachment_max` the limit of the configuration, which
-- the adapter has too.
module _ (mailboxes : List MailboxConfig) (ids : Ids) (connect : MailboxConfig → Client)
    (attachment_max : ℕ) where
  unfoldable pub fetch_content : String → String → ℕ → ℕ → Result AttachmentContent
  unfolding find
  fetch_content stable_id attachment_id max_bytes offset = do
    locator ← ids.decode stable_id
    mailbox ← get_mailbox mailboxes locator.mailbox_id true
    _ ← assert_folder_allowed mailbox locator.folder_id
    let window = min (max max_bytes 1) attachment_max
    parts ←
        list_attachment_parts (connect mailbox) locator.folder_id locator.uid_validity locator.uid
    match ← the_part (
        find
          (λ (a : RawAttachment). str_eq (ids.opaque_attachment_id stable_id a.part) attachment_id)
          parts)
    raw ←
        fetch_attachment (connect mailbox) attachment_max locator.folder_id locator.uid_validity
          locator.uid match.part offset window
    _ ← progress (not (raw.truncated && length raw.bytes == 0))
    ok (record {
      attachment_id = attachment_id;
      filename = raw.filename;
      mime_type = raw.mime_type;
      declared_size = raw.declared_size;
      offset = offset;
      returned_bytes = length raw.bytes;
      next_offset = if raw.truncated then some (offset + length raw.bytes) else none;
      truncated = raw.truncated;
      bytes = raw.bytes;
    })
