-- ===== src/Imap/Adapter.antt =====
-- src/imap/imapFlowAdapter.ts: fetchRawSourceRange, listAttachmentParts and fetchAttachment, and what
-- the adapter promises the mail service. A client that is connected is what its calls come to.
use mailbridge_mcp.Common.{
  ℕ, String, Bool, true, false, Option, none, some, List, str_eq, ◌==◌, leb, find, if◌then◌else◌,
  Result, ok, err,
}
use mailbridge_mcp.Send.Policy.{◌>>=◌}
use mailbridge_mcp.Domain.Errors.{Error, coded, other_code, attachment_not_found}
use mailbridge_mcp.Imap.Failures.{Reply, caught}
use mailbridge_mcp.Imap.Parts.{Node, RawAttachment, collect_attachments}
use mailbridge_mcp.Imap.Messages.{FetchMessageObject}
use mailbridge_mcp.Imap.Download.{Stream, read_stream}

-- A folder that getMailboxLock has opened.
pub record Folder : Type 0 where
  pub read_only : Bool
  pub uid_validity : ℕ

pub record RawSource : Type 0 where
  pub bytes : List ℕ
  pub total_size : Option ℕ

pub record ListedFolder : Type 0 where
  pub path : String
  pub name : String
  pub special_use : Option String
  pub flags : List String
  pub messages : Option ℕ
  pub unseen : Option ℕ

-- A test of a header field for an identifier.
pub data HeaderTerm : Type 0 where
  message_id in_reply_to references : String → HeaderTerm

-- What a search asks for; `any_of` is `or`, and `unseen` is `seen: false`.
pub record SearchObject : Type 0 where
  pub text : Option String
  pub from : Option String
  pub to : Option String
  pub cc : Option String
  pub subject : Option String
  pub since : Option ℕ
  pub before : Option ℕ
  pub unseen : Bool
  pub any_of : List HeaderTerm
  pub all : Bool

-- `created` is #createClient, whose errors are thrown as they are; `open_folder` is connect and
-- getMailboxLock; the fetches are by the UID of a message, `none` for one that
-- is gone; `source` takes the range that it is asked for; `search`
-- answers with UIDs, or with none where imapflow answers with false.
pub record Client : Type 0 where
  pub created : Result (Unit {0})
  pub open_folder : String → Reply Folder
  pub structure : String → ℕ → Reply (Option (Option Node))
  pub source : String → ℕ → ℕ → ℕ → Reply (Option RawSource)
  pub download : String → ℕ → String → Reply Stream
  pub list : Reply (List ListedFolder)
  pub search : String → SearchObject → Reply (Option (List ℕ))
  pub fetch_all : String → List ℕ → Reply (List FetchMessageObject)

abbrev pub require_ok : Bool → Error → Result (Unit {0})
require_ok true e = ok tt
require_ok false e = err e

abbrev some_or : {A : Type 0} → Option A → Error → Result A
some_or none e = err e
some_or (some a) e = ok a

-- `Math.min`, `Math.max`
abbrev pub min : ℕ → ℕ → ℕ
min a b = if leb a b then a else b

abbrev pub max : ℕ → ℕ → ℕ
max a b = if leb a b then b else a

pub record RawAttachmentContent : Type 0 where
  pub part : String
  pub filename : Option String
  pub mime_type : String
  pub declared_size : Option ℕ
  pub bytes : List ℕ
  pub truncated : Bool

module _ (client : Client) where
  -- #createClient, the lock, assertReadOnlyMailbox, and the test of the UIDVALIDITY.
  unfoldable pub enter : String → ℕ → Result (Unit {0})
  unfolding caught
  enter folder uid_validity = do
    _ ← client.created
    opened ← caught (client.open_folder folder)
    _ ← require_ok opened.read_only (coded (other_code "READ_ONLY_INVARIANT_FAILED"))
    require_ok (opened.uid_validity == uid_validity) (coded (other_code "UIDVALIDITY_CHANGED"))

  unfoldable pub fetch_raw_source_range : ℕ → String → ℕ → ℕ → ℕ → ℕ → Result RawSource
  unfolding caught
  fetch_raw_source_range source_max_bytes folder uid_validity uid offset max_bytes = do
    _ ← enter folder uid_validity
    message ← caught (client.source folder uid offset (min max_bytes source_max_bytes))
    some_or message (coded (other_code "MESSAGE_NOT_FOUND"))

  unfoldable pub list_attachment_parts : String → ℕ → ℕ → Result (List RawAttachment)
  unfolding caught
  list_attachment_parts folder uid_validity uid = do
    _ ← enter folder uid_validity
    message ← caught (client.structure folder uid)
    structure ← some_or message (coded (other_code "MESSAGE_NOT_FOUND"))
    ok (collect_attachments structure)

  unfoldable pub fetch_attachment :
      ℕ → String → ℕ → ℕ → String → ℕ → ℕ → Result RawAttachmentContent
  unfolding caught find
  fetch_attachment attachment_max_bytes folder uid_validity uid part offset max_bytes = do
    _ ← enter folder uid_validity
    message ← caught (client.structure folder uid)
    structure ← some_or message (coded (other_code "MESSAGE_NOT_FOUND"))
    meta ←
        some_or (find (λ (a : RawAttachment). str_eq a.part part) (collect_attachments structure))
          (coded attachment_not_found)
    stream ← caught (client.download folder uid part)
    chunk ← read_stream offset (max 1 (min max_bytes attachment_max_bytes)) stream
    ok (record {
      part = part;
      filename = meta.filename;
      mime_type = meta.mime_type;
      declared_size = meta.size;
      bytes = chunk.bytes;
      truncated = chunk.truncated;
    })
