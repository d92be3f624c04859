-- ===== src/Mail/Attachments/Whole.antt =====
-- Reading a whole attachment through its pages.
use mailbridge_mcp.Common.{
  ℕ, ◌<◌, ◌≡◌, ◌∙◌, String, Bool, true, Option, none, some, List, [], ◌∷◌, arith, ltb, str_eq,
  eq_iff, find, length, ok, Bool-cases, inl, inr,
}
use mailbridge_mcp.Common.Slices.{take, drop, concat, length-take}
use mailbridge_mcp.Config.Registry.{MailboxConfig, get_mailbox, assert_folder_allowed}
use mailbridge_mcp.Imap.Failures.{replied, caught}
use mailbridge_mcp.Imap.Parts.{Node, RawAttachment, collect_attachments}
use mailbridge_mcp.Imap.Download.{Stream, read_stream}
use mailbridge_mcp.Imap.Download.Window.{window, read_stream-window, window_complete}
use mailbridge_mcp.Imap.Adapter.{
  Client, Folder, min, max, enter, list_attachment_parts, fetch_attachment,
}
use mailbridge_mcp.Mail.Ids.{Locator, Ids}
use mailbridge_mcp.Mail.Pages.{page_at, read_all, read_all-content}
use mailbridge_mcp.Mail.Attachments.{fetch_content, paged}

-- A message that a user may read and that the server still has, with an attachment whose download
-- the server completes.
pub record IsServed (mailboxes : List MailboxConfig) (ids : Ids) (connect : MailboxConfig → Client)
    (stable_id attachment_id : String) (content : List ℕ) : Type 0 where
  pub locator : Locator
  pub mailbox : MailboxConfig
  pub folder : Folder
  pub structure : Option Node
  pub part : RawAttachment
  pub stream : Stream
  pub decoded : ids.decode stable_id ≡ ok locator
  pub known : get_mailbox mailboxes locator.mailbox_id true ≡ ok mailbox
  pub allowed : assert_folder_allowed mailbox locator.folder_id ≡ ok tt
  pub created : (connect mailbox).created ≡ ok tt
  pub opened : (connect mailbox).open_folder locator.folder_id ≡ replied folder
  pub read_only : folder.read_only ≡ true
  pub valid : folder.uid_validity ≡ locator.uid_validity
  pub structured :
      (connect mailbox).structure locator.folder_id locator.uid ≡ replied (some structure)
  pub offered :
      find
        (λ (a : RawAttachment). str_eq (ids.opaque_attachment_id stable_id a.part) attachment_id)
        (collect_attachments structure)
      ≡ some part
  pub downloads :
      (connect mailbox).download locator.folder_id locator.uid part.part ≡ replied stream
  pub complete : stream.ending ≡ none
  pub whole : concat stream.chunks ≡ content

-- A part that one search has found is found by its own name.
found-part :
    (p : RawAttachment → Bool) (parts : List RawAttachment) (a : RawAttachment)
    → find p parts ≡ some a
    → (b : RawAttachment) × (find (λ (x : RawAttachment). str_eq x.part a.part) parts ≡ some b)
unfolding find
found-part p [] a h = ground arith
found-part p (x ∷ xs) a h = elim (Bool-cases (str_eq x.part a.part)) [
  | inl same ↦ (x, ground (arith, same))
  | inr other ↦
      let (b, found) =
        found-part p xs a (ground (arith, h, other, Bool-cases (p x), eq_iff x.part a.part)) in
      (b, ground (arith, other, found))
]

module _ (mailboxes : List MailboxConfig) (ids : Ids) (connect : MailboxConfig → Client)
    (stable_id attachment_id : String) (content : List ℕ)
    (served : IsServed mailboxes ids connect stable_id attachment_id content) where
  open served use {locator, mailbox, folder, structure, part, stream}

  enters : enter (connect mailbox) locator.folder_id locator.uid_validity ≡ ok tt
  unfolding enter caught
  enters = ground (arith, served.created, served.opened, served.read_only, served.valid)

  lists :
      list_attachment_parts (connect mailbox) locator.folder_id locator.uid_validity locator.uid
      ≡ ok (collect_attachments structure)
  unfolding list_attachment_parts caught
  lists = ground (arith, enters, served.structured)

  module _ (attachment_max max_bytes : ℕ) (room : 0 < attachment_max) where
    abbrev size : ℕ
    size = min (max max_bytes 1) attachment_max

    reads :
        (offset : ℕ)
        → read_stream offset (max 1 (min size attachment_max)) stream
          ≡ ok (record {
            bytes = take size (drop offset content);
            truncated = ltb size (length (drop offset content));
          })
    reads offset =
        let same : max 1 (min size attachment_max) ≡ size = ground arith in
        read_stream-window offset (max 1 (min size attachment_max)) stream
        ∙ ((λ i. window (same i) (drop offset (served.whole i)) (served.complete i))
            ∙ window_complete size (drop offset content))

    fetches :
        (offset : ℕ)
        → (b : RawAttachment)
        → find (λ (x : RawAttachment). str_eq x.part part.part) (collect_attachments structure)
          ≡ some b
        → fetch_attachment
            (connect mailbox)
            attachment_max
            locator.folder_id
            locator.uid_validity
            locator.uid
            part.part
            offset
            size
          ≡ ok (record {
            part = part.part;
            filename = b.filename;
            mime_type = b.mime_type;
            declared_size = b.size;
            bytes = take size (drop offset content);
            truncated = ltb size (length (drop offset content));
          })
    unfolding fetch_attachment caught
    fetches offset b found =
        ground (arith, enters, served.structured, found, served.downloads, reads offset)

    fetch_content-page :
        (offset : ℕ)
        → paged (
            fetch_content mailboxes ids connect attachment_max stable_id attachment_id max_bytes
              offset)
          ≡ ok (page_at size content offset)
    unfolding fetch_content
    fetch_content-page offset =
        let (b, found) =
          found-part
            (λ (a : RawAttachment).
              str_eq (ids.opaque_attachment_id stable_id a.part) attachment_id)
            (collect_attachments structure) part served.offered in
        ground (
          arith,
          served.decoded,
          served.known,
          served.allowed,
          served.offered,
          lists,
          fetches offset b found,
          Bool-cases (ltb size (length (drop offset content))),
          length-take size (drop offset content),
        )

    -- A client that asks for an attachment from offset 0 and then for each next offset gets the whole
    -- attachment, byte for byte, whatever the chunks in which the server sends it and however many
    -- bytes the client asks for at a time. A round for each byte and one more are enough.
    pub fetch_content-whole :
        (rounds : ℕ)
        → length content < rounds
        → read_all
            (λ offset. paged (
              fetch_content mailboxes ids connect attachment_max stable_id attachment_id max_bytes
                offset))
            rounds
            0
          ≡ ok content
    fetch_content-whole rounds enough =
        read_all-content _ size content (ground arith) (λ offset _. fetch_content-page offset)
          rounds enough
