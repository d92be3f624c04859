-- ===== src/Mail/Source/Whole.antt =====
-- Reading a whole message source through its pages.
use mailbridge_mcp.Common.{
  ℕ, ◌+◌, ◌≤◌, ◌<◌, ◌≡◌, String, true, Option, none, some, List, arith, ltb, length, Result, ok,
  err, Bool-cases,
}
use mailbridge_mcp.Common.Slices.{take, drop, take-all, length-take, length-take-le, length-drop}
use mailbridge_mcp.Domain.Errors.{coded, other_code}
use mailbridge_mcp.Config.Registry.{MailboxConfig, get_mailbox, assert_folder_allowed}
use mailbridge_mcp.Imap.Failures.{replied, caught}
use mailbridge_mcp.Imap.Adapter.{Client, Folder, min, max, enter, fetch_raw_source_range}
use mailbridge_mcp.Mail.Ids.{Locator, Ids}
use mailbridge_mcp.Mail.Pages.{Page, page_at, read_all, read_all-content}
use mailbridge_mcp.Mail.Source.{source_paged, fetch_raw_message}

-- A message that a user may read and whose source the server gives in the ranges that it is asked
-- for, with its size or without.
pub record IsOffered (mailboxes : List MailboxConfig) (ids : Ids) (connect : MailboxConfig → Client)
    (stable_id : String) (content : List ℕ) (total : Option ℕ) : Type 0 where
  pub locator : Locator
  pub mailbox : MailboxConfig
  pub folder : Folder
  pub decoded : ids.decode stable_id ≡ ok locator
  pub known : get_mailbox mailboxes locator.mailbox_id true ≡ ok mailbox
  pub allowed : assert_folder_allowed mailbox locator.folder_id ≡ ok tt
  pub created : (connect mailbox).created ≡ ok tt
  pub opened : (connect mailbox).open_folder locator.folder_id ≡ replied folder
  pub read_only : folder.read_only ≡ true
  pub valid : folder.uid_validity ≡ locator.uid_validity
  pub ranges :
      (offset n : ℕ)
      → (connect mailbox).source locator.folder_id locator.uid offset n
        ≡ replied (some (record { bytes = take n (drop offset content); total_size = total }))

module _ (mailboxes : List MailboxConfig) (ids : Ids) (connect : MailboxConfig → Client)
    (stable_id : String) (content : List ℕ) (source_max max_bytes : ℕ) (room : 0 < source_max) where
  abbrev pub source_window : ℕ
  source_window = min (max max_bytes 1) source_max

  module _ (total : Option ℕ)
      (offered : IsOffered mailboxes ids connect stable_id content total) where
    open offered use {locator, mailbox}

    enters : enter (connect mailbox) locator.folder_id locator.uid_validity ≡ ok tt
    unfolding enter caught
    enters = ground (arith, offered.created, offered.opened, offered.read_only, offered.valid)

    fetches :
        (offset : ℕ)
        → fetch_raw_source_range
            (connect mailbox)
            source_max
            locator.folder_id
            locator.uid_validity
            locator.uid
            offset
            source_window
          ≡ ok (record { bytes = take source_window (drop offset content); total_size = total })
    unfolding fetch_raw_source_range caught
    fetches offset =
        let same : min source_window source_max ≡ source_window = ground arith in
        ground (arith, enters, same, offered.ranges offset (min source_window source_max))

  abbrev pages_of : ℕ → Result Page
  pages_of offset =
      source_paged (fetch_raw_message mailboxes ids connect source_max stable_id max_bytes offset)

  module _
      (offered : IsOffered mailboxes ids connect stable_id content (some (length content))) where
    open offered use {locator, mailbox}

    fetch_raw_message-page :
        (offset : ℕ)
        → offset ≤ length content
        → pages_of offset ≡ ok (page_at source_window content offset)
    unfolding fetch_raw_message
    fetch_raw_message-page offset inside = ground (
      arith,
      offered.decoded,
      offered.known,
      offered.allowed,
      fetches (some (length content)) offered offset,
      length-drop offset content,
      Bool-cases (ltb source_window (length (drop offset content))),
      take-all source_window (drop offset content),
      length-take source_window (drop offset content),
    )

    -- A client that asks for the source of a message from offset 0 and then for each next offset gets
    -- the whole source, however many bytes it asks for at a time, if the server tells the size. A
    -- round for each byte and one more are enough.
    pub fetch_raw_message-whole :
        (rounds : ℕ) → length content < rounds → read_all pages_of rounds 0 ≡ ok content
    fetch_raw_message-whole rounds enough =
        read_all-content pages_of source_window content (ground arith) fetch_raw_message-page rounds
          enough

  module _ (offered : IsOffered mailboxes ids connect stable_id content none) where
    open offered use {locator, mailbox}

    -- Where the server does not tell the size of a source and its last page is full, that page names
    -- the end of the source as the next offset, and the call for it throws RAW_SOURCE_UNAVAILABLE.
    pub fetch_raw_message-end :
        (offset : ℕ)
        → offset + source_window ≡ length content
        → (pages_of offset
            ≡ ok (record { bytes = drop offset content; next_offset = some (length content) }))
          × (pages_of (length content) ≡ err (coded (other_code "RAW_SOURCE_UNAVAILABLE")))
    unfolding fetch_raw_message
    fetch_raw_message-end offset full = (
      ground (
        arith,
        offered.decoded,
        offered.known,
        offered.allowed,
        fetches none offered offset,
        length-drop offset content,
        take-all source_window (drop offset content),
      ),
      ground (
        arith,
        offered.decoded,
        offered.known,
        offered.allowed,
        fetches none offered (length content),
        length-drop (length content) content,
        length-take-le source_window (drop (length content) content),
        take-all source_window (drop (length content) content),
      ),
    )
