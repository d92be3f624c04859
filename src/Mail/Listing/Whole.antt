-- ===== src/Mail/Listing/Whole.antt =====
-- Reading a folder through its pages.
use mailbridge_mcp.Common.Sorting.Numbers.{IsFalling, down, down-IsFalling, down-sorted, greater}
use mailbridge_mcp.Common.{
  or_else, ℕ, zero, suc, ◌<◌, ◌≡◌, ◌∙◌, ap, sym, String, true, false, Option, none, some, List, map,
  arith, ltb, length, if◌then◌else◌, Result, ok, Bool-cases, inl, inr,
}
use mailbridge_mcp.Mail.Listing.{
  head, validity_of, Cursor, MessagesPage, to_page, page_size, list_messages_page,
}
use mailbridge_mcp.Mail.Listing.Pages.{
  last-map, map-map, map-take-drop, take-take, longer-take, take-map, length-map, take-IsFalling,
  last-some,
}
use mailbridge_mcp.Imap.Messages.{bind_option, FetchMessageObject, RawMessageSummary}
use mailbridge_mcp.Common.Sorting.Below.{
  select-below-lt, last-take-lt, last, select-below-last, select-below_twice,
}
use mailbridge_mcp.Common.Sorting.{length-sort_by, sort_by}
use mailbridge_mcp.Common.Slices.{take, drop, take-all, length-drop}
use mailbridge_mcp.Config.Registry.{MailboxConfig}
use mailbridge_mcp.Imap.Adapter.{Client}
use mailbridge_mcp.Imap.Search.{later_uid}
use mailbridge_mcp.Mail.Ids.{Ids}
use mailbridge_mcp.Mail.Folders.{CachedFolders}
use mailbridge_mcp.Mail.Summaries.{MessageSummary, summary}
use mailbridge_mcp.Mail.Listing.Reader.{read_pages, IsListed, cursor_at}
use mailbridge_mcp.Mail.Listing.Raw.{first_validity, fresh_raw, raw, raw-uid, sort-raw}
use mailbridge_mcp.Mail.Listing.Searching.{
  remaining as uids_left, remaining-IsFalling as uids_left-IsFalling, searches as searches_left,
}

module _ (mailboxes : List MailboxConfig) (ids : Ids) (connect : MailboxConfig → Client)
    (snippet : Option String → Option String) (lower : String → String) (now : ℕ)
    (cached : Option CachedFolders) (mailbox_id folder : String) (uids : List ℕ)
    (message : ℕ → FetchMessageObject) (uid_validity : ℕ)
    (listed : IsListed mailboxes connect lower now cached mailbox_id folder uids message
      uid_validity) where
  open listed use {mailbox, order}

  abbrev remaining : Option ℕ → List ℕ
  remaining =
      uids_left mailboxes ids connect snippet lower now cached mailbox_id folder uids message
        uid_validity listed

  remaining-IsFalling : (before : Option ℕ) → IsFalling (remaining before)
  remaining-IsFalling =
      uids_left-IsFalling mailboxes ids connect snippet lower now cached mailbox_id folder uids
        message uid_validity listed

  -- What a page shows of a message.
  abbrev pub shown_summary : ℕ → MessageSummary
  shown_summary uid =
      summary ids mailbox (raw folder snippet uid_validity message listed.numbered uid)

  module _ (asked : ℕ) where
    abbrev size : ℕ
    size = page_size asked

    abbrev fetch : Cursor → Result MessagesPage
    fetch =
        list_messages_page mailboxes ids connect snippet lower now cached mailbox_id folder asked

    abbrev raws : Option ℕ → List RawMessageSummary
    raws before =
        map (raw folder snippet uid_validity message listed.numbered)
          (take (suc size) (remaining before))

    sorted_raws : (before : Option ℕ) → sort_by later_uid (raws before) ≡ raws before
    sorted_raws before =
        sort-raw folder snippet uid_validity message listed.numbered
          (take (suc size) (remaining before))
        ∙ ap (map (raw folder snippet uid_validity message listed.numbered)) (
            down-sorted (take (suc size) (remaining before))
              (take-IsFalling (suc size) (remaining before) (remaining-IsFalling before)))

    fetch-page :
        (before : Option ℕ)
        → fetch (cursor_at uid_validity before)
          ≡ ok (
              to_page ids mailbox folder size
                (cursor_at uid_validity before).uid_validity
                (raws before))
    unfolding list_messages_page
    fetch-page none = ground (
      arith,
      listed.known,
      listed.allowed,
      searches_left mailboxes ids connect snippet lower now cached mailbox_id folder uids message
          uid_validity listed size none,
      sorted_raws none,
      fresh_raw folder snippet uid_validity message listed.numbered none
          (take (suc size) (remaining none)),
    )
    fetch-page (some b) = ground (
      arith,
      listed.known,
      listed.allowed,
      searches_left mailboxes ids connect snippet lower now cached mailbox_id folder uids message
          uid_validity listed size (some b),
      sorted_raws (some b),
      fresh_raw folder snippet uid_validity message listed.numbered (some b)
          (take (suc size) (remaining (some b))),
    )

    abbrev page_after : Option ℕ → MessagesPage
    page_after before =
        to_page ids mailbox folder size (cursor_at uid_validity before).uid_validity (raws before)

    cut :
        (before : Option ℕ)
        → take size (raws before)
          ≡ map
              (raw folder snippet uid_validity message listed.numbered)
              (take size (remaining before))
    cut before =
        take-map (raw folder snippet uid_validity message listed.numbered) size
          (take (suc size) (remaining before))
        ∙ ap (map (raw folder snippet uid_validity message listed.numbered))
            (take-take size (suc size) (remaining before) (omega arith))

    longer :
        (before : Option ℕ) → ltb size (length (raws before)) ≡ ltb size (length (remaining before))
    longer before =
        ap (ltb size) (
          length-map (raw folder snippet uid_validity message listed.numbered)
            (take (suc size) (remaining before)))
        ∙ longer-take size (remaining before)

    page_messages :
        (before : Option ℕ)
        → (page_after before).messages ≡ map shown_summary (take size (remaining before))
    page_messages before =
        ap (map (summary ids mailbox)) (cut before)
        ∙ map-map (summary ids mailbox) (raw folder snippet uid_validity message listed.numbered)
            (take size (remaining before))

    page_end :
        (before : Option ℕ)
        → ltb size (length (remaining before)) ≡ false
        → (page_after before).next_before_uid ≡ none
    page_end before h =
        ap (λ b. if b then bind_option (last (take size (raws before))) (λ m. some m.uid) else none)
          (longer before ∙ h)

    page_next :
        (before : Option ℕ) (x : ℕ)
        → ltb size (length (remaining before)) ≡ true
        → last (take size (remaining before)) ≡ some x
        → ((page_after before).next_before_uid ≡ some x)
          × ((page_after before).uid_validity ≡ some uid_validity)
    page_next before x h e = (
      ap (λ b. if b then bind_option (last (take size (raws before))) (λ m. some m.uid) else none)
            (longer before ∙ h)
          ∙ (ap (λ xs. bind_option (last xs) (λ m. some m.uid)) (cut before)
              ∙ (ap (λ o. bind_option o (λ m. some m.uid))
                    (last-map (raw folder snippet uid_validity message listed.numbered)
                      (take size (remaining before)) x e)
                  ∙ ap some (raw-uid folder snippet uid_validity message listed.numbered x))),
      ap (λ xs. or_else (validity_of (head xs)) (cursor_at uid_validity before).uid_validity)
            (cut before)
          ∙ ap (λ o. or_else o (cursor_at uid_validity before).uid_validity)
              (first_validity folder snippet uid_validity message listed.numbered
                (take size (remaining before)) x e),
    )

    remaining-next :
        (before : Option ℕ) (x : ℕ)
        → last (take size (remaining before)) ≡ some x
        → remaining (some x) ≡ drop size (remaining before)
    remaining-next none x e =
        select-below-last size (down uids) x (down-IsFalling uids listed.distinct) e
    remaining-next (some b) x e =
        sym (
          select-below_twice x b (down uids) (
            omega (
              arith,
              last-take-lt b size (remaining (some b)) x (select-below-lt b (down uids)) e,
            )))
        ∙ select-below-last size (remaining (some b)) x (remaining-IsFalling (some b)) e

    some_size : 0 < size
    unfolding page_size
    some_size = ground arith

    read_pages-rest :
        (rounds : ℕ) (before : Option ℕ)
        → length (remaining before) < rounds
        → read_pages fetch rounds (cursor_at uid_validity before)
          ≡ ok (map shown_summary (remaining before))
    unfolding read_pages
    read_pages-rest zero before enough = absurd (omega (arith, enough))
    read_pages-rest (suc rounds) before enough =
        elim (Bool-cases (ltb size (length (remaining before)))) [
          | inr all ↦ ground (
            arith,
            fetch-page before,
            page_messages before,
            page_end before all,
            all,
            take-all size (remaining before),
          )
          | inl more ↦
              let (x, e) = last-some size (remaining before) some_size (ground (arith, more)) in
              let (names, validity) = page_next before x more e in
              ground (
                arith,
                fetch-page before,
                page_messages before,
                names,
                validity,
                remaining-next before x e,
                length-drop size (remaining before),
                some_size,
                more,
                map-take-drop shown_summary size (remaining before),
                read_pages-rest rounds (some x),
              )
        ]

    -- A client that asks for the first page of a folder and then for each next page gets every message
    -- of the folder once, from the greatest UID down, however many it asks for at a time and in
    -- whatever order the server answers, if the folder does not change meanwhile. A round for each
    -- message and one more are enough.
    pub list_messages_page-whole :
        (rounds : ℕ)
        → length uids < rounds
        → read_pages
            (list_messages_page mailboxes ids connect snippet lower now cached mailbox_id folder
              asked)
            rounds
            (record { before_uid = none; uid_validity = none })
          ≡ ok (map shown_summary (down uids))
    list_messages_page-whole rounds enough =
        read_pages-rest rounds none (omega (arith, enough, length-sort_by greater uids))
