-- ===== src/Mail/Listing/Searching.antt =====
-- What a search for a page of a folder finds.
use mailbridge_mcp.Common.{
  ℕ, suc, ◌≤◌, ◌≡◌, ◌∙◌, refl, String, Option, none, some, List, [], ◌∷◌, map, arith, select,
  length, ok,
}
use mathlib.Core.List.{reverse}
use mailbridge_mcp.Common.Slices.{take, length-take-le}
use mailbridge_mcp.Common.Sorting.Numbers.{
  IsFalling, below, down, down-IsFalling, down-perm, down-select, down-sorted, reverse-up, up,
}
use mailbridge_mcp.Common.Sorting.Below.{select-below-IsFalling}
use mailbridge_mcp.Config.Registry.{MailboxConfig}
use mailbridge_mcp.Imap.Failures.{caught}
use mailbridge_mcp.Imap.Adapter.{Client}
use mailbridge_mcp.Imap.Messages.{FetchMessageObject}
use mailbridge_mcp.Imap.Search.{
  build_search_query, eligible_below, candidates_for, fetch_candidates, search,
}
use mailbridge_mcp.Mail.Ids.{Ids}
use mailbridge_mcp.Mail.Folders.{CachedFolders}
use mailbridge_mcp.Mail.Listing.{Cursor, page_input}
use mailbridge_mcp.Mail.Listing.Pages.{take-IsFalling, select-Distinct}
use mailbridge_mcp.Mail.Listing.Reader.{IsListed, cursor_at}
use mailbridge_mcp.Mail.Listing.Raw.{map-raw, raw, results-raw}

module _ (mailboxes : List MailboxConfig) (ids : Ids) (connect : MailboxConfig → Client)
    (snippet : Option String → Option String) (lower : String → String) (now : ℕ)
    (cached : Option CachedFolders) (mailbox_id folder : String) (uids : List ℕ)
    (message : ℕ → FetchMessageObject) (uid_validity : ℕ)
    (listed : IsListed mailboxes connect lower now cached mailbox_id folder uids message
      uid_validity) where
  open listed use {mailbox, order}

  -- The UIDs that a cursor leaves, newest first.
  abbrev pub remaining : Option ℕ → List ℕ
  remaining none = down uids
  remaining (some bound) = select (below bound) (down uids)

  pub remaining-IsFalling : (before : Option ℕ) → IsFalling (remaining before)
  remaining-IsFalling none = down-IsFalling uids listed.distinct
  remaining-IsFalling (some bound) =
      select-below-IsFalling bound (down uids) (down-IsFalling uids listed.distinct)

  pub eligible-remaining :
      (before : Option ℕ) → reverse (up (eligible_below before uids)) ≡ remaining before
  unfolding select
  eligible-remaining none = reverse-up uids listed.distinct
  eligible-remaining (some bound) =
      reverse-up (select (below bound) uids) (select-Distinct (below bound) uids listed.distinct)
      ∙ down-select bound uids

  module _ (limit : ℕ) where
    pub candidates :
        (cursor : Cursor)
        → candidates_for (page_input folder limit cursor) uids
          ≡ take (suc limit) (remaining cursor.before_uid)
    unfolding candidates_for
    candidates cursor = ground (arith, eligible-remaining cursor.before_uid)

    pub fetches :
        (cursor : Cursor) (us : List ℕ)
        → IsFalling us
        → length us ≤ suc limit
        → fetch_candidates snippet
            (connect mailbox)
            (page_input folder limit cursor)
            uid_validity
            us
          ≡ ok (map (raw folder snippet uid_validity message listed.numbered) us)
    unfolding fetch_candidates caught
    fetches cursor [] falling fits = refl
    fetches cursor (u ∷ us) falling fits = ground (
      arith,
      listed.fetched (u ∷ us),
      map-raw folder snippet uid_validity message listed.numbered (order (u ∷ us)),
      results-raw folder snippet uid_validity message listed.numbered limit cursor (order (u ∷ us))
          (u ∷ us) (down-perm (listed.complete (u ∷ us)) ∙ down-sorted (u ∷ us) falling) fits,
    )

    pub searches :
        (before : Option ℕ)
        → search snippet (connect mailbox) (page_input folder limit (cursor_at uid_validity before))
          ≡ ok (
              map
                (raw folder snippet uid_validity message listed.numbered)
                (take (suc limit) (remaining before)))
    unfolding search caught build_search_query
    searches none = ground (
      arith,
      listed.created,
      listed.opened,
      listed.searched,
      candidates (cursor_at uid_validity none),
      fetches (cursor_at uid_validity none) (take (suc limit) (remaining none))
          (take-IsFalling (suc limit) (remaining none) (remaining-IsFalling none))
          (length-take-le (suc limit) (remaining none)),
    )
    searches (some b) = ground (
      arith,
      listed.created,
      listed.opened,
      listed.searched,
      candidates (cursor_at uid_validity (some b)),
      fetches (cursor_at uid_validity (some b)) (take (suc limit) (remaining (some b)))
          (take-IsFalling (suc limit) (remaining (some b)) (remaining-IsFalling (some b)))
          (length-take-le (suc limit) (remaining (some b))),
    )
