-- ===== src/Mail/Listing/Reader.antt =====
-- A client that reads a folder page by page, and a folder that a user may read.
use mailbridge_mcp.Common.{
  ℕ, zero, suc, ◌≡◌, String, true, false, Option, none, some, List, [], ◌∷◌, ◌++◌, map, Result, ok,
  err,
}
use mathlib.Core.List.{Perm}
use mailbridge_mcp.Common.Sorting.Numbers.{Distinct}
use mailbridge_mcp.Domain.Errors.{plain}
use mailbridge_mcp.Config.Registry.{MailboxConfig, get_mailbox}
use mailbridge_mcp.Imap.Failures.{replied}
use mailbridge_mcp.Imap.Adapter.{Client, SearchObject}
use mailbridge_mcp.Imap.Messages.{FetchMessageObject}
use mailbridge_mcp.Imap.Search.{discover_folders}
use mailbridge_mcp.Mail.Folders.{CachedFolders, resolve_search_folders}
use mailbridge_mcp.Mail.Summaries.{MessageSummary}
use mailbridge_mcp.Mail.Listing.{Cursor, MessagesPage}

abbrev pub prepend :
    List MessageSummary → Result (List MessageSummary) → Result (List MessageSummary)
prepend messages (ok rest) = ok (messages ++ rest)
prepend messages (err e) = err e

-- A client that asks for the next page until there is none.
unfoldable pub read_pages :
    (Cursor → Result MessagesPage) → ℕ → Cursor → Result (List MessageSummary)
read_pages fetch zero cursor = err (plain "out of fuel")
read_pages fetch (suc fuel) cursor = elim (fetch cursor) [
  | err e ↦ err e
  | ok page ↦ elim page.next_before_uid [
    | none ↦ ok page.messages
    | some uid ↦
        prepend page.messages (
          read_pages fetch fuel
            (record { before_uid = some uid; uid_validity = page.uid_validity }))
  ]
]

abbrev pub everything : SearchObject
everything = record {
  text = none;
  from = none;
  to = none;
  cc = none;
  subject = none;
  since = none;
  before = none;
  unseen = false;
  any_of = [];
  all = true;
}

-- A folder that a user may read and that does not change: the server tells the UIDs of its messages
-- in any order, and answers with the messages that it is asked for in any order.
pub record IsListed (mailboxes : List MailboxConfig) (connect : MailboxConfig → Client)
    (lower : String → String) (now : ℕ) (cached : Option CachedFolders) (mailbox_id folder : String)
    (uids : List ℕ) (message : ℕ → FetchMessageObject) (uid_validity : ℕ) : Type 0 where
  pub mailbox : MailboxConfig
  pub folders : List String
  pub order : List ℕ → List ℕ
  pub known : get_mailbox mailboxes mailbox_id true ≡ ok mailbox
  pub allowed :
      resolve_search_folders lower now cached
        (discover_folders (connect mailbox))
        mailbox
        (folder ∷ [])
      ≡ ok folders
  pub created : (connect mailbox).created ≡ ok tt
  pub opened :
      (connect mailbox).open_folder folder
      ≡ replied (record { read_only = true; uid_validity = uid_validity })
  pub searched : (connect mailbox).search folder everything ≡ replied (some uids)
  pub fetched :
      (us : List ℕ) → (connect mailbox).fetch_all folder us ≡ replied (map message (order us))
  pub complete : (us : List ℕ) → Perm (order us) us
  pub distinct : Distinct uids
  pub numbered : (uid : ℕ) → (message uid).uid ≡ uid

-- The cursor of the first page, or that a page before `bound` has named.
abbrev pub cursor_at : ℕ → Option ℕ → Cursor
cursor_at uid_validity none = record { before_uid = none; uid_validity = none }
cursor_at uid_validity (some bound) = record {
  before_uid = some bound;
  uid_validity = some uid_validity;
}
