-- ===== src/Mail/Listing.antt =====
-- src/services/mailService.ts: listMessagesPage.
pub mod Pages
pub mod Reader
pub mod Raw
pub mod Searching
pub mod Whole
use mailbridge_mcp.Common.{
  ℕ, suc, String, Bool, true, false, not, ◌||◌, ◌&&◌, Option, none, some, List, [], ◌∷◌, map, ◌==◌,
  ltb, any, length, if◌then◌else◌, Result, ok, err,
}
use mailbridge_mcp.Common.Slices.{take}
use mailbridge_mcp.Common.Sorting.{sort_by}
use mailbridge_mcp.Common.Sorting.Below.{last}
use mailbridge_mcp.Common.Tables.{or_else}
use mailbridge_mcp.Send.Policy.{◌>>=◌}
use mailbridge_mcp.Domain.Errors.{coded, other_code, invalid_argument}
use mailbridge_mcp.Config.Registry.{MailboxConfig, get_mailbox}
use mailbridge_mcp.Imap.Adapter.{Client, require_ok, min, max}
use mailbridge_mcp.Imap.Messages.{RawMessageSummary, bind_option}
use mailbridge_mcp.Imap.Search.{FolderSearchInput, is_none, later_uid, search, discover_folders}
use mailbridge_mcp.Mail.Ids.{Ids}
use mailbridge_mcp.Mail.Folders.{CachedFolders, resolve_search_folders}
use mailbridge_mcp.Mail.Summaries.{MessageSummary, summary}

-- Where the page starts: `before_uid` and `uid_validity`.
pub record Cursor : Type 0 where
  pub before_uid : Option ℕ
  pub uid_validity : Option ℕ

pub record MessagesPage : Type 0 where
  pub mailbox_id : String
  pub folder : String
  pub messages : List MessageSummary
  pub uid_validity : Option ℕ
  pub next_before_uid : Option ℕ

abbrev pub same_presence : Cursor → Bool
same_presence cursor =
    if is_none cursor.before_uid
    then is_none cursor.uid_validity
    else not (is_none cursor.uid_validity)

abbrev pub page_input : String → ℕ → Cursor → FolderSearchInput
page_input folder limit cursor = record {
  folder = folder;
  free_text = none;
  from = none;
  to = none;
  cc = none;
  subject = none;
  after = none;
  before = none;
  unread_only = none;
  has_attachment = none;
  thread_identifiers = [];
  before_uid = cursor.before_uid;
  expected_uid_validity = cursor.uid_validity;
  page_by_uid = true;
  limit = suc limit;
}

abbrev pub head : {A : Type 0} → List A → Option A
head [] = none
head (x ∷ xs) = some x

abbrev pub validity_of : Option RawMessageSummary → Option ℕ
validity_of message = bind_option message (λ m. some m.uid_validity)

abbrev pub differs_from : Option ℕ → RawMessageSummary → Bool
differs_from none message = false
differs_from (some uid_validity) message = not (message.uid_validity == uid_validity)

-- A message of another UIDVALIDITY than expected, or than the first one.
abbrev pub is_stale : Option ℕ → List RawMessageSummary → Bool
is_stale expected ordered =
    any (differs_from expected) ordered || any (differs_from (validity_of (head ordered))) ordered

abbrev pub to_page :
    Ids → MailboxConfig → String → ℕ → Option ℕ → List RawMessageSummary → MessagesPage
to_page ids mailbox folder limit expected ordered =
    let page = take limit ordered in
    record {
      mailbox_id = mailbox.id;
      folder = folder;
      messages = map (summary ids mailbox) page;
      uid_validity = or_else (validity_of (head page)) expected;
      next_before_uid =
          if ltb limit (length ordered) then bind_option (last page) (λ m. some m.uid) else none;
    }

-- `limit`
unfoldable pub page_size : ℕ → ℕ
page_size asked = min (max asked 1) 100

-- `lower` is toLowerCase, `now` the time, and `cached` the entry of the mailbox in the folder cache.
module _ (mailboxes : List MailboxConfig) (ids : Ids) (connect : MailboxConfig → Client)
    (snippet : Option String → Option String) (lower : String → String) (now : ℕ)
    (cached : Option CachedFolders) where
  unfoldable pub list_messages_page : String → String → ℕ → Cursor → Result MessagesPage
  unfolding any sort_by
  list_messages_page mailbox_id folder asked cursor = do
    _ ← require_ok (same_presence cursor) (coded invalid_argument)
    mailbox ← get_mailbox mailboxes mailbox_id true
    _ ←
        resolve_search_folders lower now cached (discover_folders (connect mailbox)) mailbox
          (folder ∷ [])
    let limit = page_size asked
    raw ← search snippet (connect mailbox) (page_input folder limit cursor)
    let ordered = sort_by later_uid raw
    _ ←
        require_ok (not (is_stale cursor.uid_validity ordered))
          (coded (other_code "UIDVALIDITY_CHANGED"))
    ok (to_page ids mailbox folder limit cursor.uid_validity ordered)
