-- ===== src/Mail/Fanout.antt =====
-- src/services/mailService.ts: searchMessages, listRecentMessages and #searchFanout, without the merging
-- of copies in several folders, which only searchKnowledge asks for. The searches of a call run side by
-- side; `arrival` is the order in which they end, and the failures to resolve a mailbox stand first.
pub mod Allowed
pub mod Confined
use mailbridge_mcp.Common.{
  ℕ, String, Bool, true, false, ◌||◌, not, Option, none, some, List, [], ◌∷◌, ◌++◌, map, ltb, leb,
  length, if◌then◌else◌, Result, ok, err,
}
use mailbridge_mcp.Common.Text.{unique}
use mailbridge_mcp.Common.Slices.{take}
use mailbridge_mcp.Common.Sorting.{sort_by}
use mailbridge_mcp.Send.Policy.{◌>>=◌}
use mailbridge_mcp.Domain.Errors.{SafeError, coded, other_code, invalid_argument, safe_error}
use mailbridge_mcp.Config.Registry.{MailboxConfig, get_mailbox}
use mailbridge_mcp.Imap.Parts.{is_text}
use mailbridge_mcp.Imap.Messages.{RawMessageSummary, given}
use mailbridge_mcp.Imap.Adapter.{Client, require_ok, min, max}
use mailbridge_mcp.Imap.Search.{FolderSearchInput, is_none, is_nil, search, discover_folders}
use mailbridge_mcp.Mail.Ids.{Ids}
use mailbridge_mcp.Mail.Folders.{CachedFolders, resolve_search_folders}
use mailbridge_mcp.Mail.Summaries.{MessageSummary, summary}

pub record SearchMessagesInput : Type 0 where
  pub mailbox_ids : List String
  pub folders : List String
  pub free_text : Option String
  pub from : Option String
  pub to : Option String
  pub cc : Option String
  pub subject : Option String
  pub after : Option ℕ
  pub before : Option ℕ
  pub unread_only : Option Bool
  pub has_attachment : Option Bool
  pub limit : ℕ

pub record PartialFailure : Type 0 where
  pub mailbox_id : String
  pub folder : Option String
  pub cause : SafeError

-- A search of one folder.
pub record FolderTask : Type 0 where
  pub mailbox : MailboxConfig
  pub folder : String

-- `tasks` and `failures` when all searches are started.
pub record Plan : Type 0 where
  pub tasks : List FolderTask
  pub failures : List PartialFailure

-- `messages`, `failures` and `folderAtLimit` when all have ended.
pub record Findings : Type 0 where
  pub messages : List MessageSummary
  pub failures : List PartialFailure
  pub folder_at_limit : Bool

pub record SearchMessagesResult : Type 0 where
  pub messages : List MessageSummary
  pub partial_failures : List PartialFailure
  pub truncated : Bool

abbrev pub tasks_of : MailboxConfig → List String → List FolderTask
tasks_of mailbox folders = map (λ folder. record { mailbox = mailbox; folder = folder }) folders

abbrev pub add_mailbox : MailboxConfig → Result (List String) → Plan → Plan
add_mailbox mailbox (ok folders) plan = record plan {
  tasks = tasks_of mailbox folders ++ plan.tasks;
}
add_mailbox mailbox (err e) plan = record plan {
  failures =
      record { mailbox_id = mailbox.id; folder = none; cause = safe_error e } ∷ plan.failures;
}

abbrev pub folder_input : SearchMessagesInput → ℕ → FolderTask → FolderSearchInput
folder_input input limit task = record {
  folder = task.folder;
  free_text = given input.free_text;
  from = given input.from;
  to = given input.to;
  cc = given input.cc;
  subject = given input.subject;
  after = input.after;
  before = input.before;
  unread_only = input.unread_only;
  has_attachment = input.has_attachment;
  thread_identifiers = [];
  before_uid = none;
  expected_uid_validity = none;
  page_by_uid = false;
  limit = min limit task.mailbox.result_limit;
}

abbrev pub add_answer : Ids → FolderTask → ℕ → Result (List RawMessageSummary) → Findings → Findings
add_answer ids task limit (ok raw) rest = record rest {
  messages = map (summary ids task.mailbox) raw ++ rest.messages;
  folder_at_limit = leb limit (length raw) || rest.folder_at_limit;
}
add_answer ids task limit (err e) rest = record rest {
  failures =
      record { mailbox_id = task.mailbox.id; folder = some task.folder; cause = safe_error e }
      ∷ rest.failures;
}

abbrev pub later_message : MessageSummary → MessageSummary → Bool
later_message a b = ltb b.received_at a.received_at

abbrev pub is_count : List String → Bool
is_count requested = if ltb 0 (length requested) then leb (length requested) 20 else false

abbrev pub is_set : Option Bool → Bool
is_set none = false
is_set (some b) = b

abbrev pub has_narrowing_filter : SearchMessagesInput → Bool
has_narrowing_filter input =
    is_text input.free_text
    || (is_text input.from
        || (is_text input.to
            || (is_text input.cc
                || (is_text input.subject
                    || (not (is_none input.after)
                        || (not (is_none input.before)
                            || (is_set input.unread_only
                                || not (is_none input.has_attachment))))))))

abbrev pub as_folders : Option String → List String
as_folders none = []
as_folders (some folder) = folder ∷ []

module _ (mailboxes : List MailboxConfig) (ids : Ids) (connect : MailboxConfig → Client)
    (snippet : Option String → Option String) (lower : String → String) (now : ℕ)
    (cached : String → Option CachedFolders) (arrival : List FolderTask → List FolderTask) where
  -- The `for` loop over the mailboxes.
  unfoldable pub plan_searches : SearchMessagesInput → List String → Result Plan
  plan_searches input [] = ok (record { tasks = []; failures = [] })
  plan_searches input (mailbox_id ∷ rest) = do
    mailbox ← get_mailbox mailboxes mailbox_id true
    later ← plan_searches input rest
    ok (
        add_mailbox mailbox
          (resolve_search_folders lower now (cached mailbox.id) (discover_folders (connect mailbox))
            mailbox input.folders)
          later)

  unfoldable pub run_searches : SearchMessagesInput → ℕ → List FolderTask → Findings
  unfolding search
  run_searches input limit [] = record { messages = []; failures = []; folder_at_limit = false }
  run_searches input limit (task ∷ rest) =
      add_answer ids task (min limit task.mailbox.result_limit)
        (search snippet (connect task.mailbox) (folder_input input limit task))
        (run_searches input limit rest)

  unfoldable pub search_fanout : SearchMessagesInput → Result SearchMessagesResult
  unfolding unique plan_searches run_searches sort_by
  search_fanout input = do
    let requested = unique input.mailbox_ids
    _ ← require_ok (is_count requested) (coded invalid_argument)
    let limit = min (max input.limit 1) 200
    plan ← plan_searches input requested
    let found = run_searches input limit (arrival plan.tasks)
    let ordered = sort_by later_message found.messages
    ok (record {
      messages = take limit ordered;
      partial_failures = plan.failures ++ found.failures;
      truncated = found.folder_at_limit || ltb limit (length ordered);
    })

  unfoldable pub search_messages : SearchMessagesInput → Result SearchMessagesResult
  unfolding search_fanout
  search_messages input = do
    _ ← require_ok (has_narrowing_filter input) (coded (other_code "UNBOUNDED_SEARCH_REJECTED"))
    search_fanout input

  -- `folder` is none where it is missing or empty.
  unfoldable pub list_recent_messages :
      List String
      → Option String
      → ℕ
      → Option Bool
      → Option ℕ
      → Option ℕ
      → Result SearchMessagesResult
  unfolding search_fanout
  list_recent_messages mailbox_ids folder limit unread_only after before = search_fanout (record {
    mailbox_ids = mailbox_ids;
    folders = as_folders (given folder);
    free_text = none;
    from = none;
    to = none;
    cc = none;
    subject = none;
    after = after;
    before = before;
    unread_only = unread_only;
    has_attachment = none;
    limit = limit;
  })
