-- ===== src/Tests/MailRuns.antt =====
-- Runs of the reading of attachments and sources.
use mailbridge_mcp.Mail.Folders.{CachedFolders}
use mailbridge_mcp.Config.Registry.{FolderAccess}
use mailbridge_mcp.Common.{String}
use mailbridge_mcp.Mail.Fanout.{run_searches}
use mailbridge_mcp.Mail.Fanout.{plan_searches}
use mailbridge_mcp.Mail.Fanout.{
  search_fanout, SearchMessagesResult, SearchMessagesInput, FolderTask,
}
use mailbridge_mcp.Imap.Search.{
  discover_folders, fetch_candidates, results, candidates_for, build_search_query, search,
}
use mailbridge_mcp.Mail.Listing.{page_size, list_messages_page}
use mailbridge_mcp.Mail.Folders.{resolve_search_folders, selectable_folders, assert_all_allowed}
use mailbridge_mcp.Common.Sorting.{insert_by, sort_by}
use mailbridge_mcp.Common.{
  select, map, ◌≡◌, refl, ℕ, some, none, [], ◌∷◌, List, arith, find, any, length, ok, err, Option,
  true, false,
}
use mailbridge_mcp.Common.Text.{unique}
use mailbridge_mcp.Mail.Listing.Whole.{list_messages_page-whole, shown_summary}
use mailbridge_mcp.Mail.Summaries.{summary}
use mailbridge_mcp.Common.Sorting.Numbers.{down}
use mailbridge_mcp.Imap.Download.Window.{window, read_stream-window}
use mailbridge_mcp.Imap.Messages.{to_summary, FetchMessageObject}
use mathlib.Core.List.{reverse_perm, reverse}
use mailbridge_mcp.Mail.Listing.Reader.{read_pages, IsListed}
use mailbridge_mcp.Common.Slices.{take, drop, concat}
use mailbridge_mcp.Domain.Errors.{coded, other_code}
use mailbridge_mcp.Config.Registry.{
  MailboxConfig, lookup_mailbox, get_mailbox, assert_folder_allowed,
}
use mailbridge_mcp.Imap.Failures.{replied, caught}
use mailbridge_mcp.Imap.Parts.{Node, node, leaf, RawAttachment, visit, collect_attachments}
use mailbridge_mcp.Imap.Download.{Stream, read_chunks, read_stream}
use mailbridge_mcp.Imap.Adapter.{
  Client, enter, list_attachment_parts, fetch_attachment, fetch_raw_source_range,
}
use mailbridge_mcp.Mail.Ids.{Locator, Ids}
use mailbridge_mcp.Mail.Pages.{read_all}
use mailbridge_mcp.Mail.Attachments.{fetch_content, paged}
use mailbridge_mcp.Mail.Attachments.Whole.{IsServed, fetch_content-whole}
use mailbridge_mcp.Mail.Source.{fetch_raw_message, source_paged}
use mailbridge_mcp.Mail.Source.Whole.{IsOffered, fetch_raw_message-whole, fetch_raw_message-end}
use mailbridge_mcp.Tests.Data.{mailbox}

mail_code : Unit {0}
unfolding find any lookup_mailbox get_mailbox assert_folder_allowed caught visit collect_attachments
    read_chunks read_stream enter list_attachment_parts fetch_attachment fetch_raw_source_range
    read_all fetch_content fetch_raw_message unique select sort_by insert_by assert_all_allowed
    selectable_folders resolve_search_folders to_summary build_search_query candidates_for results
    fetch_candidates search page_size list_messages_page discover_folders search_fanout
    plan_searches run_searches
mail_code = tt

abbrev bytes : List ℕ
bytes = 1 ∷ 2 ∷ 3 ∷ 4 ∷ []

abbrev stream : Stream
stream = record { chunks = (1 ∷ 2 ∷ 3 ∷ []) ∷ (4 ∷ []) ∷ []; ending = none }

abbrev message : Node
message =
    node
      (record {
        part = some "2";
        filename = some "a.pdf";
        disposition = some "attachment";
        mime_type = "application/pdf";
        size = some 4;
      })
      leaf

abbrev the_attachment : RawAttachment
the_attachment = record {
  part = "2";
  filename = some "a.pdf";
  mime_type = "application/pdf";
  size = some 4;
  disposition = some "attachment";
  inline = false;
}

abbrev fetched : ℕ → FetchMessageObject
fetched uid = record {
  uid = uid;
  flags = [];
  envelope = none;
  internal_date = none;
  body_structure = none;
  mail = none;
}

-- A server that tells `total` as the size of a source.
unfoldable client : Option ℕ → MailboxConfig → Client
client total account = record {
  created = ok tt;
  open_folder = λ folder. replied (record { read_only = true; uid_validity = 7 });
  structure = λ folder uid. replied (some (some message));
  source = λ folder uid offset n.
      replied (some (record { bytes = take n (drop offset bytes); total_size = total }));
  download = λ folder uid part. replied stream;
  list = replied [];
  search = λ folder query. replied (some (5 ∷ 9 ∷ 3 ∷ []));
  fetch_all = λ folder uids. replied (map fetched (reverse uids));
}

abbrev locator : Locator
locator = record { mailbox_id = "m1"; folder_id = "INBOX"; uid_validity = 7; uid = 3 }

abbrev ids : Ids
ids = record { encode = λ l. "s"; decode = λ s. ok locator; opaque_attachment_id = λ s part. part }

served : IsServed (mailbox ∷ []) ids (client none) "s" "2" bytes
unfolding mail_code client
served = record {
  locator = locator;
  mailbox = mailbox;
  folder = record { read_only = true; uid_validity = 7 };
  structure = some message;
  part = the_attachment;
  stream = stream;
  decoded = refl;
  known = refl;
  allowed = refl;
  created = refl;
  opened = refl;
  read_only = refl;
  valid = refl;
  structured = refl;
  offered = refl;
  downloads = refl;
  complete = refl;
  whole = refl;
}

offered : (total : Option ℕ) → IsOffered (mailbox ∷ []) ids (client total) "s" bytes total
unfolding mail_code client
offered total = record {
  locator = locator;
  mailbox = mailbox;
  folder = record { read_only = true; uid_validity = 7 };
  decoded = refl;
  known = refl;
  allowed = refl;
  created = refl;
  opened = refl;
  read_only = refl;
  valid = refl;
  ranges = λ offset n. refl;
}

reads_middle : read_stream 2 1 stream ≡ ok (record { bytes = 3 ∷ []; truncated = true })
unfolding mail_code
reads_middle = refl

read_stream-window_example :
    read_stream 2 1 stream ≡ window 1 (drop 2 (concat stream.chunks)) stream.ending
read_stream-window_example = read_stream-window 2 1 stream

fetch_content-whole_example :
    read_all
      (λ offset. paged (fetch_content (mailbox ∷ []) ids (client none) 9 "s" "2" 3 offset))
      5
      0
    ≡ ok bytes
fetch_content-whole_example =
    fetch_content-whole (mailbox ∷ []) ids (client none) "s" "2" bytes served 9 3 (omega arith) 5
      (omega arith)

fetch_raw_message-whole_example :
    read_all
      (λ offset.
        source_paged (fetch_raw_message (mailbox ∷ []) ids (client (some 4)) 9 "s" 3 offset))
      5
      0
    ≡ ok bytes
fetch_raw_message-whole_example =
    fetch_raw_message-whole (mailbox ∷ []) ids (client (some 4)) "s" bytes 9 3 (omega arith)
      (offered (some 4)) 5 (omega arith)

fetch_raw_message-end_example :
    (source_paged (fetch_raw_message (mailbox ∷ []) ids (client none) 9 "s" 2 2)
      ≡ ok (record { bytes = drop 2 bytes; next_offset = some (length bytes) }))
    × (source_paged (fetch_raw_message (mailbox ∷ []) ids (client none) 9 "s" 2 (length bytes))
        ≡ err (coded (other_code "RAW_SOURCE_UNAVAILABLE")))
fetch_raw_message-end_example =
    fetch_raw_message-end (mailbox ∷ []) ids (client none) "s" bytes 9 2 (omega arith)
      (offered none) 2 (omega arith)

listed :
    IsListed (mailbox ∷ []) (client none) (λ s. s) 0 none "m1" "INBOX" (5 ∷ 9 ∷ 3 ∷ []) fetched 7
unfolding mail_code client
listed = record {
  mailbox = mailbox;
  folders = "INBOX" ∷ [];
  order = reverse;
  known = refl;
  allowed = refl;
  created = refl;
  opened = refl;
  searched = refl;
  fetched = λ us. refl;
  complete = reverse_perm;
  distinct = ((omega arith, (omega arith, tt)), ((omega arith, tt), (tt, tt)));
  numbered = λ uid. refl;
}

-- The first page of two messages.
lists_two :
    list_messages_page
      (mailbox ∷ [])
      ids
      (client none)
      (λ s. s)
      (λ s. s)
      0
      none
      "m1"
      "INBOX"
      2
      (record { before_uid = none; uid_validity = none })
    ≡ ok (record {
      mailbox_id = "m1";
      folder = "INBOX";
      messages =
          map
            (λ uid. summary ids mailbox (to_summary (λ s. s) "INBOX" 7 (fetched uid)))
            (9 ∷ 5 ∷ []);
      uid_validity = some 7;
      next_before_uid = some 5;
    })
unfolding mail_code client
lists_two = refl

list_messages_page-whole_example :
    read_pages
      (list_messages_page (mailbox ∷ []) ids (client none) (λ s. s) (λ s. s) 0 none "m1" "INBOX" 2)
      4
      (record { before_uid = none; uid_validity = none })
    ≡ ok (
        map
          (shown_summary
            (mailbox ∷ [])
            ids
            (client none)
            (λ s. s)
            (λ s. s)
            0
            none
            "m1"
            "INBOX"
            (5 ∷ 9 ∷ 3 ∷ [])
            fetched
            7
            listed)
          (down (5 ∷ 9 ∷ 3 ∷ [])))
list_messages_page-whole_example =
    list_messages_page-whole (mailbox ∷ []) ids (client none) (λ s. s) (λ s. s) 0 none "m1" "INBOX"
      (5 ∷ 9 ∷ 3 ∷ []) fetched 7 listed 2 4 (omega arith)

abbrev asked : SearchMessagesInput
asked = record {
  mailbox_ids = "m1" ∷ "m1" ∷ [];
  folders = [];
  free_text = some "invoice";
  from = none;
  to = none;
  cc = none;
  subject = none;
  after = none;
  before = none;
  unread_only = none;
  has_attachment = none;
  limit = 2;
}

abbrev in_order : List FolderTask → List FolderTask
in_order tasks = tasks

-- A mailbox of which every selectable folder is open, with its entry of the cache.
abbrev open_mailbox : MailboxConfig
open_mailbox = record mailbox { folder_access = FolderAccess.all_selectable }

abbrev cached : String → Option CachedFolders
cached id = some (record {
  folders = "INBOX" ∷ "Sent" ∷ [];
  default_search_folders = "INBOX" ∷ [];
  expires_at = 10;
})

abbrev answered : SearchMessagesResult
answered = record {
  messages =
      map (λ uid. summary ids open_mailbox (to_summary (λ s. s) "INBOX" 7 (fetched uid)))
        (3 ∷ 5 ∷ []);
  partial_failures = [];
  truncated = true;
}
