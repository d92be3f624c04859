-- ===== src/Imap/Search.antt =====
-- src/imap/imapFlowAdapter.ts: buildSearchQuery, search, discoverFolders and listFolders.
use mailbridge_mcp.Common.{
  ◌&&◌, ℕ, ◌*◌, String, Bool, true, false, not, Option, none, some, List, [], ◌∷◌, map, str_eq,
  ◌==◌, ltb, any, select, if◌then◌else◌, Result, ok,
}
use mathlib.Core.List.{reverse}
use mailbridge_mcp.Common.Slices.{take}
use mailbridge_mcp.Common.Sorting.{sort_by}
use mailbridge_mcp.Send.Policy.{◌>>=◌}
use mailbridge_mcp.Domain.Errors.{coded, other_code}
use mailbridge_mcp.Imap.Failures.{caught}
use mailbridge_mcp.Imap.Messages.{RawMessageSummary, given, default_to, to_summary}
use mailbridge_mcp.Imap.Adapter.{
  Client, ListedFolder, SearchObject, HeaderTerm, require_ok, min, max,
}

pub record FolderSearchInput : Type 0 where
  pub folder : String
  pub free_text : Option String
  pub from : Option String
  pub to : Option String
  pub cc : Option String
  pub subject : Option String
  pub after : Option ℕ
  pub before : Option ℕ
  pub unread_only : Option Bool
  pub has_attachment : Option Bool
  pub thread_identifiers : List String
  pub before_uid : Option ℕ
  pub expected_uid_validity : Option ℕ
  pub page_by_uid : Bool
  pub limit : ℕ

abbrev pub alternatives : List String → List HeaderTerm
alternatives [] = []
alternatives (identifier ∷ rest) =
    HeaderTerm.message_id identifier
    ∷ HeaderTerm.in_reply_to identifier
    ∷ HeaderTerm.references identifier
    ∷ alternatives rest

abbrev pub is_none : {A : Type 0} → Option A → Bool
is_none none = true
is_none (some a) = false

abbrev pub is_nil : {A : Type 0} → List A → Bool
is_nil [] = true
is_nil (a ∷ rest) = false

-- `Object.keys(query).length === 0`
abbrev pub has_no_key : SearchObject → Bool
has_no_key query =
    is_none query.text
    && (is_none query.from
        && (is_none query.to
            && (is_none query.cc
                && (is_none query.subject
                    && (is_none query.since
                        && (is_none query.before && (not query.unseen && is_nil query.any_of)))))))

-- `or` has three alternatives for each identifier, so it never has just one.
unfoldable pub build_search_query : FolderSearchInput → SearchObject
build_search_query input =
    let query : SearchObject = record {
      text = given input.free_text;
      from = given input.from;
      to = given input.to;
      cc = given input.cc;
      subject = given input.subject;
      since = input.after;
      before = input.before;
      unseen = default_to false input.unread_only;
      any_of = alternatives (take 20 input.thread_identifiers);
      all = false;
    } in
    record query { all = has_no_key query }

-- `uids.filter((uid) => uid < before_uid)`
abbrev pub eligible_below : Option ℕ → List ℕ → List ℕ
eligible_below none uids = uids
eligible_below (some bound) uids = select (λ uid. ltb uid bound) uids

-- `slice(-n).reverse()`; `slice(-0)` is the whole list.
abbrev pub newest : ℕ → List ℕ → List ℕ
newest n uids = if n == 0 then reverse uids else take n (reverse uids)

abbrev pub candidate_limit : FolderSearchInput → ℕ
candidate_limit input =
    if input.page_by_uid then input.limit else min (max (input.limit * 5) 50) 500

unfoldable pub candidates_for : FolderSearchInput → List ℕ → List ℕ
unfolding select sort_by
candidates_for input uids =
    newest (candidate_limit input) (sort_by ltb (eligible_below input.before_uid uids))

abbrev pub same_bool : Bool → Bool → Bool
same_bool true b = b
same_bool false b = not b

abbrev pub is_wanted : Option Bool → RawMessageSummary → Bool
is_wanted none message = true
is_wanted (some wanted) message = same_bool wanted (not (is_nil message.attachments))

abbrev pub later_uid : RawMessageSummary → RawMessageSummary → Bool
later_uid a b = ltb b.uid a.uid

abbrev pub later_received : RawMessageSummary → RawMessageSummary → Bool
later_received a b = ltb b.received_at a.received_at

abbrev pub earlier_in : Bool → RawMessageSummary → RawMessageSummary → Bool
earlier_in true = later_uid
earlier_in false = later_received

unfoldable pub results : FolderSearchInput → List RawMessageSummary → List RawMessageSummary
unfolding select sort_by
results input summaries =
    take input.limit
      (sort_by (earlier_in input.page_by_uid) (select (is_wanted input.has_attachment) summaries))

abbrev pub uids_of : Option (List ℕ) → List ℕ
uids_of none = []
uids_of (some uids) = uids

abbrev pub is_expected : Option ℕ → ℕ → Bool
is_expected none uid_validity = true
is_expected (some expected) uid_validity = uid_validity == expected

-- `snippet` is textSnippet of src/security/content.ts.
module _ (snippet : Option String → Option String) (client : Client) where
  unfoldable pub fetch_candidates : FolderSearchInput → ℕ → List ℕ → Result (List RawMessageSummary)
  unfolding caught to_summary results
  fetch_candidates input uid_validity [] = ok []
  fetch_candidates input uid_validity (uid ∷ uids) = do
    messages ← caught (client.fetch_all input.folder (uid ∷ uids))
    ok (results input (map (to_summary snippet input.folder uid_validity) messages))

  unfoldable pub search : FolderSearchInput → Result (List RawMessageSummary)
  unfolding caught build_search_query candidates_for fetch_candidates
  search input = do
    _ ← client.created
    opened ← caught (client.open_folder input.folder)
    _ ← require_ok opened.read_only (coded (other_code "READ_ONLY_INVARIANT_FAILED"))
    _ ←
        require_ok (is_expected input.expected_uid_validity opened.uid_validity)
          (coded (other_code "UIDVALIDITY_CHANGED"))
    found ← caught (client.search input.folder (build_search_query input))
    fetch_candidates input opened.uid_validity (candidates_for input (uids_of found))

pub record FolderSummary : Type 0 where
  pub folder_id : String
  pub display_name : String
  pub special_use : Option String
  pub selectable : Bool
  pub message_count : Option ℕ
  pub unread_count : Option ℕ

abbrev pub to_folder : ListedFolder → FolderSummary
to_folder folder = record {
  folder_id = folder.path;
  display_name = folder.name;
  special_use = folder.special_use;
  selectable = not (any (λ f. str_eq f "\\Noselect") folder.flags);
  message_count = folder.messages;
  unread_count = folder.unseen;
}

unfoldable pub discover_folders : Client → Result (List FolderSummary)
unfolding caught any
discover_folders client = do
  _ ← client.created
  folders ← caught client.list
  ok (map to_folder folders)

unfoldable pub list_folders : List String → Client → Result (List FolderSummary)
unfolding discover_folders any select
list_folders allowed_folders client = do
  folders ← discover_folders client
  ok (select (λ (f : FolderSummary). any (λ a. str_eq a f.folder_id) allowed_folders) folders)
