-- ===== src/Mail/Fanout/Allowed.antt =====
-- Which folders are searched, and of which folder an answer is.
use mailbridge_mcp.Common.{Bool-cases}
use mailbridge_mcp.Common.Every.{All-mono}
use mailbridge_mcp.Mail.Folders.{outside_of}
use mailbridge_mcp.Common.{if-elim}
use mailbridge_mcp.Common.{Bool, false, any}
use mailbridge_mcp.Mail.Folders.{refuse_outside}
use mailbridge_mcp.Mail.Folders.{selectable_folders}
use mailbridge_mcp.Common.Text.{is_empty, unique}
use mailbridge_mcp.Common.{find, delete_where}
use mailbridge_mcp.Imap.Search.{build_search_query}
use mailbridge_mcp.Imap.Search.{is_expected}
use mailbridge_mcp.Imap.Adapter.{require_ok}
use mailbridge_mcp.Mail.Folders.{access_cases}
use mailbridge_mcp.Common.{Option-cases}
use mailbridge_mcp.Send.Policy.{>>=-eq-ok, ◌>>=◌}
use mailbridge_mcp.Common.{
  ℕ, ◌≡◌, refl, inl, inr, String, true, Option, List, [], ◌∷◌, arith, str_eq, eq_iff, Result, ok,
  find-holds,
}
use mathlib.Core.List.{reverse}
use mathlib.Core.Path.{subst}
use mailbridge_mcp.Common.Tables.{All}
use mailbridge_mcp.Common.Every.{All-take, All-select, All-map, All-every}
use mailbridge_mcp.Common.Sorting.{All-sort_by}
use mailbridge_mcp.Config.Registry.{
  MailboxConfig, FolderAccess, lookup_mailbox, get_mailbox, assert_folder_allowed,
}
use mailbridge_mcp.Imap.Failures.{caught}
use mailbridge_mcp.Imap.Adapter.{Client}
use mailbridge_mcp.Imap.Messages.{RawMessageSummary, to_summary}
use mailbridge_mcp.Imap.Search.{
  FolderSearchInput, FolderSummary, search, fetch_candidates, results, is_wanted, earlier_in,
}
use mailbridge_mcp.Mail.Folders.{
  CachedFolders, assert_all_allowed, requested_or, resolve_search_folders,
}

pub ok-injective : {A : Type 0} {a b : A} → ok a ≡ ok b → a ≡ b
ok-injective {a} {b} e = ground (arith, e)

abbrev pub IsAllowed : MailboxConfig → String → Type 0
IsAllowed mailbox folder = assert_folder_allowed mailbox folder ≡ ok tt

abbrev pub IsNamed : String → Type 0
IsNamed folder = is_empty folder ≡ false

-- The folder is among those that the mailbox's entry of the cache or else its server tells as
-- selectable.
pub record IsSelectable (lower : String → String) (now : ℕ) (cached : Option CachedFolders)
    (discovered : Result (List FolderSummary)) (folder : String) : Type 0 where
  pub entry : CachedFolders
  pub told : selectable_folders lower now cached discovered ≡ ok entry
  pub inside : any (λ f. str_eq f folder) entry.folders ≡ true

abbrev pub EitherAccess : FolderAccess → Type 0 → Type 0 → Type 0
EitherAccess FolderAccess.allowlist P Q = P
EitherAccess FolderAccess.all_selectable P Q = Q

-- A folder that may be searched: on the allowlist, or selectable where every such folder is open.
abbrev pub IsOpen :
    (String → String)
    → ℕ
    → Option CachedFolders
    → Result (List FolderSummary)
    → MailboxConfig
    → String
    → Type 0
IsOpen lower now cached discovered mailbox folder =
    EitherAccess mailbox.folder_access (IsAllowed mailbox folder)
      (IsSelectable lower now cached discovered folder)

-- No folder that is searched when none is asked for has the empty name.
abbrev pub HasNames :
    (String → String) → ℕ → Option CachedFolders → Result (List FolderSummary) → Type 0
HasNames lower now cached discovered =
    (entry : CachedFolders)
    → selectable_folders lower now cached discovered ≡ ok entry
    → All IsNamed entry.default_search_folders

-- A check of a list of folders that passes allows each of them.
assert_all_allowed-IsAllowed :
    (mailbox : MailboxConfig) (folders : List String)
    → assert_all_allowed mailbox folders ≡ ok tt
    → All (IsAllowed mailbox) folders
unfolding assert_all_allowed
assert_all_allowed-IsAllowed mailbox [] h = tt
assert_all_allowed-IsAllowed mailbox (folder ∷ rest) h =
    let (_, first, others) = >>=-eq-ok (assert_folder_allowed mailbox folder) _ h in
    (first, assert_all_allowed-IsAllowed mailbox rest others)

-- A check of the first folder outside is one of all folders, as long as each has a name.
outside_of-inside :
    (selectable folders : List String)
    → All IsNamed folders
    → refuse_outside (outside_of selectable folders) ≡ ok tt
    → All (λ folder. any (λ f. str_eq f folder) selectable ≡ true) folders
unfolding find
outside_of-inside selectable [] named h = tt
outside_of-inside selectable (folder ∷ rest) (n, ns) h =
    elim (Bool-cases (any (λ f. str_eq f folder) selectable)) [
      | inl is ↦ (is, outside_of-inside selectable rest ns (ground (arith, is, h)))
      | inr is_not ↦ absurd (ground (arith, is_not, h, n))
    ]

delete_where-All :
    {A : Type 0} (P : A → Type 0) (p : A → Bool) (xs : List A)
    → All P xs
    → All P (delete_where p xs)
unfolding delete_where
delete_where-All P p [] h = tt
delete_where-All P p (x ∷ xs) (h, hs) =
    if-elim (All P) (p x) (λ _. delete_where-All P p xs hs) (λ _. (h, delete_where-All P p xs hs))

unique-All : (P : String → Type 0) (xs : List String) → All P xs → All P (unique xs)
unfolding unique
unique-All P [] h = tt
unique-All P (x ∷ xs) (h, hs) = (h, delete_where-All P _ (unique xs) (unique-All P xs hs))

requested_or-All :
    (P : String → Type 0) (requested others : List String)
    → All P requested
    → All P others
    → All P (requested_or requested others)
requested_or-All P [] others h h' = h'
requested_or-All P (x ∷ xs) others h h' = unique-All P (x ∷ xs) h

module _ (lower : String → String) (now : ℕ) (cached : Option CachedFolders)
    (discovered : Result (List FolderSummary)) (mailbox : MailboxConfig)
    (requested folders : List String) where
  abbrev resolve_listed : Result (List String)
  resolve_listed = do
    let listed = requested_or requested mailbox.allowed_folders
    _ ← assert_all_allowed mailbox listed
    ok listed

  abbrev resolve_selectable : Result (List String)
  resolve_selectable = do
    entry ← selectable_folders lower now cached discovered
    let selected = requested_or requested entry.default_search_folders
    _ ← refuse_outside (outside_of entry.folders selected)
    ok selected

  listed-IsAllowed : resolve_listed ≡ ok folders → All (IsAllowed mailbox) folders
  listed-IsAllowed h =
      let (_, checked, same) =
        >>=-eq-ok (assert_all_allowed mailbox (requested_or requested mailbox.allowed_folders))
          (λ _. ok (requested_or requested mailbox.allowed_folders)) h in
      subst (All (IsAllowed mailbox)) (ok-injective same)
        (assert_all_allowed-IsAllowed mailbox _ checked)

  discovered-IsSelectable :
      All IsNamed requested
      → HasNames lower now cached discovered
      → resolve_selectable ≡ ok folders
      → All (IsSelectable lower now cached discovered) folders
  discovered-IsSelectable named names h =
      let (entry, told, checked) = >>=-eq-ok (selectable_folders lower now cached discovered) _ h in
      let selected = requested_or requested entry.default_search_folders in
      let (_, inside, same) =
        >>=-eq-ok (refuse_outside (outside_of entry.folders selected)) _ checked in
      subst (All (IsSelectable lower now cached discovered)) (ok-injective same) (
        All-mono (λ folder is. record { entry = entry; told = told; inside = is }) selected
          (outside_of-inside entry.folders selected
            (requested_or-All IsNamed requested _ named (names entry told)) inside))

  cases-IsOpen :
      (access : FolderAccess)
      → All IsNamed requested
      → HasNames lower now cached discovered
      → access_cases access resolve_listed resolve_selectable ≡ ok folders
      → All
          (λ folder.
            EitherAccess access
              (IsAllowed mailbox folder)
              (IsSelectable lower now cached discovered folder))
          folders
  cases-IsOpen FolderAccess.allowlist named names h = listed-IsAllowed h
  cases-IsOpen FolderAccess.all_selectable named names h = discovered-IsSelectable named names h

  pub resolve-IsOpen :
      All IsNamed requested
      → HasNames lower now cached discovered
      → resolve_search_folders lower now cached discovered mailbox requested ≡ ok folders
      → All (IsOpen lower now cached discovered mailbox) folders
  unfolding resolve_search_folders
  resolve-IsOpen named names h = cases-IsOpen mailbox.folder_access named names h

-- The mailbox that is got for an identifier has that identifier.
pub get_mailbox-id :
    (mailboxes : List MailboxConfig) (id : String) (mailbox : MailboxConfig)
    → get_mailbox mailboxes id true ≡ ok mailbox
    → mailbox.id ≡ id
unfolding get_mailbox lookup_mailbox
get_mailbox-id mailboxes id mailbox h = elim (Option-cases (lookup_mailbox mailboxes id)) [
  | inl missing ↦ ground (arith, h, missing)
  | inr (m, found) ↦ ground (
    arith,
    h,
    found,
    find-holds (λ (x : MailboxConfig). str_eq x.id id) (reverse mailboxes) m found,
    eq_iff m.id id,
  )
]

fetch_candidates-folder :
    (snippet : Option String → Option String) (client : Client) (input : FolderSearchInput)
    (uid_validity : ℕ) (uids : List ℕ) (messages : List RawMessageSummary)
    → fetch_candidates snippet client input uid_validity uids ≡ ok messages
    → All (λ (m : RawMessageSummary). m.folder ≡ input.folder) messages
unfolding fetch_candidates results to_summary
fetch_candidates-folder snippet client input uid_validity [] messages h =
    subst (All _) (ok-injective h) tt
fetch_candidates-folder snippet client input uid_validity (u ∷ us) messages h =
    let P = (λ (m : RawMessageSummary). m.folder ≡ input.folder) in
    let (fetched, _, same) = >>=-eq-ok (caught (client.fetch_all input.folder (u ∷ us))) _ h in
    subst (All P) (ok-injective same) (
      All-take P input.limit _ (
        All-sort_by (earlier_in input.page_by_uid) P _ (
          All-select P (is_wanted input.has_attachment) _ (
            All-map P (to_summary snippet input.folder uid_validity) fetched
              (All-every _ fetched (λ _. refl))))))

-- The messages that a search of a folder answers with are of that folder.
pub search-folder :
    (snippet : Option String → Option String) (client : Client) (input : FolderSearchInput)
    (messages : List RawMessageSummary)
    → search snippet client input ≡ ok messages
    → All (λ (m : RawMessageSummary). m.folder ≡ input.folder) messages
unfolding search
search-folder snippet client input messages h =
    let (_, _, connected) = >>=-eq-ok client.created _ h in
    let (opened, _, read_only) = >>=-eq-ok (caught (client.open_folder input.folder)) _ connected in
    let (_, _, expected) = >>=-eq-ok (require_ok opened.read_only _) _ read_only in
    let (_, _, searched) =
      >>=-eq-ok (require_ok (is_expected input.expected_uid_validity opened.uid_validity) _) _
        expected in
    let (found, _, fetched) =
      >>=-eq-ok (caught (client.search input.folder (build_search_query input))) _ searched in
    fetch_candidates-folder snippet client input opened.uid_validity _ messages fetched
