-- ===== src/Mail/Folders.antt =====
-- src/services/mailService.ts: #selectableFolders and #resolveSearchFolders.
use mailbridge_mcp.Common.{
  ℕ, ◌+◌, String, Bool, false, not, ◌||◌, Option, none, some, List, [], ◌∷◌, map, str_eq, ltb, any,
  find, select, if◌then◌else◌, Result, ok, err,
}
use mailbridge_mcp.Common.Text.{unique}
use mailbridge_mcp.Send.Policy.{◌>>=◌}
use mailbridge_mcp.Domain.Errors.{coded, folder_not_allowed}
use mailbridge_mcp.Config.Registry.{MailboxConfig, FolderAccess, assert_folder_allowed}
use mailbridge_mcp.Imap.Parts.{is_text}
use mailbridge_mcp.Imap.Search.{FolderSummary, is_nil}

abbrev pub folder_cache_ttl_ms : ℕ
folder_cache_ttl_ms = 300000

-- An entry of #folderCache.
pub record CachedFolders : Type 0 where
  pub folders : List String
  pub default_search_folders : List String
  pub expires_at : ℕ

abbrev pub has_use : (String → String) → String → FolderSummary → Bool
has_use lower word folder = elim folder.special_use [
  | none ↦ false
  | some special ↦ str_eq (lower special) word
]

abbrev pub is_extra : (String → String) → FolderSummary → Bool
is_extra lower folder =
    has_use lower "\\drafts" folder
    || (has_use lower "\\junk" folder || has_use lower "\\trash" folder)

abbrev pub ids_of : List FolderSummary → List String
ids_of folders = map (λ (f : FolderSummary). f.folder_id) folders

abbrev pub default_folders :
    (String → String) → List FolderSummary → Option FolderSummary → List String
default_folders lower selectable none = ids_of selectable
default_folders lower selectable (some all) = ids_of (all ∷ select (is_extra lower) selectable)

abbrev pub to_cache : (String → String) → ℕ → List FolderSummary → CachedFolders
to_cache lower now discovered =
    let selectable = select (λ (f : FolderSummary). f.selectable) discovered in
    record {
      folders = ids_of selectable;
      default_search_folders =
          default_folders lower selectable (find (has_use lower "\\all") selectable);
      expires_at = now + folder_cache_ttl_ms;
    }

-- The entry of the cache after the call; `discovered` is what discoverFolders comes to.
unfoldable pub selectable_folders :
    (String → String)
    → ℕ
    → Option CachedFolders
    → Result (List FolderSummary)
    → Result CachedFolders
unfolding select find
selectable_folders lower now none discovered = do
  folders ← discovered
  ok (to_cache lower now folders)
selectable_folders lower now (some cached) discovered =
    let fresh = (do folders ← discovered; ok (to_cache lower now folders)) in
    if ltb now cached.expires_at then ok cached else fresh

-- The `for` loop over the folders.
unfoldable pub assert_all_allowed : MailboxConfig → List String → Result (Unit {0})
unfolding assert_folder_allowed
assert_all_allowed mailbox [] = ok tt
assert_all_allowed mailbox (folder ∷ rest) = do
  _ ← assert_folder_allowed mailbox folder
  assert_all_allowed mailbox rest

abbrev pub requested_or : List String → List String → List String
requested_or requested others = if is_nil requested then others else unique requested

abbrev pub outside_of : List String → List String → Option String
outside_of selectable folders = find (λ folder. not (any (λ f. str_eq f folder) selectable)) folders

-- `if (outside)`: an empty name is taken for none.
abbrev pub refuse_outside : Option String → Result (Unit {0})
refuse_outside outside = if is_text outside then err (coded folder_not_allowed) else ok tt

abbrev pub access_cases : {A : Type 0} → FolderAccess → A → A → A
access_cases FolderAccess.allowlist a b = a
access_cases FolderAccess.all_selectable a b = b

-- No folders are asked for where `requested` is missing or empty. `cached` is the mailbox's entry of the
-- cache.
unfoldable pub resolve_search_folders :
    (String → String)
    → ℕ
    → Option CachedFolders
    → Result (List FolderSummary)
    → MailboxConfig
    → List String
    → Result (List String)
unfolding assert_all_allowed selectable_folders unique find any
resolve_search_folders lower now cached discovered mailbox requested =
    let listed = requested_or requested mailbox.allowed_folders in
    access_cases mailbox.folder_access (do _ ← assert_all_allowed mailbox listed; ok listed)
      (do
        entry ← selectable_folders lower now cached discovered
        let folders = requested_or requested entry.default_search_folders
        _ ← refuse_outside (outside_of entry.folders folders)
        ok folders)
