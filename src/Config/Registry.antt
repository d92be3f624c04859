-- ===== src/Config/Registry.antt =====
-- src/config/schema.ts (a mailbox) and src/config/registry.ts.
use mathlib.Core.List.{reverse}
use mailbridge_mcp.Common.{
  ℕ, String, Bool, not, ◌&&◌, Option, none, some, List, str_eq, find, any, if◌then◌else◌, Result,
  ok, err,
}
use mailbridge_mcp.Domain.Errors.{coded, mailbox_not_found, mailbox_disabled, folder_not_allowed}
use mailbridge_mcp.Domain.Types.{TlsMode}

pub data FolderAccess : Type 0 where
  allowlist all_selectable : FolderAccess

pub record BrandHints : Type 0 where
  pub organisation_names : List String
  pub domains : List String
  pub is_private : Bool

-- Without `purpose`, `tags`, `send_transport` and the names of the secrets, which no method here reads.
pub record MailboxConfig : Type 0 where
  pub id : String
  pub display_name : String
  pub email : String
  pub brand : String
  pub imap_host : String
  pub imap_port : ℕ
  pub tls : Bool
  pub send_enabled : Bool
  pub smtp_host : Option String
  pub smtp_port : ℕ
  pub smtp_tls_mode : TlsMode
  pub enabled : Bool
  pub folder_access : FolderAccess
  pub allowed_folders : List String
  pub result_limit : ℕ
  pub brand_hints : BrandHints

-- The map is built from the list in order, so a later mailbox of an identifier replaces an earlier.
unfoldable pub lookup_mailbox : List MailboxConfig → String → Option MailboxConfig
unfolding find
lookup_mailbox mailboxes id = find (λ m. str_eq m.id id) (reverse mailboxes)

abbrev checked : Bool → Option MailboxConfig → Result MailboxConfig
checked require_enabled none = err (coded mailbox_not_found)
checked require_enabled (some mailbox) =
    if require_enabled && not mailbox.enabled then err (coded mailbox_disabled) else ok mailbox

unfoldable pub get_mailbox : List MailboxConfig → String → Bool → Result MailboxConfig
unfolding lookup_mailbox
get_mailbox mailboxes id require_enabled = checked require_enabled (lookup_mailbox mailboxes id)

abbrev folder_verdict : FolderAccess → Bool → Result (Unit {0})
folder_verdict all_selectable listed = ok tt
folder_verdict allowlist listed = if listed then ok tt else err (coded folder_not_allowed)

unfoldable pub assert_folder_allowed : MailboxConfig → String → Result (Unit {0})
assert_folder_allowed mailbox folder =
    folder_verdict mailbox.folder_access (any (λ f. str_eq f folder) mailbox.allowed_folders)
