-- ===== src/Mail/Fanout/Confined.antt =====
-- Which messages a search shows, and in which order.
use mailbridge_mcp.Common.{ℕ, ◌≡◌, String, true, Option, List, str_eq, any, ok}
use mailbridge_mcp.Config.Registry.{MailboxConfig, get_mailbox}
use mailbridge_mcp.Imap.Adapter.{Client}
use mailbridge_mcp.Imap.Search.{discover_folders}
use mailbridge_mcp.Mail.Ids.{Ids}
use mailbridge_mcp.Mail.Folders.{CachedFolders}
use mailbridge_mcp.Mail.Summaries.{MessageSummary}
use mailbridge_mcp.Mail.Fanout.{FolderTask}
use mailbridge_mcp.Mail.Fanout.Allowed.{IsOpen, HasNames}

module _ (mailboxes : List MailboxConfig) (ids : Ids) (connect : MailboxConfig → Client)
    (snippet : Option String → Option String) (lower : String → String) (now : ℕ)
    (cached : String → Option CachedFolders) (arrival : List FolderTask → List FolderTask) where
  abbrev pub MayBeRead : MailboxConfig → String → Type 0
  MayBeRead mailbox folder =
      IsOpen lower now (cached mailbox.id) (discover_folders (connect mailbox)) mailbox folder

  -- A message that a search may show: it is of a folder that may be read, of a mailbox that is asked
  -- for, known and switched on.
  pub record IsShown (requested : List String) (message : MessageSummary) : Type 0 where
    pub mailbox : MailboxConfig
    pub known : get_mailbox mailboxes message.mailbox_id true ≡ ok mailbox
    pub asked : any (str_eq message.mailbox_id) requested ≡ true
    pub allowed : MayBeRead mailbox message.folder

  -- No mailbox has a folder with the empty name among those searched when none is asked for.
  abbrev pub HasFolderNames : Type 0
  HasFolderNames =
      (mailbox : MailboxConfig)
      → HasNames lower now (cached mailbox.id) (discover_folders (connect mailbox))

  record IsConfined (requested : List String) (task : FolderTask) : Type 0 where
    known : get_mailbox mailboxes task.mailbox.id true ≡ ok task.mailbox
    asked : any (str_eq task.mailbox.id) requested ≡ true
    allowed : MayBeRead task.mailbox task.folder
