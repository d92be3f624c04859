-- ===== src/Store/Mailboxes/Histories.antt =====
-- Sequences of calls of the methods that write mailboxes.
use mailbridge_mcp.Common.{ℕ, String, Bool, List}
use mailbridge_mcp.Domain.Types.{MailboxSettings, MailboxCredentials, MailboxConnectionTestResult}
use mailbridge_mcp.Store.Rows.{Db}
use mailbridge_mcp.Store.Cipher.{Cipher}
use mailbridge_mcp.Store.Mailboxes.{
  create, replace_credentials, update, record_health, add_allowed_folders, set_enabled,
  configure_send, SendInput,
}
use mailbridge_mcp.Store.Mailboxes.Removal.{delete_mailbox, delete_all}
use mailbridge_mcp.Store.Mailboxes.Tested.{
  IsTested, create-IsTested, update-IsTested, replace_credentials-IsTested, record_health-IsTested,
  add_allowed_folders-IsTested, set_enabled-IsTested, configure_send-IsTested,
  delete_mailbox-IsTested, delete_all-IsTested,
}

-- A call of a method that writes mailboxes, with any arguments, whether it returns or throws.
pub data MailboxStep : Db → Db → Type 0 where
  creates :
      (cipher : Cipher) (limit : ℕ) (user mailbox : String) (settings : MailboxSettings)
      (credentials : MailboxCredentials) (test : MailboxConnectionTestResult) (now : ℕ) (db : Db)
      → MailboxStep db (create cipher limit user mailbox settings credentials test now db).1
  updates :
      (user mailbox : String) (settings : MailboxSettings) (now : ℕ) (db : Db)
      → MailboxStep db (update user mailbox settings now db).1
  replaces :
      (cipher : Cipher) (user mailbox : String) (credentials : MailboxCredentials)
      (test : MailboxConnectionTestResult) (now : ℕ) (db : Db)
      → MailboxStep db (replace_credentials cipher user mailbox credentials test now db).1
  checks :
      (user mailbox : String) (test : MailboxConnectionTestResult) (now : ℕ) (db : Db)
      → MailboxStep db (record_health user mailbox test now db).1
  expands :
      (user mailbox : String) (folders : List String) (now : ℕ) (db : Db)
      → MailboxStep db (add_allowed_folders user mailbox folders now db).1
  switches :
      (user mailbox : String) (enabled : Bool) (now : ℕ) (db : Db)
      → MailboxStep db (set_enabled user mailbox enabled now db).1
  configures :
      (user mailbox : String) (input : SendInput) (now : ℕ) (db : Db)
      → MailboxStep db (configure_send user mailbox input now db).1
  deletes :
      (user mailbox : String) (now : ℕ) (db : Db)
      → MailboxStep db (delete_mailbox user mailbox now db).1
  clears : (user : String) (db : Db) → MailboxStep db (delete_all user db).1

pub data MailboxHistory (db : Db) : Db → Type 0 where
  start : MailboxHistory db db
  next : {d e : Db} → MailboxHistory db d → MailboxStep d e → MailboxHistory db e

module _ (u m : String) where
  MailboxStep-IsTested : {d e : Db} → MailboxStep d e → IsTested u m d → IsTested u m e
  MailboxStep-IsTested (creates cipher limit user mailbox settings credentials test now db) h =
      create-IsTested u m user mailbox db h cipher limit settings credentials test now
  MailboxStep-IsTested (updates user mailbox settings now db) h =
      update-IsTested u m user mailbox db h settings now
  MailboxStep-IsTested (replaces cipher user mailbox credentials test now db) h =
      replace_credentials-IsTested u m user mailbox db h cipher credentials test now
  MailboxStep-IsTested (checks user mailbox test now db) h =
      record_health-IsTested u m user mailbox db h test now
  MailboxStep-IsTested (expands user mailbox folders now db) h =
      add_allowed_folders-IsTested u m user mailbox db h folders now
  MailboxStep-IsTested (switches user mailbox enabled now db) h =
      set_enabled-IsTested u m user mailbox db h enabled now
  MailboxStep-IsTested (configures user mailbox input now db) h =
      configure_send-IsTested u m user mailbox db h input now
  MailboxStep-IsTested (deletes user mailbox now db) h =
      delete_mailbox-IsTested u m user mailbox db h now
  MailboxStep-IsTested (clears user db) h = delete_all-IsTested u m user "" db h

  -- After any sequence of calls that write mailboxes, each returning or throwing, a mailbox that is
  -- switched on does not have the status `unknown` that new settings give it, if that held before.
  pub MailboxHistory-IsTested : {d e : Db} → MailboxHistory d e → IsTested u m d → IsTested u m e
  MailboxHistory-IsTested start h = h
  MailboxHistory-IsTested (next steps s) h =
      MailboxStep-IsTested s (MailboxHistory-IsTested steps h)
