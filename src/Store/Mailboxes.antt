-- ===== src/Store/Mailboxes.antt =====
-- src/app/store.ts: get, and create to configureSend. The result of a connection
-- test is an argument.
pub mod Removal
pub mod Tested
pub mod Histories
pub mod Deletion
pub mod Isolation
use mailbridge_mcp.Common.{
  ℕ, String, Bool, true, false, not, ◌&&◌, Option, none, some, List, [], ◌∷◌, ◌++◌, map, str_eq,
  ◌==◌, ltb, leb, find, any, update_where, delete_where, select, count_where, length, if◌then◌else◌,
  Exec, pure, throw_if, lift, gets, modify, or_throw, transaction, ◌>>=◌, ◌>>◌,
}
use mailbridge_mcp.Common.Text.{unique, trim, is_empty}
use mailbridge_mcp.Domain.Errors.{plain}
use mailbridge_mcp.Domain.Types.{
  MailboxSettings, MailboxView, MailboxCredentials, MailboxConnectionTestResult, ConnectionStatus,
  TlsMode,
}
use mailbridge_mcp.Store.Rows.{
  Db, UserRow, MailboxRow, AuditRow, DraftRow, ConfirmationRow, SendOperationRow, RateEventRow,
  is_mailbox, is_draft, has_operation_id, insert_row, audit,
}
use mailbridge_mcp.Store.Cipher.{Cipher}
use mailbridge_mcp.Store.Policies.{row}

abbrev pub to_view : MailboxRow → MailboxView
to_view row = record {
  mailbox_id = row.mailbox_id;
  settings = row.settings;
  connection_status = row.last_health_status;
  last_successful_check = row.last_successful_check;
  last_error_category = row.last_error_category;
  created_at = row.created_at;
  updated_at = row.updated_at;
}

-- The settings as the folders of them are stored, once each.
abbrev pub stored_settings : MailboxSettings → MailboxSettings
stored_settings settings = record settings { allowed_folders = unique settings.allowed_folders }

unfoldable pub get : String → String → Exec Db MailboxView
unfolding row
get user mailbox = do found ← row user mailbox; pure (to_view found)

-- #ensureUser
unfoldable pub ensure_user : String → ℕ → Exec Db (Unit {0})
unfolding any update_where
ensure_user user now = modify λ db. record db {
  users =
      if any (λ (u : UserRow). str_eq u.user_key user) db.users
      then update_where (λ (u : UserRow). str_eq u.user_key user)
          (λ u. record u { updated_at = now }) db.users
      else db.users ++ record { user_key = user; created_at = now; updated_at = now } ∷ [];
}

abbrev pub of_user : String → MailboxRow → Bool
of_user user row = str_eq row.user_key user

module _ (cipher : Cipher) where
  -- The row that INSERT INTO mailboxes writes.
  abbrev pub new_mailbox : String → String → MailboxSettings → MailboxCredentials → ℕ → MailboxRow
  new_mailbox user mailbox settings credentials now = record {
    mailbox_id = mailbox;
    user_key = user;
    settings = stored_settings settings;
    encrypted_credentials = cipher.encrypt user mailbox credentials;
    created_at = now;
    updated_at = now;
    last_health_status = ConnectionStatus.connected;
    last_successful_check = some now;
    last_error_category = none;
  }

  unfoldable pub create :
      ℕ
      → String
      → String
      → MailboxSettings
      → MailboxCredentials
      → MailboxConnectionTestResult
      → ℕ
      → Exec Db MailboxView
  unfolding get ensure_user transaction insert_row audit
  create max_mailboxes_per_user user mailbox settings credentials test now = do
    throw_if (not test.pass)
        (plain "A mailbox cannot be saved before the read-only connection test passes")
    transaction (do
      ensure_user user now
      count ← gets (λ db. count_where (of_user user) db.mailboxes)
      throw_if (leb max_mailboxes_per_user count) (plain "Mailbox limit reached")
      mailboxes ← gets (λ db. db.mailboxes)
      mailboxes' ← lift (
          insert_row (is_mailbox user mailbox) (new_mailbox user mailbox settings credentials now)
            mailboxes)
      modify (λ db. record db { mailboxes = mailboxes' })
      audit user (some mailbox) "MAILBOX_CREATED" true now)
    get user mailbox

  unfoldable pub replace_credentials :
      String → String → MailboxCredentials → MailboxConnectionTestResult → ℕ → Exec Db MailboxView
  unfolding row get audit
  replace_credentials user mailbox credentials test now = do
    throw_if (not test.pass)
        (plain "Credentials were not replaced because the read-only test failed")
    _ ← row user mailbox
    modify (λ db. record db {
      mailboxes =
          update_where (is_mailbox user mailbox)
            (λ r. record r {
              encrypted_credentials = cipher.encrypt user mailbox credentials;
              updated_at = now;
              last_health_status = ConnectionStatus.connected;
              last_successful_check = some now;
              last_error_category = none;
            })
            db.mailboxes;
    })
    audit user (some mailbox) "CREDENTIALS_REPLACED" true now
    get user mailbox

-- New settings are untested, so the mailbox is switched off.
unfoldable pub update : String → String → MailboxSettings → ℕ → Exec Db MailboxView
unfolding get audit
update user mailbox settings now = do
  changes ← gets (λ db. count_where (is_mailbox user mailbox) db.mailboxes)
  modify (λ db. record db {
    mailboxes =
        update_where (is_mailbox user mailbox)
          (λ r. record r {
            settings = record (stored_settings settings) { enabled = false };
            last_health_status = ConnectionStatus.unknown;
            last_error_category = none;
            updated_at = now;
          })
          db.mailboxes;
  })
  throw_if (not (changes == 1)) (plain "Mailbox not found")
  audit user (some mailbox) "MAILBOX_UPDATED" true now
  get user mailbox

abbrev pub category : Option String → String
category none = "IMAP_TEST_FAILED"
category (some c) = c

unfoldable pub record_health :
    String → String → MailboxConnectionTestResult → ℕ → Exec Db MailboxView
unfolding row get audit
record_health user mailbox test now = do
  current ← row user mailbox
  modify (λ db. record db {
    mailboxes =
        update_where (is_mailbox user mailbox)
          (λ r. record r {
            last_health_status =
                if test.pass then ConnectionStatus.connected else ConnectionStatus.error;
            last_successful_check = if test.pass then some now else current.last_successful_check;
            last_error_category = if test.pass then none else some (category test.error_category);
            updated_at = now;
          })
          db.mailboxes;
  })
  audit user (some mailbox) "IMAP_CONNECTION_TEST" test.pass now
  get user mailbox

-- `merged.length === current.length && merged.every(...)`
unfoldable pub same_folders : List String → List String → Bool
same_folders [] [] = true
same_folders [] (_ ∷ _) = false
same_folders (_ ∷ _) [] = false
same_folders (x ∷ xs) (y ∷ ys) = str_eq x y && same_folders xs ys

-- `uniqueFolders([...current, ...folders.map(trim).filter(Boolean)])`
unfoldable pub merged_folders : List String → List String → List String
unfolding unique trim select
merged_folders current folders =
    unique (current ++ select (λ folder. not (is_empty folder)) (map trim folders))

unfoldable pub add_allowed_folders : String → String → List String → ℕ → Exec Db MailboxView
unfolding row get audit transaction
add_allowed_folders user mailbox folders now = do
  found ← row user mailbox
  let merged = merged_folders found.allowed_folders folders
  elim (same_folders merged found.allowed_folders) [
    | true ↦ get user mailbox
    | false ↦ do
      throw_if (ltb 100 (length merged)) (plain "Allowed-folder limit reached")
      transaction (do
        modify (λ db. record db {
          mailboxes =
              update_where (is_mailbox user mailbox)
                (λ r.
                  let settings = r.settings in
                  record r {
                    settings = record settings { allowed_folders = merged };
                    updated_at = now;
                  })
                db.mailboxes;
        })
        audit user (some mailbox) "ALLOWED_FOLDERS_EXPANDED" true now)
      get user mailbox
  ]

abbrev pub is_connected : ConnectionStatus → Bool
is_connected ConnectionStatus.connected = true
is_connected ConnectionStatus.unknown = false
is_connected ConnectionStatus.error = false

unfoldable pub set_enabled : String → String → Bool → ℕ → Exec Db MailboxView
unfolding row get audit
set_enabled user mailbox enabled now = do
  current ← row user mailbox
  throw_if (enabled && not (is_connected current.last_health_status))
      (plain "Mailbox must pass a connection test before it can be enabled")
  modify (λ db. record db {
    mailboxes =
        update_where (is_mailbox user mailbox)
          (λ r.
            let settings = r.settings in
            record r { settings = record settings { enabled = enabled }; updated_at = now })
          db.mailboxes;
  })
  audit user (some mailbox) (if enabled then "MAILBOX_ENABLED" else "MAILBOX_DISABLED") true now
  get user mailbox

pub record SendInput : Type 0 where
  pub enabled : Bool
  pub host : Option String
  pub port : ℕ
  pub tls_mode : TlsMode

-- `!input.host`
abbrev pub is_missing : Option String → Bool
is_missing none = true
is_missing (some host) = is_empty host

unfoldable pub configure_send : String → String → SendInput → ℕ → Exec Db MailboxView
unfolding row get audit
configure_send user mailbox input now = do
  _ ← row user mailbox
  throw_if (input.enabled && is_missing input.host)
      (plain "SMTP hostname is required when sending is enabled")
  changes ← gets (λ db. count_where (is_mailbox user mailbox) db.mailboxes)
  modify (λ db. record db {
    mailboxes =
        update_where (is_mailbox user mailbox)
          (λ r.
            let settings = r.settings in
            record r {
              settings = record settings {
                send_enabled = input.enabled;
                smtp_host = input.host;
                smtp_port = input.port;
                smtp_tls_mode = input.tls_mode;
              };
              updated_at = now;
            })
          db.mailboxes;
  })
  throw_if (not (changes == 1)) (plain "Mailbox not found")
  audit user (some mailbox) (if input.enabled then "MAIL_SEND_ENABLED" else "MAIL_SEND_DISABLED")
      true now
  get user mailbox
