-- ===== src/Store/Mailboxes/Tested.antt =====
-- src/app/store.ts: the methods that write mailboxes, and the tests that stand behind a mailbox that
-- is switched on.
use mailbridge_mcp.Common.{
  ℕ, ◌≡◌, refl, ap, ◌∙◌, String, Bool, true, false, not, ◌&&◌, ◌||◌, Option, none, some, List, [],
  ◌∷◌, arith, str_eq, eq_iff, find, find-holds, find-append, find-update_where, find-delete_where,
  update_where, find-delete_where-none, Option-cases, Bool-cases, inl, inr, if◌then◌else◌,
}
use mailbridge_mcp.Domain.Types.{
  MailboxSettings, MailboxCredentials, MailboxConnectionTestResult, ConnectionStatus,
}
use mailbridge_mcp.Store.Rows.{Db, MailboxRow, is_mailbox}
use mailbridge_mcp.Store.Cipher.{Cipher}
use mailbridge_mcp.Store.Mailboxes.{
  create, new_mailbox, of_user, replace_credentials, update, record_health, add_allowed_folders,
  set_enabled, configure_send, SendInput, stored_settings, merged_folders, category,
}
use mailbridge_mcp.Store.Mailboxes.Removal.{delete_mailboxes, delete_mailbox, delete_all}

abbrev is_known : ConnectionStatus → Bool
is_known ConnectionStatus.unknown = false
is_known ConnectionStatus.connected = true
is_known ConnectionStatus.error = true

-- A mailbox that is on does not have the status that `update` gives it.
abbrev pub is_tested : MailboxRow → Bool
is_tested row = not row.enabled || is_known row.last_health_status

abbrev pub tested : Option MailboxRow → Bool
tested none = true
tested (some row) = is_tested row

-- What a read of the mailbox finds.
abbrev pub IsTested : String → String → Db → Type 0
IsTested u m db = tested (find (is_mailbox u m) db.mailboxes) ≡ true

module _ (u m user mailbox : String) where
  same-key :
      (row : MailboxRow) (rows : List MailboxRow)
      → is_mailbox u m row ≡ true
      → is_mailbox user mailbox row ≡ true
      → find (is_mailbox user mailbox) rows ≡ find (is_mailbox u m) rows
  same-key row rows h k =
      let users : user ≡ u = ground (arith, eq_iff row.user_key u, eq_iff row.user_key user) in
      let ids : mailbox ≡ m =
        ground (arith, eq_iff row.mailbox_id m, eq_iff row.mailbox_id mailbox) in
      ap (λ a. find (is_mailbox a mailbox) rows) users ∙ ap (λ a. find (is_mailbox u a) rows) ids

  -- An update of one mailbox that keeps its key, and keeps it tested, keeps every mailbox so.
  update_where-tested :
      (f : MailboxRow → MailboxRow) (rows : List MailboxRow)
      → ((r : MailboxRow) → is_mailbox u m (f r) ≡ is_mailbox u m r)
      → ((r : MailboxRow)
          → find (is_mailbox user mailbox) rows ≡ some r
          → is_tested r ≡ true
          → is_tested (f r) ≡ true)
      → tested (find (is_mailbox u m) rows) ≡ true
      → tested (find (is_mailbox u m) (update_where (is_mailbox user mailbox) f rows)) ≡ true
  update_where-tested f rows keeps good h = elim (Option-cases (find (is_mailbox u m) rows)) [
    | inl missing ↦
        ground (arith, find-update_where (is_mailbox u m) (is_mailbox user mailbox) f rows keeps)
    | inr (r, found) ↦ ground (
      arith,
      find-update_where (is_mailbox u m) (is_mailbox user mailbox) f rows keeps,
      find-holds (is_mailbox u m) rows r found,
      same-key r rows,
      good r,
    )
  ]

module _ (u m user mailbox : String) (db : Db) (h : IsTested u m db) where
  pub update-IsTested :
      (settings : MailboxSettings) (now : ℕ) → IsTested u m (update user mailbox settings now db).1
  unfolding update
  update-IsTested settings now = ground (
    arith,
    h,
    update_where-tested u m user mailbox
        (λ (r : MailboxRow). record r {
          settings = record (stored_settings settings) { enabled = false };
          last_health_status = ConnectionStatus.unknown;
          last_error_category = none;
          updated_at = now;
        })
        db.mailboxes (λ r. refl) (λ r found k. refl),
  )

  pub set_enabled-IsTested :
      (enabled : Bool) (now : ℕ) → IsTested u m (set_enabled user mailbox enabled now db).1
  unfolding set_enabled
  set_enabled-IsTested enabled now =
      elim (Option-cases (find (is_mailbox user mailbox) db.mailboxes)) [
        | inl missing ↦ ground (arith, h)
        | inr (current, found) ↦ ground (
          arith,
          h,
          update_where-tested u m user mailbox
              (λ (r : MailboxRow).
                let settings = r.settings in
                record r { settings = record settings { enabled = enabled }; updated_at = now })
              db.mailboxes (λ r. refl),
        )
      ]

  pub replace_credentials-IsTested :
      (cipher : Cipher) (credentials : MailboxCredentials) (test : MailboxConnectionTestResult)
      (now : ℕ)
      → IsTested u m (replace_credentials cipher user mailbox credentials test now db).1
  unfolding replace_credentials
  replace_credentials-IsTested cipher credentials test now = ground (
    arith,
    h,
    update_where-tested u m user mailbox
        (λ (r : MailboxRow). record r {
          encrypted_credentials = cipher.encrypt user mailbox credentials;
          updated_at = now;
          last_health_status = ConnectionStatus.connected;
          last_successful_check = some now;
          last_error_category = none;
        })
        db.mailboxes (λ r. refl) (λ r found k. ground (arith, Bool-cases r.enabled)),
  )

  pub configure_send-IsTested :
      (input : SendInput) (now : ℕ) → IsTested u m (configure_send user mailbox input now db).1
  unfolding configure_send
  configure_send-IsTested input now = ground (
    arith,
    h,
    update_where-tested u m user mailbox
        (λ (r : MailboxRow).
          let settings = r.settings in
          record r {
            settings = record settings {
              send_enabled = input.enabled;
              smtp_host = input.host;
              smtp_port = input.port;
              smtp_tls_mode = input.tls_mode;
            };
            updated_at = now;
          })
        db.mailboxes (λ r. refl) (λ r found k. k),
  )

  pub add_allowed_folders-IsTested :
      (folders : List String) (now : ℕ)
      → IsTested u m (add_allowed_folders user mailbox folders now db).1
  unfolding add_allowed_folders
  add_allowed_folders-IsTested folders now =
      elim (Option-cases (find (is_mailbox user mailbox) db.mailboxes)) [
        | inl missing ↦ ground (arith, h)
        | inr (current, found) ↦ ground (
          arith,
          h,
          update_where-tested u m user mailbox
              (λ (r : MailboxRow).
                let settings = r.settings in
                record r {
                  settings = record settings {
                    allowed_folders = merged_folders current.allowed_folders folders;
                  };
                  updated_at = now;
                })
              db.mailboxes (λ r. refl) (λ r found k. k),
        )
      ]

  pub record_health-IsTested :
      (test : MailboxConnectionTestResult) (now : ℕ)
      → IsTested u m (record_health user mailbox test now db).1
  unfolding record_health
  record_health-IsTested test now =
      elim (Option-cases (find (is_mailbox user mailbox) db.mailboxes)) [
        | inl missing ↦ ground (arith, h)
        | inr (current, found) ↦ ground (
          arith,
          h,
          update_where-tested u m user mailbox
              (λ (r : MailboxRow). record r {
                last_health_status =
                    if test.pass then ConnectionStatus.connected else ConnectionStatus.error;
                last_successful_check =
                    if test.pass then some now else current.last_successful_check;
                last_error_category =
                    if test.pass then none else some (category test.error_category);
                updated_at = now;
              })
              db.mailboxes (λ r. refl)
              (λ r found k. ground (arith, Bool-cases r.enabled, Bool-cases test.pass)),
        )
      ]

  pub create-IsTested :
      (cipher : Cipher) (limit : ℕ) (settings : MailboxSettings) (credentials : MailboxCredentials)
      (test : MailboxConnectionTestResult) (now : ℕ)
      → IsTested u m (create cipher limit user mailbox settings credentials test now db).1
  unfolding create find
  create-IsTested cipher limit settings credentials test now = ground (
    arith,
    h,
    Bool-cases settings.enabled,
    Option-cases (find (is_mailbox u m) db.mailboxes),
    find-append (is_mailbox u m) db.mailboxes
        (new_mailbox cipher user mailbox settings credentials now ∷ []),
  )

  pub delete_mailbox-IsTested : (now : ℕ) → IsTested u m (delete_mailbox user mailbox now db).1
  unfolding delete_mailbox delete_mailboxes
  delete_mailbox-IsTested now = elim (Bool-cases (str_eq u user && str_eq m mailbox)) [
    | inl same ↦ ground (
      arith,
      h,
      find-delete_where-none (is_mailbox u m) (is_mailbox user mailbox) db.mailboxes
          (λ r k. ground (arith, same, k, eq_iff u user, eq_iff m mailbox)),
    )
    | inr other ↦ ground (
      arith,
      h,
      find-delete_where (is_mailbox u m) (is_mailbox user mailbox) db.mailboxes (λ r k. ground (
        arith,
        other,
        k,
        eq_iff u user,
        eq_iff m mailbox,
        eq_iff r.user_key u,
        eq_iff r.user_key user,
        eq_iff r.mailbox_id m,
        eq_iff r.mailbox_id mailbox,
      )),
    )
  ]

  pub delete_all-IsTested : IsTested u m (delete_all user db).1
  unfolding delete_all delete_mailboxes
  delete_all-IsTested = elim (Bool-cases (str_eq u user)) [
    | inl same ↦ ground (
      arith,
      h,
      find-delete_where-none (is_mailbox u m) (of_user user) db.mailboxes
          (λ r k. ground (arith, same, k, eq_iff u user)),
    )
    | inr other ↦ ground (
      arith,
      h,
      find-delete_where (is_mailbox u m) (of_user user) db.mailboxes (λ r k.
          ground (arith, other, k, eq_iff u user, eq_iff r.user_key u, eq_iff r.user_key user)),
    )
  ]
