-- ===== src/Store/Mailboxes/Removal.antt =====
-- src/app/store.ts: deleteMailbox and deleteAll, with what ON DELETE CASCADE takes along.
use mailbridge_mcp.Common.{
  ℕ, String, Bool, true, some, List, str_eq, any, delete_where, select, count_where, Exec, pure,
  gets, modify, transaction, ◌>>=◌, ◌>>◌,
}
use mailbridge_mcp.Store.Rows.{
  Db, UserRow, MailboxRow, AuditRow, DraftRow, ConfirmationRow, SendOperationRow, RateEventRow,
  is_mailbox, is_draft, has_operation_id, audit,
}
use mailbridge_mcp.Store.Policies.{row}
use mailbridge_mcp.Store.Mailboxes.{of_user}

-- The foreign keys of the tables: a row goes with the row that it refers to.
abbrev pub of_any : List MailboxRow → String → String → Bool
of_any gone user mailbox = any (is_mailbox user mailbox) gone

abbrev pub of_any_draft : List DraftRow → ConfirmationRow → Bool
of_any_draft gone c = any (is_draft c.user_key c.draft_id) gone

abbrev pub of_any_operation : List SendOperationRow → RateEventRow → Bool
of_any_operation gone e = any (has_operation_id e.user_key e.operation_id) gone

-- DELETE FROM mailboxes WHERE p, with ON DELETE CASCADE.
unfoldable pub delete_mailboxes : (MailboxRow → Bool) → Db → Db
unfolding delete_where select any
delete_mailboxes p db =
    let gone = of_any (select p db.mailboxes) in
    let drafts = select (λ (d : DraftRow). gone d.user_key d.mailbox_id) db.drafts in
    let operations =
      select (λ (o : SendOperationRow). gone o.user_key o.mailbox_id) db.operations in
    record db {
      mailboxes = delete_where p db.mailboxes;
      drafts = delete_where (λ d. gone d.user_key d.mailbox_id) db.drafts;
      confirmations = delete_where (of_any_draft drafts) db.confirmations;
      policies = delete_where (λ r. gone r.user_key r.mailbox_id) db.policies;
      operations = delete_where (λ o. gone o.user_key o.mailbox_id) db.operations;
      rate_events = delete_where (of_any_operation operations) db.rate_events;
      send_audit_events = delete_where (λ e. gone e.user_key e.mailbox_id) db.send_audit_events;
    }

unfoldable pub delete_mailbox : String → String → ℕ → Exec Db (Unit {0})
unfolding row audit transaction
delete_mailbox user mailbox now = do
  _ ← row user mailbox
  transaction (do
    audit user (some mailbox) "MAILBOX_DELETED" true now
    modify (delete_mailboxes (is_mailbox user mailbox)))

-- The mailboxes go first, so DELETE FROM users finds only receipts to take with it. The result is
-- the number of mailboxes; the random identifier of the deletion is not part of the model.
unfoldable pub delete_all : String → Exec Db ℕ
unfolding transaction
delete_all user = transaction (do
  deleted ← gets (λ db. count_where (of_user user) db.mailboxes)
  modify (delete_mailboxes (of_user user))
  modify (λ db. record db {
    audit_events = delete_where (λ (e : AuditRow). str_eq e.user_key user) db.audit_events;
  })
  modify (λ db. record db {
    users = delete_where (λ (u : UserRow). str_eq u.user_key user) db.users;
    receipts = delete_where (λ r. str_eq r.user_key user) db.receipts;
  })
  pure deleted)
