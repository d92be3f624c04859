-- ===== src/Store/Mailboxes/Isolation.antt =====
-- What the deletion of all that a user has leaves to the others.
use mailbridge_mcp.Common.{
  ◌≡◌, ◌≢◌, sym, ◌⊎◌, ◌∙◌, String, Bool, Bool-cases, transaction, delete_where, true, false, List,
  arith, str_eq, eq_iff, any-select, select, select-delete_where, inl, inr,
}
use mailbridge_mcp.Store.Rows.{
  Db, UserRow, MailboxRow, DraftRow, ConfirmationRow, SendPolicyRow, SendOperationRow, RateEventRow,
  ReceiptRow, AuditRow, SendAuditRow, is_mailbox, is_draft, has_operation_id,
}
use mailbridge_mcp.Store.Mailboxes.{of_user}
use mailbridge_mcp.Store.Mailboxes.Removal.{
  delete_mailboxes, delete_all, of_any, of_any_draft, of_any_operation,
}

-- What a user has in the database.
pub record Holdings : Type 0 where
  pub users : List UserRow
  pub mailboxes : List MailboxRow
  pub audit_events : List AuditRow
  pub drafts : List DraftRow
  pub receipts : List ReceiptRow
  pub policies : List SendPolicyRow
  pub confirmations : List ConfirmationRow
  pub operations : List SendOperationRow
  pub rate_events : List RateEventRow
  pub send_audit_events : List SendAuditRow

unfoldable pub holdings : String → Db → Holdings
unfolding select
holdings user db = record {
  users = select (λ x. str_eq x.user_key user) db.users;
  mailboxes = select (of_user user) db.mailboxes;
  audit_events = select (λ x. str_eq x.user_key user) db.audit_events;
  drafts = select (λ x. str_eq x.user_key user) db.drafts;
  receipts = select (λ x. str_eq x.user_key user) db.receipts;
  policies = select (λ x. str_eq x.user_key user) db.policies;
  confirmations = select (λ x. str_eq x.user_key user) db.confirmations;
  operations = select (λ x. str_eq x.user_key user) db.operations;
  rate_events = select (λ x. str_eq x.user_key user) db.rate_events;
  send_audit_events = select (λ x. str_eq x.user_key user) db.send_audit_events;
}

module _ (user : String) (db : Db) where
  gone-user : (a b : String) → of_any (select (of_user user) db.mailboxes) a b ≡ true → a ≡ user
  gone-user a b h =
      let (r, found, doomed) = any-select (is_mailbox a b) (of_user user) db.mailboxes h in
      ground (arith, eq_iff r.user_key a, eq_iff r.user_key user)

  -- What goes with a mailbox of the user is of the user.
  gone-confirmation :
      (c : ConfirmationRow)
      → of_any_draft
          (select
            (λ (d : DraftRow). of_any (select (of_user user) db.mailboxes) d.user_key d.mailbox_id)
            db.drafts)
          c
        ≡ true
      → c.user_key ≡ user
  gone-confirmation c h =
      let (d, found, doomed) =
        any-select (is_draft c.user_key c.draft_id)
          (λ (d : DraftRow). of_any (select (of_user user) db.mailboxes) d.user_key d.mailbox_id)
          db.drafts h in
      ground (arith, eq_iff d.user_key c.user_key, gone-user d.user_key d.mailbox_id doomed)

  gone-rate_event :
      (e : RateEventRow)
      → of_any_operation
          (select
            (λ (o : SendOperationRow).
              of_any (select (of_user user) db.mailboxes) o.user_key o.mailbox_id)
            db.operations)
          e
        ≡ true
      → e.user_key ≡ user
  gone-rate_event e h =
      let (o, found, doomed) =
        any-select (has_operation_id e.user_key e.operation_id)
          (λ (o : SendOperationRow).
            of_any (select (of_user user) db.mailboxes) o.user_key o.mailbox_id)
          db.operations h in
      ground (arith, eq_iff o.user_key e.user_key, gone-user o.user_key o.mailbox_id doomed)

module _ {A : Type 0} (key : A → String) (user other : String) (different : other ≢ user)
    (q : A → Bool) (rows : List A) where
  not_other :
      (x : A)
      → key x ≡ user
      → (str_eq (key x) other ≡ true) ⊎ (str_eq (key x) other ≡ false)
      → str_eq (key x) other ≡ false
  not_other x same (inl h) = absurd (different (sym ((eq_iff (key x) other).0 h) ∙ same))
  not_other x same (inr h) = h

  -- A deletion that takes rows of one user only leaves the rows of another.
  select-other :
      ((x : A) → q x ≡ true → key x ≡ user)
      → select (λ x. str_eq (key x) other) (delete_where q rows)
        ≡ select (λ x. str_eq (key x) other) rows
  select-other mine =
      select-delete_where (λ x. str_eq (key x) other) q rows
        (λ x h. not_other x (mine x h) (Bool-cases (str_eq (key x) other)))

-- Deleting all that a user has leaves the rows of every other user as they were, in every table.
pub delete_all-holdings :
    (user other : String) (db : Db)
    → other ≢ user
    → holdings other (delete_all user db).1 ≡ holdings other db
unfolding holdings delete_all delete_mailboxes transaction
delete_all-holdings user other db different =
    let gone = of_any (select (of_user user) db.mailboxes) in
    λ i. record {
      users =
          select-other (λ (x : UserRow). x.user_key) user other different
            (λ x. str_eq x.user_key user) db.users (λ x h. (eq_iff x.user_key user).0 h) i;
      mailboxes =
          select-other (λ (x : MailboxRow). x.user_key) user other different (of_user user)
            db.mailboxes (λ x h. (eq_iff x.user_key user).0 h) i;
      audit_events =
          select-other (λ (x : AuditRow). x.user_key) user other different
            (λ x. str_eq x.user_key user) db.audit_events (λ x h. (eq_iff x.user_key user).0 h) i;
      drafts =
          select-other (λ (x : DraftRow). x.user_key) user other different
            (λ x. gone x.user_key x.mailbox_id) db.drafts
            (λ x. gone-user user db x.user_key x.mailbox_id) i;
      receipts =
          select-other (λ (x : ReceiptRow). x.user_key) user other different
            (λ x. str_eq x.user_key user) db.receipts (λ x h. (eq_iff x.user_key user).0 h) i;
      policies =
          select-other (λ (x : SendPolicyRow). x.user_key) user other different
            (λ x. gone x.user_key x.mailbox_id) db.policies
            (λ x. gone-user user db x.user_key x.mailbox_id) i;
      confirmations =
          select-other (λ (x : ConfirmationRow). x.user_key) user other different
            (of_any_draft (select (λ (d : DraftRow). gone d.user_key d.mailbox_id) db.drafts))
            db.confirmations (gone-confirmation user db) i;
      operations =
          select-other (λ (x : SendOperationRow). x.user_key) user other different
            (λ x. gone x.user_key x.mailbox_id) db.operations
            (λ x. gone-user user db x.user_key x.mailbox_id) i;
      rate_events =
          select-other (λ (x : RateEventRow). x.user_key) user other different
            (of_any_operation
              (select (λ (o : SendOperationRow). gone o.user_key o.mailbox_id) db.operations))
            db.rate_events (gone-rate_event user db) i;
      send_audit_events =
          select-other (λ (x : SendAuditRow). x.user_key) user other different
            (λ x. gone x.user_key x.mailbox_id) db.send_audit_events
            (λ x. gone-user user db x.user_key x.mailbox_id) i;
    }
