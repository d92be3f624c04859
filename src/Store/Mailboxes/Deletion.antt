-- ===== src/Store/Mailboxes/Deletion.antt =====
-- What a deletion takes with it and what it leaves. PRIVACY.md says that deleting one mailbox removes
-- its dependent Safe Send records while redacted audit metadata may remain; the table of receipts
-- refers to the users alone.
use mailbridge_mcp.Store.Mailboxes.{has_operation_id, is_draft}
use mailbridge_mcp.Common.{List}
use mailbridge_mcp.Store.Mailboxes.Removal.{of_any_operation, of_any_draft}
use mailbridge_mcp.Store.Mailboxes.{RateEventRow, ConfirmationRow}
use mailbridge_mcp.Store.Policies.{drafted_for}
use mailbridge_mcp.Common.{
  ℕ, ◌≤◌, ◌≡◌, ap, ◌∙◌, String, Bool, delete_where, true, false, ◌&&◌, none, some, arith, str_eq,
  eq_iff, find, find-some-any-select, find-delete_where-none, any, any-delete_where, select, ok,
  Option-cases, inl, inr, count_where, count_where-append, [], ◌∷◌,
}
use mailbridge_mcp.Domain.Types.{
  MailboxSettings, MailboxView, MailboxCredentials, MailboxConnectionTestResult,
}
use mailbridge_mcp.Store.Rows.{
  Db, MailboxRow, DraftRow, SendPolicyRow, SendOperationRow, SendAuditRow, is_mailbox,
}
use mailbridge_mcp.Store.Cipher.{Cipher}
use mailbridge_mcp.Store.Mailboxes.{create, new_mailbox, of_user}
use mailbridge_mcp.Store.Mailboxes.Removal.{delete_mailbox, delete_mailboxes, of_any}

-- A mailbox that is created has passed its connection test, and with it the mailboxes of the user
-- are within the limit of the store.
pub create-within_limit :
    (cipher : Cipher) (limit : ℕ) (user mailbox : String) (settings : MailboxSettings)
    (credentials : MailboxCredentials) (test : MailboxConnectionTestResult) (now : ℕ) (db db' : Db)
    (view : MailboxView)
    → create cipher limit user mailbox settings credentials test now db ≡ (ok view, db')
    → (test.pass ≡ true) × (count_where (of_user user) db'.mailboxes ≤ limit)
unfolding create count_where
create-within_limit cipher limit user mailbox settings credentials test now db db' view h = (
  ground arith,
  ground (
    arith,
    count_where-append (of_user user) db.mailboxes
        (new_mailbox cipher user mailbox settings credentials now ∷ []),
  ),
)

-- Rows of the operations of a mailbox.
abbrev pub counted_for : String → String → List SendOperationRow → RateEventRow → Bool
counted_for user mailbox operations e =
    str_eq e.user_key user
    && any
        (λ (o : SendOperationRow).
          str_eq o.operation_id e.operation_id
          && (str_eq o.user_key user && str_eq o.mailbox_id mailbox))
        operations

module _ (user mailbox : String) (before db : Db) where
  -- Neither a mailbox nor what refers to it, or to a draft or an operation that it had, is left.
  pub record IsGone : Type 0 where
    pub no_mailbox : find (is_mailbox user mailbox) db.mailboxes ≡ none
    pub no_draft :
        any (λ (d : DraftRow). str_eq d.user_key user && str_eq d.mailbox_id mailbox) db.drafts
        ≡ false
    pub no_policy :
        any
          (λ (r : SendPolicyRow). str_eq r.user_key user && str_eq r.mailbox_id mailbox)
          db.policies
        ≡ false
    pub no_operation :
        any
          (λ (o : SendOperationRow). str_eq o.user_key user && str_eq o.mailbox_id mailbox)
          db.operations
        ≡ false
    pub no_event :
        any
          (λ (e : SendAuditRow). str_eq e.user_key user && str_eq e.mailbox_id mailbox)
          db.send_audit_events
        ≡ false
    pub no_confirmation : any (drafted_for user mailbox before.drafts) db.confirmations ≡ false
    pub no_rate_event : any (counted_for user mailbox before.operations) db.rate_events ≡ false

doomed-key :
    (user mailbox : String) (db : Db) (r : MailboxRow)
    → find (is_mailbox user mailbox) db.mailboxes ≡ some r
    → (a b : String) → (str_eq a user && str_eq b mailbox) ≡ true
    → of_any (select (is_mailbox user mailbox) db.mailboxes) a b ≡ true
doomed-key user mailbox db r found a b h =
    let rows = select (is_mailbox user mailbox) db.mailboxes in
    let users : a ≡ user = ground (arith, eq_iff a user) in
    let ids : b ≡ mailbox = ground (arith, eq_iff b mailbox) in
    ap (λ x. of_any rows x b) users
    ∙ (ap (λ y. of_any rows user y) ids
        ∙ find-some-any-select (is_mailbox user mailbox) db.mailboxes r found)

any-select_of :
    {A : Type 0} (p q kept : A → Bool) (xs : List A)
    → ((x : A) → p x ≡ true → (kept x ≡ true) × (q x ≡ true))
    → any p xs ≡ true
    → any q (select kept xs) ≡ true
unfolding any select
any-select_of p q kept [] both h = ground (arith, h)
any-select_of p q kept (x ∷ xs) both h = ground (arith, h, both x, any-select_of p q kept xs both)

module _ (user mailbox : String) (now : ℕ) (db db' : Db)
    (h : delete_mailbox user mailbox now db ≡ (ok tt, db')) where
  abbrev doomed : String → String → Bool
  doomed = of_any (select (is_mailbox user mailbox) db.mailboxes)

  delete_mailbox-drafts :
      db'.drafts ≡ delete_where (λ (x : DraftRow). doomed x.user_key x.mailbox_id) db.drafts
  unfolding delete_mailbox delete_mailboxes
  delete_mailbox-drafts = ground arith

  delete_mailbox-policies :
      db'.policies
      ≡ delete_where (λ (x : SendPolicyRow). doomed x.user_key x.mailbox_id) db.policies
  unfolding delete_mailbox delete_mailboxes
  delete_mailbox-policies = ground arith

  delete_mailbox-operations :
      db'.operations
      ≡ delete_where (λ (x : SendOperationRow). doomed x.user_key x.mailbox_id) db.operations
  unfolding delete_mailbox delete_mailboxes
  delete_mailbox-operations = ground arith

  delete_mailbox-events :
      db'.send_audit_events
      ≡ delete_where (λ (x : SendAuditRow). doomed x.user_key x.mailbox_id) db.send_audit_events
  unfolding delete_mailbox delete_mailboxes
  delete_mailbox-events = ground arith

  delete_mailbox-confirmations :
      db'.confirmations
      ≡ delete_where
          (of_any_draft (select (λ (d : DraftRow). doomed d.user_key d.mailbox_id) db.drafts))
          db.confirmations
  unfolding delete_mailbox delete_mailboxes
  delete_mailbox-confirmations = ground arith

  delete_mailbox-rate_events :
      db'.rate_events
      ≡ delete_where
          (of_any_operation
            (select (λ (o : SendOperationRow). doomed o.user_key o.mailbox_id) db.operations))
          db.rate_events
  unfolding delete_mailbox delete_mailboxes
  delete_mailbox-rate_events = ground arith

  delete_mailbox-mailboxes : db'.mailboxes ≡ delete_where (is_mailbox user mailbox) db.mailboxes
  unfolding delete_mailbox delete_mailboxes
  delete_mailbox-mailboxes = ground arith

  delete_mailbox-found : (r : MailboxRow) × (find (is_mailbox user mailbox) db.mailboxes ≡ some r)
  unfolding delete_mailbox
  delete_mailbox-found = elim (Option-cases (find (is_mailbox user mailbox) db.mailboxes)) [
    | inl missing ↦ ground arith
    | inr found ↦ found
  ]

  drafted-doomed :
      (r : MailboxRow)
      → find (is_mailbox user mailbox) db.mailboxes ≡ some r
      → (c : ConfirmationRow) → drafted_for user mailbox db.drafts c ≡ true
      → of_any_draft (select (λ (d : DraftRow). doomed d.user_key d.mailbox_id) db.drafts) c ≡ true
  drafted-doomed r found c drafted =
      any-select_of
        (λ (d : DraftRow).
          str_eq d.draft_id c.draft_id && (str_eq d.user_key user && str_eq d.mailbox_id mailbox))
        (is_draft c.user_key c.draft_id) (λ d. doomed d.user_key d.mailbox_id) db.drafts
        (λ d is. (
          doomed-key user mailbox db r found d.user_key d.mailbox_id (ground (arith, is)),
          ground (
            arith,
            is,
            drafted,
            eq_iff d.user_key user,
            eq_iff c.user_key user,
            eq_iff d.user_key c.user_key,
          ),
        ))
        (ground (arith, drafted))

  counted-doomed :
      (r : MailboxRow)
      → find (is_mailbox user mailbox) db.mailboxes ≡ some r
      → (e : RateEventRow) → counted_for user mailbox db.operations e ≡ true
      → of_any_operation
          (select (λ (o : SendOperationRow). doomed o.user_key o.mailbox_id) db.operations)
          e
        ≡ true
  counted-doomed r found e counted =
      any-select_of
        (λ (o : SendOperationRow).
          str_eq o.operation_id e.operation_id
          && (str_eq o.user_key user && str_eq o.mailbox_id mailbox))
        (has_operation_id e.user_key e.operation_id) (λ o. doomed o.user_key o.mailbox_id)
        db.operations
        (λ o is. (
          doomed-key user mailbox db r found o.user_key o.mailbox_id (ground (arith, is)),
          ground (
            arith,
            is,
            counted,
            eq_iff o.user_key user,
            eq_iff e.user_key user,
            eq_iff o.user_key e.user_key,
          ),
        ))
        (ground (arith, counted))

  -- After a mailbox is deleted neither it nor its drafts, its policy, its operations and its send
  -- audit events are left, nor the confirmations of its drafts and the rate events of its operations;
  -- the receipts stay as they were, those of its messages included.
  pub delete_mailbox-IsGone : IsGone user mailbox db db' × (db'.receipts ≡ db.receipts)
  unfolding delete_mailbox delete_mailboxes
  delete_mailbox-IsGone =
      let (r, found) = delete_mailbox-found in
      (
        record {
          no_mailbox =
              ap (find (is_mailbox user mailbox)) delete_mailbox-mailboxes
              ∙ find-delete_where-none (is_mailbox user mailbox) (is_mailbox user mailbox)
                  db.mailboxes (λ x k. k);
          no_draft =
              ap (any (λ (x : DraftRow). str_eq x.user_key user && str_eq x.mailbox_id mailbox))
                delete_mailbox-drafts
              ∙ any-delete_where
                  (λ (x : DraftRow). str_eq x.user_key user && str_eq x.mailbox_id mailbox)
                  (λ x. doomed x.user_key x.mailbox_id) db.drafts
                  (λ x. doomed-key user mailbox db r found x.user_key x.mailbox_id);
          no_policy =
              ap
                (any (λ (x : SendPolicyRow). str_eq x.user_key user && str_eq x.mailbox_id mailbox))
                delete_mailbox-policies
              ∙ any-delete_where
                  (λ (x : SendPolicyRow). str_eq x.user_key user && str_eq x.mailbox_id mailbox)
                  (λ x. doomed x.user_key x.mailbox_id) db.policies
                  (λ x. doomed-key user mailbox db r found x.user_key x.mailbox_id);
          no_operation =
              ap
                (any
                  (λ (x : SendOperationRow). str_eq x.user_key user && str_eq x.mailbox_id mailbox))
                delete_mailbox-operations
              ∙ any-delete_where
                  (λ (x : SendOperationRow). str_eq x.user_key user && str_eq x.mailbox_id mailbox)
                  (λ x. doomed x.user_key x.mailbox_id) db.operations
                  (λ x. doomed-key user mailbox db r found x.user_key x.mailbox_id);
          no_event =
              ap (any (λ (x : SendAuditRow). str_eq x.user_key user && str_eq x.mailbox_id mailbox))
                delete_mailbox-events
              ∙ any-delete_where
                  (λ (x : SendAuditRow). str_eq x.user_key user && str_eq x.mailbox_id mailbox)
                  (λ x. doomed x.user_key x.mailbox_id) db.send_audit_events
                  (λ x. doomed-key user mailbox db r found x.user_key x.mailbox_id);
          no_confirmation =
              ap (any (drafted_for user mailbox db.drafts)) delete_mailbox-confirmations
              ∙ any-delete_where (drafted_for user mailbox db.drafts) _ db.confirmations
                  (drafted-doomed r found);
          no_rate_event =
              ap (any (counted_for user mailbox db.operations)) delete_mailbox-rate_events
              ∙ any-delete_where (counted_for user mailbox db.operations) _ db.rate_events
                  (counted-doomed r found);
        },
        ground arith,
      )
