-- ===== src/Send/AtMostOnce/Calls.antt =====
-- The methods that send nothing, and the operations.
use mailbridge_mcp.Common.{
  ℕ, ◌≡◌, refl, String, List, arith, Exec, not, str_eq, ◌∙◌, throw_if, lift, ◌>>=◌,
}
use mailbridge_mcp.Common.Keeps.{Keeps, bind-Keeps, throw_if-Keeps}
use mailbridge_mcp.Domain.Types.{SendPolicyInput, DraftPayload, DraftAttachment, DraftValidation}
use mailbridge_mcp.Domain.Errors.{coded, draft_already_sent, send_policy_blocked, mailbox_mismatch}
use mailbridge_mcp.Store.Rows.{Db, SendOperationRow}
use mailbridge_mcp.Store.Cipher.{Cipher}
use mailbridge_mcp.Store.Policies.{set_send_policy}
use mailbridge_mcp.Store.Drafts.{
  is_open, get_draft, get_draft_payload, create_draft, update_draft, add_draft_attachment,
  remove_draft_attachment,
}
use mailbridge_mcp.Store.Confirmations.{create_send_confirmation}
use mailbridge_mcp.Send.Compose.{ComposeInput, compose, hash_payload}
use mailbridge_mcp.Send.Service.{
  Service, edit_draft, prepare_draft_send, validate_draft, checked_policy,
}
use mailbridge_mcp.Send.AtMostOnce.Methods.{
  checked_policy-operations, validate-operations, get_draft-operations,
  get_draft_payload-operations,
}

module _ (cipher : Cipher) (user : String) (db : Db) where
  pub create_draft-operations :
      (payload : DraftPayload) (id : String) (now : ℕ)
      → (create_draft cipher user payload id now db).1.operations ≡ db.operations
  unfolding create_draft
  create_draft-operations payload id now = ground arith

  pub update_draft-operations :
      (id : String) (expected : ℕ) (payload : DraftPayload) (now : ℕ)
      → (update_draft cipher user id expected payload now db).1.operations ≡ db.operations
  unfolding update_draft
  update_draft-operations id expected payload now = ground arith

  pub create_confirmation-operations :
      (draft_id hash : String) (validation : DraftValidation) (ttl : ℕ) (id : String) (now : ℕ)
      → (create_send_confirmation cipher user draft_id hash validation ttl id now db).1.operations
        ≡ db.operations
  unfolding create_send_confirmation
  create_confirmation-operations draft_id hash validation ttl id now = ground arith

  pub set_policy-operations :
      (mailbox : String) (input : SendPolicyInput) (now : ℕ)
      → (set_send_policy user mailbox input now db).1.operations ≡ db.operations
  unfolding set_send_policy
  set_policy-operations mailbox input now = ground arith

  pub add_attachment-operations :
      (id : String) (expected : ℕ) (a : DraftAttachment) (now later : ℕ)
      → (add_draft_attachment cipher user id expected a now later db).1.operations ≡ db.operations
  unfolding add_draft_attachment
  add_attachment-operations id expected a now later = ground arith

  pub remove_attachment-operations :
      (id : String) (expected : ℕ) (a : String) (now later : ℕ)
      → (remove_draft_attachment cipher user id expected a now later db).1.operations
        ≡ db.operations
  unfolding remove_draft_attachment
  remove_attachment-operations id expected a now later = ground arith

-- The operations of the database are these.
abbrev Has : List SendOperationRow → Db → Type 0
Has operations db = db.operations ≡ operations

then-Keeps :
    (operations : List SendOperationRow) {A B : Type 0} (m : Exec Db A) (f : A → Exec Db B)
    → ((db : Db) → (m db).1.operations ≡ db.operations)
    → ((a : A) → Keeps (Has operations) (f a))
    → Keeps (Has operations) (m >>= f)
then-Keeps operations m f same kf = bind-Keeps (Has operations) m f (λ db p. same db ∙ p) kf

module _ (service : Service) where
  open service use {host, cipher, user, mailboxes}

  validate_draft-operations :
      (draft_id : String) (now : ℕ) (db : Db)
      → (validate_draft service draft_id now db).1.operations ≡ db.operations
  unfolding validate_draft
  validate_draft-operations draft_id now db =
      let P = Has db.operations in
      (then-Keeps db.operations (get_draft cipher user draft_id) _
          (get_draft-operations cipher user draft_id)
          λ draft.
            bind-Keeps P (throw_if (not (is_open draft.status)) (coded draft_already_sent)) _
              (throw_if-Keeps P (not (is_open draft.status)) (coded draft_already_sent))
              λ _.
                then-Keeps db.operations (get_draft_payload cipher user draft_id) _
                  (get_draft_payload-operations cipher user draft_id)
                  λ payload s p.
                    validate-operations service s draft_id draft.version payload now ∙ p)
        db refl

  pub prepare-operations :
      (draft_id id : String) (at now : ℕ) (db : Db)
      → (prepare_draft_send service draft_id id at now db).1.operations ≡ db.operations
  unfolding prepare_draft_send
  prepare-operations draft_id id at now db =
      let P = Has db.operations in
      (then-Keeps db.operations (get_draft cipher user draft_id) _
          (get_draft-operations cipher user draft_id)
          λ draft.
            then-Keeps db.operations (get_draft_payload cipher user draft_id) _
              (get_draft_payload-operations cipher user draft_id)
              λ payload.
                then-Keeps db.operations (validate_draft service draft_id at) _
                  (validate_draft-operations draft_id at)
                  λ validation.
                    bind-Keeps P (throw_if validation.blocked (coded send_policy_blocked)) _
                      (throw_if-Keeps P validation.blocked (coded send_policy_blocked))
                      λ _.
                        then-Keeps db.operations (checked_policy service draft.mailbox_id) _
                          (λ s. checked_policy-operations service s draft.mailbox_id)
                          λ policy s p.
                            create_confirmation-operations cipher user s draft_id
                              (hash_payload host payload) validation policy.confirmation_ttl_seconds
                              id now
                            ∙ p)
        db refl

  pub edit-operations :
      (draft_id : String) (expected : ℕ) (input : ComposeInput) (now : ℕ) (db : Db)
      → (edit_draft service draft_id expected input now db).1.operations ≡ db.operations
  unfolding edit_draft
  edit-operations draft_id expected input now db =
      let P = Has db.operations in
      (then-Keeps db.operations (get_draft cipher user draft_id) _
          (get_draft-operations cipher user draft_id)
          λ current.
            let other = not (str_eq current.mailbox_id input.mailbox_id) in
            bind-Keeps P (throw_if other (coded mailbox_mismatch)) _
              (throw_if-Keeps P other (coded mailbox_mismatch))
              λ _.
                then-Keeps db.operations (get_draft_payload cipher user draft_id) _
                  (get_draft_payload-operations cipher user draft_id)
                  λ payload.
                    bind-Keeps P (lift (compose host mailboxes input)) _ (λ s p. p)
                      λ composed s p.
                        update_draft-operations cipher user s draft_id expected _ now ∙ p)
        db refl
