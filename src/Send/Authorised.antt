-- ===== src/Send/Authorised.antt =====
-- What stands behind a message that sendDraft hands to the transport.
pub mod Handover
use mailbridge_mcp.Send.Authorised.Handover.{
  Sends, continue-Sends, on_db-Sends, reads-Sends, throw_if-Sends, continue-pure,
}
use mathlib.Core.Path.{subst}
use mailbridge_mcp.Common.{
  ℕ, ap, ◌∙◌, pure, ◌≡◌, ◌≢◌, refl, String, Bool, true, false, not, Option, none, some, arith,
  Result, ok, err, Exec, throw_if, continue, ◌>>=◌,
}
use mailbridge_mcp.Domain.Errors.{Error, coded, draft_already_sent, send_policy_blocked}
use mailbridge_mcp.Domain.Types.{
  SendPolicyView, DraftPayload, DraftValidation, MailDraftView, DraftStatus,
}
use mailbridge_mcp.Store.Cipher.{Cipher}
use mailbridge_mcp.Store.Policies.{get_send_policy}
use mailbridge_mcp.Store.Rows.{Db, ConfirmationRow}
use mailbridge_mcp.Store.Drafts.{is_open, get_draft, get_draft_payload}
use mailbridge_mcp.Store.Confirmations.{consume_send_confirmation}
use mailbridge_mcp.Store.Confirmations.SingleUse.{IsGood, consume-found}
use mailbridge_mcp.Store.Operations.{Receipt, get_send_receipt, get_send_operation_by_key}
use mailbridge_mcp.Send.Compose.{hash_payload}
use mailbridge_mcp.Send.Service.{
  Service, World, on_db, checked_policy, validate, confirm, replay_previous,
}
use mailbridge_mcp.Send.SendDraft.{answer, draft_key, Turn, begin_fresh, resume_draft, begin_draft}

module _ (cipher : Cipher) (user id : String) (db : Db) where
  pub get_draft-reads : (get_draft cipher user id db).1 ≡ db
  unfolding get_draft
  get_draft-reads = ground arith

  pub get_draft_payload-reads : (get_draft_payload cipher user id db).1 ≡ db
  unfolding get_draft_payload
  get_draft_payload-reads = ground arith

  pub get_send_receipt-reads : (get_send_receipt cipher user id db).1 ≡ db
  unfolding get_send_receipt
  get_send_receipt-reads = ground arith

module _ (service : Service) where
  open service use {host, cipher, user, mailboxes}

  checked_policy-reads : (mailbox : String) (db : Db) → (checked_policy service mailbox db).1 ≡ db
  unfolding checked_policy get_send_policy
  checked_policy-reads mailbox db = ground arith

  -- Every policy that is read asks for a confirmation.
  checked_policy-require :
      (mailbox : String) (db : Db) (policy : SendPolicyView)
      → (checked_policy service mailbox db).0 ≡ ok policy
      → policy.require_confirmation ≡ true
  unfolding checked_policy get_send_policy
  checked_policy-require mailbox db policy h = ground arith

  validate-reads :
      (draft_id : String) (version : ℕ) (payload : DraftPayload) (now : ℕ) (db : Db)
      → (validate service draft_id version payload now db).1 ≡ db
  unfolding validate
  validate-reads draft_id version payload now db =
      ground (arith, checked_policy-reads payload.mailbox_id db)

  confirm-version :
      (draft_id : String) (version : ℕ) (hash : String) (policy : SendPolicyView) (cid : String)
      (e : ℕ) (now : ℕ) (db : Db)
      → policy.require_confirmation ≡ true
      → (confirm service draft_id version hash policy (some cid) (some e) now db).0 ≡ ok tt
      → e ≡ version
  unfolding confirm
  confirm-version draft_id version hash policy cid e now db needed h = ground arith

  confirm-passed :
      (draft_id : String) (version : ℕ) (hash : String) (policy : SendPolicyView) (cid : String)
      (e : ℕ) (now : ℕ) (db : Db)
      → policy.require_confirmation ≡ true
      → (confirm service draft_id version hash policy (some cid) (some e) now db).0 ≡ ok tt
      → (consume_send_confirmation user cid draft_id e hash policy.policy_version now db).0 ≡ ok tt
  unfolding confirm
  confirm-passed draft_id version hash policy cid e now db needed h = ground arith

  replay_previous-reads :
      (mailbox key hash : String) (previous : Receipt) (db : Db)
      → (replay_previous service mailbox key hash previous db).1 ≡ db
  unfolding replay_previous get_send_operation_by_key
  replay_previous-reads mailbox key hash previous db = ground arith

  confirm-found :
      (draft_id : String) (version : ℕ) (hash : String) (policy : SendPolicyView)
      (confirmation : Option String) (expected : Option ℕ) (now : ℕ) (db : Db)
      → policy.require_confirmation ≡ true
      → (confirm service draft_id version hash policy confirmation expected now db).0 ≡ ok tt
      → (cid : String) × (c : ConfirmationRow) × (confirmation ≡ some cid)
        × (expected ≡ some version)
        × IsGood db user cid draft_id version hash policy.policy_version now c
  unfolding confirm
  confirm-found draft_id version hash policy none expected now db needed h = ground arith
  confirm-found draft_id version hash policy (some cid) none now db needed h = ground arith
  confirm-found draft_id version hash policy (some cid) (some e) now db needed h =
      let same : e ≡ version = confirm-version draft_id version hash policy cid e now db needed h in
      let passed = confirm-passed draft_id version hash policy cid e now db needed h in
      let (c, good) =
        consume-found db
          (consume_send_confirmation user cid draft_id e hash policy.policy_version now db).1 user
          cid draft_id e hash policy.policy_version now
          (λ i. (
            passed i,
            (consume_send_confirmation user cid draft_id e hash policy.policy_version now db).1,
          )) in
      (
        cid,
        c,
        refl,
        ap some same,
        subst (λ n. IsGood db user cid draft_id n hash policy.policy_version now c) same good,
      )

  resume-fresh :
      (draft_id : String) (draft : MailDraftView) (payload : DraftPayload)
      (confirmation : Option String) (expected : Option ℕ) (id : String) (turn : Turn)
      (previous : Option Receipt) (w : World)
      → Sends w
          (resume_draft service draft_id draft payload confirmation expected id turn previous w)
      → (previous ≡ none)
        × Sends w (begin_fresh service draft_id draft payload confirmation expected id turn w)
  unfolding resume_draft
  resume-fresh draft_id draft payload confirmation expected id turn (some receipt) w sends =
      let hash = hash_payload host payload in
      let (result, _, later) =
        reads-Sends w (replay_previous service draft.mailbox_id (draft_key draft_id) hash receipt) _
          (replay_previous-reads draft.mailbox_id (draft_key draft_id) hash receipt) sends in
      absurd (later refl)
  resume-fresh draft_id draft payload confirmation expected id turn none w sends = (
    refl,
    λ same. sends (
        ap (λ v. v.submissions)
          (continue-pure
            (begin_fresh service draft_id draft payload confirmation expected id turn w).0 answer
            (begin_fresh service draft_id draft payload confirmation expected id turn w).1)
        ∙ same),
  )

-- A message that sendDraft may hand over, and the confirmation that stands for it.
pub record IsAuthorised (service : Service) (draft_id : String) (confirmation : Option String)
    (expected : Option ℕ) (turn : Turn) (db : Db) : Type 0 where
  pub draft : MailDraftView
  pub payload : DraftPayload
  pub policy : SendPolicyView
  pub validation : DraftValidation
  pub confirmation_id : String
  pub row : ConfirmationRow
  pub drafted : (get_draft service.cipher service.user draft_id db).0 ≡ ok draft
  pub loaded : (get_draft_payload service.cipher service.user draft_id db).0 ≡ ok payload
  pub unsent : draft.status ≡ DraftStatus.draft
  pub governed : (checked_policy service draft.mailbox_id db).0 ≡ ok policy
  pub validated :
      (validate service draft_id draft.version payload turn.validated db).0 ≡ ok validation
  pub unblocked : validation.blocked ≡ false
  pub given : confirmation ≡ some confirmation_id
  pub shown : expected ≡ some draft.version
  pub confirmed :
      IsGood db service.user confirmation_id draft_id draft.version
        (hash_payload service.host payload)
        policy.policy_version
        turn.confirmed
        row

is_open→draft : (s : DraftStatus) → not (is_open s) ≡ false → s ≡ DraftStatus.draft
is_open→draft DraftStatus.draft h = refl
is_open→draft DraftStatus.sent h = cc

-- sendDraft hands a message to the transport only for an unsent draft whose validation, made in the
-- same call, is not blocked, and only with a confirmation that the database holds for this draft,
-- its version, the hash of its payload and the version of the policy, neither used nor expired.
pub begin_draft-IsAuthorised :
    (service : Service) (draft_id : String) (confirmation : Option String) (expected : Option ℕ)
    (id : String) (turn : Turn) (w : World)
    → (begin_draft service draft_id confirmation expected id turn w).1.submissions ≢ w.submissions
    → IsAuthorised service draft_id confirmation expected turn w.db
unfolding begin_draft begin_fresh
begin_draft-IsAuthorised service draft_id confirmation expected id turn w sends =
    let user = service.user in
    let cipher = service.cipher in
    let (draft, drafted, s₁) =
      reads-Sends w (get_draft cipher user draft_id) _ (get_draft-reads cipher user draft_id)
        sends in
    let (payload, loaded, s₂) =
      reads-Sends w (get_draft_payload cipher user draft_id) _
        (get_draft_payload-reads cipher user draft_id) s₁ in
    let (previous, _, s₃) =
      reads-Sends w (get_send_receipt cipher user (draft_key draft_id)) _
        (get_send_receipt-reads cipher user (draft_key draft_id)) s₂ in
    let (_, s₄) =
      resume-fresh service draft_id draft payload confirmation expected id turn previous w s₃ in
    let (unsent, s₅) =
      throw_if-Sends w (not (is_open draft.status)) (coded draft_already_sent) _ s₄ in
    let (policy, governed, s₆) =
      reads-Sends w (checked_policy service draft.mailbox_id) _
        (checked_policy-reads service draft.mailbox_id) s₅ in
    let (validation, validated, s₇) =
      reads-Sends w (validate service draft_id draft.version payload turn.validated) _
        (validate-reads service draft_id draft.version payload turn.validated) s₆ in
    let (unblocked, s₈) = throw_if-Sends w validation.blocked (coded send_policy_blocked) _ s₇ in
    let hash = hash_payload service.host payload in
    let (_, passed, _) =
      on_db-Sends w
        (confirm service draft_id draft.version hash policy confirmation expected turn.confirmed) _
        s₈ in
    let (confirmation_id, row, given, shown, confirmed) =
      confirm-found service draft_id draft.version hash policy confirmation expected turn.confirmed
        w.db (checked_policy-require service draft.mailbox_id w.db policy governed) passed in
    record {
      draft = draft;
      payload = payload;
      policy = policy;
      validation = validation;
      confirmation_id = confirmation_id;
      row = row;
      drafted = drafted;
      loaded = loaded;
      unsent = is_open→draft draft.status unsent;
      governed = governed;
      validated = validated;
      unblocked = unblocked;
      given = given;
      shown = shown;
      confirmed = confirmed;
    }
