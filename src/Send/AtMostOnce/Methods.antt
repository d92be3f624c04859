-- ===== src/Send/AtMostOnce/Methods.antt =====
-- sendDraft and #sendDirect, and the invariant that a message is covered by an operation.
use mailbridge_mcp.Common.{
  ℕ, ◌≡◌, String, Bool, true, false, not, Option, none, some, arith, ltb, Result, length, Exec,
  throw_if, ◌>>=◌,
}
use mailbridge_mcp.Common.Keeps.{Keeps, bind-Keeps, throw_if-Keeps}
use mailbridge_mcp.Domain.Types.{SendPolicyView, SendReceipt, DraftPayload, MailDraftView}
use mailbridge_mcp.Domain.Errors.{
  coded, draft_already_sent, send_policy_blocked, draft_confirmation_required,
}
use mailbridge_mcp.Store.Rows.{Db}
use mailbridge_mcp.Store.Cipher.{Cipher}
use mailbridge_mcp.Store.Policies.{get_send_policy}
use mailbridge_mcp.Store.Drafts.{is_open, get_draft, get_draft_payload, mark_draft_sent}
use mailbridge_mcp.Store.Confirmations.{consume_send_confirmation}
use mailbridge_mcp.Store.Operations.{Receipt, get_send_receipt, get_send_operation_by_key}
use mailbridge_mcp.Send.Compose.{hash_payload}
use mailbridge_mcp.Send.Service.{
  Service, World, SendExecutionResult, on_db, checked_policy, validate, confirm, replay_previous,
  begin_send, finish_send,
}
use mailbridge_mcp.Send.SendDraft.{
  draft_key, Turn, DraftStart, begin_fresh, resume_draft, begin_draft, settle_draft, finish_draft,
}
use mailbridge_mcp.Send.SendDirect
use mailbridge_mcp.Send.SendDirect.{
  direct_key, is_direct, DirectStart, resume_direct, begin_direct, finish_direct,
}
use mailbridge_mcp.Send.AtMostOnce.Sending.{IsCovered, begin_send-IsCovered, finish_send-IsCovered}

-- A call of the store that leaves the operations alone keeps the invariant.
pub on_db-Keeps :
    (u k : String) {A : Type 0} (m : Exec Db A)
    → ((db : Db) → (m db).1.operations ≡ db.operations)
    → Keeps (IsCovered u k) (on_db m)
on_db-Keeps u k m same w covered = rw (same w.db) covered

on_db_then-Keeps :
    (u k : String) {A B : Type 0} (m : Exec Db A) (f : A → Exec World B)
    → ((db : Db) → (m db).1.operations ≡ db.operations)
    → ((a : A) → Keeps (IsCovered u k) (f a))
    → Keeps (IsCovered u k) (on_db m >>= f)
on_db_then-Keeps u k m f same kf =
    bind-Keeps (IsCovered u k) (on_db m) f (on_db-Keeps u k m same) kf

module _ (cipher : Cipher) (user id : String) (db : Db) where
  pub get_draft-operations : (get_draft cipher user id db).1.operations ≡ db.operations
  unfolding get_draft
  get_draft-operations = ground arith

  pub get_draft_payload-operations :
      (get_draft_payload cipher user id db).1.operations ≡ db.operations
  unfolding get_draft_payload
  get_draft_payload-operations = ground arith

  pub get_send_receipt-operations :
      (get_send_receipt cipher user id db).1.operations ≡ db.operations
  unfolding get_send_receipt
  get_send_receipt-operations = ground arith

  pub mark_draft_sent-operations :
      (receipt : SendReceipt)
      → (mark_draft_sent cipher user id receipt db).1.operations ≡ db.operations
  unfolding mark_draft_sent
  mark_draft_sent-operations receipt = ground arith

module _ (service : Service) (db : Db) where
  pub replay_previous-operations :
      (mailbox key hash : String) (previous : Receipt)
      → (replay_previous service mailbox key hash previous db).1.operations ≡ db.operations
  unfolding replay_previous get_send_operation_by_key
  replay_previous-operations mailbox key hash previous = ground arith

  pub checked_policy-operations :
      (mailbox : String) → (checked_policy service mailbox db).1.operations ≡ db.operations
  unfolding checked_policy get_send_policy
  checked_policy-operations mailbox = ground arith

  pub validate-operations :
      (draft_id : String) (version : ℕ) (payload : DraftPayload) (now : ℕ)
      → (validate service draft_id version payload now db).1.operations ≡ db.operations
  unfolding validate
  validate-operations draft_id version payload now =
      ground (arith, checked_policy-operations payload.mailbox_id)

  pub confirm-operations :
      (draft_id : String) (version : ℕ) (hash : String) (policy : SendPolicyView)
      (confirmation : Option String) (expected : Option ℕ) (now : ℕ)
      → (confirm service draft_id version hash policy confirmation expected now db).1.operations
        ≡ db.operations
  unfolding confirm consume_send_confirmation
  confirm-operations draft_id version hash policy confirmation expected now = ground arith

module _ (u k : String) (service : Service) where
  open service use {host, cipher, user, mailboxes}

  begin_fresh-Keeps :
      (draft_id : String) (draft : MailDraftView) (payload : DraftPayload)
      (confirmation : Option String) (expected : Option ℕ) (id : String) (turn : Turn)
      → Keeps
          (IsCovered u k)
          (begin_fresh service draft_id draft payload confirmation expected id turn)
  unfolding begin_fresh
  begin_fresh-Keeps draft_id draft payload confirmation expected id turn =
      let P = IsCovered u k in
      bind-Keeps P (throw_if (not (is_open draft.status)) (coded draft_already_sent)) _
        (throw_if-Keeps P (not (is_open draft.status)) (coded draft_already_sent))
        λ _.
          on_db_then-Keeps u k (checked_policy service draft.mailbox_id) _
            (λ db. checked_policy-operations service db draft.mailbox_id)
            λ policy.
              on_db_then-Keeps u k (validate service draft_id draft.version payload turn.validated)
                _
                (λ db. validate-operations service db draft_id draft.version payload turn.validated)
                λ validation.
                  bind-Keeps P (throw_if validation.blocked (coded send_policy_blocked)) _
                    (throw_if-Keeps P validation.blocked (coded send_policy_blocked))
                    λ _.
                      on_db_then-Keeps u k
                        (confirm service draft_id draft.version (hash_payload host payload) policy
                          confirmation expected turn.confirmed)
                        _
                        (λ db.
                          confirm-operations service db draft_id draft.version
                            (hash_payload host payload) policy confirmation expected turn.confirmed)
                        λ _.
                          bind-Keeps P
                            (begin_send service payload (draft_key draft_id) policy validation id
                              turn.counted turn.reserved)
                            _
                            (begin_send-IsCovered u k service payload (draft_key draft_id) policy
                              validation id turn.counted turn.reserved)
                            λ _ _ p. p

  resume_draft-Keeps :
      (draft_id : String) (draft : MailDraftView) (payload : DraftPayload)
      (confirmation : Option String) (expected : Option ℕ) (id : String) (turn : Turn)
      (previous : Option Receipt)
      → Keeps
          (IsCovered u k)
          (resume_draft service draft_id draft payload confirmation expected id turn previous)
  unfolding resume_draft
  resume_draft-Keeps draft_id draft payload confirmation expected id turn (some receipt) =
      let hash = hash_payload host payload in
      on_db_then-Keeps u k
        (replay_previous service draft.mailbox_id (draft_key draft_id) hash receipt) _
        (λ db.
          replay_previous-operations service db draft.mailbox_id (draft_key draft_id) hash receipt)
        λ _ _ p. p
  resume_draft-Keeps draft_id draft payload confirmation expected id turn none =
      bind-Keeps (IsCovered u k)
        (begin_fresh service draft_id draft payload confirmation expected id turn) _
        (begin_fresh-Keeps draft_id draft payload confirmation expected id turn) λ _ _ p. p

  -- The first turn of sendDraft.
  pub begin_draft-Keeps :
      (draft_id : String) (confirmation : Option String) (expected : Option ℕ) (id : String)
      (turn : Turn)
      → Keeps (IsCovered u k) (begin_draft service draft_id confirmation expected id turn)
  unfolding begin_draft
  begin_draft-Keeps draft_id confirmation expected id turn =
      on_db_then-Keeps u k (get_draft cipher user draft_id) _
        (get_draft-operations cipher user draft_id)
        λ draft.
          on_db_then-Keeps u k (get_draft_payload cipher user draft_id) _
            (get_draft_payload-operations cipher user draft_id)
            λ payload.
              on_db_then-Keeps u k (get_send_receipt cipher user (draft_key draft_id)) _
                (get_send_receipt-operations cipher user (draft_key draft_id))
                λ previous.
                  resume_draft-Keeps draft_id draft payload confirmation expected id turn previous

  settle_draft-Keeps :
      (accepted : Bool) (draft_id : String) (draft : MailDraftView) (result : SendExecutionResult)
      → Keeps (IsCovered u k) (settle_draft service accepted draft_id draft result)
  unfolding settle_draft
  settle_draft-Keeps true draft_id draft result =
      on_db_then-Keeps u k (mark_draft_sent cipher user draft_id result.receipt) _
        (λ db. mark_draft_sent-operations cipher user draft_id db result.receipt) λ _ _ p. p
  settle_draft-Keeps false draft_id draft result = λ _ p. p

  -- The second turn of sendDraft, whatever the transport has answered.
  pub finish_draft-Keeps :
      (draft_id : String) (s : DraftStart) (outcome : Result SendReceipt) (now : ℕ)
      → Keeps (IsCovered u k) (finish_draft service draft_id s outcome now)
  unfolding finish_draft
  finish_draft-Keeps draft_id s outcome now =
      bind-Keeps (IsCovered u k) (finish_send service (draft_key draft_id) s.validation outcome now)
        _ (finish_send-IsCovered u k service (draft_key draft_id) s.validation outcome now)
        λ result.
          settle_draft-Keeps (ltb 0 (length result.receipt.accepted)) draft_id s.draft result

  begin_fresh_direct-Keeps :
      (payload : DraftPayload) (key id : String) (turn : Turn)
      → Keeps (IsCovered u k) (SendDirect.begin_fresh service payload key id turn)
  unfolding SendDirect.begin_fresh
  begin_fresh_direct-Keeps payload key id turn =
      let P = IsCovered u k in
      on_db_then-Keeps u k (checked_policy service payload.mailbox_id) _
        (λ db. checked_policy-operations service db payload.mailbox_id)
        λ policy.
          let other_mode = not (is_direct policy.send_mode) in
          bind-Keeps P (throw_if other_mode (coded draft_confirmation_required)) _
            (throw_if-Keeps P other_mode (coded draft_confirmation_required))
            λ _.
              on_db_then-Keeps u k (validate service "direct" 0 payload turn.validated) _
                (λ db. validate-operations service db "direct" 0 payload turn.validated)
                λ validation.
                  bind-Keeps P (throw_if validation.blocked (coded send_policy_blocked)) _
                    (throw_if-Keeps P validation.blocked (coded send_policy_blocked))
                    λ _.
                      bind-Keeps P
                        (begin_send service payload key policy validation id turn.counted
                          turn.reserved)
                        _
                        (begin_send-IsCovered u k service payload key policy validation id
                          turn.counted turn.reserved)
                        λ _ _ p. p

  resume_direct-Keeps :
      (payload : DraftPayload) (key id : String) (turn : Turn) (previous : Option Receipt)
      → Keeps (IsCovered u k) (resume_direct service payload key id turn previous)
  unfolding resume_direct
  resume_direct-Keeps payload key id turn (some receipt) =
      let hash = hash_payload host payload in
      on_db_then-Keeps u k (replay_previous service payload.mailbox_id key hash receipt) _
        (λ db. replay_previous-operations service db payload.mailbox_id key hash receipt) λ _ _ p. p
  resume_direct-Keeps payload key id turn none =
      bind-Keeps (IsCovered u k) (SendDirect.begin_fresh service payload key id turn) _
        (begin_fresh_direct-Keeps payload key id turn) λ _ _ p. p

  -- The first turn of #sendDirect.
  pub begin_direct-Keeps :
      (payload : DraftPayload) (idempotency_key id : String) (turn : Turn)
      → Keeps (IsCovered u k) (begin_direct service payload idempotency_key id turn)
  unfolding begin_direct
  begin_direct-Keeps payload idempotency_key id turn =
      on_db_then-Keeps u k (get_send_receipt cipher user (direct_key idempotency_key)) _
        (get_send_receipt-operations cipher user (direct_key idempotency_key))
        λ previous. resume_direct-Keeps payload (direct_key idempotency_key) id turn previous

  -- The second turn of #sendDirect.
  pub finish_direct-Keeps :
      (idempotency_key : String) (s : DirectStart) (outcome : Result SendReceipt) (now : ℕ)
      → Keeps (IsCovered u k) (finish_direct service idempotency_key s outcome now)
  unfolding finish_direct
  finish_direct-Keeps idempotency_key s outcome now =
      finish_send-IsCovered u k service (direct_key idempotency_key) s.validation outcome now
