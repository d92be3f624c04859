-- ===== src/Send/SendDraft.antt =====
-- src/services/mailSendService.ts: sendDraft, as what it does before it waits for the transport,
-- what it does after, and the two with a transport between them.
use Prim.Native.String
use mailbridge_mcp.Common.{
  ℕ, String, Bool, true, false, not, Option, none, some, ltb, length, Result, ok, err, Exec, pure,
  throw_if, ◌>>=◌, ◌>>◌,
}
use mailbridge_mcp.Domain.Errors.{coded, draft_already_sent, send_policy_blocked}
use mailbridge_mcp.Domain.Types.{DraftPayload, MailDraftView, SendReceipt, DraftValidation}
use mailbridge_mcp.Store.Drafts.{is_open, get_draft, get_draft_payload, mark_draft_sent}
use mailbridge_mcp.Store.Operations.{Receipt, get_send_receipt}
use mailbridge_mcp.Send.Compose.{hash_payload}
use mailbridge_mcp.Send.Service.{
  Service, World, Submission, Started, replay, started, SendExecutionResult, SendDraftResult, on_db,
  checked_policy, validate, confirm, begin_send, finish_send, replay_previous,
}

-- The times that the calls of a method read, in their order.
pub record Turn : Type 0 where
  pub validated : ℕ
  pub confirmed : ℕ
  pub counted : ℕ
  pub reserved : ℕ

-- A draft on its way: what finishes the call when the transport has answered.
pub record DraftStart : Type 0 where
  pub draft : MailDraftView
  pub validation : DraftValidation
  pub start : Started

pub data DraftTurn : Type 0 where
  answered : SendDraftResult → DraftTurn
  waiting : DraftStart → DraftTurn

-- const key = `draft:${draftId}`
abbrev pub draft_key : String → String
draft_key draft_id = String.◌++◌ "draft:" draft_id

abbrev pub answer : DraftStart → DraftTurn
answer s = elim s.start [
  | replay result ↦ answered (record { draft = s.draft; result = result })
  | started _ ↦ waiting s
]

module _ (service : Service) where
  open service use {host, cipher, user}

  -- sendDraft after the test of `previous`, to the call of the transport.
  unfoldable pub begin_fresh :
      String
      → MailDraftView
      → DraftPayload
      → Option String
      → Option ℕ
      → String
      → Turn
      → Exec World DraftStart
  begin_fresh draft_id draft payload confirmation_id expected_version id turn = do
    throw_if (not (is_open draft.status)) (coded draft_already_sent)
    policy ← on_db (checked_policy service draft.mailbox_id)
    validation ← on_db (validate service draft_id draft.version payload turn.validated)
    throw_if validation.blocked (coded send_policy_blocked)
    on_db (
        confirm service draft_id draft.version (hash_payload host payload) policy confirmation_id
          expected_version turn.confirmed)
    start ←
        begin_send service payload (draft_key draft_id) policy validation id turn.counted
          turn.reserved
    pure (record { draft = draft; validation = validation; start = start })

  -- `if (previous) ...`, and the rest of sendDraft to the call of the transport.
  unfoldable pub resume_draft :
      String
      → MailDraftView
      → DraftPayload
      → Option String
      → Option ℕ
      → String
      → Turn
      → Option Receipt
      → Exec World DraftTurn
  resume_draft draft_id draft payload confirmation_id expected_version id turn (some receipt) = do
    result ← on_db (
        replay_previous service draft.mailbox_id (draft_key draft_id) (hash_payload host payload)
          receipt)
    pure (answered (record { draft = draft; result = result }))
  resume_draft draft_id draft payload confirmation_id expected_version id turn none = do
    start ← begin_fresh draft_id draft payload confirmation_id expected_version id turn
    pure (answer start)

  unfoldable pub begin_draft :
      String → Option String → Option ℕ → String → Turn → Exec World DraftTurn
  begin_draft draft_id confirmation_id expected_version id turn = do
    draft ← on_db (get_draft cipher user draft_id)
    payload ← on_db (get_draft_payload cipher user draft_id)
    previous ← on_db (get_send_receipt cipher user (draft_key draft_id))
    resume_draft draft_id draft payload confirmation_id expected_version id turn previous

  -- `accepted.length > 0 ? this.store.markDraftSent(...) : draft`
  unfoldable pub settle_draft :
      Bool → String → MailDraftView → SendExecutionResult → Exec World SendDraftResult
  settle_draft true draft_id draft sent = do
    marked ← on_db (mark_draft_sent cipher user draft_id sent.receipt)
    pure (record { draft = marked; result = sent })
  settle_draft false draft_id draft sent = pure (record { draft = draft; result = sent })

  unfoldable pub finish_draft :
      String → DraftStart → Result SendReceipt → ℕ → Exec World SendDraftResult
  finish_draft draft_id s outcome now = do
    sent ← finish_send service (draft_key draft_id) s.validation outcome now
    settle_draft (ltb 0 (length sent.receipt.accepted)) draft_id s.draft sent

  -- What the transport is asked, and its answer; an error from before the call stands for it.
  abbrev pub delivered : (Submission → Result SendReceipt) → Started → Result SendReceipt
  delivered transport (replay result) = ok result.receipt
  delivered transport (started (ok submission)) = transport submission
  delivered transport (started (err error)) = err error

  unfoldable pub send_draft :
      (Submission → Result SendReceipt)
      → String
      → Option String
      → Option ℕ
      → String
      → Turn
      → ℕ
      → Exec World SendDraftResult
  send_draft transport draft_id confirmation_id expected_version id turn now = do
    begun ← begin_draft draft_id confirmation_id expected_version id turn
    elim begun [
      | answered result ↦ pure result
      | waiting s ↦ finish_draft draft_id s (delivered transport s.start) now
    ]
