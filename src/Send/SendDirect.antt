-- ===== src/Send/SendDirect.antt =====
-- src/services/mailSendService.ts: #sendDirect and sendEmail.
use Prim.Native.String
use mailbridge_mcp.Common.{
  ℕ, String, Bool, true, false, not, Option, none, some, Result, Exec, pure, throw_if, lift, ◌>>=◌,
  ◌>>◌,
}
use mailbridge_mcp.Domain.Errors.{coded, draft_confirmation_required, send_policy_blocked}
use mailbridge_mcp.Domain.Types.{SendMode, DraftPayload, SendReceipt, DraftValidation}
use mailbridge_mcp.Store.Operations.{Receipt, get_send_receipt}
use mailbridge_mcp.Send.Compose.{ComposeInput, compose, hash_payload}
use mailbridge_mcp.Send.Service.{
  Service, World, Started, replay, started, SendExecutionResult, on_db, checked_policy, validate,
  begin_send, finish_send, replay_previous,
}
use mailbridge_mcp.Send.SendDraft.{Turn}

pub record DirectStart : Type 0 where
  pub validation : DraftValidation
  pub start : Started

pub data DirectTurn : Type 0 where
  answered : SendExecutionResult → DirectTurn
  waiting : DirectStart → DirectTurn

-- const key = `direct:${idempotencyKey}`
abbrev pub direct_key : String → String
direct_key idempotency_key = String.◌++◌ "direct:" idempotency_key

abbrev pub is_direct : SendMode → Bool
is_direct SendMode.direct_allowed = true
is_direct SendMode.draft_only = false
is_direct SendMode.disabled = false

abbrev pub answer : DirectStart → DirectTurn
answer s = elim s.start [ replay result ↦ answered result | started _ ↦ waiting s ]

module _ (service : Service) where
  open service use {host, cipher, user, mailboxes}

  unfoldable pub begin_fresh : DraftPayload → String → String → Turn → Exec World DirectStart
  begin_fresh payload key id turn = do
    policy ← on_db (checked_policy service payload.mailbox_id)
    throw_if (not (is_direct policy.send_mode)) (coded draft_confirmation_required)
    validation ← on_db (validate service "direct" 0 payload turn.validated)
    throw_if validation.blocked (coded send_policy_blocked)
    start ← begin_send service payload key policy validation id turn.counted turn.reserved
    pure (record { validation = validation; start = start })

  -- `if (previous) ...`, and the rest of #sendDirect to the call of the transport.
  unfoldable pub resume_direct :
      DraftPayload → String → String → Turn → Option Receipt → Exec World DirectTurn
  resume_direct payload key id turn (some receipt) = do
    result ←
        on_db (replay_previous service payload.mailbox_id key (hash_payload host payload) receipt)
    pure (answered result)
  resume_direct payload key id turn none = do
    start ← begin_fresh payload key id turn
    pure (answer start)

  unfoldable pub begin_direct : DraftPayload → String → String → Turn → Exec World DirectTurn
  begin_direct payload idempotency_key id turn = do
    previous ← on_db (get_send_receipt cipher user (direct_key idempotency_key))
    resume_direct payload (direct_key idempotency_key) id turn previous

  -- sendEmail, to the call of the transport.
  unfoldable pub begin_email : ComposeInput → String → String → Turn → Exec World DirectTurn
  begin_email input idempotency_key id turn = do
    payload ← lift (compose host mailboxes input)
    begin_direct payload idempotency_key id turn

  unfoldable pub finish_direct :
      String → DirectStart → Result SendReceipt → ℕ → Exec World SendExecutionResult
  finish_direct idempotency_key s outcome now =
      finish_send service (direct_key idempotency_key) s.validation outcome now
