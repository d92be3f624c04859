-- ===== src/Send/Service.antt =====
-- src/services/mailSendService.ts: checking a draft, confirming it, and submitting it once. What
-- stands before the first `await` of a method runs in one turn of the event loop, so sendOnce is
-- two functions, `begin_send` up to the call of the transport and `finish_send` after it.
use mailbridge_mcp.Common.{
  ℕ, String, Bool, true, false, not, Option, none, some, List, [], ◌∷◌, ◌++◌, str_eq, ◌==◌, length,
  if◌then◌else◌, Result, ok, err, Exec, pure, throw, throw_if, lift, gets, modify, or_throw, ◌>>=◌,
  ◌>>◌,
}
use Prim.Native.String
use mailbridge_mcp.Common.Text.{is_empty as empty_text}
use mailbridge_mcp.Common.Host.{Host}
use mailbridge_mcp.Domain.Errors.{
  Error, coded, safe_error, draft_already_sent, draft_version_conflict, send_policy_blocked,
  send_not_configured, send_confirmation_required, idempotency_conflict, send_status_unknown,
  mailbox_mismatch,
}
use mailbridge_mcp.Domain.Types.{
  DraftPayload, MailDraftView, SendReceipt, SendPolicyView, DraftValidation, SendConfirmationView,
}
use mailbridge_mcp.Config.Registry.{MailboxConfig, get_mailbox}
use mailbridge_mcp.Store.Rows.{Db}
use mailbridge_mcp.Store.Cipher.{Cipher}
use mailbridge_mcp.Store.Policies.{get_send_policy, send_usage}
use mailbridge_mcp.Store.Drafts.{is_open, get_draft, get_draft_payload, update_draft}
use mailbridge_mcp.Store.Confirmations.{create_send_confirmation, consume_send_confirmation}
use mailbridge_mcp.Store.Operations.{
  SendOperationView, Receipt, Reservation, outcome, get_send_operation_by_key,
  reserve_send_operation,
}
use mailbridge_mcp.Store.Operations.Completion.{
  complete_send_operation, mark_send_operation_unknown,
}
use mailbridge_mcp.Send.Policy.{evaluate_send_policy, address_domain}
use mailbridge_mcp.Send.Compose.{ComposeInput, compose, hash_payload}

-- A call of `transport.send`.
pub record Submission : Type 0 where
  pub user : String
  pub key : String
  pub mailbox : MailboxConfig
  pub payload : DraftPayload
  pub message_id : String

-- The database, and every call of the transport so far.
pub record World : Type 0 where
  pub db : Db
  pub submissions : List Submission

abbrev on_result : {A : Type 0} → World → Result A × Db → Result A × World
on_result w (r, db) = (r, record w { db = db })

abbrev pub on_db : {A : Type 0} → Exec Db A → Exec World A
on_db m w = on_result w (m w.db)

abbrev attempted : {A : Type 0} → Result A × World → Result (Result A) × World
attempted (r, w) = (ok r, w)

-- `try { ... }`, the error as a value.
abbrev pub attempt : {A : Type 0} → Exec World A → Exec World (Result A)
attempt m w = attempted (m w)

pub record SendExecutionResult : Type 0 where
  pub receipt : SendReceipt
  pub operation : SendOperationView
  pub replayed : Bool

pub record SendDraftResult : Type 0 where
  pub draft : MailDraftView
  pub result : SendExecutionResult

-- What a method has after its first turn: an answer, or a message on its way, or an error that
-- was thrown before the transport was called.
pub data Started : Type 0 where
  replay : SendExecutionResult → Started
  started : Result Submission → Started

-- The service of one user over the mailboxes of its configuration.
pub record Service : Type 0 where
  pub host : Host
  pub cipher : Cipher
  pub user : String
  pub mailboxes : List MailboxConfig

module _ (service : Service) where
  open service use {host, cipher, user, mailboxes}

  -- getSendPolicy
  unfoldable pub checked_policy : String → Exec Db SendPolicyView
  checked_policy mailbox_id = do
    _ ← lift (get_mailbox mailboxes mailbox_id true)
    get_send_policy user mailbox_id

  -- #validate
  unfoldable pub validate : String → ℕ → DraftPayload → ℕ → Exec Db DraftValidation
  validate draft_id draft_version payload now = do
    mailbox ← lift (get_mailbox mailboxes payload.mailbox_id true)
    throw_if (not mailbox.send_enabled) (coded send_not_configured)
    policy ← checked_policy payload.mailbox_id
    usage ← gets (send_usage user payload.mailbox_id now)
    lift (evaluate_send_policy host mailbox.email draft_id draft_version payload policy usage)

  -- validateDraft
  unfoldable pub validate_draft : String → ℕ → Exec Db DraftValidation
  validate_draft draft_id now = do
    draft ← get_draft cipher user draft_id
    throw_if (not (is_open draft.status)) (coded draft_already_sent)
    payload ← get_draft_payload cipher user draft_id
    validate draft_id draft.version payload now

  -- prepareDraftSend; `id` is the identifier of the new confirmation.
  unfoldable pub prepare_draft_send : String → String → ℕ → ℕ → Exec Db SendConfirmationView
  prepare_draft_send draft_id id at now = do
    draft ← get_draft cipher user draft_id
    payload ← get_draft_payload cipher user draft_id
    validation ← validate_draft draft_id at
    throw_if validation.blocked (coded send_policy_blocked)
    policy ← checked_policy draft.mailbox_id
    create_send_confirmation cipher user draft_id (hash_payload host payload) validation
        policy.confirmation_ttl_seconds id now

  -- updateDraft
  unfoldable pub edit_draft : String → ℕ → ComposeInput → ℕ → Exec Db MailDraftView
  edit_draft draft_id expected input now = do
    current ← get_draft cipher user draft_id
    throw_if (not (str_eq current.mailbox_id input.mailbox_id)) (coded mailbox_mismatch)
    payload ← get_draft_payload cipher user draft_id
    composed ← lift (compose host mailboxes input)
    let message = composed.message
    update_draft cipher user draft_id expected
        (record {
          message = record message {
            in_reply_to = payload.in_reply_to;
            references = payload.references;
          };
          attachments = payload.attachments;
        })
        now

  -- `deterministicMessageId(userKey, key, domain)`; `digest_list` gives the first 40 digits.
  unfoldable pub deterministic_message_id : String → String → String
  deterministic_message_id key domain = String.◌++◌ "<" (
      String.◌++◌ (host.digest_list ("mailbridge-send-v1" ∷ user ∷ key ∷ []))
        (String.◌++◌ "@" (String.◌++◌ domain ">")))

  unfoldable pub submission_to : MailboxConfig → String → DraftPayload → String → Submission
  submission_to mailbox domain payload key = record {
    user = user;
    key = key;
    mailbox = mailbox;
    payload = payload;
    message_id = deterministic_message_id key domain;
  }

  -- The body of the `try` up to the call of the transport: #domain, #deliver.
  unfoldable pub submit : DraftPayload → String → Exec World Submission
  submit payload key = do
    sender ← lift (get_mailbox mailboxes payload.mailbox_id true)
    domain ← lift (address_domain host sender.email)
    mailbox ← lift (get_mailbox mailboxes payload.mailbox_id true)
    throw_if (not mailbox.send_enabled) (coded send_not_configured)
    let submission = submission_to mailbox domain payload key
    modify (λ w. record w { submissions = w.submissions ++ submission ∷ [] })
    pure submission

  -- `if (reservation.replayed && reservation.receipt) return ...`
  abbrev pub replay_of : Reservation → Option SendExecutionResult
  replay_of reservation = elim reservation.receipt [
    | none ↦ none
    | some receipt ↦
        if reservation.replayed
        then some (record { receipt = receipt; operation = reservation.operation; replayed = true })
        else none
  ]

  -- #sendOnce, to the call of the transport. `id` is the identifier of a new operation.
  unfoldable pub begin_send :
      DraftPayload → String → SendPolicyView → DraftValidation → String → ℕ → ℕ → Exec World Started
  begin_send payload key policy validation id at now = do
    reservation ← on_db (
        reserve_send_operation cipher user key payload.mailbox_id (hash_payload host payload) policy
          validation.recipient_count validation.external_recipient_count id at now)
    elim (replay_of reservation) [
      | some result ↦ pure (replay result)
      | none ↦ do prepared ← attempt (submit payload key); pure (started prepared)
    ]

  -- The `catch` of #sendOnce: a failure to record the uncertainty is itself ignored.
  unfoldable pub give_up : String → Error → DraftValidation → ℕ → Exec World SendExecutionResult
  give_up key error validation now = do
    _ ← attempt (
        on_db (
          mark_send_operation_unknown user key (safe_error error).code validation.recipient_count
            validation.external_recipient_count now))
    throw (coded send_status_unknown)

  -- #sendOnce, from the answer of the transport.
  unfoldable pub finish_send :
      String → DraftValidation → Result SendReceipt → ℕ → Exec World SendExecutionResult
  finish_send key validation (err error) now = give_up key error validation now
  finish_send key validation (ok receipt) now = do
    completed ← attempt (
        on_db (
          complete_send_operation cipher user key receipt validation.recipient_count
            validation.external_recipient_count))
    elim completed [
      | ok operation ↦ pure (record { receipt = receipt; operation = operation; replayed = false })
      | err error ↦ give_up key error validation now
    ]

  -- `legacyOperation(mailboxId, key, receipt)`
  unfoldable pub legacy_operation : String → String → SendReceipt → SendOperationView
  legacy_operation mailbox_id key receipt = record {
    operation_id = String.◌++◌ "legacy_" (host.digest_text key);
    mailbox_id = mailbox_id;
    state = outcome receipt;
    accepted_count = length receipt.accepted;
    rejected_count = length receipt.rejected;
    created_at = receipt.sent_at;
    updated_at = receipt.sent_at;
    error_code = none;
  }

  abbrev pub or_legacy :
      Option SendOperationView → String → String → SendReceipt → SendOperationView
  or_legacy (some operation) mailbox_id key receipt = operation
  or_legacy none mailbox_id key receipt = legacy_operation mailbox_id key receipt

  -- The branch `if (previous)` of sendDraft and #sendDirect.
  unfoldable pub replay_previous : String → String → String → Receipt → Exec Db SendExecutionResult
  replay_previous mailbox_id key payload_hash previous = do
    throw_if (not (str_eq previous.payload_hash payload_hash)) (coded idempotency_conflict)
    operation ← get_send_operation_by_key user key
    pure (record {
      receipt = previous.receipt;
      operation = or_legacy operation mailbox_id key previous.receipt;
      replayed = true;
    })

  -- The branch `if (policy.require_confirmation)` of sendDraft.
  abbrev given : Option String → Option String
  given none = none
  given (some id) = if empty_text id then none else some id

  unfoldable pub confirm :
      String → ℕ → String → SendPolicyView → Option String → Option ℕ → ℕ → Exec Db (Unit {0})
  confirm draft_id version payload_hash policy confirmation_id expected_version now =
      elim policy.require_confirmation [
        | false ↦ pure tt
        | true ↦ do
          confirmation ← or_throw (given confirmation_id) (coded send_confirmation_required)
          expected ← or_throw expected_version (coded send_confirmation_required)
          throw_if (not (expected == version)) (coded draft_version_conflict)
          consume_send_confirmation user confirmation draft_id expected payload_hash
              policy.policy_version now
      ]
