-- ===== src/Send/AtMostOnce/Sending.antt =====
-- #sendOnce, and the invariant that a message is covered by an operation.
use mathlib.Core.Path.{subst₂}
use mailbridge_mcp.Common.{
  ℕ, ◌+◌, ◌≤◌, ◌≡◌, refl, String, Bool, true, ◌&&◌, none, some, [], ◌∷◌, arith, str_eq, eq_iff,
  find, find-append, count_where, count_where-snoc, Result-cases, Result, ok, err, Option-cases,
  inl, inr, if◌then◌else◌,
}
use mailbridge_mcp.Domain.Types.{SendPolicyView, SendReceipt, DraftPayload, DraftValidation}
use mailbridge_mcp.Domain.Errors.{Error, safe_error}
use mailbridge_mcp.Store.Rows.{Db, SendOperationRow, is_operation}
use mailbridge_mcp.Store.Operations.{Reservation, reserve_send_operation}
use mailbridge_mcp.Store.Operations.Completion.{complete_send_operation}
use mailbridge_mcp.Store.Operations.Reserving.{
  new_operation, reserve-taken, reserve-fails, reserve-fresh, reserve-operations,
}
use mailbridge_mcp.Store.Operations.Settling.{claims, complete-claims, unknown-claims}
use mailbridge_mcp.Config.Registry.{get_mailbox}
use mailbridge_mcp.Send.Policy.{address_domain}
use mailbridge_mcp.Send.Compose.{hash_payload}
use mailbridge_mcp.Send.Service.{
  Service, World, Submission, begin_send, submit, submission_to, give_up, finish_send,
}

abbrev pub is_submission : String → String → Submission → Bool
is_submission user key s = str_eq s.user user && str_eq s.key key

-- How often a message has gone out for a key.
abbrev pub deliveries : String → String → World → ℕ
deliveries user key w = count_where (is_submission user key) w.submissions

-- The invariant: no key has more messages than operations, of which there is one at most.
abbrev pub IsCovered : String → String → World → Type 0
IsCovered u k w = deliveries u k w ≤ claims u k w.db

module _ (u k : String) (service : Service) where
  open service use {host, cipher, user, mailboxes}

  -- A call of the transport is one message, and leaves the database alone.
  abbrev one_if : Bool → ℕ
  one_if b = if b then 1 else 0

  submit-db :
      (payload : DraftPayload) (key : String) (w : World)
      → (submit service payload key w).1.db ≡ w.db
  unfolding submit
  submit-db payload key w = ground arith

  submit-deliveries :
      (payload : DraftPayload) (key : String) (w : World)
      → deliveries u k (submit service payload key w).1
        ≤ deliveries u k w + one_if (str_eq user u && str_eq key k)
  submit-deliveries payload key w =
      elim (Result-cases (get_mailbox mailboxes payload.mailbox_id true)) [
        | inr (e, refused) ↦ unfold submit in ground arith
        | inl (mailbox, found) ↦ elim (Result-cases (address_domain host mailbox.email)) [
          | inr (e, refused) ↦ unfold submit in ground arith
          | inl (domain, known) ↦
              unfold submit submission_to in
              ground (
                arith,
                count_where-snoc (is_submission u k) w.submissions
                    (submission_to service mailbox domain payload key),
              )
        ]
      ]

  module _ (payload : DraftPayload) (key : String) (policy : SendPolicyView)
      (validation : DraftValidation) (id : String) (at now : ℕ) (w : World)
      (covered : IsCovered u k w) where
    abbrev reserved : Result Reservation × Db
    reserved =
        reserve_send_operation cipher user key payload.mailbox_id (hash_payload host payload) policy
          validation.recipient_count validation.external_recipient_count id at now w.db

    abbrev begun : World
    begun = (begin_send service payload key policy validation id at now w).1

    begin_send-taken :
        (row : SendOperationRow)
        → find (is_operation user key) w.db.operations ≡ some row
        → IsCovered u k begun
    unfolding begin_send
    begin_send-taken row found =
        let (same, answered) =
          reserve-taken cipher w.db user key payload.mailbox_id (hash_payload host payload) policy
            validation.recipient_count validation.external_recipient_count id at now row found in
        elim (Result-cases reserved.0) [
          | inr (e, failed) ↦ ground (arith, same)
          | inl (r, done) ↦
              let (again, with_receipt) = answered r done in
              ground (arith, same, again, with_receipt)
        ]

    same-key :
        find (is_operation user key) w.db.operations ≡ none
        → str_eq user u ≡ true
        → str_eq key k ≡ true
        → find (is_operation u k) w.db.operations ≡ none
    same-key free e f =
        subst₂ (λ a b. find (is_operation a b) w.db.operations ≡ none) ((eq_iff user u).0 e)
          ((eq_iff key k).0 f) free

    begin_send-fresh :
        find (is_operation user key) w.db.operations ≡ none
        → (r : Reservation) → reserved.0 ≡ ok r
        → IsCovered u k begun
    unfolding begin_send find
    begin_send-fresh free r done =
        let reserved_ok : reserved ≡ (ok r, reserved.1) = λ i. (done i, reserved.1) in
        let middle : World = record w { db = reserved.1 } in
        let added =
          reserve-operations cipher w.db user key payload.mailbox_id (hash_payload host payload)
            policy validation.recipient_count validation.external_recipient_count id at now free r
            reserved.1 reserved_ok in
        let (first, empty) =
          reserve-fresh cipher w.db user key payload.mailbox_id (hash_payload host payload) policy
            validation.recipient_count validation.external_recipient_count id at now free r
            reserved.1 reserved_ok in
        let found =
          find-append (is_operation u k) w.db.operations
            (new_operation user key payload.mailbox_id (hash_payload host payload) id now ∷ []) in
        ground (
          arith,
          added,
          first,
          empty,
          found,
          same-key free,
          submit-db payload key middle,
          submit-deliveries payload key middle,
        )

    begin_send-free : find (is_operation user key) w.db.operations ≡ none → IsCovered u k begun
    unfolding begin_send
    begin_send-free free = elim (Result-cases reserved.0) [
      | inr (e, failed) ↦ ground (
        arith,
        reserve-fails cipher w.db user key payload.mailbox_id (hash_payload host payload) policy
            validation.recipient_count validation.external_recipient_count id at now e failed,
      )
      | inl (r, done) ↦ begin_send-fresh free r done
    ]

    pub begin_send-IsCovered : IsCovered u k begun
    begin_send-IsCovered = elim (Option-cases (find (is_operation user key) w.db.operations)) [
      | inl free ↦ begin_send-free free
      | inr (row, found) ↦ begin_send-taken row found
    ]

  module _ (key : String) (validation : DraftValidation) (now : ℕ) (w : World) where
    pub give_up-counts :
        (error : Error)
        → (deliveries u k (give_up service key error validation now w).1 ≡ deliveries u k w)
          × (claims u k (give_up service key error validation now w).1.db ≡ claims u k w.db)
    unfolding give_up
    give_up-counts error = (
      refl,
      unknown-claims u k w.db user key (safe_error error).code validation.recipient_count
          validation.external_recipient_count now,
    )

  pub finish_send-IsCovered :
      (key : String) (validation : DraftValidation) (outcome : Result SendReceipt) (now : ℕ)
      (w : World)
      → IsCovered u k w
      → IsCovered u k (finish_send service key validation outcome now w).1
  unfolding finish_send
  finish_send-IsCovered key validation (err error) now w covered =
      omega (arith, give_up-counts key validation now w error)
  finish_send-IsCovered key validation (ok receipt) now w covered =
      let kept =
        complete-claims u k cipher w.db user key receipt validation.recipient_count
          validation.external_recipient_count in
      let completed =
        complete_send_operation cipher user key receipt validation.recipient_count
          validation.external_recipient_count w.db in
      elim (Result-cases completed.0) [
        | inl (operation, done) ↦ ground (arith, kept)
        | inr (error, failed) ↦
            ground
              (arith, kept, give_up-counts key validation now (record w { db = completed.1 }) error)
      ]
