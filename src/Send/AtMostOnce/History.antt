-- ===== src/Send/AtMostOnce/History.antt =====
-- The histories of the service: the turns of sendDraft and #sendDirect and the other methods of
-- the users, in any order. A second turn may come with any answer of the transport, or never.
use mailbridge_mcp.Common.{
  ℕ, ◌≤◌, ◌≡◌, String, Option, none, some, [], arith, count_where, find, Result,
}
use mailbridge_mcp.Domain.Types.{SendPolicyInput, SendReceipt, DraftPayload, DraftAttachment}
use mailbridge_mcp.Store.Rows.{SendOperationRow, is_operation}
use mailbridge_mcp.Store.Policies.{set_send_policy}
use mailbridge_mcp.Store.Drafts.{create_draft, add_draft_attachment, remove_draft_attachment}
use mailbridge_mcp.Store.Operations.Settling.{taken}
use mailbridge_mcp.Send.Compose.{ComposeInput}
use mailbridge_mcp.Send.Service.{Service, World, on_db, edit_draft, prepare_draft_send}
use mailbridge_mcp.Send.SendDraft.{Turn, DraftStart, begin_draft, finish_draft}
use mailbridge_mcp.Send.SendDirect.{DirectStart, begin_direct, finish_direct}
use mailbridge_mcp.Send.AtMostOnce.Sending.{IsCovered, deliveries}
use mailbridge_mcp.Send.AtMostOnce.Methods.{
  on_db-Keeps, begin_draft-Keeps, finish_draft-Keeps, begin_direct-Keeps, finish_direct-Keeps,
}
use mailbridge_mcp.Send.AtMostOnce.Calls.{
  create_draft-operations, add_attachment-operations, remove_attachment-operations,
  set_policy-operations, prepare-operations, edit-operations,
}

-- A step is a turn of a method, by any user, with any arguments and at any times.
pub data Step : World → World → Type 0 where
  begins_draft :
      (service : Service) (draft_id : String) (confirmation : Option String) (expected : Option ℕ)
      (id : String) (turn : Turn) (w : World)
      → Step w (begin_draft service draft_id confirmation expected id turn w).1
  finishes_draft :
      (service : Service) (draft_id : String) (s : DraftStart) (outcome : Result SendReceipt)
      (now : ℕ) (w : World)
      → Step w (finish_draft service draft_id s outcome now w).1
  begins_direct :
      (service : Service) (payload : DraftPayload) (key id : String) (turn : Turn) (w : World)
      → Step w (begin_direct service payload key id turn w).1
  finishes_direct :
      (service : Service) (key : String) (s : DirectStart) (outcome : Result SendReceipt) (now : ℕ)
      (w : World)
      → Step w (finish_direct service key s outcome now w).1
  creates :
      (service : Service) (payload : DraftPayload) (id : String) (now : ℕ) (w : World)
      → Step w (on_db (create_draft service.cipher service.user payload id now) w).1
  edits :
      (service : Service) (draft_id : String) (expected : ℕ) (input : ComposeInput) (now : ℕ)
      (w : World)
      → Step w (on_db (edit_draft service draft_id expected input now) w).1
  attaches :
      (service : Service) (draft_id : String) (expected : ℕ) (a : DraftAttachment) (now later : ℕ)
      (w : World)
      → Step w
          (on_db
            (add_draft_attachment service.cipher service.user draft_id expected a now later)
            w).1
  detaches :
      (service : Service) (draft_id : String) (expected : ℕ) (a : String) (now later : ℕ)
      (w : World)
      → Step w
          (on_db
            (remove_draft_attachment service.cipher service.user draft_id expected a now later)
            w).1
  prepares :
      (service : Service) (draft_id id : String) (at now : ℕ) (w : World)
      → Step w (on_db (prepare_draft_send service draft_id id at now) w).1
  sets_policy :
      (service : Service) (mailbox : String) (input : SendPolicyInput) (now : ℕ) (w : World)
      → Step w (on_db (set_send_policy service.user mailbox input now) w).1

pub data History (w : World) : World → Type 0 where
  start : History w w
  next : {v x : World} → History w v → Step v x → History w x

module _ (u k : String) where
  Step-IsCovered : {w v : World} → Step w v → IsCovered u k w → IsCovered u k v
  Step-IsCovered (begins_draft service draft_id confirmation expected id turn w) p =
      begin_draft-Keeps u k service draft_id confirmation expected id turn w p
  Step-IsCovered (finishes_draft service draft_id s outcome now w) p =
      finish_draft-Keeps u k service draft_id s outcome now w p
  Step-IsCovered (begins_direct service payload key id turn w) p =
      begin_direct-Keeps u k service payload key id turn w p
  Step-IsCovered (finishes_direct service key s outcome now w) p =
      finish_direct-Keeps u k service key s outcome now w p
  Step-IsCovered (creates service payload id now w) p =
      on_db-Keeps u k (create_draft service.cipher service.user payload id now)
        (λ db. create_draft-operations service.cipher service.user db payload id now) w p
  Step-IsCovered (edits service draft_id expected input now w) p =
      on_db-Keeps u k (edit_draft service draft_id expected input now)
        (edit-operations service draft_id expected input now) w p
  Step-IsCovered (attaches service draft_id expected a now later w) p =
      on_db-Keeps u k
        (add_draft_attachment service.cipher service.user draft_id expected a now later)
        (λ db.
          add_attachment-operations service.cipher service.user db draft_id expected a now later)
        w p
  Step-IsCovered (detaches service draft_id expected a now later w) p =
      on_db-Keeps u k
        (remove_draft_attachment service.cipher service.user draft_id expected a now later)
        (λ db.
          remove_attachment-operations service.cipher service.user db draft_id expected a now later)
        w p
  Step-IsCovered (prepares service draft_id id at now w) p =
      on_db-Keeps u k (prepare_draft_send service draft_id id at now)
        (prepare-operations service draft_id id at now) w p
  Step-IsCovered (sets_policy service mailbox input now w) p =
      on_db-Keeps u k (set_send_policy service.user mailbox input now)
        (λ db. set_policy-operations service.cipher service.user db mailbox input now) w p

  History-IsCovered : {w v : World} → History w v → IsCovered u k w → IsCovered u k v
  History-IsCovered start p = p
  History-IsCovered (next h s) p = Step-IsCovered s (History-IsCovered h p)

  taken-le : (o : Option SendOperationRow) → taken o ≤ 1
  taken-le none = omega arith
  taken-le (some r) = omega arith

  -- However the turns of the calls that are steps here are interleaved and whatever the transport
  -- answers, from a start where nothing has been sent no key of a user is handed to the transport
  -- twice.
  pub deliveries-le-one : {w v : World} → History w v → w.submissions ≡ [] → deliveries u k v ≤ 1
  unfolding count_where
  deliveries-le-one {w} {v} h none_yet =
      let empty : IsCovered u k w = rw none_yet (omega arith) in
      omega (arith, History-IsCovered h empty, taken-le (find (is_operation u k) v.db.operations))
