-- ===== src/Store/Listings/Newest.antt =====
-- src/app/store.ts: the order of listSendAudit.
use mathlib.Core.List.{reverse, reverse-append}
use mailbridge_mcp.Common.{
  ℕ, suc, ◌≡◌, ◌∙◌, ap, String, Bool, Option, List, [], ◌∷◌, ◌++◌, map, arith, str_eq, eq_iff,
  select, select-append, Result, ok, err,
}
use mailbridge_mcp.Domain.Errors.{Code}
use mailbridge_mcp.Domain.Types.{SendOperationState}
use mailbridge_mcp.Store.Rows.{Db, SendAuditRow, send_audit}
use mailbridge_mcp.Common.Slices.{take}
use mailbridge_mcp.Store.Listings.{SendAuditEventView, to_event_view, list_send_audit}

module _ (user : String) (operation : Option String) (mailbox action : String) (pass : Bool)
    (state : Option SendOperationState) (recipients external : ℕ) (reason : Option Code) (at : ℕ)
    (db : Db) where
  abbrev event : SendAuditRow
  event = record {
    event_id = suc db.send_audit_sequence;
    user_key = user;
    operation_id = operation;
    mailbox_id = mailbox;
    action = action;
    pass = pass;
    state = state;
    recipient_count = recipients;
    external_recipient_count = external;
    reason_code = reason;
    at = at;
  }

  abbrev mine : SendAuditRow → Bool
  mine e = str_eq e.user_key user

  select-event : select mine (event ∷ []) ≡ event ∷ []
  unfolding select
  select-event = ground (arith, eq_iff user user)

  reverse-events :
      reverse (select mine (db.send_audit_events ++ event ∷ []))
      ≡ event ∷ reverse (select mine db.send_audit_events)
  reverse-events =
      ap reverse (select-append mine db.send_audit_events (event ∷ []))
      ∙ (ap (λ xs. reverse (select mine db.send_audit_events ++ xs)) select-event
          ∙ reverse-append (select mine db.send_audit_events) (event ∷ []))

  abbrev before : Result (List SendAuditEventView) → Result (List SendAuditEventView)
  before (ok events) = ok (to_event_view event ∷ events)
  before (err e) = err e

  -- An event that is recorded for a user is the first of the events that are listed for the user,
  -- before those that were listed until then.
  pub list_send_audit-send_audit :
      (limit : ℕ) (events : List SendAuditEventView)
      → (list_send_audit user limit db).0 ≡ ok events
      → (list_send_audit user
          (suc limit)
          (send_audit user operation mailbox action pass state recipients external reason at
            db).1).0
        ≡ ok (to_event_view event ∷ events)
  unfolding list_send_audit send_audit
  list_send_audit-send_audit limit events h =
      ap (λ xs. ok (map to_event_view (take (suc limit) xs))) reverse-events ∙ ap before h
