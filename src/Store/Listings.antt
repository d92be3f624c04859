-- ===== src/Store/Listings.antt =====
-- src/app/store.ts: listSendAudit and auditEvents. The identifiers of the rows are handed out in the
-- order of insertion, so ORDER BY is the order of the table or its reverse.
pub mod Newest
use mathlib.Core.List.{reverse}
use mailbridge_mcp.Common.{
  ℕ, zero, suc, String, Bool, Option, List, [], ◌∷◌, map, str_eq, select, Exec, gets,
}
use mailbridge_mcp.Common.Slices.{take}
use mailbridge_mcp.Domain.Errors.{Code}
use mailbridge_mcp.Domain.Types.{SendOperationState}
use mailbridge_mcp.Store.Rows.{Db, AuditRow, SendAuditRow}

pub record SendAuditEventView : Type 0 where
  pub event_id : ℕ
  pub operation_id : Option String
  pub mailbox_id : String
  pub action : String
  pub pass : Bool
  pub state : Option SendOperationState
  pub recipient_count : ℕ
  pub external_recipient_count : ℕ
  pub reason_code : Option Code
  pub at : ℕ

abbrev pub to_event_view : SendAuditRow → SendAuditEventView
to_event_view row = record {
  event_id = row.event_id;
  operation_id = row.operation_id;
  mailbox_id = row.mailbox_id;
  action = row.action;
  pass = row.pass;
  state = row.state;
  recipient_count = row.recipient_count;
  external_recipient_count = row.external_recipient_count;
  reason_code = row.reason_code;
  at = row.at;
}

-- `LIMIT` takes the first rows; `limit` is never negative where the tools call it.
unfoldable pub list_send_audit : String → ℕ → Exec Db (List SendAuditEventView)
unfolding select
list_send_audit user limit = gets (λ db. map to_event_view (
    take limit
      (reverse (select (λ (e : SendAuditRow). str_eq e.user_key user) db.send_audit_events))))

pub record AuditEvent : Type 0 where
  pub mailbox_id : Option String
  pub action : String
  pub pass : Bool
  pub at : ℕ

abbrev to_event : AuditRow → AuditEvent
to_event row = record {
  mailbox_id = row.mailbox_id;
  action = row.action;
  pass = row.pass;
  at = row.at;
}

unfoldable pub audit_events : String → Exec Db (List AuditEvent)
unfolding select
audit_events user =
    gets (λ db. map to_event (select (λ (e : AuditRow). str_eq e.user_key user) db.audit_events))
