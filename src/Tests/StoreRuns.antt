-- ===== src/Tests/StoreRuns.antt =====
-- Runs of the store.
use mailbridge_mcp.Common.{
  ◌≡◌, refl, true, false, none, some, [], ◌∷◌, find, select, count_where, any, update_where,
  delete_where, transaction, ok, err, ◌≤◌, ◌-◌,
}
use mailbridge_mcp.Domain.Errors.{
  coded, send_confirmation_invalid, draft_already_sent, send_status_unknown, draft_version_conflict,
  send_operation_state_conflict,
}
use mailbridge_mcp.Domain.Types.{DraftStatus, SendOperationState}
use mailbridge_mcp.Store.Rows.{Db, insert_row, audit, send_audit, ConfirmationRow}
use mailbridge_mcp.Store.Policies.{row, send_usage, since, hour_ms, day_ms}
use mailbridge_mcp.Store.Drafts.{
  draft_row as read_row, get_draft, get_draft_payload, write_draft, update_draft, view_draft,
  write_sent, mark_draft_sent,
}
use mailbridge_mcp.Store.Drafts.Versions.{
  update_draft-consume, update_draft-payload, update_draft-twice, mark_draft_sent-update_draft,
}
use mailbridge_mcp.Store.Confirmations.{consume_send_confirmation}
use mailbridge_mcp.Store.Confirmations.SingleUse.{IsGood, consume-found}
use mailbridge_mcp.Store.Confirmations.Spent.{edits as edits_draft}
use mailbridge_mcp.Store.Operations.{
  outcome, operation_by_key, get_send_operation, operation_id_of, get_send_receipt,
  resume_operation, start_operation, reserve_send_operation, to_send_operation_view,
  parse_send_receipt, Reservation,
}
use mailbridge_mcp.Store.Operations.Completion.{
  record_outcome, complete_send_operation, mark_send_operation_unknown, record_unknown,
}
use mailbridge_mcp.Store.Operations.Reserving.{reserve-within_limits}
use mailbridge_mcp.Store.Operations.Doubt.{unknown-reserve}
use mailbridge_mcp.Store.Rows.{DraftRow}
use mailbridge_mcp.Store.Operations.Replay.{reserve_complete}
use mailbridge_mcp.Store.Listings.{list_send_audit, SendAuditEventView}
use mailbridge_mcp.Store.Listings.Newest.{list_send_audit-send_audit}
use mailbridge_mcp.Tests.Data.{
  cipher, letter, receipt, policy, draft_row, confirmation_row, confirmed_db, operation_row,
  submitting_db,
}

store_code : Unit {0}
unfolding list_send_audit select find count_where any update_where delete_where transaction
    insert_row audit send_audit row send_usage read_row get_draft get_draft_payload write_draft
    update_draft consume_send_confirmation outcome operation_by_key get_send_operation
    operation_id_of get_send_receipt resume_operation start_operation reserve_send_operation
    record_outcome complete_send_operation record_unknown mark_send_operation_unknown write_sent
    mark_draft_sent
store_code = tt

abbrev used_db : Db
used_db = record confirmed_db { confirmations = record confirmation_row { used_at = some 50 } ∷ [] }

consumes : consume_send_confirmation "u" "c1" "r1" 1 "d1" 0 50 confirmed_db ≡ (ok tt, used_db)
unfolding store_code
consumes = refl

consume-found_example : (c : ConfirmationRow) × IsGood confirmed_db "u" "c1" "r1" 1 "d1" 0 50 c
consume-found_example = consume-found confirmed_db used_db "u" "c1" "r1" 1 "d1" 0 50 consumes

-- After the confirmation is used, the draft is edited.
abbrev used_edited_db : Db
used_edited_db = (update_draft cipher "u" "r1" 1 letter 60 used_db).1

abbrev edited_db : Db
edited_db = (update_draft cipher "u" "r1" 1 letter 9 confirmed_db).1

edits :
    update_draft cipher "u" "r1" 1 letter 9 confirmed_db
    ≡ (ok (view_draft (record draft_row { version = 2; updated_at = 9 }) letter), edited_db)
unfolding store_code
edits = refl

update_draft-consume_example :
    consume_send_confirmation "u" "c1" "r1" 2 "d1" 0 10 edited_db
    ≡ (err (coded send_confirmation_invalid), edited_db)
update_draft-consume_example =
    update_draft-consume cipher confirmed_db edited_db "u" "r1" 1 letter 9
      (view_draft (record draft_row { version = 2; updated_at = 9 }) letter) edits "c1" 2 "d1" 0 10

update_draft-payload_example : get_draft_payload cipher "u" "r1" edited_db ≡ (ok letter, edited_db)
update_draft-payload_example =
    update_draft-payload cipher confirmed_db edited_db "u" "r1" 1 letter 9
      (view_draft (record draft_row { version = 2; updated_at = 9 }) letter) edits refl

update_draft-twice_example :
    update_draft cipher "u" "r1" 1 letter 10 edited_db
    ≡ (err (coded draft_version_conflict), edited_db)
update_draft-twice_example =
    update_draft-twice cipher confirmed_db edited_db "u" "r1" 1 letter 9
      (view_draft (record draft_row { version = 2; updated_at = 9 }) letter) edits letter 10

abbrev sent_row : DraftRow
sent_row = record draft_row {
  status = DraftStatus.sent;
  version = 2;
  updated_at = receipt.sent_at;
  sent_at = some receipt.sent_at;
  message_id = some receipt.message_id;
}

abbrev sent_db : Db
sent_db = (mark_draft_sent cipher "u" "r1" receipt confirmed_db).1

marks :
    mark_draft_sent cipher "u" "r1" receipt confirmed_db
    ≡ (ok (view_draft sent_row letter), sent_db)
unfolding store_code
marks = refl

mark_draft_sent-update_draft_example :
    update_draft cipher "u" "r1" 2 letter 50 sent_db ≡ (err (coded draft_already_sent), sent_db)
mark_draft_sent-update_draft_example =
    mark_draft_sent-update_draft cipher confirmed_db sent_db "u" "r1" receipt
      (view_draft sent_row letter) marks 2 letter 50

abbrev reserved_db : Db
reserved_db =
    (reserve_send_operation cipher "u" "draft:r1" "m1" "d1" policy 1 0 "o1" 20 20 confirmed_db).1

abbrev reserved : Reservation
reserved = record {
  operation = to_send_operation_view operation_row;
  replayed = false;
  receipt = none;
}

reserves :
    reserve_send_operation cipher "u" "draft:r1" "m1" "d1" policy 1 0 "o1" 20 20 confirmed_db
    ≡ (ok reserved, reserved_db)
unfolding store_code
reserves = refl

reserve-within_limits_example :
    (count_where (since "u" "m1" (20 - hour_ms)) reserved_db.rate_events ≤ 20)
    × (count_where (since "u" "m1" (20 - day_ms)) reserved_db.rate_events ≤ 100)
unfolding store_code
reserve-within_limits_example =
    reserve-within_limits cipher confirmed_db "u" "draft:r1" "m1" "d1" policy 1 0 "o1" 20 20 refl
      reserved reserved_db reserves

abbrev unknown_db : Db
unknown_db = (mark_send_operation_unknown "u" "draft:r1" send_status_unknown 1 0 30 reserved_db).1

unknown-reserve_example :
    (reserve_send_operation cipher "u" "draft:r1" "m1" "d1" policy 1 0 "o2" 40 40 unknown_db
      ≡ (err (coded send_status_unknown), unknown_db))
    × (complete_send_operation cipher "u" "draft:r1" receipt 1 0 unknown_db
        ≡ (err (coded send_operation_state_conflict), unknown_db))
unfolding store_code
unknown-reserve_example =
    unknown-reserve cipher confirmed_db "u" "draft:r1" "m1" "d1" policy 1 0 "o1" 20 20 refl reserved
      reserved_db reserves send_status_unknown 1 0 30 "m1" "d1" policy 1 0 "o2" 40 40 receipt

abbrev completed_db : Db
completed_db = (complete_send_operation cipher "u" "draft:r1" receipt 1 0 submitting_db).1

completes : complete_send_operation cipher "u" "draft:r1" receipt 1 0 submitting_db ≡ (
  ok (
      to_send_operation_view (record operation_row {
        state = SendOperationState.smtp_accepted;
        accepted_count = 1;
        updated_at = 30;
      })),
  completed_db,
)
unfolding store_code
completes = refl

reserve_complete_example :
    reserve_send_operation cipher "u" "draft:r1" "m1" "d1" policy 1 0 "o2" 40 40 completed_db ≡ (
      ok (record {
        operation = to_send_operation_view (record operation_row {
          state = SendOperationState.smtp_accepted;
          accepted_count = 1;
          updated_at = 30;
        });
        replayed = true;
        receipt = some (parse_send_receipt receipt);
      }),
      completed_db,
    )
unfolding store_code
reserve_complete_example =
    reserve_complete cipher submitting_db completed_db "u" "draft:r1" receipt 1 0 operation_row refl
      (to_send_operation_view (record operation_row {
        state = SendOperationState.smtp_accepted;
        accepted_count = 1;
        updated_at = 30;
      }))
      completes "m1" policy 1 0 "o2" 40 40 refl

abbrev listed_event : SendAuditEventView
listed_event = record {
  event_id = 1;
  operation_id = none;
  mailbox_id = "m1";
  action = "MAIL_SENT";
  pass = true;
  state = none;
  recipient_count = 1;
  external_recipient_count = 0;
  reason_code = none;
  at = 9;
}

list_send_audit-send_audit_example :
    (list_send_audit "u" 2
      (send_audit "u" none "m1" "MAIL_SENT" true none 1 0 none 9 confirmed_db).1).0
    ≡ ok (listed_event ∷ [])
unfolding store_code
list_send_audit-send_audit_example =
    list_send_audit-send_audit "u" none "m1" "MAIL_SENT" true none 1 0 none 9 confirmed_db 1 [] refl
