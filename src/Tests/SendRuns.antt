-- ===== src/Tests/SendRuns.antt =====
-- Runs of the send service.
use mailbridge_mcp.Common.{
  ◌≡◌, ◌≢◌, ap, sym, ◌∙◌, arith, refl, false, some, [], ◌∷◌, find, count_where, any, select,
  update_where, delete_where, transaction, ok, ◌≤◌, length,
}
use mailbridge_mcp.Common.Text.{
  utf16_length, trim, trim_start, trim_end, is_space, unique, after_last_at, is_label_char,
  are_labels, is_domain_name,
}
use mailbridge_mcp.Domain.Types.{DraftValidation}
use mailbridge_mcp.Config.Registry.{lookup_mailbox, get_mailbox}
use mailbridge_mcp.Store.Rows.{insert_row, audit, send_audit}
use mailbridge_mcp.Store.Policies.{row, get_send_policy, send_usage, SendUsage}
use mailbridge_mcp.Store.Drafts.{draft_row as read_row, get_draft, get_draft_payload}
use mailbridge_mcp.Store.Confirmations.{consume_send_confirmation}
use mailbridge_mcp.Store.Operations.{
  operation_by_key, get_send_receipt, resume_operation, start_operation, reserve_send_operation,
}
use mailbridge_mcp.Send.Policy.{
  canonical_domain, address_domain, external_count, block_reasons, evaluate_send_policy,
}
use mailbridge_mcp.Send.Policy.Verdict.{IsJudged, evaluate-IsJudged}
use mailbridge_mcp.Send.Compose.{hash_payload}
use mailbridge_mcp.Send.Service.{
  Submission, checked_policy, validate, deterministic_message_id, submission_to, submit, begin_send,
  confirm,
}
use mailbridge_mcp.Send.SendDraft.{Turn, begin_fresh, resume_draft, begin_draft}
use mailbridge_mcp.Send.AtMostOnce.Sending.{deliveries}
use mailbridge_mcp.Send.AtMostOnce.History.{start, next, begins_draft, deliveries-le-one}
use mailbridge_mcp.Send.Authorised.{IsAuthorised, begin_draft-IsAuthorised}
use mailbridge_mcp.Tests.Data.{host, letter, policy, service, world, mailbox}

send_code : Unit {0}
unfolding find count_where any select update_where delete_where transaction utf16_length trim
    trim_start trim_end is_space unique after_last_at is_label_char are_labels is_domain_name
    lookup_mailbox get_mailbox insert_row audit send_audit row get_send_policy send_usage read_row
    get_draft get_draft_payload consume_send_confirmation operation_by_key get_send_receipt
    resume_operation start_operation reserve_send_operation canonical_domain address_domain
    external_count block_reasons evaluate_send_policy hash_payload checked_policy validate
    deterministic_message_id submission_to submit begin_send confirm begin_fresh resume_draft
    begin_draft
send_code = tt

abbrev turn : Turn
turn = record { validated = 10; confirmed = 11; counted = 12; reserved = 13 }

abbrev message : Submission
message = record {
  user = "u";
  key = "draft:r1";
  mailbox = mailbox;
  payload = letter;
  message_id = "<d2@x.org>";
}

sends : (begin_draft service "r1" (some "c1") (some 1) "o1" turn world).1.submissions ≡ message ∷ []
unfolding send_code
sends = refl

-- Whether a list is empty tells the two worlds apart.
sends_new : (begin_draft service "r1" (some "c1") (some 1) "o1" turn world).1.submissions ≢ []
sends_new same = let differ : 0 ≡ 1 = ap length (sym same ∙ sends) in omega (arith, differ)

begin_draft-IsAuthorised_example : IsAuthorised service "r1" (some "c1") (some 1) turn world.db
begin_draft-IsAuthorised_example =
    begin_draft-IsAuthorised service "r1" (some "c1") (some 1) "o1" turn world sends_new

deliveries-le-one_example :
    deliveries "u" "draft:r1" (begin_draft service "r1" (some "c1") (some 1) "o1" turn world).1 ≤ 1
deliveries-le-one_example =
    deliveries-le-one "u" "draft:r1"
      (next start (begins_draft service "r1" (some "c1") (some 1) "o1" turn world)) refl

abbrev usage : SendUsage
usage = record { last_hour = 3; last_day = 4 }

abbrev judged : DraftValidation
judged = record {
  draft_id = "r1";
  draft_version = 1;
  mailbox_id = "m1";
  policy_version = 0;
  blocked = false;
  reasons = [];
  warnings = [];
  recipient_count = 1;
  external_recipient_count = 0;
  remaining_hour = 17;
  remaining_day = 96;
}

judges : evaluate_send_policy host "a@x.org" "r1" 1 letter policy usage ≡ ok judged
unfolding send_code
judges = refl

evaluate-IsJudged_example : IsJudged host "a@x.org" "r1" 1 letter policy usage judged
evaluate-IsJudged_example =
    evaluate-IsJudged host "a@x.org" "r1" 1 letter policy usage judged judges
