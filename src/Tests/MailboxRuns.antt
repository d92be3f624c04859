-- ===== src/Tests/MailboxRuns.antt =====
-- Runs of the methods of the store that write mailboxes.
use mailbridge_mcp.Common.{
  ◌≡◌, ◌≤◌, ◌≢◌, String, arith, eq_iff, refl, true, none, find, count_where, any, select,
  update_where, delete_where, transaction, ok,
}
use mailbridge_mcp.Common.Text.{unique}
use mailbridge_mcp.Domain.Types.{MailboxCredentials, MailboxConnectionTestResult}
use mailbridge_mcp.Store.Rows.{Db, empty_db, insert_row, audit}
use mailbridge_mcp.Store.Policies.{row}
use mailbridge_mcp.Store.Mailboxes.{
  get, ensure_user, create, new_mailbox, set_enabled, update, to_view, of_user,
}
use mailbridge_mcp.Store.Mailboxes.Removal.{delete_mailboxes, delete_mailbox, delete_all}
use mailbridge_mcp.Store.Mailboxes.Tested.{IsTested}
use mailbridge_mcp.Store.Mailboxes.Histories.{
  MailboxHistory-IsTested, start, next, switches, updates,
}
use mailbridge_mcp.Store.Mailboxes.Deletion.{create-within_limit, delete_mailbox-IsGone, IsGone}
use mailbridge_mcp.Store.Mailboxes.Isolation.{holdings, delete_all-holdings}
use mailbridge_mcp.Tests.Data.{cipher, settings, confirmed_db, submitting_db}

mailbox_code : Unit {0}
unfolding find count_where any select update_where delete_where transaction unique insert_row audit
    row get ensure_user create set_enabled update delete_mailboxes delete_mailbox delete_all
    holdings
mailbox_code = tt

abbrev credentials : MailboxCredentials
credentials = record { username = "a"; password = "p" }

abbrev passed : MailboxConnectionTestResult
passed = record { pass = true; error_category = none }

abbrev created_db : Db
created_db = (create cipher 1 "u" "m1" settings credentials passed 5 empty_db).1

creates :
    create cipher 1 "u" "m1" settings credentials passed 5 empty_db
    ≡ (ok (to_view (new_mailbox cipher "u" "m1" settings credentials 5)), created_db)
unfolding mailbox_code
creates = refl

create-within_limit_example :
    (passed.pass ≡ true) × (count_where (of_user "u") created_db.mailboxes ≤ 1)
create-within_limit_example =
    create-within_limit cipher 1 "u" "m1" settings credentials passed 5 empty_db created_db
      (to_view (new_mailbox cipher "u" "m1" settings credentials 5)) creates

MailboxHistory-IsTested_example :
    IsTested "u" "m1" (set_enabled "u" "m1" true 7 (update "u" "m1" settings 6 confirmed_db).1).1
unfolding mailbox_code
MailboxHistory-IsTested_example =
    MailboxHistory-IsTested "u" "m1"
      (next (next start (updates "u" "m1" settings 6 confirmed_db))
        (switches "u" "m1" true 7 (update "u" "m1" settings 6 confirmed_db).1))
      refl

abbrev deleted_db : Db
deleted_db = (delete_mailbox "u" "m1" 8 submitting_db).1

deletes : delete_mailbox "u" "m1" 8 submitting_db ≡ (ok tt, deleted_db)
unfolding mailbox_code
deletes = refl

delete_mailbox-IsGone_example :
    IsGone "u" "m1" submitting_db deleted_db × (deleted_db.receipts ≡ submitting_db.receipts)
delete_mailbox-IsGone_example = delete_mailbox-IsGone "u" "m1" 8 submitting_db deleted_db deletes

abbrev stranger : String
stranger = "v"

apart : stranger ≢ "u"
apart = ground (arith, eq_iff stranger "u")

delete_all-holdings_example :
    holdings stranger (delete_all "u" submitting_db).1 ≡ holdings stranger submitting_db
delete_all-holdings_example = delete_all-holdings "u" stranger submitting_db apart
