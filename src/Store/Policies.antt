-- ===== src/Store/Policies.antt =====
-- src/app/store.ts: #row, getSendPolicy, setSendPolicy and sendUsage.
use mailbridge_mcp.Common.{
  ℕ, suc, ◌-◌, String, Bool, true, ◌&&◌, Option, none, some, List, [], ◌∷◌, ◌++◌, str_eq, leb, find,
  any, update_where, delete_where, count_where, if◌then◌else◌, Exec, pure, gets, modify, or_throw,
  transaction, ◌>>=◌, ◌>>◌,
}
use mailbridge_mcp.Domain.Errors.{plain}
use mailbridge_mcp.Domain.Types.{SendPolicyInput, SendPolicyView, SendMode, ExternalRecipientPolicy}
use mailbridge_mcp.Store.Rows.{
  Db, MailboxRow, SendPolicyRow, DraftRow, ConfirmationRow, RateEventRow, is_mailbox, is_policy,
  audit,
}

-- #row
unfoldable pub row : String → String → Exec Db MailboxRow
row user mailbox = do
  found ← gets (λ db. find (is_mailbox user mailbox) db.mailboxes)
  or_throw found (plain "Mailbox not found")

-- `SendPolicySchema.parse({})`
abbrev pub default_policy : SendPolicyInput
default_policy = record {
  send_mode = SendMode.draft_only;
  require_confirmation = true;
  allowed_domains = [];
  denied_domains = [];
  max_recipients = 10;
  max_per_hour = 20;
  max_per_day = 100;
  external_recipients = ExternalRecipientPolicy.warn;
  confirmation_ttl_seconds = 180;
}

-- A stored policy is read back with `require_confirmation: true`, whatever the column holds.
abbrev pub view_policy : String → Option SendPolicyRow → SendPolicyView
view_policy mailbox none = record {
  mailbox_id = mailbox;
  policy = default_policy;
  policy_version = 0;
  updated_at = none;
}
view_policy mailbox (some r) =
    let stored = r.policy in
    record {
      mailbox_id = r.mailbox_id;
      policy = record stored { require_confirmation = true };
      policy_version = r.policy_version;
      updated_at = some r.updated_at;
    }

unfoldable pub get_send_policy : String → String → Exec Db SendPolicyView
unfolding row
get_send_policy user mailbox = do
  _ ← row user mailbox
  found ← gets (λ db. find (is_policy user mailbox) db.policies)
  pure (view_policy mailbox found)

-- INSERT ... ON CONFLICT(user_key, mailbox_id) DO UPDATE
unfoldable pub upsert_policy :
    String → String → SendPolicyInput → ℕ → List SendPolicyRow → List SendPolicyRow
upsert_policy user mailbox input now rows =
    let policy = record input { require_confirmation = true } in
    if any (is_policy user mailbox) rows
    then update_where (is_policy user mailbox)
        (λ r. record r { policy = policy; policy_version = suc r.policy_version; updated_at = now })
        rows
    else rows
      ++ record {
        user_key = user;
        mailbox_id = mailbox;
        policy = policy;
        policy_version = 1;
        updated_at = now;
      }
        ∷ []

-- draft_id IN (SELECT draft_id FROM mail_drafts WHERE user_key = ? AND mailbox_id = ?)
abbrev pub drafted_for : String → String → List DraftRow → ConfirmationRow → Bool
drafted_for user mailbox drafts c =
    str_eq c.user_key user
    && any
        (λ (d : DraftRow).
          str_eq d.draft_id c.draft_id && (str_eq d.user_key user && str_eq d.mailbox_id mailbox))
        drafts

-- `input` has passed `SendPolicySchema.parse`.
unfoldable pub set_send_policy : String → String → SendPolicyInput → ℕ → Exec Db SendPolicyView
unfolding row get_send_policy upsert_policy transaction audit
set_send_policy user mailbox input now = do
  _ ← row user mailbox
  transaction (do
    modify (λ db. record db { policies = upsert_policy user mailbox input now db.policies })
    modify (λ db. record db {
      confirmations = delete_where (drafted_for user mailbox db.drafts) db.confirmations;
    })
    audit user (some mailbox) "MAIL_SEND_POLICY_UPDATED" true now)
  get_send_policy user mailbox

pub record SendUsage : Type 0 where
  pub last_hour : ℕ
  pub last_day : ℕ

abbrev pub hour_ms : ℕ
hour_ms = 3600000

abbrev pub day_ms : ℕ
day_ms = 86400000

-- The events of a mailbox since a time.
abbrev pub since : String → String → ℕ → RateEventRow → Bool
since user mailbox from event =
    str_eq event.user_key user && (str_eq event.mailbox_id mailbox && leb from event.created_at)

unfoldable pub send_usage : String → String → ℕ → Db → SendUsage
send_usage user mailbox now db = record {
  last_hour = count_where (since user mailbox (now - hour_ms)) db.rate_events;
  last_day = count_where (since user mailbox (now - day_ms)) db.rate_events;
}
