-- ===== src/Send/Compose.antt =====
-- src/services/mailSendService.ts: the payload of a new message or of a reply, and what is hashed.
use mailbridge_mcp.Common.{
  ℕ, ◌+◌, String, Bool, true, false, not, ◌||◌, none, List, [], map, ltb, leb, ◌==◌, delete_where,
  length, if◌then◌else◌, Result, ok, err,
}
use mailbridge_mcp.Common.Text.{is_empty, utf16_length, trim, has_line_break, unique}
use mailbridge_mcp.Common.Host.{Host}
use mailbridge_mcp.Domain.Errors.{coded, invalid_argument}
use mailbridge_mcp.Domain.Types.{DraftPayload}
use mailbridge_mcp.Config.Registry.{MailboxConfig, get_mailbox}
use mailbridge_mcp.Send.Policy.{◌>>=◌, map_all}

pub record ComposeInput : Type 0 where
  pub mailbox_id : String
  pub to : List String
  pub cc : List String
  pub bcc : List String
  pub subject : String
  pub text_body : String

-- `headerValue(value, label, max)`
unfoldable pub header_value : String → ℕ → Result String
unfolding trim utf16_length has_line_break
header_value value max =
    let normalized = trim value in
    if is_empty normalized || (ltb max (utf16_length normalized) || has_line_break normalized)
    then err (coded invalid_argument)
    else ok normalized

-- `bodyValue(value)`
unfoldable pub body_value : String → Result String
unfolding trim utf16_length
body_value value =
    if is_empty (trim value) || ltb 200000 (utf16_length value)
    then err (coded invalid_argument)
    else ok value

-- `throw_if` without a state.
abbrev pub require : Bool → Result (Unit {0})
require true = ok tt
require false = err (coded invalid_argument)

module _ (host : Host) where
  -- `addresses(values)`
  unfoldable pub addresses : List String → Result (List String)
  unfolding unique trim
  addresses values = do
    parsed ←
        map_all host.parse_email
          (delete_where is_empty (map (λ v. host.to_lower_case (trim v)) values))
    ok (unique parsed)

  -- #compose
  unfoldable pub compose : List MailboxConfig → ComposeInput → Result DraftPayload
  unfolding get_mailbox addresses header_value body_value
  compose mailboxes input = do
    _ ← get_mailbox mailboxes input.mailbox_id true
    to ← addresses input.to
    cc ← addresses input.cc
    bcc ← addresses input.bcc
    let recipients = length to + length cc + length bcc
    _ ← require (not (recipients == 0))
    _ ← require (leb recipients 50)
    subject ← header_value input.subject 998
    text_body ← body_value input.text_body
    ok (record {
      message = record {
        mailbox_id = input.mailbox_id;
        to = to;
        cc = cc;
        bcc = bcc;
        subject = subject;
        text_body = text_body;
        in_reply_to = none;
        references = [];
      };
      attachments = [];
    })

  -- `hashPayload(payload)`
  unfoldable pub hash_payload : DraftPayload → String
  hash_payload payload =
      host.digest_payload payload.message (map (λ a. a.metadata) payload.attachments)
