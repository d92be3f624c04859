-- ===== src/Imap/Messages.antt =====
-- src/imap/imapFlowAdapter.ts: toSummary, addresses, normalizeInReplyTo and normalizeDate, and
-- src/imap/types.ts. A date is a number of milliseconds; the ISO texts of the dates from the year 0 to
-- 9999 compare as these numbers do.
use mailbridge_mcp.Common.{
  if◌then◌else◌, ℕ, String, Bool, not, Option, none, some, List, [], map, str_eq, any,
}
use mailbridge_mcp.Common.Tables.{or_else}
use mailbridge_mcp.Imap.Parts.{Node, RawAttachment, is_text, collect_attachments}

pub record AddressValue : Type 0 where
  pub name : Option String
  pub address : Option String

pub record Envelope : Type 0 where
  pub from : List AddressValue
  pub to : List AddressValue
  pub cc : List AddressValue
  pub subject : Option String
  pub date : Option (Option ℕ)
  pub message_id : Option String
  pub in_reply_to : Option String

-- What mailparser makes of the source of a message.
pub record ParsedMail : Type 0 where
  pub text : Option String
  pub message_id : Option String
  pub in_reply_to : Option String

-- A message that fetchAll answers with; `mail` is what parseSource makes of its source. A date that
-- is there may be one that no calendar has.
pub record FetchMessageObject : Type 0 where
  pub uid : ℕ
  pub flags : List String
  pub envelope : Option Envelope
  pub internal_date : Option (Option ℕ)
  pub body_structure : Option Node
  pub mail : Option ParsedMail

pub record RawMessageSummary : Type 0 where
  pub uid : ℕ
  pub uid_validity : ℕ
  pub folder : String
  pub from : List AddressValue
  pub to : List AddressValue
  pub cc : List AddressValue
  pub subject : String
  pub received_at : ℕ
  pub unread : Bool
  pub attachments : List RawAttachment
  pub snippet : Option String
  pub message_id : Option String
  pub in_reply_to : Option String

abbrev pub bind_option : {A B : Type 0} → Option A → (A → Option B) → Option B
bind_option none f = none
bind_option (some a) f = f a

abbrev pub default_to : {A : Type 0} → A → Option A → A
default_to a none = a
default_to a (some b) = b

-- A text that is missing or empty is left out.
abbrev pub given : Option String → Option String
given text = if is_text text then text else none

abbrev pub addresses : List AddressValue → List AddressValue
addresses values =
    map (λ (v : AddressValue). record { name = given v.name; address = given v.address }) values

abbrev pub envelope_addresses : (Envelope → List AddressValue) → Option Envelope → List AddressValue
envelope_addresses of none = []
envelope_addresses of (some e) = addresses (of e)

abbrev pub normalize_date : Option (Option ℕ) → ℕ
normalize_date none = 0
normalize_date (some none) = 0
normalize_date (some (some at)) = at

-- `snippet` is textSnippet of src/security/content.ts.
unfoldable pub to_summary :
    (Option String → Option String) → String → ℕ → FetchMessageObject → RawMessageSummary
unfolding any collect_attachments
to_summary snippet folder uid_validity message = record {
  uid = message.uid;
  uid_validity = uid_validity;
  folder = folder;
  from = envelope_addresses (λ e. e.from) message.envelope;
  to = envelope_addresses (λ e. e.to) message.envelope;
  cc = envelope_addresses (λ e. e.cc) message.envelope;
  subject = default_to "" (bind_option message.envelope (λ e. e.subject));
  received_at =
      normalize_date (or_else message.internal_date (bind_option message.envelope (λ e. e.date)));
  unread = not (any (λ f. str_eq f "\\Seen") message.flags);
  attachments = collect_attachments message.body_structure;
  snippet = snippet (bind_option message.mail (λ m. m.text));
  message_id =
      or_else (bind_option message.envelope (λ e. e.message_id))
        (bind_option message.mail (λ m. m.message_id));
  in_reply_to =
      or_else (bind_option message.envelope (λ e. e.in_reply_to))
        (given (bind_option message.mail (λ m. m.in_reply_to)));
}
