-- ===== src/Mail/Source.antt =====
-- src/services/mailService.ts: fetchRawMessage. The headers, the digest and the base64 text of a chunk
-- are presentation of its bytes.
pub mod Whole
use mailbridge_mcp.Common.{
  ℕ, ◌+◌, String, Bool, true, false, ◌&&◌, ◌||◌, not, Option, none, some, List, [], ◌==◌, ltb,
  length, if◌then◌else◌, Result, ok, err,
}
use mailbridge_mcp.Send.Policy.{◌>>=◌}
use mailbridge_mcp.Domain.Errors.{coded, other_code}
use mailbridge_mcp.Config.Registry.{MailboxConfig, get_mailbox, assert_folder_allowed}
use mailbridge_mcp.Imap.Adapter.{Client, min, max, fetch_raw_source_range}
use mailbridge_mcp.Mail.Ids.{Locator, Ids}
use mailbridge_mcp.Mail.Pages.{Page}

pub record RawMessagePage : Type 0 where
  pub offset : ℕ
  pub next_offset : Option ℕ
  pub returned_bytes : ℕ
  pub truncated : Bool
  pub bytes : List ℕ

abbrev source_page : RawMessagePage → Page
source_page page = record { bytes = page.bytes; next_offset = page.next_offset }

abbrev pub source_paged : Result RawMessagePage → Result Page
source_paged (ok page) = ok (source_page page)
source_paged (err e) = err e

-- `raw.total_size === null || start < raw.total_size`
abbrev pub expects_more : Option ℕ → ℕ → Bool
expects_more none start = true
expects_more (some total) start = ltb start total

-- `more`
abbrev pub has_more : Option ℕ → ℕ → ℕ → ℕ → Bool
has_more none start returned window = returned == window
has_more (some total) start returned window = ltb (start + returned) total

abbrev pub available_source : Bool → Result (Unit {0})
available_source true = ok tt
available_source false = err (coded (other_code "RAW_SOURCE_UNAVAILABLE"))

module _ (mailboxes : List MailboxConfig) (ids : Ids) (connect : MailboxConfig → Client)
    (source_max : ℕ) where
  unfoldable pub fetch_raw_message : String → ℕ → ℕ → Result RawMessagePage
  fetch_raw_message stable_id max_bytes start = do
    locator ← ids.decode stable_id
    mailbox ← get_mailbox mailboxes locator.mailbox_id true
    _ ← assert_folder_allowed mailbox locator.folder_id
    let window = min (max max_bytes 1) source_max
    raw ←
        fetch_raw_source_range (connect mailbox) source_max locator.folder_id locator.uid_validity
          locator.uid start window
    _ ← available_source (not (length raw.bytes == 0 && expects_more raw.total_size start))
    let more = has_more raw.total_size start (length raw.bytes) window
    ok (record {
      offset = start;
      next_offset = if more then some (start + length raw.bytes) else none;
      returned_bytes = length raw.bytes;
      truncated = more;
      bytes = raw.bytes;
    })
