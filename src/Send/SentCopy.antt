-- ===== src/Send/SentCopy.antt =====
-- src/send/sentCopy.ts: save, observeExisting and classifySentCopyError. What the calls of one attempt
-- come to is a record; the waits between them are left out. With its result save gives the appends
-- that it has made, in order: an append that is answered with an error may still have stored the copy.
pub mod Retries
pub mod Reached
pub mod Stored
use mailbridge_mcp.Common.{◌==◌}
use mailbridge_mcp.Common.{
  ℕ, zero, suc, String, Bool, true, false, not, ◌||◌, Option, none, some, List, [], ◌∷◌, ◌++◌,
  str_eq, ltb, any, find, if◌then◌else◌,
}
use mailbridge_mcp.Common.Text.{includes, has_word, has_self_signed}
use mailbridge_mcp.Domain.Types.{SentCopyState, SentCopyResult}
use mailbridge_mcp.Imap.Failures.{Thrown, Reply, replied, threw}

pub record SentCopyFolder : Type 0 where
  pub path : String
  pub special_use : Option String
  pub flags : List String

-- One attempt: `connected` is the endpoint, the secrets and the connection; `read_only` is
-- mailboxOpen, `found` the answer to each search, with none for false.
pub record Attempt : Type 0 where
  pub connected : Reply (Unit {0})
  pub listed : Reply (List SentCopyFolder)
  pub read_only : Reply Bool
  pub found : ℕ → Reply (Option (List ℕ))
  pub closed : Reply (Unit {0})
  pub appended : Reply Bool

pub record SentCopyOptions : Type 0 where
  pub observation_delays : List ℕ
  pub max_attempts : ℕ
  pub max_raw_bytes : ℕ

unfoldable pub classify_sent_copy_error : Thrown → String
unfolding includes has_word has_self_signed
classify_sent_copy_error e =
    if includes e.message "sent_copy_examine_required"
    then "SENT_COPY_READ_CHECK_FAILED"
    else if includes e.message "certificate"
        || (includes e.message "hostname"
            || (has_self_signed e.message || includes e.message "tls"))
    then "SENT_COPY_TLS_FAILED"
    else if includes e.message "auth"
        || (includes e.message "login" || includes e.message "credential")
    then "SENT_COPY_AUTH_FAILED"
    else if includes e.message "timeout"
        || (includes e.message "timed out" || has_word e.code "timeout")
    then "SENT_COPY_TIMEOUT"
    else if includes e.message "econn"
        || (includes e.message "noconnection"
            || (includes e.message "socket" || has_word e.code "econn"))
    then "SENT_COPY_CONNECTION_FAILED"
    else "SENT_COPY_IMAP_FAILED"

abbrev pub failed : ℕ → Option String → String → SentCopyResult
failed attempts folder error_code = record {
  state = SentCopyState.failed;
  folder = folder;
  attempts = attempts;
  error_code = some error_code;
}

abbrev pub saved : SentCopyState → ℕ → String → SentCopyResult
saved state attempts path = record {
  state = state;
  folder = some path;
  attempts = attempts;
  error_code = none;
}

abbrev pub examine_required : Thrown
examine_required = record {
  authentication_failed = false;
  message = "sent_copy_examine_required";
  code = "";
}

-- `Array.isArray(found) && found.length > 0`
abbrev pub is_found : Option (List ℕ) → Bool
is_found none = false
is_found (some []) = false
is_found (some (uid ∷ uids)) = true

-- The loop over the delays, from the search of number `n` on.
unfoldable pub observe_loop : (ℕ → Reply (Option (List ℕ))) → List ℕ → ℕ → Reply Bool
observe_loop found [] n = replied false
observe_loop found (delay ∷ delays) n = elim (found n) [
  | threw e ↦ threw e
  | replied answer ↦ if is_found answer then replied true else observe_loop found delays (suc n)
]

-- `finally`: an error of mailboxClose takes the place of what came before.
abbrev pub after_close : Reply (Unit {0}) → Reply Bool → Reply Bool
after_close (replied u) seen = seen
after_close (threw e) seen = threw e

abbrev pub observe_opened : Attempt → List ℕ → Reply Bool → Reply Bool
observe_opened client delays (threw e) = threw e
observe_opened client delays (replied false) = threw examine_required
observe_opened client delays (replied true) =
    after_close client.closed (observe_loop client.found delays 0)

abbrev pub observe_existing : Attempt → List ℕ → Reply Bool
observe_existing client delays = observe_opened client delays client.read_only

-- An append: the attempt that has made it and the answer, `false` for a rejection.
pub record Append : Type 0 where
  pub attempt : ℕ
  pub answer : Reply Bool

-- How an attempt ends: save returns, or another attempt follows with `lastError` and `lastFolder`.
pub data Turn : Type 0 where
  finished : SentCopyResult → Turn
  again : String → Option String → Turn

abbrev pub append_turn : ℕ → String → Reply Bool → Turn
append_turn attempt path (threw e) = again (classify_sent_copy_error e) (some path)
append_turn attempt path (replied false) = again "SENT_COPY_APPEND_REJECTED" (some path)
append_turn attempt path (replied true) = finished (saved SentCopyState.imap_appended attempt path)

abbrev pub after_append : ℕ → String → Reply Bool → Turn × List Append
after_append attempt path r =
    (append_turn attempt path r, record { attempt = attempt; answer = r } ∷ [])

abbrev pub after_observe : Attempt → ℕ → String → Reply Bool → Turn × List Append
after_observe client attempt path (threw e) = (again (classify_sent_copy_error e) (some path), [])
after_observe client attempt path (replied true) =
    (finished (saved SentCopyState.provider_saved attempt path), [])
after_observe client attempt path (replied false) = after_append attempt path client.appended

abbrev pub in_folder : Attempt → List ℕ → ℕ → Option SentCopyFolder → Turn × List Append
in_folder client delays attempt none = (finished (failed attempt none "SENT_FOLDER_NOT_FOUND"), [])
in_folder client delays attempt (some folder) =
    after_observe client attempt folder.path (observe_existing client delays)

abbrev pub unless_finished :
    Turn × List Append
    → (String → Option String → SentCopyResult × List Append)
    → SentCopyResult × List Append
unless_finished (finished result, answers) rest = (result, answers)
unless_finished (again error folder, answers) rest =
    let (result, later) = rest error folder in (result, answers ++ later)

-- `lower` is toLowerCase.
module _ (lower : String → String) where
  abbrev pub is_sent_folder : SentCopyFolder → Bool
  is_sent_folder folder =
      if is_sent folder.special_use
      then not (any (λ f. str_eq f "\\Noselect") folder.flags)
      else false
    where
      is_sent : Option String → Bool
      is_sent none = false
      is_sent (some special_use) = str_eq (lower special_use) "\\sent"

  abbrev pub after_list :
      Attempt → List ℕ → ℕ → Option String → Reply (List SentCopyFolder) → Turn × List Append
  after_list client delays attempt last_folder (threw e) =
      (again (classify_sent_copy_error e) last_folder, [])
  after_list client delays attempt last_folder (replied folders) =
      in_folder client delays attempt (find is_sent_folder folders)

  abbrev pub after_connect :
      Attempt → List ℕ → ℕ → Option String → Reply (Unit {0}) → Turn × List Append
  after_connect client delays attempt last_folder (threw e) =
      (again (classify_sent_copy_error e) last_folder, [])
  after_connect client delays attempt last_folder (replied u) =
      after_list client delays attempt last_folder client.listed

  -- The body of the loop.
  unfoldable pub save_attempt : List ℕ → (ℕ → Attempt) → ℕ → Option String → Turn × List Append
  unfolding find any observe_loop classify_sent_copy_error
  save_attempt delays attempts attempt last_folder =
      let chosen = (if attempt == 1 then delays else 0 ∷ []) in
      after_connect (attempts attempt) chosen attempt last_folder (attempts attempt).connected

  -- The loop, with the number of attempts that are left.
  unfoldable pub save_loop :
      SentCopyOptions
      → (ℕ → Attempt)
      → ℕ
      → ℕ
      → String
      → Option String
      → SentCopyResult × List Append
  unfolding save_attempt
  save_loop options attempts zero attempt last_error last_folder =
      (failed options.max_attempts last_folder last_error, [])
  save_loop options attempts (suc left) attempt last_error last_folder =
      unless_finished (save_attempt options.observation_delays attempts attempt last_folder)
        (λ error folder. save_loop options attempts left (suc attempt) error folder)

  unfoldable pub save : SentCopyOptions → (ℕ → Attempt) → ℕ → SentCopyResult × List Append
  unfolding save_loop
  save options attempts byte_length =
      let tried = save_loop options attempts options.max_attempts 1 "SENT_COPY_FAILED" none in
      if ltb options.max_raw_bytes byte_length
      then (failed 0 none "SENT_COPY_MESSAGE_TOO_LARGE", [])
      else tried
