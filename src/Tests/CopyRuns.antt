-- ===== src/Tests/CopyRuns.antt =====
-- Runs of the copies of sent mail.
use mailbridge_mcp.Common.{◌<◌, Bool, ltb, ◌==◌, if◌then◌else◌}
use mailbridge_mcp.Send.SentCopy.Stored.{stored, Sees, save-stored}
use mailbridge_mcp.Common.{
  ◌≡◌, ◌≤◌, refl, ap, ℕ, zero, suc, String, true, false, some, none, [], ◌∷◌, List, arith, find,
  any,
}
use mathlib.Core.Path.{subst}
use mailbridge_mcp.Common.Text.{includes, has_word, has_self_signed}
use mailbridge_mcp.Domain.Types.{SentCopyState}
use mailbridge_mcp.Imap.Failures.{Reply, replied, threw, Thrown}
use mailbridge_mcp.Send.SentCopy.{
  Attempt, SentCopyFolder, SentCopyOptions, is_sent_folder, classify_sent_copy_error, observe_loop,
  save_attempt, save_loop, save,
}
use mailbridge_mcp.Send.SentCopy.Retries.{accepted, told, save-accepted}
use mailbridge_mcp.Send.SentCopy.Reached.{is_saved, IsGood, HasSentFolder, save-reached}

copy_code : Unit {0}
unfolding includes has_word has_self_signed find any classify_sent_copy_error observe_loop
    save_attempt save_loop save
copy_code = tt

abbrev sent_folder : SentCopyFolder
sent_folder = record { path = "Sent"; special_use = some "\\sent"; flags = [] }

abbrev refused : Thrown
refused = record { authentication_failed = false; message = "connect econnrefused"; code = "" }

unfoldable connection : ℕ → Reply (Unit {0})
connection zero = threw refused
connection (suc zero) = threw refused
connection (suc (suc n)) = replied tt

unfoldable tries : ℕ → Attempt
unfolding connection
tries n = record {
  connected = connection n;
  listed = replied (sent_folder ∷ []);
  read_only = replied true;
  found = λ m. replied (some []);
  closed = replied tt;
  appended = replied true;
}

abbrev options : SentCopyOptions
options = record { observation_delays = 0 ∷ 250 ∷ []; max_attempts = 3; max_raw_bytes = 1024 }

abbrev lower : String → String
lower s = s

saves_second : save lower options tries 100 ≡ (
  record {
    state = SentCopyState.imap_appended;
    folder = some "Sent";
    attempts = 2;
    error_code = none;
  },
  record { attempt = 2; answer = replied true } ∷ [],
)
unfolding copy_code tries
saves_second = refl

folders_of : Reply (List SentCopyFolder) → List SentCopyFolder
folders_of (replied folders) = folders
folders_of (threw e) = []

tries-HasSentFolder : (n : ℕ) → HasSentFolder lower (tries n)
unfolding copy_code tries folders_of
tries-HasSentFolder n folders e = (
  sent_folder,
  subst (λ fs. find (is_sent_folder lower) fs ≡ some sent_folder) (ap folders_of e) refl,
)

second-IsGood : IsGood (tries 2)
unfolding tries
second-IsGood = record {
  folders = sent_folder ∷ [];
  answer = λ m. some [];
  connected = refl;
  listed = refl;
  read_only = refl;
  found = λ m. refl;
  closed = refl;
  appended = refl;
}

save-accepted_example :
    (accepted (save lower options tries 100).1 ≡ told (save lower options tries 100).0.state)
    × ((save lower options tries 100).0.attempts ≤ options.max_attempts)
save-accepted_example = save-accepted lower options tries 100

save-reached_example : is_saved (save lower options tries 100).0.state ≡ true
save-reached_example =
    save-reached lower options tries tries-HasSentFolder 2 second-IsGood 100 (omega arith)
      (omega arith) (omega arith)

-- The first append is answered with an error, yet it has stored the copy.
abbrev lost : Thrown
lost = record { authentication_failed = false; message = "socket closed"; code = "" }

unfoldable uncertain : ℕ → Attempt
uncertain n = record {
  connected = replied tt;
  listed = replied (sent_folder ∷ []);
  read_only = replied true;
  found = λ m. replied (some (if ltb 1 n then 7 ∷ [] else []));
  closed = replied tt;
  appended = threw lost;
}

recovers : save lower options uncertain 100 ≡ (
  record {
    state = SentCopyState.provider_saved;
    folder = some "Sent";
    attempts = 2;
    error_code = none;
  },
  record { attempt = 1; answer = threw lost } ∷ [],
)
unfolding copy_code uncertain
recovers = refl

stored_first : ℕ → Bool
stored_first n = n == 1

uncertain-Sees : (m n : ℕ) → m < n → stored_first m ≡ true → Sees (uncertain n)
unfolding uncertain stored_first
uncertain-Sees m n before is answer h = ground (arith, before, is, h)

save-stored_example : stored stored_first (save lower options uncertain 100).1 ≤ 1
save-stored_example = save-stored lower options uncertain stored_first uncertain-Sees 100
