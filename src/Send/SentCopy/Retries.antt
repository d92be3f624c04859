-- ===== src/Send/SentCopy/Retries.antt =====
-- Which appends the server has confirmed.
use mailbridge_mcp.Common.{
  ℕ, zero, suc, ◌+◌, ◌≤◌, ◌≡◌, ◌∙◌, refl, String, Bool, true, false, Option, none, some, List, [],
  ◌∷◌, ◌++◌, arith, ltb, find, if-elim,
}
use mailbridge_mcp.Domain.Types.{SentCopyState, SentCopyResult}
use mailbridge_mcp.Imap.Failures.{Reply, replied, threw}
use mailbridge_mcp.Send.SentCopy.{
  SentCopyFolder, Attempt, Append, SentCopyOptions, Turn, finished, again, after_append,
  after_observe, in_folder, after_list, after_connect, is_sent_folder, observe_existing,
  unless_finished, save_attempt, save_loop, save,
}

-- How many appends the server has confirmed, and how many a result tells of.
abbrev pub confirmed : Reply Bool → ℕ
confirmed (threw e) = 0
confirmed (replied false) = 0
confirmed (replied true) = 1

abbrev pub accepted : List Append → ℕ
accepted [] = 0
accepted (append ∷ appends) = confirmed append.answer + accepted appends

abbrev pub told : SentCopyState → ℕ
told SentCopyState.imap_appended = 1
told SentCopyState.disabled = 0
told SentCopyState.not_applicable = 0
told SentCopyState.provider_saved = 0
told SentCopyState.failed = 0
told SentCopyState.legacy_untracked = 0

accepted-append : (xs ys : List Append) → accepted (xs ++ ys) ≡ accepted xs + accepted ys
accepted-append [] ys = omega arith
accepted-append (x ∷ xs) ys = omega (arith, accepted-append xs ys)

abbrev IsCounted : ℕ → Turn × List Append → Type 0
IsCounted attempt (finished result, appends) =
    (accepted appends ≡ told result.state) × (result.attempts ≡ attempt)
IsCounted attempt (again error folder, appends) = accepted appends ≡ 0

after_append-IsCounted :
    (attempt : ℕ) (path : String) (r : Reply Bool) → IsCounted attempt (after_append attempt path r)
after_append-IsCounted attempt path (threw e) = refl
after_append-IsCounted attempt path (replied false) = refl
after_append-IsCounted attempt path (replied true) = (refl, refl)

after_observe-IsCounted :
    (client : Attempt) (attempt : ℕ) (path : String) (r : Reply Bool)
    → IsCounted attempt (after_observe client attempt path r)
after_observe-IsCounted client attempt path (threw e) = refl
after_observe-IsCounted client attempt path (replied true) = (refl, refl)
after_observe-IsCounted client attempt path (replied false) =
    after_append-IsCounted attempt path client.appended

in_folder-IsCounted :
    (client : Attempt) (delays : List ℕ) (attempt : ℕ) (folder : Option SentCopyFolder)
    → IsCounted attempt (in_folder client delays attempt folder)
in_folder-IsCounted client delays attempt none = (refl, refl)
in_folder-IsCounted client delays attempt (some folder) =
    after_observe-IsCounted client attempt folder.path (observe_existing client delays)

module _ (lower : String → String) where
  after_list-IsCounted :
      (client : Attempt) (delays : List ℕ) (attempt : ℕ) (last : Option String)
      (r : Reply (List SentCopyFolder))
      → IsCounted attempt (after_list lower client delays attempt last r)
  after_list-IsCounted client delays attempt last (threw e) = refl
  after_list-IsCounted client delays attempt last (replied folders) =
      in_folder-IsCounted client delays attempt (find (is_sent_folder lower) folders)

  after_connect-IsCounted :
      (client : Attempt) (delays : List ℕ) (attempt : ℕ) (last : Option String)
      (r : Reply (Unit {0}))
      → IsCounted attempt (after_connect lower client delays attempt last r)
  after_connect-IsCounted client delays attempt last (threw e) = refl
  after_connect-IsCounted client delays attempt last (replied u) =
      after_list-IsCounted client delays attempt last client.listed

  save_attempt-IsCounted :
      (delays : List ℕ) (attempts : ℕ → Attempt) (attempt : ℕ) (last : Option String)
      → IsCounted attempt (save_attempt lower delays attempts attempt last)
  unfolding save_attempt
  save_attempt-IsCounted delays attempts attempt last =
      after_connect-IsCounted (attempts attempt) _ attempt last (attempts attempt).connected

  module _ (options : SentCopyOptions) (attempts : ℕ → Attempt) where
    abbrev IsResult : SentCopyResult × List Append → Type 0
    IsResult (result, appends) =
        (accepted appends ≡ told result.state) × (result.attempts ≤ options.max_attempts)

    unless_finished-IsResult :
        (attempt : ℕ) (turn : Turn × List Append)
        (rest : String → Option String → SentCopyResult × List Append)
        → IsCounted attempt turn
        → attempt ≤ options.max_attempts
        → ((error : String) (folder : Option String) → IsResult (rest error folder))
        → IsResult (unless_finished turn rest)
    unless_finished-IsResult attempt (finished result, appends) rest (counted, number) within
          later =
        (counted, omega (arith, number, within))
    unless_finished-IsResult attempt (again error folder, appends) rest counted within later =
        let (counted_later, bounded) = later error folder in
        (
          accepted-append appends (rest error folder).1 ∙ omega (arith, counted, counted_later),
          bounded,
        )

    save_loop-IsResult :
        (left attempt : ℕ) (error : String) (folder : Option String)
        → attempt + left ≤ suc options.max_attempts
        → IsResult (save_loop lower options attempts left attempt error folder)
    unfolding save_loop
    save_loop-IsResult zero attempt error folder within = (refl, omega arith)
    save_loop-IsResult (suc left) attempt error folder within =
        unless_finished-IsResult attempt
          (save_attempt lower options.observation_delays attempts attempt folder) _
          (save_attempt-IsCounted options.observation_delays attempts attempt folder)
          (omega (arith, within))
          (λ e f. save_loop-IsResult left (suc attempt) e f (omega (arith, within)))

    -- Whatever the attempts come to, the server has confirmed one append if the result is that the
    -- copy was appended, and none otherwise, and there were no more attempts than allowed.
    pub save-accepted :
        (byte_length : ℕ)
        → (accepted (save lower options attempts byte_length).1
            ≡ told (save lower options attempts byte_length).0.state)
          × ((save lower options attempts byte_length).0.attempts ≤ options.max_attempts)
    unfolding save
    save-accepted byte_length =
        if-elim IsResult (ltb options.max_raw_bytes byte_length) (λ _. (refl, omega arith))
          (λ _. save_loop-IsResult options.max_attempts 1 "SENT_COPY_FAILED" none (omega arith))
