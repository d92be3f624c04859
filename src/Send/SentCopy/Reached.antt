-- ===== src/Send/SentCopy/Reached.antt =====
-- When a copy is saved at last.
use mailbridge_mcp.Common.{
  ℕ, zero, suc, ◌+◌, ◌≤◌, ◌<◌, ◌≡◌, sym, refl, inl, inr, String, Bool, true, false, Option, none,
  some, List, [], ◌∷◌, arith, ltb, ◌==◌, find, if-elim, Bool-cases,
}
use mathlib.Core.Path.{subst}
use mailbridge_mcp.Domain.Types.{SentCopyState, SentCopyResult}
use mailbridge_mcp.Imap.Failures.{Reply, replied, threw}
use mailbridge_mcp.Send.SentCopy.{
  SentCopyFolder, Attempt, Append, SentCopyOptions, Turn, finished, again, after_append,
  after_observe, in_folder, after_list, after_connect, is_sent_folder, is_found, observe_loop,
  observe_existing, unless_finished, save_attempt, save_loop, save,
}

-- The copy is on the server: the provider had stored it or save has appended it.
abbrev pub is_saved : SentCopyState → Bool
is_saved SentCopyState.provider_saved = true
is_saved SentCopyState.imap_appended = true
is_saved SentCopyState.failed = false
is_saved SentCopyState.disabled = false
is_saved SentCopyState.not_applicable = false
is_saved SentCopyState.legacy_untracked = false

-- An attempt in which every call is answered, the folder is opened read-only and an append of the
-- copy is accepted.
pub record IsGood (client : Attempt) : Type 0 where
  pub folders : List SentCopyFolder
  pub answer : ℕ → Option (List ℕ)
  pub connected : client.connected ≡ replied tt
  pub listed : client.listed ≡ replied folders
  pub read_only : client.read_only ≡ replied true
  pub found : (n : ℕ) → client.found n ≡ replied (answer n)
  pub closed : client.closed ≡ replied tt
  pub appended : client.appended ≡ replied true

-- A turn that saves the copy, or leaves it to another attempt.
abbrev SavesOrRetries : Turn × List Append → Type 0
SavesOrRetries (finished result, appends) = is_saved result.state ≡ true
SavesOrRetries (again error folder, appends) = Unit

-- A turn that saves the copy.
abbrev Saves : Turn × List Append → Type 0
Saves (finished result, appends) = is_saved result.state ≡ true
Saves (again error folder, appends) = ⊥

observe_loop-replied :
    (found : ℕ → Reply (Option (List ℕ))) (answer : ℕ → Option (List ℕ)) (delays : List ℕ) (n : ℕ)
    → ((m : ℕ) → found m ≡ replied (answer m))
    → (seen : Bool) × (observe_loop found delays n ≡ replied seen)
unfolding observe_loop
observe_loop-replied found answer [] n h = (false, refl)
observe_loop-replied found answer (delay ∷ delays) n h =
    let (later, e) = observe_loop-replied found answer delays (suc n) h in
    elim (Bool-cases (is_found (answer n))) [
      | inl is ↦ (true, ground (arith, h n, is))
      | inr is_not ↦ (later, ground (arith, h n, is_not, e))
    ]

observe_existing-replied :
    (client : Attempt) (delays : List ℕ)
    → IsGood client
    → (seen : Bool) × (observe_existing client delays ≡ replied seen)
observe_existing-replied client delays good =
    let (seen, e) = observe_loop-replied client.found good.answer delays 0 good.found in
    (seen, ground (arith, good.read_only, good.closed, e))

after_observe-Saves :
    (client : Attempt) (attempt : ℕ) (path : String) (seen : Bool)
    → client.appended ≡ replied true
    → Saves (after_observe client attempt path (replied seen))
after_observe-Saves client attempt path true h = refl
after_observe-Saves client attempt path false h =
    subst (λ r. Saves (after_append attempt path r)) (sym h) refl

after_append-SavesOrRetries :
    (attempt : ℕ) (path : String) (r : Reply Bool) → SavesOrRetries (after_append attempt path r)
after_append-SavesOrRetries attempt path (threw e) = tt
after_append-SavesOrRetries attempt path (replied false) = tt
after_append-SavesOrRetries attempt path (replied true) = refl

after_observe-SavesOrRetries :
    (client : Attempt) (attempt : ℕ) (path : String) (r : Reply Bool)
    → SavesOrRetries (after_observe client attempt path r)
after_observe-SavesOrRetries client attempt path (threw e) = tt
after_observe-SavesOrRetries client attempt path (replied true) = refl
after_observe-SavesOrRetries client attempt path (replied false) =
    after_append-SavesOrRetries attempt path client.appended

module _ (lower : String → String) where
  -- Whenever the folders are told, one of them is for sent mail.
  abbrev pub HasSentFolder : Attempt → Type 0
  HasSentFolder client =
      (folders : List SentCopyFolder)
      → client.listed ≡ replied folders
      → (folder : SentCopyFolder) × (find (is_sent_folder lower) folders ≡ some folder)

  after_list-SavesOrRetries :
      (client : Attempt) (delays : List ℕ) (attempt : ℕ) (last : Option String)
      (r : Reply (List SentCopyFolder))
      → client.listed ≡ r
      → HasSentFolder client
      → SavesOrRetries (after_list lower client delays attempt last r)
  after_list-SavesOrRetries client delays attempt last (threw e) h has = tt
  after_list-SavesOrRetries client delays attempt last (replied folders) h has =
      let (folder, e) = has folders h in
      subst (λ o. SavesOrRetries (in_folder client delays attempt o)) (sym e)
        (after_observe-SavesOrRetries client attempt folder.path (observe_existing client delays))

  after_connect-SavesOrRetries :
      (client : Attempt) (delays : List ℕ) (attempt : ℕ) (last : Option String)
      (r : Reply (Unit {0}))
      → HasSentFolder client
      → SavesOrRetries (after_connect lower client delays attempt last r)
  after_connect-SavesOrRetries client delays attempt last (threw e) has = tt
  after_connect-SavesOrRetries client delays attempt last (replied u) has =
      after_list-SavesOrRetries client delays attempt last client.listed refl has

  after_connect-Saves :
      (client : Attempt) (delays : List ℕ) (attempt : ℕ) (last : Option String)
      → IsGood client
      → HasSentFolder client
      → Saves (after_connect lower client delays attempt last client.connected)
  after_connect-Saves client delays attempt last good has =
      let (folder, e) = has good.folders good.listed in
      let (seen, observed) = observe_existing-replied client delays good in
      subst (λ r. Saves (after_connect lower client delays attempt last r)) (sym good.connected)
        (subst (λ r. Saves (after_list lower client delays attempt last r)) (sym good.listed)
          (subst (λ o. Saves (in_folder client delays attempt o)) (sym e)
            (subst (λ r. Saves (after_observe client attempt folder.path r)) (sym observed)
              (after_observe-Saves client attempt folder.path seen good.appended))))

  module _ (options : SentCopyOptions) (attempts : ℕ → Attempt)
      (sent : (n : ℕ) → HasSentFolder (attempts n)) (k : ℕ) (good : IsGood (attempts k)) where
    abbrev IsSaved : SentCopyResult × List Append → Type 0
    IsSaved (result, appends) = is_saved result.state ≡ true

    unless_finished-Saves :
        (turn : Turn × List Append) (rest : String → Option String → SentCopyResult × List Append)
        → Saves turn
        → IsSaved (unless_finished turn rest)
    unless_finished-Saves (finished result, appends) rest h = h
    unless_finished-Saves (again error folder, appends) rest h = absurd h

    unless_finished-SavesOrRetries :
        (turn : Turn × List Append) (rest : String → Option String → SentCopyResult × List Append)
        → SavesOrRetries turn
        → ((error : String) (folder : Option String) → IsSaved (rest error folder))
        → IsSaved (unless_finished turn rest)
    unless_finished-SavesOrRetries (finished result, appends) rest h later = h
    unless_finished-SavesOrRetries (again error folder, appends) rest h later = later error folder

    save_loop-IsSaved :
        (left attempt : ℕ) (error : String) (folder : Option String)
        → attempt ≤ k
        → k < attempt + left
        → IsSaved (save_loop lower options attempts left attempt error folder)
    unfolding save_loop save_attempt
    save_loop-IsSaved zero attempt error folder from to = absurd (omega (arith, from, to))
    save_loop-IsSaved (suc left) attempt error folder from to = elim (Bool-cases (attempt == k)) [
      | inl same ↦
          unless_finished-Saves
            (save_attempt lower options.observation_delays attempts attempt folder) _
            (after_connect-Saves (attempts attempt) _ attempt folder
              (subst (λ n. IsGood (attempts n)) (ground (arith, same)) good) (sent attempt))
      | inr differs ↦
          unless_finished-SavesOrRetries
            (save_attempt lower options.observation_delays attempts attempt folder) _
            (after_connect-SavesOrRetries (attempts attempt) _ attempt folder
              (attempts attempt).connected (sent attempt))
            (λ e f.
              save_loop-IsSaved left (suc attempt) e f (ground (arith, differs, from))
                (omega (arith, to)))
    ]

    -- If among the attempts that are allowed is one in which the server answers every call, opens the
    -- folder read-only and accepts the append, then a copy that is not too large is found on the
    -- server or appended, whatever the other attempts come to, as long as every list of folders has
    -- one for sent mail.
    pub save-reached :
        (byte_length : ℕ)
        → byte_length ≤ options.max_raw_bytes
        → 1 ≤ k
        → k ≤ options.max_attempts
        → is_saved (save lower options attempts byte_length).0.state ≡ true
    unfolding save
    save-reached byte_length small from to =
        if-elim IsSaved (ltb options.max_raw_bytes byte_length)
          (λ h. absurd (ground (arith, h, small)))
          (λ _.
            save_loop-IsSaved options.max_attempts 1 "SENT_COPY_FAILED" none from
              (omega (arith, to)))
