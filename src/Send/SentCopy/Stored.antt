-- ===== src/Send/SentCopy/Stored.antt =====
-- How many copies the appends of save have stored.
use mailbridge_mcp.Common.{◌==◌}
use mailbridge_mcp.Common.{
  ℕ, zero, suc, ◌+◌, ◌≤◌, ◌<◌, ◌≡◌, refl, inl, inr, String, Bool, true, false, Option, none, some,
  List, [], ◌∷◌, arith, ltb, find, if-elim, Bool-cases, if◌then◌else◌, ◌⊎◌,
}
use mathlib.Core.Path.{subst}
use mailbridge_mcp.Domain.Types.{SentCopyResult}
use mailbridge_mcp.Imap.Failures.{Reply, replied, threw}
use mailbridge_mcp.Send.SentCopy.{
  SentCopyFolder, Attempt, Append, SentCopyOptions, Turn, finished, again, after_observe,
  after_close, observe_opened, in_folder, after_list, after_connect, is_sent_folder, is_found,
  observe_loop, observe_existing, unless_finished, save_attempt, save_loop, save,
}

-- How many of the appends have stored the copy, where `stores` tells it of each attempt.
abbrev pub stored : (ℕ → Bool) → List Append → ℕ
stored stores [] = 0
stored stores (append ∷ appends) = (if stores append.attempt then 1 else 0) + stored stores appends

-- The turn has made no append, or the one of its attempt.
abbrev IsOwn : ℕ → Turn × List Append → Type 0
IsOwn attempt turn =
    (turn.1 ≡ []) ⊎ ((r : Reply Bool) × (turn.1 ≡ record { attempt = attempt; answer = r } ∷ []))

after_observe-IsOwn :
    (client : Attempt) (attempt : ℕ) (path : String) (r : Reply Bool)
    → IsOwn attempt (after_observe client attempt path r)
after_observe-IsOwn client attempt path (threw e) = inl refl
after_observe-IsOwn client attempt path (replied true) = inl refl
after_observe-IsOwn client attempt path (replied false) = inr (client.appended, refl)

after_observe-none :
    (client : Attempt) (attempt : ℕ) (path : String) (r : Reply Bool)
    → (r ≡ replied false → ⊥)
    → (after_observe client attempt path r).1 ≡ []
after_observe-none client attempt path (threw e) h = refl
after_observe-none client attempt path (replied true) h = refl
after_observe-none client attempt path (replied false) h = absurd (h refl)

-- The first search is answered with a message, or with an error.
abbrev pub Sees : Attempt → Type 0
Sees client = (answer : Option (List ℕ)) → client.found 0 ≡ replied answer → is_found answer ≡ true

observe_loop-seen :
    (found : ℕ → Reply (Option (List ℕ))) (delay : ℕ) (delays : List ℕ)
    (r : Reply (Option (List ℕ)))
    → found 0 ≡ r
    → ((answer : Option (List ℕ)) → found 0 ≡ replied answer → is_found answer ≡ true)
    → observe_loop found (delay ∷ delays) 0 ≡ replied false
    → ⊥
unfolding observe_loop
observe_loop-seen found delay delays (threw e) is h unseen = ground (arith, is, unseen)
observe_loop-seen found delay delays (replied answer) is h unseen =
    ground (arith, is, h answer is, unseen)

after_close-none :
    (closed : Reply (Unit {0})) (seen : Reply Bool)
    → (seen ≡ replied false → ⊥)
    → after_close closed seen ≡ replied false
    → ⊥
after_close-none (replied u) seen h unseen = h unseen
after_close-none (threw e) seen h unseen = ground (arith, unseen)

observe_opened-seen :
    (client : Attempt) (delay : ℕ) (delays : List ℕ) (read_only : Reply Bool)
    → Sees client
    → observe_opened client (delay ∷ delays) read_only ≡ replied false
    → ⊥
observe_opened-seen client delay delays (threw e) sees unseen = ground (arith, unseen)
observe_opened-seen client delay delays (replied false) sees unseen = ground (arith, unseen)
observe_opened-seen client delay delays (replied true) sees unseen =
    after_close-none client.closed _
      (observe_loop-seen client.found delay delays (client.found 0) refl sees) unseen

in_folder-none :
    (client : Attempt) (delay : ℕ) (delays : List ℕ) (attempt : ℕ) (folder : Option SentCopyFolder)
    → Sees client
    → (in_folder client (delay ∷ delays) attempt folder).1 ≡ []
in_folder-none client delay delays attempt none sees = refl
in_folder-none client delay delays attempt (some folder) sees =
    after_observe-none client attempt folder.path _
      (observe_opened-seen client delay delays client.read_only sees)

in_folder-IsOwn :
    (client : Attempt) (delays : List ℕ) (attempt : ℕ) (folder : Option SentCopyFolder)
    → IsOwn attempt (in_folder client delays attempt folder)
in_folder-IsOwn client delays attempt none = inl refl
in_folder-IsOwn client delays attempt (some folder) =
    after_observe-IsOwn client attempt folder.path (observe_existing client delays)

module _ (lower : String → String) where
  after_list-IsOwn :
      (client : Attempt) (delays : List ℕ) (attempt : ℕ) (last : Option String)
      (r : Reply (List SentCopyFolder))
      → IsOwn attempt (after_list lower client delays attempt last r)
  after_list-IsOwn client delays attempt last (threw e) = inl refl
  after_list-IsOwn client delays attempt last (replied folders) =
      in_folder-IsOwn client delays attempt (find (is_sent_folder lower) folders)

  after_connect-IsOwn :
      (client : Attempt) (delays : List ℕ) (attempt : ℕ) (last : Option String)
      (r : Reply (Unit {0}))
      → IsOwn attempt (after_connect lower client delays attempt last r)
  after_connect-IsOwn client delays attempt last (threw e) = inl refl
  after_connect-IsOwn client delays attempt last (replied u) =
      after_list-IsOwn client delays attempt last client.listed

  after_list-none :
      (client : Attempt) (delay : ℕ) (delays : List ℕ) (attempt : ℕ) (last : Option String)
      (r : Reply (List SentCopyFolder))
      → Sees client
      → (after_list lower client (delay ∷ delays) attempt last r).1 ≡ []
  after_list-none client delay delays attempt last (threw e) sees = refl
  after_list-none client delay delays attempt last (replied folders) sees =
      in_folder-none client delay delays attempt (find (is_sent_folder lower) folders) sees

  after_connect-none :
      (client : Attempt) (delay : ℕ) (delays : List ℕ) (attempt : ℕ) (last : Option String)
      (r : Reply (Unit {0}))
      → Sees client
      → (after_connect lower client (delay ∷ delays) attempt last r).1 ≡ []
  after_connect-none client delay delays attempt last (threw e) sees = refl
  after_connect-none client delay delays attempt last (replied u) sees =
      after_list-none client delay delays attempt last client.listed sees

  module _ (options : SentCopyOptions) (attempts : ℕ → Attempt) (stores : ℕ → Bool)
      (visible : (m n : ℕ) → m < n → stores m ≡ true → Sees (attempts n)) where
    save_attempt-none :
        (m n : ℕ) (last : Option String)
        → m < n
        → 1 < n
        → stores m ≡ true
        → (save_attempt lower options.observation_delays attempts n last).1 ≡ []
    unfolding save_attempt
    save_attempt-none m n last before second is =
        let once : (0 ∷ []) ≡ (if n == 1 then options.observation_delays else 0 ∷ []) =
          ground (arith, second) in
        subst
          (λ (delays : List ℕ).
            (after_connect lower (attempts n) delays n last (attempts n).connected).1 ≡ [])
          once
          (after_connect-none (attempts n) 0 [] n last (attempts n).connected
            (visible m n before is))

    save_attempt-IsOwn :
        (n : ℕ) (last : Option String)
        → IsOwn n (save_attempt lower options.observation_delays attempts n last)
    unfolding save_attempt
    save_attempt-IsOwn n last = after_connect-IsOwn (attempts n) _ n last (attempts n).connected

    unless_finished-none :
        (turn : Turn × List Append) (rest : String → Option String → SentCopyResult × List Append)
        → turn.1 ≡ []
        → ((e : String) (f : Option String) → (rest e f).1 ≡ [])
        → (unless_finished turn rest).1 ≡ []
    unless_finished-none (finished result, appends) rest h later = h
    unless_finished-none (again e f, appends) rest h later = ground (arith, h, later e f)

    unless_finished-stored :
        (n : ℕ) (turn : Turn × List Append)
        (rest : String → Option String → SentCopyResult × List Append)
        → IsOwn n turn
        → ((e : String) (f : Option String) → stored stores (rest e f).1 ≤ 1)
        → (stores n ≡ true → (e : String) (f : Option String) → (rest e f).1 ≡ [])
        → stored stores (unless_finished turn rest).1 ≤ 1
    unless_finished-stored n (finished result, appends) rest (inl h) later quiet = ground (arith, h)
    unless_finished-stored n (finished result, appends) rest (inr (r, h)) later quiet =
        ground (arith, h)
    unless_finished-stored n (again e f, appends) rest (inl h) later quiet =
        ground (arith, h, later e f)
    unless_finished-stored n (again e f, appends) rest (inr (r, h)) later quiet =
        elim (Bool-cases (stores n)) [
          | inl is ↦ ground (arith, h, is, quiet is e f)
          | inr is_not ↦ ground (arith, h, is_not, later e f)
        ]

    save_loop-none :
        (m left n : ℕ) (error : String) (folder : Option String)
        → m < n
        → 1 < n
        → stores m ≡ true
        → (save_loop lower options attempts left n error folder).1 ≡ []
    unfolding save_loop
    save_loop-none m zero n error folder before second is = refl
    save_loop-none m (suc left) n error folder before second is =
        unless_finished-none (save_attempt lower options.observation_delays attempts n folder) _
          (save_attempt-none m n folder before second is)
          (λ e f.
            save_loop-none m left (suc n) e f (omega (arith, before)) (omega (arith, second)) is)

    save_loop-stored :
        (left n : ℕ) (error : String) (folder : Option String)
        → 1 ≤ n
        → stored stores (save_loop lower options attempts left n error folder).1 ≤ 1
    unfolding save_loop
    save_loop-stored zero n error folder first = omega arith
    save_loop-stored (suc left) n error folder first =
        unless_finished-stored n (save_attempt lower options.observation_delays attempts n folder) _
          (save_attempt-IsOwn n folder)
          (λ e f. save_loop-stored left (suc n) e f (omega (arith, first)))
          (λ is e f. save_loop-none n left (suc n) e f (omega arith) (omega (arith, first)) is)

    -- If a copy that the append of an attempt has stored, whatever that append was answered, is found
    -- by the first search of every later attempt, where that search is answered, then the appends of save store at most one
    -- copy, however many there are.
    pub save-stored :
        (byte_length : ℕ) → stored stores (save lower options attempts byte_length).1 ≤ 1
    unfolding save
    save-stored byte_length =
        if-elim (λ (r : SentCopyResult × List Append). stored stores r.1 ≤ 1)
          (ltb options.max_raw_bytes byte_length) (λ _. omega arith)
          (λ _. save_loop-stored options.max_attempts 1 "SENT_COPY_FAILED" none (omega arith))
