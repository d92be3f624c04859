-- ===== src/Security/Semaphore/Bound.antt =====
-- src/util/concurrency.ts: the sequences of steps of a semaphore, and how many operations run.
use mailbridge_mcp.Common.{
  ℕ, ◌+◌, ◌≤◌, ◌≡◌, ◌⊎◌, refl, inl, String, true, List, [], ◌∷◌, arith, str_eq, any, length,
}
use mailbridge_mcp.Security.Semaphore.{Semaphore, acquire, release, leave}

-- `new Semaphore(limit)`, for a limit that the constructor accepts.
abbrev pub fresh : ℕ → Semaphore
fresh limit = record { available = limit; queue = []; running = [] }

-- A caller comes, or one whose operation runs is done with it.
pub data Step : Semaphore → Semaphore → Type 0 where
  acquires : (caller : String) (s : Semaphore) → Step s (acquire caller s)
  releases :
      (caller : String) (s : Semaphore)
      → any (λ x. str_eq x caller) s.running ≡ true
      → Step s (release caller s)

pub data History (s : Semaphore) : Semaphore → Type 0 where
  start : History s s
  next : {t u : Semaphore} → History s t → Step t u → History s u

leave-length :
    (caller : String) (xs : List String)
    → any (λ x. str_eq x caller) xs ≡ true
    → length xs ≡ length (leave caller xs) + 1
unfolding any leave
leave-length caller [] h = ground arith
leave-length caller (x ∷ xs) h = ground (arith, leave-length caller xs)

-- Every permit is held or free, and none is free while a caller waits.
pub record IsBounded (limit : ℕ) (s : Semaphore) : Type 0 where
  pub shared : length s.running + s.available ≡ limit
  pub busy : (s.queue ≡ []) ⊎ (s.available ≡ 0)

module _ (limit : ℕ) where
  acquire-IsBounded :
      (caller : String) (s : Semaphore) → IsBounded limit s → IsBounded limit (acquire caller s)
  unfolding acquire
  acquire-IsBounded caller s b = record {
    shared = ground (arith, b.shared);
    busy = ground (arith, b.busy);
  }

  release-IsBounded :
      (caller : String) (s : Semaphore)
      → any (λ x. str_eq x caller) s.running ≡ true
      → IsBounded limit s
      → IsBounded limit (release caller s)
  unfolding release
  release-IsBounded caller s runs b = record {
    shared = ground (arith, b.shared, leave-length caller s.running runs);
    busy = ground (arith, b.busy);
  }

  Step-IsBounded : {s t : Semaphore} → Step s t → IsBounded limit s → IsBounded limit t
  Step-IsBounded (acquires caller s) b = acquire-IsBounded caller s b
  Step-IsBounded (releases caller s runs) b = release-IsBounded caller s runs b

  reached : {s : Semaphore} → History (fresh limit) s → IsBounded limit s
  reached start = record { shared = omega arith; busy = inl refl }
  reached (next h step) = Step-IsBounded step (reached h)

  -- Whatever callers come and go, at most `limit` operations run at once, and while a caller waits
  -- exactly `limit` of them do.
  pub History-IsBounded :
      {s : Semaphore}
      → History (fresh limit) s
      → (length s.running ≤ limit) × ((s.queue ≡ []) ⊎ (length s.running ≡ limit))
  History-IsBounded h =
      let b = reached h in (omega (arith, b.shared), ground (arith, b.shared, b.busy))
