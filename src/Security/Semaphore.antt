-- ===== src/Security/Semaphore.antt =====
-- src/util/concurrency.ts: `Semaphore`. Its steps run between the `await`s of `use`.
pub mod Bound
use mailbridge_mcp.Common.{
  ℕ, suc, ◌-◌, String, Bool, List, [], ◌∷◌, ◌++◌, str_eq, ltb, if◌then◌else◌,
}

-- `queue` holds the callers that wait, the first to come first.
pub record Semaphore : Type 0 where
  pub available : ℕ
  pub queue : List String
  -- The callers whose operation runs: between the return of #acquire and #release.
  pub running : List String

unfoldable pub acquire : String → Semaphore → Semaphore
acquire caller s =
    if ltb 0 s.available
    then record s { available = s.available - 1; running = caller ∷ s.running }
    else record s { queue = s.queue ++ caller ∷ [] }

-- The first of the callers of that name leaves.
unfoldable pub leave : String → List String → List String
leave caller [] = []
leave caller (x ∷ xs) = if str_eq x caller then xs else x ∷ leave caller xs

-- `const next = this.#queue.shift(); if (next) next(); else this.#available += 1;`
abbrev pub hand_over : List String → Semaphore → Semaphore
hand_over [] s = record s { available = suc s.available }
hand_over (next ∷ rest) s = record s { queue = rest; running = next ∷ s.running }

unfoldable pub release : String → Semaphore → Semaphore
unfolding leave
release caller s = hand_over s.queue (record s { running = leave caller s.running })
