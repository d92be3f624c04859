-- ===== src/Security/RateLimit/Window.antt =====
-- src/security/rateLimit.ts: the requests of one client within a window.
use mailbridge_mcp.Common.{
  ℕ, suc, ◌+◌, ◌-◌, ◌<◌, ◌≤◌, ◌≡◌, ◌⊎◌, inl, inr, String, none, some, List, [], ◌∷◌, arith, eq_iff,
  find, find-append, update_where, find-holds, find-none-any, find-some-any, Option-cases, All, leb,
}
use mailbridge_mcp.Security.RateLimit.{Bucket, is_of, set, limit, admitted}

find-overwrite :
    (key : String) (bucket : Bucket) (buckets : List Bucket) (b : Bucket)
    → bucket.key ≡ key
    → find (is_of key) buckets ≡ some b
    → find (is_of key) (update_where (is_of key) (λ _. bucket) buckets) ≡ some bucket
unfolding find update_where
find-overwrite key bucket [] b own found = ground arith
find-overwrite key bucket (x ∷ xs) b own found =
    ground (arith, own, eq_iff bucket.key key, find-overwrite key bucket xs b own)

set-find :
    (key : String) (bucket : Bucket) (buckets : List Bucket)
    → bucket.key ≡ key
    → find (is_of key) (set key bucket buckets) ≡ some bucket
unfolding set find
set-find key bucket buckets own = elim (Option-cases (find (is_of key) buckets)) [
  | inl missing ↦ ground (
    arith,
    missing,
    own,
    eq_iff bucket.key key,
    find-none-any (is_of key) buckets,
    find-append (is_of key) buckets (bucket ∷ []),
  )
  | inr (b, found) ↦ ground (
    arith,
    found,
    find-some-any (is_of key) buckets b,
    find-overwrite key bucket buckets b own found,
  )
]

module _ (window_ms max_requests : ℕ) (key : String) where
  limit-find :
      (now : ℕ) (buckets : List Bucket) (b : Bucket)
      → find (is_of key) buckets ≡ some b
      → now < b.reset_at
      → (limit window_ms max_requests key now buckets).0 ≡ leb (suc b.count) max_requests
  unfolding limit
  limit-find now buckets b found inside = ground arith

  limit-next :
      (now : ℕ) (buckets : List Bucket) (b : Bucket)
      → find (is_of key) buckets ≡ some b
      → now < b.reset_at
      → find (is_of key) (limit window_ms max_requests key now buckets).1
        ≡ some (record b { count = suc b.count })
  unfolding limit
  limit-next now buckets b found inside = ground (
    arith,
    set-find key (record b { count = suc b.count }) buckets,
    find-holds (is_of key) buckets b found,
    eq_iff b.key key,
  )

  -- Within the window of a bucket, what it has counted already is taken off the limit.
  admitted-le :
      (times : List ℕ) (buckets : List Bucket) (b : Bucket)
      → find (is_of key) buckets ≡ some b
      → All (λ now. now < b.reset_at) times
      → (admitted window_ms max_requests key times buckets).0 ≤ max_requests - b.count
  unfolding admitted
  admitted-le [] buckets b found inside = omega arith
  admitted-le (now ∷ later) buckets b found (first, rest) = ground (
    arith,
    limit-find now buckets b found first,
    admitted-le later (limit window_ms max_requests key now buckets).1
        (record b { count = suc b.count }) (limit-next now buckets b found first) rest,
  )

  limit-start :
      (now : ℕ) (buckets : List Bucket)
      → (find (is_of key) buckets ≡ none)
        ⊎ ((b : Bucket) × (find (is_of key) buckets ≡ some b) × (b.reset_at ≤ now))
      → ((limit window_ms max_requests key now buckets).0 ≡ leb 1 max_requests)
        × (find (is_of key) (limit window_ms max_requests key now buckets).1
            ≡ some (record { key = key; count = 1; reset_at = now + window_ms }))
  unfolding limit
  limit-start now buckets over =
      let begun : Bucket = record { key = key; count = 1; reset_at = now + window_ms } in
      (
        elim over [ inl new ↦ ground arith | inr (b, found, past) ↦ ground arith ],
        elim over [
          | inl new ↦ ground (arith, set-find key begun buckets)
          | inr (b, found, past) ↦ ground (arith, set-find key begun buckets)
        ],
      )

  -- Of the requests of a client from the one that starts a window to the window's end, at most
  -- `max_requests` go on.
  pub window-le :
      (now : ℕ) (later : List ℕ) (buckets : List Bucket)
      → (find (is_of key) buckets ≡ none)
        ⊎ ((b : Bucket) × (find (is_of key) buckets ≡ some b) × (b.reset_at ≤ now))
      → All (λ t. t < now + window_ms) later
      → (admitted window_ms max_requests key (now ∷ later) buckets).0 ≤ max_requests
  unfolding admitted
  window-le now later buckets over inside =
      let begun : Bucket = record { key = key; count = 1; reset_at = now + window_ms } in
      ground (
        arith,
        (limit-start now buckets over).0,
        admitted-le later (limit window_ms max_requests key now buckets).1 begun
            (limit-start now buckets over).1 inside,
      )
