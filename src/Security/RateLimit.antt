-- ===== src/Security/RateLimit.antt =====
-- src/security/rateLimit.ts: fixed windows per client.
pub mod Window
use mailbridge_mcp.Common.{
  ℕ, suc, ◌+◌, String, Bool, Option, none, some, List, [], ◌∷◌, ◌++◌, str_eq, leb, find, any,
  update_where, if◌then◌else◌,
}

pub record Bucket : Type 0 where
  pub key : String
  pub count : ℕ
  pub reset_at : ℕ

abbrev pub is_of : String → Bucket → Bool
is_of key bucket = str_eq bucket.key key

-- A client that is new, or whose window is over, starts a window.
abbrev pub fresh_or : ℕ → String → ℕ → Option Bucket → Bucket
fresh_or window_ms key now none = record { key = key; count = 0; reset_at = now + window_ms }
fresh_or window_ms key now (some bucket) =
    if leb bucket.reset_at now
    then record { key = key; count = 0; reset_at = now + window_ms }
    else bucket

-- `buckets.set(key, bucket)`
unfoldable pub set : String → Bucket → List Bucket → List Bucket
unfolding any update_where
set key bucket buckets =
    if any (is_of key) buckets
    then update_where (is_of key) (λ _. bucket) buckets
    else buckets ++ bucket ∷ []

-- One request: whether it goes on to the next handler, and the buckets after it.
unfoldable pub limit : ℕ → ℕ → String → ℕ → List Bucket → Bool × List Bucket
unfolding set find
limit window_ms max_requests key now buckets =
    let current = fresh_or window_ms key now (find (is_of key) buckets) in
    let bucket = record current { count = suc current.count } in
    (leb bucket.count max_requests, set key bucket buckets)

-- The requests of one client, in their order: how many go on.
unfoldable pub admitted : ℕ → ℕ → String → List ℕ → List Bucket → ℕ × List Bucket
unfolding limit
admitted window_ms max_requests key [] buckets = (0, buckets)
admitted window_ms max_requests key (now ∷ later) buckets =
    let (passed, buckets') = limit window_ms max_requests key now buckets in
    let (n, buckets″) = admitted window_ms max_requests key later buckets' in
    ((if passed then 1 else 0) + n, buckets″)
