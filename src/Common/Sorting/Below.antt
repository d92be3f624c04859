-- ===== src/Common/Sorting/Below.antt =====
-- What is left of falling numbers below the last of a first part.
use Prim.Native.Nat.{ℕ, zero, suc, ◌≤◌, ◌<◌}
use mathlib.Core.Path.{◌≡◌, refl}
use mathlib.Core.Logic.{inl, inr}
use mathlib.Core.Option.{Option, none, some}
use mathlib.Core.List.{List, [], ◌∷◌}
use native.Mathlib.Omega.{arith}
use mailbridge_mcp.Common.Tests.{if-elim, Option-cases}
use mailbridge_mcp.Common.Tables.{All, select, or_else}
use mailbridge_mcp.Common.Every.{All-select}
use mailbridge_mcp.Common.Slices.{take, drop}
use mailbridge_mcp.Common.Sorting.Numbers.{below, IsFalling}

-- `xs.at(-1)`
abbrev pub last {ℓ} : {A : Type ℓ} → List A → Option A
last [] = none
last (x ∷ xs) = or_else (last xs) (some x)

pub select-below-lt : (bound : ℕ) (xs : List ℕ) → All (λ y. y < bound) (select (below bound) xs)
unfolding select
select-below-lt bound [] = tt
select-below-lt bound (x ∷ xs) =
    if-elim (All (λ y. y < bound)) (below bound x)
      (λ h. (ground (arith, h), select-below-lt bound xs)) (λ _. select-below-lt bound xs)

pub select-below-IsFalling :
    (bound : ℕ) (xs : List ℕ) → IsFalling xs → IsFalling (select (below bound) xs)
unfolding select
select-below-IsFalling bound [] f = tt
select-below-IsFalling bound (x ∷ xs) (b, f) =
    if-elim IsFalling (below bound x)
      (λ _. (All-select (λ y. y < x) (below bound) xs b, select-below-IsFalling bound xs f))
      (λ _. select-below-IsFalling bound xs f)

select-below_every :
    (bound : ℕ) (xs : List ℕ) → All (λ y. y < bound) xs → select (below bound) xs ≡ xs
unfolding select
select-below_every bound [] h = refl
select-below_every bound (x ∷ xs) (a, h) = ground (arith, a, select-below_every bound xs h)

pub select-below_twice :
    (low high : ℕ) (xs : List ℕ)
    → low ≤ high
    → select (below low) (select (below high) xs) ≡ select (below low) xs
unfolding select
select-below_twice low high [] h = refl
select-below_twice low high (x ∷ xs) h = ground (arith, h, select-below_twice low high xs h)

pub last-take-lt :
    (bound n : ℕ) (xs : List ℕ) (x : ℕ)
    → All (λ y. y < bound) xs
    → last (take n xs) ≡ some x
    → x < bound
last-take-lt bound zero xs x h e = ground (arith, e)
last-take-lt bound (suc n) [] x h e = ground (arith, e)
last-take-lt bound (suc n) (y ∷ ys) x (a, h) e = elim (Option-cases (last (take n ys))) [
  | inl none_left ↦ ground (arith, e, a, none_left)
  | inr (z, found) ↦ ground (arith, e, found, last-take-lt bound n ys z h found)
]

last-take-none : {A : Type 0} (n : ℕ) (xs : List A) → last (take n xs) ≡ none → drop n xs ≡ xs
last-take-none zero xs e = refl
last-take-none (suc n) [] e = refl
last-take-none (suc n) (x ∷ xs) e = elim (Option-cases (last (take n xs))) [
  | inl none_left ↦ ground (arith, e, none_left)
  | inr (z, found) ↦ ground (arith, e, found)
]

-- Below the last of the first numbers are those after them.
pub select-below-last :
    (n : ℕ) (xs : List ℕ) (x : ℕ)
    → IsFalling xs
    → last (take n xs) ≡ some x
    → select (below x) xs ≡ drop n xs
unfolding select
select-below-last zero xs x f e = ground (arith, e)
select-below-last (suc n) [] x f e = refl
select-below-last (suc n) (y ∷ ys) x (b, f) e = elim (Option-cases (last (take n ys))) [
  | inl none_left ↦
      let same : y ≡ x = ground (arith, e, none_left) in
      ground (arith, same, select-below_every y ys b, last-take-none n ys none_left)
  | inr (z, found) ↦
      ground (arith, e, found, last-take-lt y n ys z b found, select-below-last n ys z f found)
]
