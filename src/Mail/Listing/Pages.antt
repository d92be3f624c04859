-- ===== src/Mail/Listing/Pages.antt =====
-- Lists that a page is cut from.
use mathlib.Core.Bool.{Bool, true, false}
use mathlib.Core.Logic.{◌≢◌, inl, inr}
use mathlib.Core.Path.{◌≡◌, refl, ap}
use mathlib.Core.List.{List, [], ◌∷◌, ◌++◌, map}
use mathlib.Core.Option.{none, some}
use native.Mathlib.Omega.{arith}
use Prim.Native.Nat.{ℕ, zero, suc, ◌≤◌, ◌<◌}
use mailbridge_mcp.Common.Tests.{ltb, if-elim, Option-cases}
use mailbridge_mcp.Common.Tables.{length, select, any}
use mailbridge_mcp.Common.Every.{All-take, All-select}
use mailbridge_mcp.Common.Slices.{take, drop}
use mailbridge_mcp.Common.Sorting.Numbers.{Distinct, IsFalling}
use mailbridge_mcp.Common.Sorting.Below.{last}

module _ {A : Type 0} where
  pub take-take : (n m : ℕ) (xs : List A) → n ≤ m → take n (take m xs) ≡ take n xs
  take-take zero m xs h = refl
  take-take (suc n) zero xs h = absurd (omega (arith, h))
  take-take (suc n) (suc m) [] h = refl
  take-take (suc n) (suc m) (x ∷ xs) h = ap (◌∷◌ x) (take-take n m xs (omega (arith, h)))

  pub longer-take : (n : ℕ) (xs : List A) → ltb n (length (take (suc n) xs)) ≡ ltb n (length xs)
  longer-take n [] = ground arith
  longer-take zero (x ∷ xs) = ground arith
  longer-take (suc n) (x ∷ xs) = ground (arith, longer-take n xs)

  pub select-every : (p : A → Bool) (xs : List A) → ((x : A) → p x ≡ true) → select p xs ≡ xs
  unfolding select
  select-every p [] h = refl
  select-every p (x ∷ xs) h = ground (arith, h x, select-every p xs h)

module _ {A B : Type 0} (f : A → B) where
  pub take-map : (n : ℕ) (xs : List A) → take n (map f xs) ≡ map f (take n xs)
  take-map zero xs = refl
  take-map (suc n) [] = refl
  take-map (suc n) (x ∷ xs) = ap (◌∷◌ (f x)) (take-map n xs)

  last-map-none : (xs : List A) → last xs ≡ none → last (map f xs) ≡ none
  last-map-none [] e = refl
  last-map-none (y ∷ ys) e = elim (Option-cases (last ys)) [
    | inl n ↦ ground (arith, e, n)
    | inr (z, found) ↦ ground (arith, e, found)
  ]

  pub map-take-drop : (n : ℕ) (xs : List A) → map f (take n xs) ++ map f (drop n xs) ≡ map f xs
  map-take-drop zero xs = refl
  map-take-drop (suc n) [] = refl
  map-take-drop (suc n) (x ∷ xs) = ap (◌∷◌ (f x)) (map-take-drop n xs)

  pub last-map : (xs : List A) (x : A) → last xs ≡ some x → last (map f xs) ≡ some (f x)
  last-map [] x e = ground (arith, e)
  last-map (y ∷ ys) x e = elim (Option-cases (last ys)) [
    | inl n ↦ ground (arith, e, n, last-map-none ys)
    | inr (z, found) ↦ ground (arith, e, found, last-map ys z found)
  ]

  pub length-map : (xs : List A) → length (map f xs) ≡ length xs
  length-map [] = refl
  length-map (x ∷ xs) = ap suc (length-map xs)

  pub any-map_none :
      (p : B → Bool) (xs : List A) → ((x : A) → p (f x) ≡ false) → any p (map f xs) ≡ false
  unfolding any
  any-map_none p [] h = refl
  any-map_none p (x ∷ xs) h = ground (arith, h x, any-map_none p xs h)

pub map-map :
    {A B C : Type 0} (g : B → C) (f : A → B) (xs : List A)
    → map g (map f xs) ≡ map (λ x. g (f x)) xs
map-map g f [] = refl
map-map g f (x ∷ xs) = ap (◌∷◌ (g (f x))) (map-map g f xs)

pub take-IsFalling : (n : ℕ) (xs : List ℕ) → IsFalling xs → IsFalling (take n xs)
take-IsFalling zero xs h = tt
take-IsFalling (suc n) [] h = tt
take-IsFalling (suc n) (x ∷ xs) (b, h) = (All-take (λ y. y < x) n xs b, take-IsFalling n xs h)

pub select-Distinct : (p : ℕ → Bool) (xs : List ℕ) → Distinct xs → Distinct (select p xs)
unfolding select
select-Distinct p [] d = tt
select-Distinct p (x ∷ xs) (ne, d) =
    if-elim Distinct (p x) (λ _. (All-select (λ y. x ≢ y) p xs ne, select-Distinct p xs d))
      (λ _. select-Distinct p xs d)

pub last-some :
    (n : ℕ) (xs : List ℕ) → 0 < n → n < length xs → (x : ℕ) × (last (take n xs) ≡ some x)
last-some zero xs h k = absurd (omega (arith, h))
last-some (suc n) [] h k = absurd (omega (arith, k))
last-some (suc n) (x ∷ xs) h k = elim (Option-cases (last (take n xs))) [
  | inl e ↦ (x, ground (arith, e))
  | inr (y, e) ↦ (y, ground (arith, e))
]
