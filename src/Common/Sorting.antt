-- ===== src/Common/Sorting.antt =====
-- `sort`, which keeps the order of what the comparison does not part. `before a b` says that the
-- comparison of a with b is negative.
pub mod Numbers
pub mod Below
use mathlib.Core.Bool.{Bool}
use mathlib.Core.List.{List, [], ◌∷◌, map}
use mathlib.Core.Path.{◌≡◌, refl, ap, ◌∙◌}
use native.Mathlib.Omega.{arith}
use mailbridge_mcp.Common.Tests.{if◌then◌else◌, if-elim, ltb}
use mailbridge_mcp.Common.Tables.{All, length}
use mailbridge_mcp.Common.Every.{All-mono, All-take}
use Prim.Native.Nat.{ℕ, zero, suc, ◌≤◌}
use mailbridge_mcp.Common.Slices.{take}

module _ {A : Type 0} (before : A → A → Bool) where
  unfoldable pub insert_by : A → List A → List A
  insert_by x [] = x ∷ []
  insert_by x (y ∷ ys) = if before y x then y ∷ insert_by x ys else x ∷ y ∷ ys

  unfoldable pub sort_by : List A → List A
  unfolding insert_by
  sort_by [] = []
  sort_by (x ∷ xs) = insert_by x (sort_by xs)

  pub All-insert_by :
      (P : A → Type 0) (x : A) (xs : List A) → P x → All P xs → All P (insert_by x xs)
  unfolding insert_by
  All-insert_by P x [] p ps = (p, tt)
  All-insert_by P x (y ∷ ys) p (q, qs) =
      if-elim (All P) (before y x) (λ _. (q, All-insert_by P x ys p qs)) (λ _. (p, (q, qs)))

  -- What holds of all of a list holds of all of it when it is sorted.
  pub All-sort_by : (P : A → Type 0) (xs : List A) → All P xs → All P (sort_by xs)
  unfolding sort_by
  All-sort_by P [] ps = tt
  All-sort_by P (x ∷ xs) (p, ps) = All-insert_by P x (sort_by xs) p (All-sort_by P xs ps)

  length-insert_by : (x : A) (xs : List A) → length (insert_by x xs) ≡ suc (length xs)
  unfolding insert_by
  length-insert_by x [] = refl
  length-insert_by x (y ∷ ys) = ground (arith, length-insert_by x ys)

  pub length-sort_by : (xs : List A) → length (sort_by xs) ≡ length xs
  unfolding sort_by
  length-sort_by [] = refl
  length-sort_by (x ∷ xs) = length-insert_by x (sort_by xs) ∙ ap suc (length-sort_by xs)

-- The first of all is the one with the greatest key.
abbrev pub IsLatestFirst : {A : Type 0} → (A → ℕ) → List A → Type 0
IsLatestFirst key [] = Unit
IsLatestFirst key (x ∷ xs) = All (λ y. key y ≤ key x) xs × IsLatestFirst key xs

module _ {A : Type 0} (key : A → ℕ) where
  abbrev later : A → A → Bool
  later a b = ltb (key b) (key a)

  insert_by-IsLatestFirst :
      (x : A) (xs : List A) → IsLatestFirst key xs → IsLatestFirst key (insert_by later x xs)
  unfolding insert_by
  insert_by-IsLatestFirst x [] f = (tt, tt)
  insert_by-IsLatestFirst x (y ∷ ys) (b, f) =
      if-elim (IsLatestFirst key) (later y x)
        (λ h. (
          All-insert_by later (λ z. key z ≤ key y) x ys (ground (arith, h)) b,
          insert_by-IsLatestFirst x ys f,
        ))
        (λ h.
          let least : key y ≤ key x = ground (arith, h) in
          ((least, All-mono (λ z below_y. omega (arith, least, below_y)) ys b), (b, f)))

  -- Sorting by a key puts the greatest first.
  pub sort_by-IsLatestFirst : (xs : List A) → IsLatestFirst key (sort_by later xs)
  unfolding sort_by
  sort_by-IsLatestFirst [] = tt
  sort_by-IsLatestFirst (x ∷ xs) =
      insert_by-IsLatestFirst x (sort_by later xs) (sort_by-IsLatestFirst xs)

  pub take-IsLatestFirst :
      (n : ℕ) (xs : List A) → IsLatestFirst key xs → IsLatestFirst key (take n xs)
  take-IsLatestFirst zero xs h = tt
  take-IsLatestFirst (suc n) [] h = tt
  take-IsLatestFirst (suc n) (x ∷ xs) (b, h) =
      (All-take (λ y. key y ≤ key x) n xs b, take-IsLatestFirst n xs h)

-- Sorting commutes with a map that keeps the comparison.
module _ {A B : Type 0} (before_a : A → A → Bool) (before_b : B → B → Bool) (f : A → B)
    (same : (x y : A) → before_b (f x) (f y) ≡ before_a x y) where
  insert_by-map :
      (x : A) (xs : List A) → insert_by before_b (f x) (map f xs) ≡ map f (insert_by before_a x xs)
  unfolding insert_by
  insert_by-map x [] = refl
  insert_by-map x (y ∷ ys) = ground (arith, same y x, insert_by-map x ys)

  pub sort_by-map : (xs : List A) → sort_by before_b (map f xs) ≡ map f (sort_by before_a xs)
  unfolding sort_by
  sort_by-map [] = refl
  sort_by-map (x ∷ xs) =
      ap (insert_by before_b (f x)) (sort_by-map xs) ∙ insert_by-map x (sort_by before_a xs)
