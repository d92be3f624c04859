-- ===== src/Common/Every.antt =====
-- What holds of all of a list.
use Prim.Native.Nat.{ℕ, zero, suc}
use mathlib.Core.Bool.{Bool}
use mathlib.Core.List.{List, [], ◌∷◌, ◌++◌, map}
use mailbridge_mcp.Common.Tests.{if-elim}
use mailbridge_mcp.Common.Tables.{All, select}
use mailbridge_mcp.Common.Slices.{take}

module _ {A : Type 0} where
  pub All-mono : {P Q : A → Type 0} (f : (x : A) → P x → Q x) (xs : List A) → All P xs → All Q xs
  All-mono f [] ps = tt
  All-mono f (x ∷ xs) (p, ps) = (f x p, All-mono f xs ps)

  module _ (P : A → Type 0) where
    pub All-append : (xs ys : List A) → All P xs → All P ys → All P (xs ++ ys)
    All-append [] ys p q = q
    All-append (x ∷ xs) ys (p, ps) q = (p, All-append xs ys ps q)

    pub All-take : (n : ℕ) (xs : List A) → All P xs → All P (take n xs)
    All-take zero xs h = tt
    All-take (suc n) [] h = tt
    All-take (suc n) (x ∷ xs) (a, h) = (a, All-take n xs h)

    pub All-select : (p : A → Bool) (xs : List A) → All P xs → All P (select p xs)
    unfolding select
    All-select p [] ps = tt
    All-select p (x ∷ xs) (a, ps) =
        if-elim (All P) (p x) (λ _. (a, All-select p xs ps)) (λ _. All-select p xs ps)

pub All-map :
    {A B : Type 0} (P : B → Type 0) (f : A → B) (xs : List A)
    → All (λ a. P (f a)) xs
    → All P (map f xs)
All-map P f [] ps = tt
All-map P f (x ∷ xs) (p, ps) = (p, All-map P f xs ps)

pub All-every : {A : Type 0} (P : A → Type 0) (xs : List A) → ((x : A) → P x) → All P xs
All-every P [] f = tt
All-every P (x ∷ xs) f = (f x, All-every P xs f)
