-- ===== src/Common/Tables.antt =====
-- A table of the database is the list of its rows in the order of insertion; the functions below
-- are what the WHERE clauses of the statements do to it.
use Prim.Native.Nat.{ℕ, suc, ◌+◌}
use mathlib.Core.Path.{◌≡◌, refl}
use mathlib.Core.Logic.{inl, inr}
use mathlib.Core.Bool.{Bool, true, false}
use mathlib.Core.Option
use mathlib.Core.Option.{Option, none, some}
use mathlib.Core.List.{List, [], ◌∷◌, ◌++◌}
use native.Mathlib.Omega.{arith}
use mailbridge_mcp.Common.Tests.{if◌then◌else◌, Bool-cases}

module _ {ℓ} {A : Type ℓ} where
  abbrev pub length : List A → ℕ
  length [] = 0
  length (x ∷ xs) = suc (length xs)

  -- SELECT ... WHERE p, the first row.
  unfoldable pub find : (A → Bool) → List A → Option A
  find p [] = none
  find p (x ∷ xs) = if p x then some x else find p xs

  -- UPDATE ... SET f WHERE p.
  unfoldable pub update_where : (A → Bool) → (A → A) → List A → List A
  update_where p f [] = []
  update_where p f (x ∷ xs) = (if p x then f x else x) ∷ update_where p f xs

  -- DELETE ... WHERE p.
  unfoldable pub delete_where : (A → Bool) → List A → List A
  delete_where p [] = []
  delete_where p (x ∷ xs) = if p x then delete_where p xs else x ∷ delete_where p xs

  -- The rows that WHERE p selects, and their number.
  unfoldable pub select : (A → Bool) → List A → List A
  select p [] = []
  select p (x ∷ xs) = if p x then x ∷ select p xs else select p xs

  unfoldable pub count_where : (A → Bool) → List A → ℕ
  count_where p [] = 0
  count_where p (x ∷ xs) = (if p x then 1 else 0) + count_where p xs

  unfoldable pub any : (A → Bool) → List A → Bool
  any p [] = false
  any p (x ∷ xs) = if p x then true else any p xs

  abbrev pub All {κ} : (A → Type κ) → List A → Type κ
  All P [] = Unit
  All P (x ∷ xs) = P x × All P xs

  pub length-append : (xs ys : List A) → length (xs ++ ys) ≡ length xs + length ys
  length-append [] ys = omega arith
  length-append (x ∷ xs) ys = omega (arith, length-append xs ys)

  abbrev pub or_else : Option A → Option A → Option A
  or_else none b = b
  or_else (some a) b = some a

  pub find-append :
      (p : A → Bool) (xs ys : List A) → find p (xs ++ ys) ≡ or_else (find p xs) (find p ys)
  unfolding find
  find-append p [] ys = refl
  find-append p (x ∷ xs) ys = ground (arith, find-append p xs ys)

  -- A row that is found passes the test.
  pub find-holds : (p : A → Bool) (xs : List A) (a : A) → find p xs ≡ some a → p a ≡ true
  unfolding find
  find-holds p [] a h = cc
  find-holds p (x ∷ xs) a h = ground (arith, find-holds p xs a)

  -- A row that is found after a deletion was not deleted.
  pub find-delete_where_kept :
      (p q : A → Bool) (xs : List A) (a : A) → find p (delete_where q xs) ≡ some a → q a ≡ false
  unfolding find delete_where
  find-delete_where_kept p q [] a h = cc
  find-delete_where_kept p q (x ∷ xs) a h = ground (arith, find-delete_where_kept p q xs a)

  pub find-none-any : (p : A → Bool) (xs : List A) → find p xs ≡ none → any p xs ≡ false
  unfolding find any
  find-none-any p [] h = refl
  find-none-any p (x ∷ xs) h = ground (arith, find-none-any p xs)

  pub find-some-any : (p : A → Bool) (xs : List A) (a : A) → find p xs ≡ some a → any p xs ≡ true
  unfolding find any
  find-some-any p [] a h = cc
  find-some-any p (x ∷ xs) a h = ground (arith, find-some-any p xs a)

module _ {ℓ} {A : Type ℓ} where
  -- What an update does to a row that it may or may not select.
  abbrev pub touched : (A → Bool) → (A → A) → A → A
  touched p f x = if p x then f x else x

  -- An update that leaves the columns of the search alone updates the row that is found.
  pub find-update_where :
      (p q : A → Bool) (f : A → A) (xs : List A)
      → ((x : A) → p (f x) ≡ p x)
      → find p (update_where q f xs) ≡ Option.map (touched q f) (find p xs)
  unfolding find update_where
  find-update_where p q f [] h = refl
  find-update_where p q f (x ∷ xs) h = ground (arith, h x, find-update_where p q f xs h)

  -- A deletion that takes every row of the search leaves none to find.
  pub find-delete_where-none :
      (p q : A → Bool) (xs : List A)
      → ((x : A) → p x ≡ true → q x ≡ true)
      → find p (delete_where q xs) ≡ none
  unfolding find delete_where
  find-delete_where-none p q [] h = refl
  find-delete_where-none p q (x ∷ xs) h = ground (arith, h x, find-delete_where-none p q xs h)

  -- A deletion that takes no row of the search changes nothing for it.
  pub find-delete_where :
      (p q : A → Bool) (xs : List A)
      → ((x : A) → p x ≡ true → q x ≡ false)
      → find p (delete_where q xs) ≡ find p xs
  unfolding find delete_where
  find-delete_where p q [] h = refl
  find-delete_where p q (x ∷ xs) h = ground (arith, h x, find-delete_where p q xs h)

  -- The rows of a search are the same after an update of other rows.
  pub select-update_where :
      (p q : A → Bool) (f : A → A) (xs : List A)
      → ((x : A) → p (f x) ≡ p x)
      → ((x : A) → q x ≡ true → p x ≡ false)
      → select p (update_where q f xs) ≡ select p xs
  unfolding select update_where
  select-update_where p q f [] h k = refl
  select-update_where p q f (x ∷ xs) h k =
      ground (arith, h x, k x, select-update_where p q f xs h k)

  pub select-delete_where :
      (p q : A → Bool) (xs : List A)
      → ((x : A) → q x ≡ true → p x ≡ false)
      → select p (delete_where q xs) ≡ select p xs
  unfolding select delete_where
  select-delete_where p q [] k = refl
  select-delete_where p q (x ∷ xs) k = ground (arith, k x, select-delete_where p q xs k)

  pub select-append :
      (p : A → Bool) (xs ys : List A) → select p (xs ++ ys) ≡ select p xs ++ select p ys
  unfolding select
  select-append p [] ys = refl
  select-append p (x ∷ xs) ys = ground (arith, select-append p xs ys)

  pub count_where-append :
      (p : A → Bool) (xs ys : List A)
      → count_where p (xs ++ ys) ≡ count_where p xs + count_where p ys
  unfolding count_where
  count_where-append p [] ys = omega arith
  count_where-append p (x ∷ xs) ys = omega (arith, count_where-append p xs ys)

  pub count_where-snoc :
      (p : A → Bool) (xs : List A) (x : A)
      → count_where p (xs ++ x ∷ []) ≡ count_where p xs + (if p x then 1 else 0)
  unfolding count_where
  count_where-snoc p xs x = omega (arith, count_where-append p xs (x ∷ []))

  -- A row that a deletion would take is not left by it.
  pub any-delete_where :
      (p q : A → Bool) (xs : List A)
      → ((x : A) → p x ≡ true → q x ≡ true)
      → any p (delete_where q xs) ≡ false
  unfolding any delete_where
  any-delete_where p q [] k = refl
  any-delete_where p q (x ∷ xs) k = ground (arith, k x, any-delete_where p q xs k)

  pub any-select :
      (p q : A → Bool) (xs : List A)
      → any p (select q xs) ≡ true
      → (x : A) × (p x ≡ true) × (q x ≡ true)
  unfolding any select
  any-select p q [] h = ground arith
  any-select p q (x ∷ xs) h = elim (Bool-cases (q x)) [
    | inr kept ↦ any-select p q xs (ground (arith, kept, h))
    | inl taken ↦ elim (Bool-cases (p x)) [
      | inl here ↦ (x, here, taken)
      | inr there ↦ any-select p q xs (ground (arith, taken, there, h))
    ]
  ]

  pub find-some-any-select :
      (p : A → Bool) (xs : List A) (a : A) → find p xs ≡ some a → any p (select p xs) ≡ true
  unfolding any select find
  find-some-any-select p [] a h = ground arith
  find-some-any-select p (x ∷ xs) a h = ground (arith, find-some-any-select p xs a)
