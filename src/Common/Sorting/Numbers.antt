-- ===== src/Common/Sorting/Numbers.antt =====
-- Numbers from the greatest down and from the least up.
use Prim.Native.Nat.{ℕ, ◌<◌}
use mathlib.Core.Path.{◌≡◌, refl, sym, ap, ◌∙◌}
use mathlib.Core.Logic.{◌≢◌}
use mathlib.Core.Bool.{Bool}
use mathlib.Core.List.{List, [], ◌∷◌, ◌++◌, reverse, reverse-cons, foldr, Perm}
use mathlib.Core.List.Perm
use native.Mathlib.Omega.{arith}
use mailbridge_mcp.Common.Tests.{ltb, if◌then◌else◌, if-elim}
use mailbridge_mcp.Common.Every.{All-mono, All-append}
use mailbridge_mcp.Common.Tables.{All, select}
use mailbridge_mcp.Common.Sorting.{insert_by, sort_by, All-insert_by, All-sort_by}

abbrev pub greater : ℕ → ℕ → Bool
greater a b = ltb b a

abbrev pub down : List ℕ → List ℕ
down = sort_by greater

abbrev pub up : List ℕ → List ℕ
up = sort_by ltb

abbrev pub below : ℕ → ℕ → Bool
below bound x = ltb x bound

abbrev pub Distinct : List ℕ → Type 0
Distinct [] = Unit
Distinct (x ∷ xs) = All (λ y. x ≢ y) xs × Distinct xs

abbrev pub IsRising : List ℕ → Type 0
IsRising [] = Unit
IsRising (x ∷ xs) = All (λ y. x < y) xs × IsRising xs

abbrev pub IsFalling : List ℕ → Type 0
IsFalling [] = Unit
IsFalling (x ∷ xs) = All (λ y. y < x) xs × IsFalling xs

insert_down_comm :
    (x y : ℕ) (zs : List ℕ)
    → insert_by greater x (insert_by greater y zs) ≡ insert_by greater y (insert_by greater x zs)
unfolding insert_by
insert_down_comm x y [] = ground arith
insert_down_comm x y (z ∷ zs) = ground (arith, insert_down_comm x y zs)

All-reverse : (P : ℕ → Type 0) (xs : List ℕ) → All P xs → All P (reverse xs)
All-reverse P [] ps = tt
All-reverse P (x ∷ xs) (p, ps) =
    rw reverse-cons (All-append P (reverse xs) (x ∷ []) (All-reverse P xs ps) (p, tt))

insert_falls :
    (x : ℕ) (xs : List ℕ) → All (λ y. x ≢ y) xs → IsFalling xs → IsFalling (insert_by greater x xs)
unfolding insert_by
insert_falls x [] ne f = (tt, tt)
insert_falls x (y ∷ ys) (n, ne) (b, f) =
    if-elim IsFalling (ltb x y)
      (λ h. (All-insert_by greater (λ z. z < y) x ys (ground (arith, h)) b, insert_falls x ys ne f))
      (λ h.
        let lower : y < x = ground (arith, h, n) in
        ((lower, All-mono (λ z below_y. omega (arith, lower, below_y)) ys b), (b, f)))

-- Distinct numbers fall when they are sorted.
pub down-IsFalling : (xs : List ℕ) → Distinct xs → IsFalling (down xs)
unfolding sort_by
down-IsFalling [] d = tt
down-IsFalling (x ∷ xs) (ne, d) =
    insert_falls x (down xs) (All-sort_by greater (λ y. x ≢ y) xs ne) (down-IsFalling xs d)

insert_rises :
    (x : ℕ) (xs : List ℕ) → All (λ y. x ≢ y) xs → IsRising xs → IsRising (insert_by ltb x xs)
unfolding insert_by
insert_rises x [] ne f = (tt, tt)
insert_rises x (y ∷ ys) (n, ne) (b, f) =
    if-elim IsRising (ltb y x)
      (λ h. (All-insert_by ltb (λ z. y < z) x ys (ground (arith, h)) b, insert_rises x ys ne f))
      (λ h.
        let lower : x < y = ground (arith, h, n) in
        ((lower, All-mono (λ z above_y. omega (arith, lower, above_y)) ys b), (b, f)))

up-IsRising : (xs : List ℕ) → Distinct xs → IsRising (up xs)
unfolding sort_by
up-IsRising [] d = tt
up-IsRising (x ∷ xs) (ne, d) =
    insert_rises x (up xs) (All-sort_by ltb (λ y. x ≢ y) xs ne) (up-IsRising xs d)

insert_down_last :
    (x : ℕ) (zs : List ℕ) → All (λ z. x < z) zs → insert_by greater x zs ≡ zs ++ x ∷ []
unfolding insert_by
insert_down_last x [] h = refl
insert_down_last x (z ∷ zs) (a, h) = ground (arith, a, insert_down_last x zs h)

insert_down_append :
    (x y : ℕ) (zs : List ℕ)
    → y < x
    → insert_by greater x (zs ++ y ∷ []) ≡ insert_by greater x zs ++ y ∷ []
unfolding insert_by
insert_down_append x y [] h = ground (arith, h)
insert_down_append x y (z ∷ zs) h = ground (arith, insert_down_append x y zs h)

reverse-insert_up :
    (x : ℕ) (xs : List ℕ)
    → All (λ y. x ≢ y) xs
    → IsRising xs
    → reverse (insert_by ltb x xs) ≡ insert_by greater x (reverse xs)
unfolding insert_by
reverse-insert_up x [] ne r = refl
reverse-insert_up x (y ∷ ys) (n, ne) (b, r) = rw reverse-cons (
    if-elim (λ l. reverse l ≡ insert_by greater x (reverse ys ++ y ∷ [])) (ltb y x)
      (λ h.
        reverse-cons y (insert_by ltb x ys)
        ∙ (ap (λ l. l ++ y ∷ []) (reverse-insert_up x ys ne r)
            ∙ sym (insert_down_append x y (reverse ys) (ground (arith, h)))))
      (λ h.
        let lower : x < y = ground (arith, h, n) in
        reverse-cons x (y ∷ ys)
        ∙ (ap (λ l. l ++ x ∷ []) (reverse-cons y ys)
            ∙ sym (
                insert_down_last x (reverse ys ++ y ∷ []) (
                  All-append (λ z. x < z) (reverse ys) (y ∷ [])
                    (All-reverse (λ z. x < z) ys
                      (All-mono (λ z above_y. omega (arith, lower, above_y)) ys b))
                    (lower, tt))))))

-- Sorting up and reversing is sorting down, for distinct numbers.
pub reverse-up : (xs : List ℕ) → Distinct xs → reverse (up xs) ≡ down xs
unfolding sort_by
reverse-up [] d = refl
reverse-up (x ∷ xs) (ne, d) =
    reverse-insert_up x (up xs) (All-sort_by ltb (λ y. x ≢ y) xs ne) (up-IsRising xs d)
    ∙ ap (insert_by greater x) (reverse-up xs d)

-- Falling numbers are sorted.
pub down-sorted : (xs : List ℕ) → IsFalling xs → down xs ≡ xs
unfolding sort_by insert_by
down-sorted [] f = refl
down-sorted (x ∷ []) f = refl
down-sorted (x ∷ y ∷ ys) ((b, bs), f) =
    ap (insert_by greater x) (down-sorted (y ∷ ys) f) ∙ ground (arith, b)

select-insert_down :
    (bound x : ℕ) (xs : List ℕ)
    → select (below bound) (insert_by greater x xs) ≡ (
        if below bound x
        then insert_by greater x (select (below bound) xs)
        else select (below bound) xs)
unfolding select insert_by
select-insert_down bound x [] = ground arith
select-insert_down bound x (y ∷ ys) = ground (arith, select-insert_down bound x ys)

-- The numbers below a bound may be selected before or after sorting.
pub down-select :
    (bound : ℕ) (xs : List ℕ) → down (select (below bound) xs) ≡ select (below bound) (down xs)
unfolding sort_by select
down-select bound [] = refl
down-select bound (x ∷ xs) =
    ground (arith, select-insert_down bound x (down xs), down-select bound xs)

down-foldr : (xs : List ℕ) → down xs ≡ foldr (insert_by greater) [] xs
unfolding sort_by
down-foldr [] = refl
down-foldr (x ∷ xs) = ap (insert_by greater x) (down-foldr xs)

-- The order that numbers come in does not matter.
pub down-perm : {xs ys : List ℕ} → Perm xs ys → down xs ≡ down ys
down-perm {xs} {ys} p =
    down-foldr xs
    ∙ (Perm.foldr-eq {B = List ℕ} (hlevel) (insert_by greater) insert_down_comm p []
        ∙ sym (down-foldr ys))
