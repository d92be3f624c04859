-- ===== src/Common/Effects.antt =====
-- Methods that change an object and may throw. What was written before a throw stays written, so
-- the state comes back beside an error too; `transaction` is what restores it.
use native.Mathlib.Omega.{arith}
use mathlib.Core.Path.{◌≡◌, refl, ap}
use mathlib.Core.Logic.{◌⊎◌, inl, inr}
use mathlib.Core.Bool.{Bool, true, false}
use mathlib.Core.Option.{Option, none, some}
use mailbridge_mcp.Domain.Errors.{Error}

pub data Result {ℓ} (A : Type ℓ) : Type ℓ where
  ok : A → Result A
  err : Error → Result A

pub Result-cases {ℓ} :
    {A : Type ℓ} (r : Result A) → ((a : A) × (r ≡ ok a)) ⊎ ((e : Error) × (r ≡ err e))
Result-cases (ok a) = inl (a, refl)
Result-cases (err e) = inr (e, refl)

abbrev pub Exec : Type 0 → Type 0 → Type 0
Exec S A = S → Result A × S

module _ {S A : Type 0} where
  abbrev pub pure : A → Exec S A
  pure a s = (ok a, s)

  abbrev pub throw : Error → Exec S A
  throw e s = (err e, s)

  abbrev pub lift : Result A → Exec S A
  lift r s = (r, s)

  abbrev pub gets : (S → A) → Exec S A
  gets f s = (ok (f s), s)

module _ {S : Type 0} where
  abbrev pub modify : (S → S) → Exec S (Unit {0})
  modify f s = (ok tt, f s)

  -- `if (b) throw e;`
  abbrev pub throw_if : Bool → Error → Exec S (Unit {0})
  throw_if true e s = (err e, s)
  throw_if false e s = (ok tt, s)

module _ {S A B : Type 0} where
  abbrev pub continue : Result A → (A → Exec S B) → Exec S B
  continue (ok a) f s = f a s
  continue (err e) f s = (err e, s)

  infixl 5 ◌>>=◌ ◌>>◌
  abbrev pub ◌>>=◌ : Exec S A → (A → Exec S B) → Exec S B
  ◌>>=◌ m f s = let (r, s') = m s in continue r f s'

  abbrev pub ◌>>◌ : Exec S A → Exec S B → Exec S B
  m >> n = m >>= λ _. n

module _ {S A : Type 0} where
  -- `const row = ...; if (!row) throw e;`
  abbrev pub or_throw : Option A → Error → Exec S A
  or_throw none e s = (err e, s)
  or_throw (some a) e s = (ok a, s)

  -- BEGIN IMMEDIATE, the operation, and COMMIT; or ROLLBACK and the error again.
  abbrev pub settle_transaction : S → Result A × S → Result A × S
  settle_transaction s (ok a, t) = (ok a, t)
  settle_transaction s (err e, t) = (err e, s)

  unfoldable pub transaction : Exec S A → Exec S A
  transaction operation s = settle_transaction s (operation s)

-- A chain that returns has a first step that returns, and a rest that returns from there.
module _ {S A B : Type 0} where
  abbrev settled : Result A × S → (A → Exec S B) → Result B × S
  settled (r, s) f = continue r f s

  settled-ok :
      (answer : Result A × S) (f : A → Exec S B) (b : B) (t : S)
      → settled answer f ≡ (ok b, t)
      → (a : A) × (u : S) × (answer ≡ (ok a, u)) × (f a u ≡ (ok b, t))
  settled-ok (ok a, u) f b t h = (a, u, refl, h)
  settled-ok (err e, u) f b t h = ground (arith, h)

  pub bind-ok :
      (m : Exec S A) (f : A → Exec S B) (s : S) {b : B} {t : S}
      → (m >>= f) s ≡ (ok b, t)
      → (a : A) × (u : S) × (m s ≡ (ok a, u)) × (f a u ≡ (ok b, t))
  bind-ok m f s {b} {t} h = settled-ok (m s) f b t h

module _ {S : Type 0} where
  -- A guard that lets pass changes nothing.
  pub throw_if-ok :
      (b : Bool) (e : Error) (s u : S) (a : Unit {0}) → throw_if b e s ≡ (ok a, u) → s ≡ u
  throw_if-ok true e s u a h = ground (arith, h)
  throw_if-ok false e s u a h = ap (λ (p : Result (Unit {0}) × S). p.1) h

  pub or_throw-ok :
      {A : Type 0} (o : Option A) (e : Error) (s u : S) (a : A)
      → or_throw o e s ≡ (ok a, u)
      → (o ≡ some a) × (s ≡ u)
  or_throw-ok {A} none e s u a h = ground (arith, h)
  or_throw-ok {A} (some x) e s u a h = (ground (arith, h), ap (λ (p : Result A × S). p.1) h)
