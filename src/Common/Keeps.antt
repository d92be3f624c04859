-- ===== src/Common/Keeps.antt =====
-- Invariants of methods: `m` keeps `P` whether it returns or throws. One rule for each way to
-- build a method.
use mathlib.Core.Path.{◌≡◌}
use mathlib.Core.Bool.{Bool, true, false}
use mathlib.Core.Option.{Option, none, some}
use mailbridge_mcp.Domain.Errors.{Error}
use mailbridge_mcp.Common.Effects.{
  Result, ok, err, Exec, throw_if, or_throw, continue, ◌>>=◌, settle_transaction, transaction,
}

abbrev pub Keeps : {S A : Type 0} → (S → Type 0) → Exec S A → Type 0
Keeps P m = (s : _) → P s → P (m s).1

module _ {S : Type 0} (P : S → Type 0) where
  continue-Keeps :
      {A B : Type 0} (r : Result A) (f : A → Exec S B)
      → ((a : A) → Keeps P (f a))
      → Keeps P (continue r f)
  continue-Keeps (ok a) f kf s p = kf a s p
  continue-Keeps (err e) f kf s p = p

  pub bind-Keeps :
      {A B : Type 0} (m : Exec S A) (f : A → Exec S B)
      → Keeps P m
      → ((a : A) → Keeps P (f a))
      → Keeps P (m >>= f)
  bind-Keeps m f km kf s p = continue-Keeps (m s).0 f kf (m s).1 (km s p)

  pub throw_if-Keeps : (b : Bool) (e : Error) → Keeps P (throw_if b e)
  throw_if-Keeps true e s p = p
  throw_if-Keeps false e s p = p

  pub or_throw-Keeps : {A : Type 0} (o : Option A) (e : Error) → Keeps P (or_throw o e)
  or_throw-Keeps none e s p = p
  or_throw-Keeps (some a) e s p = p

  -- A method that only reads.
  pub reads-Keeps : {A : Type 0} (m : Exec S A) → ((s : S) → (m s).1 ≡ s) → Keeps P m
  reads-Keeps m reads s p = rw (reads s) p

  settled-Keeps :
      {A : Type 0} (s : S) (r : Result A) (t : S) → P s → P t → P (settle_transaction s (r, t)).1
  settled-Keeps s (ok a) t p q = q
  settled-Keeps s (err e) t p q = p

  pub transaction-Keeps : {A : Type 0} (m : Exec S A) → Keeps P m → Keeps P (transaction m)
  unfolding transaction
  transaction-Keeps m km s p = settled-Keeps s (m s).0 (m s).1 p (km s p)
