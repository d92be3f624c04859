-- ===== src/Send/Authorised/Handover.antt =====
-- What a method has gone through before it hands a message to the transport.
use mathlib.Core.Path.{subst}
use mailbridge_mcp.Common.{
  pure, ◌≡◌, ◌≢◌, refl, Bool, true, false, Result, ok, err, Exec, throw_if, continue, ◌>>=◌,
}
use mailbridge_mcp.Domain.Errors.{Error}
use mailbridge_mcp.Store.Rows.{Db}
use mailbridge_mcp.Send.Service.{World, on_db}

-- The method has handed a message to the transport.
abbrev pub Sends : {A : Type 0} → World → Result A × World → Type 0
Sends w r = r.1.submissions ≢ w.submissions

module _ {A B : Type 0} (w : World) where
  pub continue-Sends :
      (r : Result A) (v : World) (f : A → Exec World B)
      → v.submissions ≡ w.submissions
      → Sends w (continue r f v)
      → (a : A) × (r ≡ ok a) × Sends w (f a v)
  continue-Sends (ok a) v f same sends = (a, refl, sends)
  continue-Sends (err e) v f same sends = absurd (sends same)

  -- A call of the store before the message has returned.
  pub on_db-Sends :
      (m : Exec Db A) (f : A → Exec World B)
      → Sends w ((on_db m >>= f) w)
      → (a : A) × ((m w.db).0 ≡ ok a) × Sends w (f a (record w { db = (m w.db).1 }))
  on_db-Sends m f sends = continue-Sends (m w.db).0 (record w { db = (m w.db).1 }) f refl sends

  -- A call before the message that only reads the store has returned.
  pub reads-Sends :
      (m : Exec Db A) (f : A → Exec World B)
      → ((db : Db) → (m db).1 ≡ db)
      → Sends w ((on_db m >>= f) w)
      → (a : A) × ((m w.db).0 ≡ ok a) × Sends w (f a w)
  reads-Sends m f reads sends =
      let (a, returned, later) = on_db-Sends m f sends in
      (a, returned, subst (λ db. Sends w (f a (record w { db = db }))) (reads w.db) later)

pub continue-pure :
    {A B : Type 0} (r : Result A) (g : A → B) (v : World) → (continue r (λ a. pure (g a)) v).1 ≡ v
continue-pure (ok a) g v = refl
continue-pure (err e) g v = refl

module _ {B : Type 0} (w : World) where
  -- A guard before the message has passed.
  pub throw_if-Sends :
      (b : Bool) (e : Error) (f : Unit {0} → Exec World B)
      → Sends w ((throw_if b e >>= f) w)
      → (b ≡ false) × Sends w (f tt w)
  throw_if-Sends true e f sends = absurd (sends refl)
  throw_if-Sends false e f sends = (refl, sends)
