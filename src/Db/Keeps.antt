-- ===== src/Db/Keeps.antt =====
-- Invariants of actions, one rule for each way in which an action is built.
use aicti.Base.{Bool, true, false, Result, ok, err}
use aicti.Db.{Db}
use aicti.Db.Action.{Action, continue, ◌>>=◌, pure, raise, gets, require}

-- Whether it returns or raises, `m` keeps `P`.
pub record Keeps {E A : Type 0} (P : Db → Type 0) (m : Action E A) : Type 0 where
  pub at : (db : Db) → P db → P (m db).1

module _ {E A : Type 0} {P : Db → Type 0} where
  pub Keeps-pure : (a : A) → Keeps P (pure {E = E} a)
  Keeps-pure a = record { at = λ db h. h }

  pub Keeps-raise : (e : E) → Keeps P (raise {A = A} e)
  Keeps-raise e = record { at = λ db h. h }

  pub Keeps-gets : (f : Db → A) → Keeps P (gets {E = E} f)
  Keeps-gets f = record { at = λ db h. h }

module _ {E : Type 0} {P : Db → Type 0} where
  pub Keeps-require : (b : Bool) (e : E) → Keeps P (require b e)
  Keeps-require true e = record { at = λ db h. h }
  Keeps-require false e = record { at = λ db h. h }

module _ {E A B : Type 0} {P : Db → Type 0} where
  Keeps-continue :
      (f : A → Action E B)
      → ((a : A) → Keeps P (f a))
      → (r : Result E A) (db : Db) → P db
      → P (continue r f db).1
  Keeps-continue f kf (ok a) db h = (kf a).at db h
  Keeps-continue f kf (err e) db h = h

  pub Keeps-bind :
      (m : Action E A) (f : A → Action E B)
      → Keeps P m
      → ((a : A) → Keeps P (f a))
      → Keeps P (m >>= f)
  Keeps-bind m f km kf = record {
    at = λ db h. let (r, db') = m db in Keeps-continue f kf r db' (km.at db h);
  }

pub ruleset keeps_rules = (Keeps-pure, Keeps-raise, Keeps-gets, Keeps-require, Keeps-bind)
