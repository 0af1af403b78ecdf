-- ===== src/Db/Action.antt =====
-- A method that reads and writes the database and may raise. What was committed before a raise
-- stays, so the database comes back beside the exception too.
use aicti.Base.{ℕ, suc, String, ◌≡◌, refl, Bool, true, false, Result, ok, err}
use aicti.Db.{Db}

abbrev pub Action : Type 0 → Type 0 → Type 0
Action E A = Db → Result E A × Db

abbrev pub continue : {E A B : Type 0} → Result E A → (A → Action E B) → Action E B
continue (ok a) f db = f a db
continue (err e) f db = (err e, db)

infixl 5 ◌>>=◌ ◌>>◌
abbrev pub ◌>>=◌ : {E A B : Type 0} → Action E A → (A → Action E B) → Action E B
◌>>=◌ m f db = let (r, db') = m db in continue r f db'

abbrev pub ◌>>◌ : {E B : Type 0} → Action E (Unit {0}) → Action E B → Action E B
m >> k = m >>= λ _. k

abbrev pub pure : {E A : Type 0} → A → Action E A
pure a db = (ok a, db)

abbrev pub raise : {E A : Type 0} → E → Action E A
raise e db = (err e, db)

abbrev pub gets : {E A : Type 0} → (Db → A) → Action E A
gets f db = (ok (f db), db)

abbrev pub modify : {E : Type 0} → (Db → Db) → Action E (Unit {0})
modify f db = (ok tt, f db)

abbrev pub require : {E : Type 0} → Bool → E → Action E (Unit {0})
require true e db = (ok tt, db)
require false e db = (err e, db)

-- `str(uuid4())`, for the source of identifiers given.
abbrev pub draw : {E : Type 0} → (ℕ → String) → Action E String
draw uuid4 db = (ok (uuid4 db.draws), record db { draws = suc db.draws })

-- A last step that only computes leaves the database alone.
pub continue-pure :
    {E A B : Type 0} (r : Result E A) (f : A → B) (db : Db)
    → (continue r (λ a. pure (f a)) db).1 ≡ db
continue-pure (ok a) f db = refl
continue-pure (err e) f db = refl

-- Where a sequence succeeds, it does what the rest does on the answer of the first part.
pub >>=-continues :
    {E A B : Type 0} (b : B) (m : Action E A) (f : A → Action E B) (db : Db)
    → ((m >>= f) db).0 ≡ ok b
    → (a : A) × ((m >>= f) db ≡ f a (m db).1)
>>=-continues {E = E} {A = A} {B = B} b m f db h = answered (m db).0 h
  where
    answered :
        (r : Result E A)
        → (continue r f (m db).1).0 ≡ ok b
        → (a : A) × (continue r f (m db).1 ≡ f a (m db).1)
    answered (ok a) k = (a, refl)
    answered (err e) k = cc

pub require_same : {E : Type 0} (b : Bool) (e : E) (db : Db) → (require b e db).1 ≡ db
require_same true e db = refl
require_same false e db = refl

-- The same with the answer of the first part.
pub >>=-steps :
    {E A B : Type 0} (b : B) (m : Action E A) (f : A → Action E B) (db : Db)
    → ((m >>= f) db).0 ≡ ok b
    → (a : A) × ((m db).0 ≡ ok a) × ((m >>= f) db ≡ f a (m db).1)
>>=-steps {E = E} {A = A} {B = B} b m f db h = answered (m db).0 h
  where
    answered :
        (r : Result E A)
        → (continue r f (m db).1).0 ≡ ok b
        → (a : A) × (r ≡ ok a) × (continue r f (m db).1 ≡ f a (m db).1)
    answered (ok a) k = (a, refl, refl)
    answered (err e) k = cc
