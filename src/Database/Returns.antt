-- ===== src/Database/Returns.antt =====
-- What is known of the steps of an operation that has returned a value.
use haroti_lpg_management.Common.Errors.{Failure, Result, ok, err}
use haroti_lpg_management.Database.State.{
  Db, Op, pure, or_throw, find_or_throw, continue_with, ◌>>=◌, ◌>>◌, throw_if,
}
use haroti_lpg_management.Prelude.{◌≡◌, refl, Bool, true, false, Option, none, some}

continue_inv :
    {S A B : Type 0} (r : Result A × S) {f : A → S → Result B × S} {b : B} {db' : S}
    → continue_with r f ≡ (ok b, db')
    → (a : A) × (db1 : S) × (r ≡ (ok a, db1)) × (f a db1 ≡ (ok b, db'))
continue_inv (ok a, db1) h = (a, db1, refl, h)
continue_inv (err e, db1) h = cc

module _ {A : Type 0} where
  pub or_throw_inv :
      (e : Failure) (o : Option A) {db db' : Db} {a : A}
      → or_throw e o db ≡ (ok a, db')
      → (o ≡ some a) × (db ≡ db')
  or_throw_inv e none h = cc
  or_throw_inv e (some x) h = (cc, cc)

  pub find_or_throw_inv :
      (e : Failure) (get : Db → Option A) {db db' : Db} {a : A}
      → find_or_throw e get db ≡ (ok a, db')
      → (get db ≡ some a) × (db ≡ db')
  find_or_throw_inv e get {db} h = or_throw_inv e (get db) h

  module _ {B : Type 0} where
    pub >>=_inv :
        (m : Op A) (f : A → Op B) {db : Db} {b : B} {db' : Db}
        → (m >>= f) db ≡ (ok b, db')
        → (a : A) × (db1 : Db) × (m db ≡ (ok a, db1)) × (f a db1 ≡ (ok b, db'))
    unfolding ◌>>=◌
    >>=_inv m f {db} h = continue_inv (m db) h

    pub >>_inv :
        (m : Op A) (k : Op B) {db : Db} {b : B} {db' : Db}
        → (m >> k) db ≡ (ok b, db')
        → (a : A) × (db1 : Db) × (m db ≡ (ok a, db1)) × (k db1 ≡ (ok b, db'))
    unfolding ◌>>◌
    >>_inv m k {db} h = continue_inv (m db) h

pub throw_if_inv :
    (c : Bool) (e : Failure) {db db' : Db} {u : Unit {0}}
    → throw_if c e db ≡ (ok u, db')
    → (c ≡ false) × (db ≡ db')
throw_if_inv true e h = cc
throw_if_inv false e h = (refl, cc)

pub pure_inv : {A : Type 0} (a : A) {db db' : Db} {b : A} → pure a db ≡ (ok b, db') → a ≡ b
pure_inv a h = cc

-- The rest of an operation, once its first step has ended.
module _ {A B : Type 0} where
  pub >>=_ok :
      (m : Op A) (f : A → Op B) {db db1 : Db} {a : A} → m db ≡ (ok a, db1) → (m >>= f) db ≡ f a db1
  unfolding ◌>>=◌
  >>=_ok m f h = rw h refl

  pub >>_ok : (m : Op A) (k : Op B) {db db1 : Db} {a : A} → m db ≡ (ok a, db1) → (m >> k) db ≡ k db1
  unfolding ◌>>◌
  >>_ok m k h = rw h refl

  pub >>=_err :
      (m : Op A) (f : A → Op B) {db db1 : Db} {e : Failure}
      → m db ≡ (err e, db1)
      → (m >>= f) db ≡ (err e, db1)
  unfolding ◌>>=◌
  >>=_err m f h = rw h refl

  pub >>_err :
      (m : Op A) (k : Op B) {db db1 : Db} {e : Failure}
      → m db ≡ (err e, db1)
      → (m >> k) db ≡ (err e, db1)
  unfolding ◌>>◌
  >>_err m k h = rw h refl
