-- ===== src/Database/Keeps.antt =====
-- The rules by which an operation is seen to keep a property of the state, whether it returns or
-- throws.
use haroti_lpg_management.Common.Errors.{Failure, Result, ok, err}
use haroti_lpg_management.Database.State.{
  Db, Op, pure, throw, gets, or_throw, find_or_throw, continue_with, ◌>>=◌, ◌>>◌, throw_if, when,
  for_each,
}
use haroti_lpg_management.Prelude.{
  Option-cases, ◌≡◌, refl, subst, inl, inr, Bool, true, false, Option, none, some, List, [], ◌∷◌,
}

pub record Keeps (P : Db → Type 0) {A : Type 0} (m : Op A) : Type 0 where
  pub run : (db : Db) → P db → P (m db).1

pub or_throw-Keeps :
    (P : Db → Type 0) {A : Type 0} (e : Failure) (o : Option A) (db : Db)
    → P db
    → P (or_throw e o db).1
or_throw-Keeps P e none db h = h
or_throw-Keeps P e (some a) db h = h

pub throw_if-Keeps :
    (P : Db → Type 0) (c : Bool) (e : Failure) (db : Db) → P db → P (throw_if c e db).1
throw_if-Keeps P true e db h = h
throw_if-Keeps P false e db h = h

module _ {P : Db → Type 0} where
  pub Keeps-pure : {A : Type 0} (a : A) → Keeps P (pure a)
  Keeps-pure a = record { run = λ db h. h }

  pub Keeps-throw : {A : Type 0} (e : Failure) → Keeps P {A = A} (throw e)
  Keeps-throw e = record { run = λ db h. h }

  pub Keeps-gets : {A : Type 0} (f : Db → A) → Keeps P (gets f)
  Keeps-gets f = record { run = λ db h. h }

  pub Keeps-find_or_throw :
      {A : Type 0} (e : Failure) (get : Db → Option A) → Keeps P (find_or_throw e get)
  Keeps-find_or_throw e get = record { run = λ db h. or_throw-Keeps P e (get db) db h }

  pub Keeps-throw_if : (c : Bool) (e : Failure) → Keeps P (throw_if c e)
  Keeps-throw_if c e = record { run = throw_if-Keeps P c e }

  continue_with-Keeps :
      {A B : Type 0} (r : Result A × Db) (f : A → Op B)
      → P r.1
      → ((a : A) → Keeps P (f a))
      → P (continue_with r f).1
  continue_with-Keeps (ok a, db) f h k = (k a).run db h
  continue_with-Keeps (err e, db) f h k = h

  pub Keeps->>= :
      {A B : Type 0} {m : Op A} {f : A → Op B}
      → Keeps P m
      → ((a : A) → Keeps P (f a))
      → Keeps P (m >>= f)
  unfolding ◌>>=◌
  Keeps->>= {m = m} {f = f} hm hf = record {
    run = λ db h. continue_with-Keeps (m db) f (hm.run db h) hf;
  }

  pub Keeps->> : {A B : Type 0} {m : Op A} {k : Op B} → Keeps P m → Keeps P k → Keeps P (m >> k)
  unfolding ◌>>◌
  Keeps->> {m = m} {k = k} hm hk = record {
    run = λ db h. continue_with-Keeps (m db) (λ _. k) (hm.run db h) (λ _. hk);
  }

  -- A row that was found may be used to show that the rest keeps the property.
  pub Keeps-found :
      {A B : Type 0} (e : Failure) (get : Db → Option A) (f : A → Op B)
      → ((a : A) (db : Db) → get db ≡ some a → P db → P (f a db).1)
      → Keeps P (find_or_throw e get >>= f)
  unfolding ◌>>=◌
  Keeps-found e get f h = record {
    run = λ db p. elim (Option-cases (get db)) [
      | inl missing ↦ rw missing p
      | inr (a, found) ↦ rw found (h a db found p)
    ];
  }

  pub Keeps-when : (c : Bool) {m : Op (Unit {0})} → Keeps P m → Keeps P (when c m)
  Keeps-when true h = h
  Keeps-when false h = Keeps-pure tt

  pub Keeps-for_each :
      {A : Type 0} {f : A → Op (Unit {0})} (xs : List A)
      → ((x : A) → Keeps P (f x))
      → Keeps P (for_each f xs)
  unfolding for_each
  Keeps-for_each [] h = Keeps-pure tt
  Keeps-for_each (x ∷ xs) h = Keeps->> (h x) (Keeps-for_each xs h)

-- A step that is refused keeps everything, and one that is made has passed its test.
pub throw_if_then :
    (P : Db → Type 0) (c : Bool) (e : Failure) {A : Type 0} (m : Op A) (db : Db)
    → (c ≡ false → P (m db).1)
    → P db
    → P ((throw_if c e >> m) db).1
unfolding ◌>>◌
throw_if_then P true e m db k h = h
throw_if_then P false e m db k h = k refl

after_cases :
    (P : Db → Type 0) {A B : Type 0} (r : Result A × Db) (f : A → Op B)
    → P r.1
    → ((a : A) (db1 : Db) → r ≡ (ok a, db1) → P db1 → P (f a db1).1)
    → P (continue_with r f).1
after_cases P (ok x, db1) f h k = k x db1 refl h
after_cases P (err e, db1) f h k = h

-- What the first operation has returned may be used to show that the rest keeps the property.
pub Keeps-after :
    (P : Db → Type 0) {A B : Type 0} (m : Op A) (f : A → Op B)
    → Keeps P m
    → ((a : A) (db db1 : Db) → m db ≡ (ok a, db1) → P db1 → P (f a db1).1)
    → Keeps P (m >>= f)
unfolding ◌>>=◌
Keeps-after P m f hm hf = record {
  run = λ db h. after_cases P (m db) f (hm.run db h) (λ a db1 e p. hf a db db1 e p);
}

-- The property where the operation has returned.
pub kept_by :
    {P : Db → Type 0} {A : Type 0} {m : Op A} {db db' : Db} {a : A}
    → Keeps P m
    → m db ≡ (ok a, db')
    → P db
    → P db'
kept_by {P} {A} {db = db} keeps run h = subst (λ (r : Result A × Db). P r.1) run (keeps.run db h)
