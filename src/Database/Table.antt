-- ===== src/Database/Table.antt =====
-- A repository of TypeORM as a table: rows under their ids, in the order of insertion. A new row
-- takes an id that the table has not given out before, as the database generates them.
use mathlib.Core.Option.{some-injective}
use haroti_lpg_management.Prelude.{
  ℤ, ◌+ℤ◌, int_laws, All, filter, find, sum_of, All-append, ◌==◌, if◌then◌else◌, Bool-cases, ◌+◌, ℕ,
  ◌≡◌, refl, subst, inl, inr, Bool, true, Option, none, some, List, [], ◌∷◌, ◌++◌, arith,
}

pub record Table (A : Type 0) : Type 0 where
  pub rows : List (ℕ × A)
  pub next_id : ℕ

module _ {A : Type 0} where
  abbrev pub empty_table : Table A
  empty_table = record { rows = []; next_id = 0 }

  unfoldable pub lookup : ℕ → List (ℕ × A) → Option A
  lookup k [] = none
  lookup k ((j, v) ∷ rows) = if j == k then some v else lookup k rows

  unfoldable pub replace : ℕ → A → List (ℕ × A) → List (ℕ × A)
  replace k v [] = []
  replace k v ((j, w) ∷ rows) = if j == k then (j, v) ∷ rows else (j, w) ∷ replace k v rows

  -- `repo.findOne({ where: { id } })`
  abbrev pub find_by_id : ℕ → Table A → Option A
  find_by_id k t = lookup k t.rows

  -- `repo.save(row)` of a row that was read under the id `k`
  abbrev pub store : ℕ → A → Table A → Table A
  store k a t = record t { rows = replace k a t.rows }

  -- `repo.save(repo.create(...))`
  abbrev pub append : A → Table A → Table A
  append a t = record { rows = t.rows ++ (t.next_id, a) ∷ []; next_id = t.next_id + 1 }

  -- `repo.findOne({ where })`: the first row that passes the test
  abbrev pub find_where : (A → Bool) → Table A → Option (ℕ × A)
  find_where p t = find (λ r. p r.1) t.rows

  -- `repo.find({ where })`
  abbrev pub all_where : (A → Bool) → Table A → List (ℕ × A)
  all_where p t = filter (λ r. p r.1) t.rows

  -- Every row of the table satisfies P.
  abbrev pub Every : (A → Type 0) → Table A → Type 0
  Every P t = All (λ r. P r.1) t.rows

  -- The sum of an amount over the rows.
  abbrev pub total : (A → ℤ) → Table A → ℤ
  total f t = sum_of (λ r. f r.1) t.rows

  pub lookup-replace :
      (j k : ℕ) (v : A) {old : A} (rows : List (ℕ × A))
      → lookup k rows ≡ some old
      → lookup j (replace k v rows) ≡ (if k == j then some v else lookup j rows)
  unfolding lookup replace
  lookup-replace j k v [] e = cc
  lookup-replace j k v {old} ((i, w) ∷ rows) e =
      ground (arith, lookup-replace j k v {old = old} rows)

  pub lookup-All :
      (P : A → Type 0) (k : ℕ) {a : A} (rows : List (ℕ × A))
      → All (λ r. P r.1) rows
      → lookup k rows ≡ some a
      → P a
  unfolding lookup
  lookup-All P k [] h e = cc
  lookup-All P k {a} ((j, w) ∷ rows) (hw, hs) e = elim (Bool-cases (j == k)) [
    | inl same ↦ subst P (some-injective _ _ (rw same at e)) hw
    | inr other ↦ lookup-All P k rows hs (rw other at e)
  ]

  pub replace-All :
      (P : A → Type 0) (k : ℕ) (v : A) (rows : List (ℕ × A))
      → All (λ r. P r.1) rows
      → P v
      → All (λ r. P r.1) (replace k v rows)
  unfolding replace
  replace-All P k v [] h p = tt
  replace-All P k v ((j, w) ∷ rows) (hw, hs) p = elim (Bool-cases (j == k)) [
    | inl same ↦ rw same (p, hs)
    | inr other ↦ rw other (hw, replace-All P k v rows hs p)
  ]

  pub sum_of-replace :
      (f : A → ℤ) (k : ℕ) (v : A) {old : A} (rows : List (ℕ × A))
      → lookup k rows ≡ some old
      → sum_of (λ r. f r.1) (replace k v rows) +ℤ f old ≡ sum_of (λ r. f r.1) rows +ℤ f v
  unfolding lookup replace sum_of
  sum_of-replace f k v [] e = cc
  sum_of-replace f k v {old} ((j, w) ∷ rows) e = elim (Bool-cases (j == k)) [
    | inl same ↦ rw (same, some-injective _ _ (rw same at e)) (omega int_laws)
    | inr other ↦
        let ih = sum_of-replace f k v {old = old} rows (rw other at e) in rw other (grind int_laws)
  ]

  pub append-Every : (P : A → Type 0) (a : A) (t : Table A) → Every P t → P a → Every P (append a t)
  append-Every P a t h p = All-append (λ r. P r.1) t.rows _ h (p, tt)

  -- Rows that are there stay where they are when a row is added.
  pub lookup-append :
      (k : ℕ) {a : A} (rows more : List (ℕ × A))
      → lookup k rows ≡ some a
      → lookup k (rows ++ more) ≡ some a
  unfolding lookup
  lookup-append k [] more e = cc
  lookup-append k {a} ((j, w) ∷ rows) more e = elim (Bool-cases (j == k)) [
    | inl same ↦ rw same (rw same at e)
    | inr other ↦ rw other (lookup-append k rows more (rw other at e))
  ]

  -- The row that is added is found where no other was.
  pub find-append :
      (p : A → Bool) (r : ℕ × A) (rows : List (ℕ × A))
      → find (λ x. p x.1) rows ≡ none
      → p r.1 ≡ true
      → find (λ x. p x.1) (rows ++ r ∷ []) ≡ some r
  find-append p r [] h hit = rw hit refl
  find-append p r (x ∷ rows) h hit = elim (Bool-cases (p x.1)) [
    | inl found ↦ cc (rw found at h)
    | inr miss ↦ rw miss (find-append p r rows (rw miss at h) hit)
  ]

  -- A row under an identifier that no other has.
  pub lookup-added :
      (k : ℕ) (v : A) (rows : List (ℕ × A))
      → lookup k rows ≡ none
      → lookup k (rows ++ (k, v) ∷ []) ≡ some v
  unfolding lookup
  lookup-added k v [] h = ground arith
  lookup-added k v ((j, w) ∷ rows) h = elim (Bool-cases (j == k)) [
    | inl same ↦ cc (rw same at h)
    | inr other ↦ rw other (lookup-added k v rows (rw other at h))
  ]
