-- ===== src/Database/Search.antt =====
-- Searches of lists and tables, and sorted lists.
use mathlib.Core.Bool.{false≢true}
use mathlib.Core.Option.{some-injective}
use haroti_lpg_management.Database.Table.{lookup, replace}
use haroti_lpg_management.Prelude.{
  All, find, insert_by, sort_by, ◌==◌, Bool-cases, ℕ, ◌≡◌, sym, ap, ◌∙◌, subst, inl, inr, Bool,
  true, some, List, [], ◌∷◌, arith,
}

module _ {A : Type 0} where
  pub find-holds : (p : A → Bool) (xs : List A) {x : A} → find p xs ≡ some x → p x ≡ true
  find-holds p [] h = cc
  find-holds p (y ∷ ys) h = elim (Bool-cases (p y)) [
    | inl hit ↦ subst (λ z. p z ≡ true) (some-injective _ _ (rw hit at h)) hit
    | inr miss ↦ find-holds p ys (rw miss at h)
  ]

  pub find-All :
      (P : A → Type 0) (p : A → Bool) (xs : List A) {x : A} → All P xs → find p xs ≡ some x → P x
  find-All P p [] a h = cc
  find-All P p (y ∷ ys) a h = elim (Bool-cases (p y)) [
    | inl hit ↦ subst P (some-injective _ _ (rw hit at h)) a.0
    | inr miss ↦ find-All P p ys a.1 (rw miss at h)
  ]

  pub insert_by-All :
      (P : A → Type 0) (before : A → A → Bool) (x : A) (xs : List A)
      → P x
      → All P xs
      → All P (insert_by before x xs)
  unfolding insert_by
  insert_by-All P before x [] px a = (px, tt)
  insert_by-All P before x (y ∷ ys) px a = elim (Bool-cases (before y x)) [
    | inl hit ↦ rw hit (a.0, insert_by-All P before x ys px a.1)
    | inr miss ↦ rw miss (px, a)
  ]

  pub sort_by-All :
      (P : A → Type 0) (before : A → A → Bool) (xs : List A) → All P xs → All P (sort_by before xs)
  unfolding sort_by
  sort_by-All P before [] a = tt
  sort_by-All P before (x ∷ xs) a =
      insert_by-All P before x (sort_by before xs) a.0 (sort_by-All P before xs a.1)

-- The row that a search finds, written again under its identifier.
pub find-replace :
    (A : Type 0) (p : A → Bool) (id : ℕ) (old new : A) (rows : List (ℕ × A))
    → find (λ r. p r.1) rows ≡ some (id, old)
    → lookup id rows ≡ some old
    → p new ≡ true
    → find (λ r. p r.1) (replace id new rows) ≡ some (id, new)
unfolding lookup replace
find-replace A p id old new [] found there hit = cc
find-replace A p id old new ((j, a) ∷ rows) found there hit = elim (Bool-cases (p a)) [
  | inl here ↦
      let row = some-injective _ _ (rw here at found) in
      let at_id : (j == id) ≡ true = rw (ap (λ r. r.0) row) (ground arith) in
      rw at_id (rw hit (ap (λ (r : ℕ × A). some (r.0, new)) row))
  | inr miss ↦ elim (Bool-cases (j == id)) [
    | inl same ↦
        let is_old : a ≡ old = some-injective _ _ (rw same at there) in
        let holds = find-holds (λ (r : ℕ × A). p r.1) rows (rw miss at found) in
        absurd (false≢true (sym miss ∙ (ap p is_old ∙ holds)))
    | inr other ↦
        rw other
          (rw miss (find-replace A p id old new rows (rw miss at found) (rw other at there) hit))
  ]
]
