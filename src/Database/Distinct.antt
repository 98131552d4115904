-- ===== src/Database/Distinct.antt =====
-- Rows under identifiers that are all different, as the primary key has it.
use mathlib.Core.Option.{some-injective}
use haroti_lpg_management.Database.Table.{lookup, replace}
use haroti_lpg_management.Prelude.{
  All, filter, ◌==◌, ==_iff, Bool-cases, ℕ, ◌≡◌, refl, subst, inl, inr, Bool, true, false, some,
  List, [], ◌∷◌, arith,
}

module _ {A : Type 0} where
  -- No row has the identifier k.
  abbrev pub IsAway : ℕ → List (ℕ × A) → Type 0
  IsAway k rows = All (λ r. (r.0 == k) ≡ false) rows

  abbrev pub IsDistinct : List (ℕ × A) → Type 0
  IsDistinct [] = Unit
  IsDistinct (r ∷ rows) = IsAway r.0 rows × IsDistinct rows

  pub IsAway-replace :
      (j k : ℕ) (v : A) (rows : List (ℕ × A)) → IsAway j rows → IsAway j (replace k v rows)
  unfolding replace
  IsAway-replace j k v [] h = tt
  IsAway-replace j k v ((i, w) ∷ rows) (h, hs) = elim (Bool-cases (i == k)) [
    | inl same ↦ rw same (h, hs)
    | inr other ↦ rw other (h, IsAway-replace j k v rows hs)
  ]

  pub IsDistinct-replace :
      (k : ℕ) (v : A) (rows : List (ℕ × A)) → IsDistinct rows → IsDistinct (replace k v rows)
  unfolding replace
  IsDistinct-replace k v [] h = tt
  IsDistinct-replace k v ((i, w) ∷ rows) (h, hs) = elim (Bool-cases (i == k)) [
    | inl same ↦ rw same (h, hs)
    | inr other ↦ rw other (IsAway-replace i k v rows h, IsDistinct-replace k v rows hs)
  ]

  pub IsAway-filter :
      (p : ℕ × A → Bool) (k : ℕ) (rows : List (ℕ × A)) → IsAway k rows → IsAway k (filter p rows)
  IsAway-filter p k [] h = tt
  IsAway-filter p k (r ∷ rows) (h, hs) = elim (Bool-cases (p r)) [
    | inl hit ↦ rw hit (h, IsAway-filter p k rows hs)
    | inr miss ↦ rw miss (IsAway-filter p k rows hs)
  ]

  pub IsDistinct-filter :
      (p : ℕ × A → Bool) (rows : List (ℕ × A)) → IsDistinct rows → IsDistinct (filter p rows)
  IsDistinct-filter p [] h = tt
  IsDistinct-filter p (r ∷ rows) (h, hs) = elim (Bool-cases (p r)) [
    | inl hit ↦ rw hit (IsAway-filter p r.0 rows h, IsDistinct-filter p rows hs)
    | inr miss ↦ rw miss (IsDistinct-filter p rows hs)
  ]

  -- A row that passes the test is still found among those that do.
  pub lookup-filter :
      (p : A → Bool) (k : ℕ) {a : A} (rows : List (ℕ × A))
      → lookup k rows ≡ some a
      → p a ≡ true
      → lookup k (filter (λ r. p r.1) rows) ≡ some a
  unfolding lookup
  lookup-filter p k [] e h = cc
  lookup-filter p k {a} ((j, w) ∷ rows) e h = elim (Bool-cases (j == k)) [
    | inl same ↦ let is_a : w ≡ a = some-injective _ _ (rw same at e) in rw (is_a, h, same) refl
    | inr other ↦
        let rest = lookup-filter p k {a = a} rows (rw other at e) h in
        elim (Bool-cases (p w)) [ inl hit ↦ rw (hit, other) rest | inr miss ↦ rw miss rest ]
  ]

  -- A row that fails the test is not among those that pass it.
  pub filter-IsAway :
      (p : A → Bool) (k : ℕ) {a : A} (rows : List (ℕ × A))
      → IsDistinct rows
      → lookup k rows ≡ some a
      → p a ≡ false
      → IsAway k (filter (λ r. p r.1) rows)
  unfolding lookup
  filter-IsAway p k [] d e h = tt
  filter-IsAway p k {a} ((j, w) ∷ rows) (d, ds) e h = elim (Bool-cases (j == k)) [
    | inl same ↦
        let is_a : w ≡ a = some-injective _ _ (rw same at e) in
        let is_k : j ≡ k = (==_iff j k).0 same in
        rw (is_a, h) (IsAway-filter (λ r. p r.1) k rows (subst (λ x. IsAway x rows) is_k d))
    | inr other ↦
        let rest = filter-IsAway p k {a = a} rows ds (rw other at e) h in
        elim (Bool-cases (p w)) [ inl hit ↦ rw hit (other, rest) | inr miss ↦ rw miss rest ]
  ]

  -- A row that is saved under another identifier.
  pub lookup-replace_other :
      (j k : ℕ) (v : A) (rows : List (ℕ × A))
      → (k == j) ≡ false
      → lookup j (replace k v rows) ≡ lookup j rows
  unfolding lookup replace
  lookup-replace_other j k v [] h = refl
  lookup-replace_other j k v ((i, w) ∷ rows) h = ground (arith, lookup-replace_other j k v rows h)
