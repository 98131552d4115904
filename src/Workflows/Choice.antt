-- ===== src/Workflows/Choice.antt =====
-- The definition that `createTask` picks (backend/src/workflows/workflows.service.ts).
use mathlib.Core.Option.{some-injective}
use mathlib.Core.Bool.{false≢true}
use haroti_lpg_management.Common.Enums.{WorkflowEntityType}
use haroti_lpg_management.Database.Documents.{WorkflowDefinition}
use haroti_lpg_management.Database.Search.{insert_by-All, sort_by-All}
use haroti_lpg_management.Prelude.{
  ℤ, ◌≤ℤ◌, ltb_ℤ, All, filter, head_of, insert_by, sort_by, Bool-cases, ℕ, ◌≡◌, sym, ◌∙◌, subst,
  inl, inr, Bool, true, some, List, [], ◌∷◌, arith,
}
use haroti_lpg_management.Workflows.{is_eligible, choose_definition}

-- The rows with no smaller amount than this one come before it.
abbrev IsMost : ℕ × WorkflowDefinition → ℕ × WorkflowDefinition → Type 0
IsMost r s = s.1.min_amount ≤ℤ r.1.min_amount

abbrev is_larger : ℕ × WorkflowDefinition → ℕ × WorkflowDefinition → Bool
is_larger a b = ltb_ℤ b.1.min_amount a.1.min_amount

-- The head of the list has the largest amount.
HeadIsMost : List (ℕ × WorkflowDefinition) → Type 0
HeadIsMost [] = Unit
HeadIsMost (r ∷ rows) = All (IsMost r) rows

module _ {A : Type 0} where
  All-imp : {P Q : A → Type 0} (xs : List A) → ((x : A) → P x → Q x) → All P xs → All Q xs
  All-imp [] f h = tt
  All-imp (x ∷ xs) f h = (f x h.0, All-imp xs f h.1)

  -- What holds of all of a sorted list holds of all of the list.
  insert_by_inv :
      (P : A → Type 0) (before : A → A → Bool) (x : A) (xs : List A)
      → All P (insert_by before x xs)
      → P x × All P xs
  unfolding insert_by
  insert_by_inv P before x [] h = h
  insert_by_inv P before x (y ∷ ys) h = elim (Bool-cases (before y x)) [
    | inl hit ↦
        let k : P y × All P (insert_by before x ys) = rw hit at h in
        let (px, rest) = insert_by_inv P before x ys k.1 in (px, (k.0, rest))
    | inr miss ↦ rw miss at h
  ]

  sort_by_inv :
      (P : A → Type 0) (before : A → A → Bool) (xs : List A) → All P (sort_by before xs) → All P xs
  unfolding sort_by
  sort_by_inv P before [] h = tt
  sort_by_inv P before (x ∷ xs) h =
      let (px, rest) = insert_by_inv P before x (sort_by before xs) h in
      (px, sort_by_inv P before xs rest)

  filter_inv :
      (P : A → Type 0) (p : A → Bool) (xs : List A)
      → All P (filter p xs)
      → All (λ x. p x ≡ true → P x) xs
  filter_inv P p [] h = tt
  filter_inv P p (x ∷ xs) h = elim (Bool-cases (p x)) [
    | inl hit ↦ let k : P x × All P (filter p xs) = rw hit at h in (λ _. k.0, filter_inv P p xs k.1)
    | inr miss ↦ (λ hit. absurd (false≢true (sym miss ∙ hit)), filter_inv P p xs (rw miss at h))
  ]

  filter-All : (p : A → Bool) (xs : List A) → All (λ x. p x ≡ true) (filter p xs)
  filter-All p [] = tt
  filter-All p (x ∷ xs) = elim (Bool-cases (p x)) [
    | inl hit ↦ rw hit (hit, filter-All p xs)
    | inr miss ↦ rw miss (filter-All p xs)
  ]

insert-HeadIsMost :
    (r : ℕ × WorkflowDefinition) (rows : List (ℕ × WorkflowDefinition))
    → HeadIsMost rows
    → HeadIsMost (insert_by is_larger r rows)
unfolding insert_by HeadIsMost
insert-HeadIsMost r [] h = tt
insert-HeadIsMost r (s ∷ rows) h = elim (Bool-cases (is_larger s r)) [
  | inl hit ↦ rw hit (insert_by-All (IsMost s) is_larger r rows (ground (arith, hit)) h)
  | inr miss ↦
      let more : IsMost r s = ground (arith, miss) in
      rw miss (more, All-imp rows (λ x k. omega (arith, k, more)) h)
]

sort-HeadIsMost : (rows : List (ℕ × WorkflowDefinition)) → HeadIsMost (sort_by is_larger rows)
unfolding sort_by HeadIsMost
sort-HeadIsMost [] = tt
sort-HeadIsMost (r ∷ rows) = insert-HeadIsMost r (sort_by is_larger rows) (sort-HeadIsMost rows)

head_lem :
    (P : ℕ × WorkflowDefinition → Type 0) (rows : List (ℕ × WorkflowDefinition))
    {r : ℕ × WorkflowDefinition}
    → HeadIsMost rows
    → All P rows
    → head_of rows ≡ some r
    → P r × All (IsMost r) rows
unfolding HeadIsMost
head_lem P [] h a e = cc
head_lem P (s ∷ rows) {r} h a e =
    let same : s ≡ r = some-injective _ _ e in
    subst (λ x. P x × All (IsMost x) (s ∷ rows)) same (a.0, (omega arith, h))

-- The definition that is picked is active for the type, has steps and asks for no more than the
-- amount, and of all that do it asks for the most.
pub choose_definition-most :
    (kind : WorkflowEntityType) (amount : ℤ) (rows : List (ℕ × WorkflowDefinition))
    {r : ℕ × WorkflowDefinition}
    → choose_definition kind amount rows ≡ some r
    → (is_eligible kind amount r.1 ≡ true)
      × All (λ s. is_eligible kind amount s.1 ≡ true → s.1.min_amount ≤ℤ r.1.min_amount) rows
unfolding choose_definition
choose_definition-most kind amount rows {r} h =
    let p = λ (r : ℕ × WorkflowDefinition). is_eligible kind amount r.1 in
    let (good, most) =
      head_lem (λ s. p s ≡ true) (sort_by is_larger (filter p rows))
        (sort-HeadIsMost (filter p rows))
        (sort_by-All (λ s. p s ≡ true) is_larger (filter p rows) (filter-All p rows)) h in
    (good, filter_inv (IsMost r) p rows (sort_by_inv (IsMost r) is_larger (filter p rows) most))
