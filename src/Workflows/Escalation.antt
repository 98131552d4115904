-- ===== src/Workflows/Escalation.antt =====
-- The next step of a task that is escalated (backend/src/workflows/workflows.service.ts, `escalateOverdue`).
use mathlib.Core.Option.{some-injective}
use haroti_lpg_management.Database.Documents.{WorkflowStep, WorkflowDefinition, ApprovalTask}
use haroti_lpg_management.Database.Search.{find-holds, find-All, sort_by-All}
use haroti_lpg_management.Prelude.{
  All, find, ltb, ◌==◌, Option-cases, ◌+◌, ◌≤◌, ◌<◌, ℕ, ◌≡◌, sym, ap, inl, inr, true, some, arith,
}
use haroti_lpg_management.Workflows.{sorted_steps, current_of, fallback_step, next_step}

-- No step of the definition has an order above m.
abbrev pub OrdersUpTo : ℕ → WorkflowDefinition → Type 0
OrdersUpTo m d = All (λ s. s.step_order ≤ m) d.steps

ltb-true : (a b : ℕ) → ltb a b ≡ true → a < b
ltb-true a b h = ground arith

fallback_found :
    (m : ℕ) (c : WorkflowStep) (t : ApprovalTask) {s : WorkflowStep}
    → fallback_step (some c) t ≡ some s
    → s.step_order ≡ t.current_step + 1
unfolding fallback_step
fallback_found m c t {s} h = elim (Option-cases c.fallback_role) [
  | inl nobody ↦ cc (rw (nobody, fallback_step) at h)
  | inr (role, known) ↦ sym (
      ap (λ (x : WorkflowStep). x.step_order) (some-injective _ _ (rw (known, fallback_step) at h)))
]

equal_lem : (a b : ℕ) → (a == b) ≡ true → a ≡ b
equal_lem a b h = ground arith

fallback_lem :
    (m : ℕ) (d : WorkflowDefinition) (t : ApprovalTask) {s : WorkflowStep}
    → OrdersUpTo m d
    → fallback_step (current_of d t) t ≡ some s
    → (s.step_order ≡ t.current_step + 1) × (t.current_step ≤ m)
unfolding fallback_step current_of sorted_steps
fallback_lem m d t {s} upto h = elim (Option-cases (current_of d t)) [
  | inl nobody ↦ cc (rw nobody at h)
  | inr (c, known) ↦
      let at_it =
        equal_lem c.step_order t.current_step
          (find-holds (λ s. s.step_order == t.current_step) (sorted_steps d) known) in
      let bound =
        find-All (λ s. s.step_order ≤ m) (λ s. s.step_order == t.current_step) (sorted_steps d)
          (sort_by-All (λ s. s.step_order ≤ m) _ d.steps upto) known in
      (fallback_found m c t (rw known at h), omega (arith, at_it, bound))
]

-- The next step is later than the current one, and at most one behind the last of the definition.
pub next_step-bounds :
    (m : ℕ) (d : WorkflowDefinition) (t : ApprovalTask) {s : WorkflowStep}
    → OrdersUpTo m d
    → next_step d t ≡ some s
    → (t.current_step < s.step_order) × (s.step_order ≤ m + 1)
unfolding next_step sorted_steps
next_step-bounds m d t {s} upto h =
    elim (Option-cases (find (λ s. ltb t.current_step s.step_order) (sorted_steps d))) [
      | inl last ↦
          let (e, b) = fallback_lem m d t upto (rw (last, next_step) at h) in
          (omega (arith, e), omega (arith, e, b))
      | inr (s', found) ↦
          let same : s' ≡ s = some-injective _ _ (rw (found, next_step) at h) in
          let ahead =
            ltb-true t.current_step s'.step_order
              (find-holds (λ s. ltb t.current_step s.step_order) (sorted_steps d) found) in
          let bound =
            find-All (λ s. s.step_order ≤ m) (λ s. ltb t.current_step s.step_order) (sorted_steps d)
              (sort_by-All (λ s. s.step_order ≤ m) _ d.steps upto) found in
          rw (sym same) (ahead, omega (arith, bound))
    ]
