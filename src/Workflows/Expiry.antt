-- ===== src/Workflows/Expiry.antt =====
-- One run of `escalateOverdue` after another, until a task has expired
-- (backend/src/workflows/workflows.service.ts).
use haroti_lpg_management.Common.Enums.{ApprovalTaskStatus}
use haroti_lpg_management.Database.Distinct.{IsDistinct}
use haroti_lpg_management.Database.Documents.{WorkflowDefinition, ApprovalTask}
use haroti_lpg_management.Database.Search.{find-All, sort_by-All}
use haroti_lpg_management.Database.State.{Db}
use haroti_lpg_management.Database.Table.{find_by_id}
use haroti_lpg_management.Prelude.{
  length, All, ◌==◌, Option-cases, ◌+◌, ◌≤◌, ◌<◌, ℕ, ◌≡◌, refl, ap, ◌∙◌, subst, inl, inr, some,
  List, [], ◌∷◌, arith,
}
use haroti_lpg_management.Workflows.{
  sorted_steps, after_hours, current_of, hours_of, moved_on, definition_of, escalate_overdue,
}
use haroti_lpg_management.Workflows.Escalation.{OrdersUpTo, next_step-bounds}
use haroti_lpg_management.Workflows.Overdue.{IsAt, escalate_overdue-IsAt, escalate_overdue_past}

-- `escalateOverdue` at these times, with nothing else in between.
unfoldable pub overdue_runs : List ℕ → Db → Db
overdue_runs [] db = db
overdue_runs (now ∷ clocks) db =
    overdue_runs clocks (escalate_overdue (record db { clock = now })).1

-- The first run comes when the task is due, and each further one by so many hours later.
abbrev pub AreSpaced : ℕ → ℕ → List ℕ → Type 0
AreSpaced hours due [] = Unit
AreSpaced hours due (now ∷ clocks) = (due ≤ now) × AreSpaced hours (after_hours now hours) clocks

-- No step of the definition waits for more than so many hours.
abbrev pub HoursUpTo : ℕ → WorkflowDefinition → Type 0
HoursUpTo hours d = All (λ s. s.escalation_hours ≤ hours) d.steps

AreSpaced-earlier :
    (hours early due : ℕ) (clocks : List ℕ)
    → early ≤ due
    → AreSpaced hours due clocks
    → AreSpaced hours early clocks
AreSpaced-earlier hours early due [] h k = tt
AreSpaced-earlier hours early due (now ∷ clocks) h (k, ks) = (omega (arith, h, k), ks)

hours_of-bound :
    (hours : ℕ) (d : WorkflowDefinition) (t : ApprovalTask)
    → 24 ≤ hours
    → HoursUpTo hours d
    → hours_of (current_of d t) ≤ hours
unfolding hours_of current_of sorted_steps
hours_of-bound hours d t day upto = elim (Option-cases (current_of d t)) [
  | inl nobody ↦ rw (nobody, hours_of) day
  | inr (s, known) ↦
      let bound =
        find-All (λ s. s.escalation_hours ≤ hours) (λ s. s.step_order == t.current_step)
          (sorted_steps d) (sort_by-All (λ s. s.escalation_hours ≤ hours) _ d.steps upto) known in
      rw (known, hours_of) bound
]

after_hours_mono : (now a b : ℕ) → a ≤ b → after_hours now a ≤ after_hours now b
unfolding after_hours
after_hours_mono now a b h = omega (arith, h)

-- The task waits for a decision.
abbrev pub IsWaiting : ℕ → ApprovalTask → WorkflowDefinition → Db → Type 0
IsWaiting id t d db =
    (find_by_id id db.approval_tasks ≡ some t)
    × (t.status ≡ ApprovalTaskStatus.pending)
    × (definition_of t db ≡ some d)
    × IsDistinct db.approval_tasks.rows

-- The row of the task says that it has expired.
abbrev pub HasExpired : ℕ → Db → Type 0
HasExpired id db =
    (t : ApprovalTask) × (find_by_id id db.approval_tasks ≡ some t)
    × (t.status ≡ ApprovalTaskStatus.expired)

IsAt-clock :
    (id now : ℕ) (t : ApprovalTask) (d : WorkflowDefinition) (db : Db)
    → find_by_id id db.approval_tasks ≡ some t
    → definition_of t db ≡ some d
    → IsDistinct db.approval_tasks.rows
    → IsAt id now t d (record db { clock = now })
unfolding definition_of
IsAt-clock id now t d db found defined distinct = record {
  found = found;
  defined = defined;
  at_time = refl;
  distinct = distinct;
}

expired_stays :
    (id : ℕ) (t : ApprovalTask) (d : WorkflowDefinition) (clocks : List ℕ) (db : Db)
    → find_by_id id db.approval_tasks ≡ some t
    → definition_of t db ≡ some d
    → IsDistinct db.approval_tasks.rows
    → t.status ≡ ApprovalTaskStatus.expired
    → HasExpired id (overdue_runs clocks db)
unfolding overdue_runs
expired_stays id t d [] db found defined distinct over = (t, found, over)
expired_stays id t d (now ∷ clocks) db found defined distinct over =
    let h =
      escalate_overdue_past id now t d (record db { clock = now })
        (IsAt-clock id now t d db found defined distinct) (rw over refl) in
    expired_stays id t d clocks (escalate_overdue (record db { clock = now })).1 h.found h.defined
      h.distinct over

-- A pending task whose definition has steps of orders up to m, and which is at a step of at most m
-- + 1, has expired after as many runs of the escalation, each at a time when the task is due, as
-- reach beyond m + 1 from its step. No step waits for more hours than lie between two runs, which
-- are 24 at least; other tasks are escalated in the same runs.
pub escalations-expire :
    (m hours id : ℕ) (clocks : List ℕ) (t : ApprovalTask) (d : WorkflowDefinition) (db : Db)
    → IsWaiting id t d db
    → OrdersUpTo m d
    → 24 ≤ hours
    → HoursUpTo hours d
    → t.current_step ≤ m + 1
    → AreSpaced hours t.due_at clocks
    → m + 1 < length clocks + t.current_step
    → HasExpired id (overdue_runs clocks db)
unfolding overdue_runs moved_on
escalations-expire m hours id [] t d db waiting upto day short low spaced enough =
    absurd (omega (arith, low, enough))
escalations-expire m hours id (now ∷ clocks) t d db (found, pending, defined, distinct) upto day
      short low (due, spaced) enough =
    let (u, h, done) =
      escalate_overdue-IsAt id now t d (record db { clock = now })
        (IsAt-clock id now t d db found defined distinct) (rw pending refl) due in
    let db1 = (escalate_overdue (record db { clock = now })).1 in
    elim done [
      | inl (nobody, is_u) ↦
          expired_stays id u d clocks db1 h.found h.defined h.distinct (rw is_u refl)
      | inr (s, known, is_u) ↦
          let (ahead, bound) = next_step-bounds m d t upto known in
          let next = moved_on d t now ApprovalTaskStatus.pending s in
          escalations-expire m hours id clocks next d db1
            (
              h.found ∙ ap (λ x. some x) is_u,
              refl,
              subst (λ x. definition_of x db1 ≡ some d) is_u h.defined,
              h.distinct,
            )
            upto day short bound
            (AreSpaced-earlier hours next.due_at (after_hours now hours) clocks
              (after_hours_mono now (hours_of (current_of d t)) hours
                (hours_of-bound hours d t day short))
              spaced)
            (omega (arith, ahead, enough))
    ]
