-- ===== src/Workflows/Overdue.antt =====
-- The runs of `escalateOverdue` over all tasks, and one task in them
-- (backend/src/workflows/workflows.service.ts).
use mathlib.Core.Option.{some-injective}
use haroti_lpg_management.Common.Enums.{ApprovalTaskStatus}
use haroti_lpg_management.Common.Errors.{Result, ok, err}
use haroti_lpg_management.Database.Distinct.{
  IsAway, IsDistinct, IsDistinct-replace, IsDistinct-filter, lookup-filter, filter-IsAway,
  lookup-replace_other,
}
use haroti_lpg_management.Database.Documents.{WorkflowStep, WorkflowDefinition, ApprovalTask}
use haroti_lpg_management.Database.State.{Db, pure, continue_with, ◌>>=◌}
use haroti_lpg_management.Database.Table.{lookup, find_by_id, lookup-replace}
use haroti_lpg_management.Prelude.{
  filter, ltb, ◌==◌, ==_iff, Bool-cases, Option-cases, ◌+◌, ◌≤◌, ℕ, ◌≡◌, refl, sym, ◌∙◌, subst, ◌⊎◌,
  inl, inr, true, false, none, some, List, [], ◌∷◌, arith,
}
use haroti_lpg_management.Workflows.{
  is_pending_task, store_task, next_step, moved_on, escalate_task, definition_of, escalate_if_due,
  escalate_tasks, escalate_overdue,
}

-- Where a task stands: its row, its definition and the time, among distinct identifiers.
pub record IsAt (id now : ℕ) (t : ApprovalTask) (d : WorkflowDefinition) (db : Db) : Type 0 where
  pub found : find_by_id id db.approval_tasks ≡ some t
  pub defined : definition_of t db ≡ some d
  pub at_time : db.clock ≡ now
  pub distinct : IsDistinct db.approval_tasks.rows

-- What keeps a task where it stands when another one is saved.
store_other :
    (id j now : ℕ) (t u : ApprovalTask) (d : WorkflowDefinition) (db : Db)
    → (j == id) ≡ false
    → IsAt id now t d db
    → IsAt id now t d (store_task j u db)
unfolding definition_of
store_other id j now t u d db other h = record {
  found = lookup-replace_other id j u db.approval_tasks.rows other ∙ h.found;
  defined = h.defined;
  at_time = h.at_time;
  distinct = IsDistinct-replace j u db.approval_tasks.rows h.distinct;
}

-- The save of the task itself.
store_same :
    (id now : ℕ) (t u : ApprovalTask) (d : WorkflowDefinition) (db : Db)
    → IsAt id now t d db
    → u.subject_entity_type ≡ t.subject_entity_type
    → IsAt id now u d (store_task id u db)
unfolding definition_of
store_same id now t u d db h same = record {
  found = rw (lookup-replace id id u {old = t} db.approval_tasks.rows h.found) (ground arith);
  defined = rw same h.defined;
  at_time = h.at_time;
  distinct = IsDistinct-replace id u db.approval_tasks.rows h.distinct;
}

escalate_task_other :
    (id j now : ℕ) (t u : ApprovalTask) (d e : WorkflowDefinition) (db : Db)
    → (j == id) ≡ false
    → IsAt id now t d db
    → IsAt id now t d (escalate_task j u e db).1
unfolding escalate_task
escalate_task_other id j now t u d e db other h = elim (Option-cases (next_step e u)) [
  | inl nobody ↦ rw (nobody, escalate_task) (store_other id j now t _ d db other h)
  | inr (s, known) ↦
      rw (known, escalate_task)
        (store_other id j now t _ d _ other (store_other id j now t _ d db other h))
]

escalate_if_due_other :
    (id j now : ℕ) (t u : ApprovalTask) (d : WorkflowDefinition) (db : Db)
    → (j == id) ≡ false
    → IsAt id now t d db
    → IsAt id now t d (escalate_if_due (j, u) db).1
unfolding escalate_if_due
escalate_if_due_other id j now t u d db other h = elim (Bool-cases (ltb db.clock u.due_at)) [
  | inl early ↦ rw early h
  | inr due ↦ elim (Option-cases (definition_of u db)) [
    | inl nobody ↦ rw (due, nobody) h
    | inr (e, known) ↦ rw (due, known) (escalate_task_other id j now t u d e db other h)
  ]
]

pure_end :
    {A B : Type 0} (r : Result A × Db) (f : A → B) → (continue_with r (λ a. pure (f a))).1 ≡ r.1
pure_end (ok a, db) f = refl
pure_end (err e, db) f = refl

escalate_if_due_ok :
    (x : ℕ × ApprovalTask) (db : Db)
    → (n : ℕ) × (escalate_if_due x db ≡ (ok n, (escalate_if_due x db).1))
unfolding escalate_if_due escalate_task
escalate_if_due_ok x db = elim (Bool-cases (ltb db.clock x.1.due_at)) [
  | inl early ↦ (0, rw early refl)
  | inr due ↦ elim (Option-cases (definition_of x.1 db)) [
    | inl nobody ↦ (0, rw (due, nobody) refl)
    | inr (e, known) ↦ elim (Option-cases (next_step e x.1)) [
      | inl last ↦ (0, rw (due, known, last, escalate_task) refl)
      | inr (s, next) ↦ (1, rw (due, known, next, escalate_task) refl)
    ]
  ]
]

-- The loop goes on from the state that its body leaves.
escalate_tasks_cons :
    (x : ℕ × ApprovalTask) (xs : List (ℕ × ApprovalTask)) (db : Db)
    → (escalate_tasks (x ∷ xs) db).1 ≡ (escalate_tasks xs (escalate_if_due x db).1).1
unfolding escalate_tasks ◌>>=◌
escalate_tasks_cons x xs db =
    let (n, done) = escalate_if_due_ok x db in
    rw done (pure_end (escalate_tasks xs (escalate_if_due x db).1) (λ rest. n + rest))

escalate_tasks_other :
    (id now : ℕ) (t : ApprovalTask) (d : WorkflowDefinition) (xs : List (ℕ × ApprovalTask))
    (db : Db)
    → IsAway id xs
    → IsAt id now t d db
    → IsAt id now t d (escalate_tasks xs db).1
unfolding escalate_tasks
escalate_tasks_other id now t d [] db away h = h
escalate_tasks_other id now t d ((j, u) ∷ xs) db (other, away) h =
    rw (escalate_tasks_cons (j, u) xs db) (
      escalate_tasks_other id now t d xs (escalate_if_due (j, u) db).1 away
        (escalate_if_due_other id j now t u d db other h))

-- One escalation of the task: it expires where nobody is next, and else waits at the next step.
abbrev pub IsEscalated : WorkflowDefinition → ℕ → ApprovalTask → ApprovalTask → Type 0
IsEscalated d now t u =
    ((next_step d t ≡ none) × (u ≡ record t { status = ApprovalTaskStatus.expired }))
    ⊎ ((s : WorkflowStep) × (next_step d t ≡ some s)
        × (u ≡ moved_on d t now ApprovalTaskStatus.pending s))

escalate_task-IsAt :
    (id now : ℕ) (t : ApprovalTask) (d : WorkflowDefinition) (db : Db)
    → IsAt id now t d db
    → (u : ApprovalTask) × IsAt id now u d (escalate_task id t d db).1 × IsEscalated d db.clock t u
unfolding escalate_task moved_on
escalate_task-IsAt id now t d db h = elim (Option-cases (next_step d t)) [
  | inl nobody ↦
      let u = record t { status = ApprovalTaskStatus.expired } in
      (u, rw (nobody, escalate_task) (store_same id now t u d db h refl), inl (nobody, refl))
  | inr (s, known) ↦
      let one = moved_on d t db.clock ApprovalTaskStatus.escalated s in
      let u = moved_on d t db.clock ApprovalTaskStatus.pending s in
      (
        u,
        rw (known, escalate_task)
            (store_same id now one u d (store_task id one db) (store_same id now t one d db h refl)
              refl),
        inr (s, known, refl),
      )
]

not_early : (now due : ℕ) → due ≤ now → ltb now due ≡ false
not_early now due h = ground arith

escalate_if_due-IsAt :
    (id now : ℕ) (t : ApprovalTask) (d : WorkflowDefinition) (db : Db)
    → IsAt id now t d db
    → t.due_at ≤ now
    → (u : ApprovalTask) × IsAt id now u d (escalate_if_due (id, t) db).1 × IsEscalated d now t u
unfolding escalate_if_due
escalate_if_due-IsAt id now t d db h due =
    let over = rw (sym h.at_time) at due in
    let (u, left, done) = escalate_task-IsAt id now t d db h in
    (
      u,
      rw (not_early db.clock t.due_at over, h.defined) left,
      subst (λ n. IsEscalated d n t u) h.at_time done,
    )

-- The loop over rows with different identifiers, of which one is the task's.
escalate_tasks-IsAt :
    (id now : ℕ) (t : ApprovalTask) (d : WorkflowDefinition) (xs : List (ℕ × ApprovalTask))
    (db : Db)
    → IsDistinct xs
    → lookup id xs ≡ some t
    → IsAt id now t d db
    → t.due_at ≤ now
    → (u : ApprovalTask) × IsAt id now u d (escalate_tasks xs db).1 × IsEscalated d now t u
unfolding lookup
escalate_tasks-IsAt id now t d [] db apart e h due = cc
escalate_tasks-IsAt id now t d ((j, w) ∷ xs) db (away, apart) e h due =
    elim (Bool-cases (j == id)) [
      | inr other ↦ rw (escalate_tasks_cons (j, w) xs db) (
          escalate_tasks-IsAt id now t d xs (escalate_if_due (j, w) db).1 apart (rw other at e)
            (escalate_if_due_other id j now t w d db other h) due)
      | inl same ↦
          let is_t : w ≡ t = some-injective _ _ (rw same at e) in
          let is_id : j ≡ id = (==_iff j id).0 same in
          let (u, left, done) = escalate_if_due-IsAt id now t d db h due in
          let rest =
            escalate_tasks_other id now u d xs (escalate_if_due (id, t) db).1
              (subst (λ k. IsAway k xs) is_id away) left in
          (u, rw (is_id, is_t) (rw (escalate_tasks_cons (id, t) xs db) rest), done)
    ]

-- A run at a time when the task is pending and due.
pub escalate_overdue-IsAt :
    (id now : ℕ) (t : ApprovalTask) (d : WorkflowDefinition) (db : Db)
    → IsAt id now t d db
    → is_pending_task t.status ≡ true
    → t.due_at ≤ now
    → (u : ApprovalTask) × IsAt id now u d (escalate_overdue db).1 × IsEscalated d now t u
unfolding escalate_overdue
escalate_overdue-IsAt id now t d db h pending due =
    let p = λ (u : ApprovalTask). is_pending_task u.status in
    escalate_tasks-IsAt id now t d (filter (λ r. p r.1) db.approval_tasks.rows) db
      (IsDistinct-filter (λ r. p r.1) db.approval_tasks.rows h.distinct)
      (lookup-filter p id {a = t} db.approval_tasks.rows h.found pending) h due

-- A run leaves a task that is not pending.
pub escalate_overdue_past :
    (id now : ℕ) (t : ApprovalTask) (d : WorkflowDefinition) (db : Db)
    → IsAt id now t d db
    → is_pending_task t.status ≡ false
    → IsAt id now t d (escalate_overdue db).1
unfolding escalate_overdue
escalate_overdue_past id now t d db h past =
    let p = λ (u : ApprovalTask). is_pending_task u.status in
    escalate_tasks_other id now t d (filter (λ r. p r.1) db.approval_tasks.rows) db
      (filter-IsAway p id {a = t} db.approval_tasks.rows h.distinct h.found past) h
