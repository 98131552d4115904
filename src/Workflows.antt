-- ===== src/Workflows.antt =====
-- backend/src/workflows/workflows.service.ts: the tasks by which documents are approved, and their
-- escalation. Times are in milliseconds.
pub mod Escalation
pub mod Overdue
pub mod Expiry
pub mod Choice
pub mod Resolution
use haroti_lpg_management.Common.Enums.{UserRole, ApprovalTaskStatus, WorkflowEntityType}
use haroti_lpg_management.Common.Errors.{Reason, bad_request, not_found, ok}
use haroti_lpg_management.Database.Documents.{WorkflowStep, WorkflowDefinition, ApprovalTask}
use haroti_lpg_management.Database.State.{
  Db, Op, pure, find_or_throw, ◌>>=◌, ◌>>◌, throw_if, modify,
}
use haroti_lpg_management.Database.Table.{find_by_id, store, append, find_where, all_where}
use haroti_lpg_management.Prelude.{
  ℤ, ltb_ℤ, leb_ℤ, length, filter, find, head_of, sort_by, ltb, ◌==◌, if◌then◌else◌, ◌+◌, ◌*◌, ℕ,
  Bool, true, false, not, ◌&&◌, Option, none, some, List, [], ◌∷◌,
}

-- `entityType === x`, by a number for each of the values
abbrev pub entity_tag : WorkflowEntityType → ℕ
entity_tag WorkflowEntityType.expense = 0
entity_tag WorkflowEntityType.requisition = 1
entity_tag WorkflowEntityType.purchase_order = 2
entity_tag WorkflowEntityType.discount = 3
entity_tag WorkflowEntityType.stock_adjustment = 4
entity_tag WorkflowEntityType.loss_case = 5

-- `role === x`, by a number for each of the values
abbrev pub role_tag : UserRole → ℕ
role_tag UserRole.system_admin = 0
role_tag UserRole.director = 1
role_tag UserRole.operations_manager = 2
role_tag UserRole.finance_manager = 3
role_tag UserRole.station_manager = 4
role_tag UserRole.attendant = 5
role_tag UserRole.storekeeper = 6
role_tag UserRole.safety_officer = 7
role_tag UserRole.auditor = 8

-- `where: { entityType, isActive: true }`
unfoldable pub is_active_for : WorkflowEntityType → WorkflowDefinition → Bool
is_active_for kind d = entity_tag d.entity_type == entity_tag kind && d.is_active

unfoldable pub has_steps : WorkflowDefinition → Bool
has_steps d = ltb 0 (length d.steps)

-- The filter of `createTask`.
unfoldable pub is_eligible : WorkflowEntityType → ℤ → WorkflowDefinition → Bool
is_eligible kind amount d = is_active_for kind d && (leb_ℤ d.min_amount amount && has_steps d)

-- The first of the sort by falling `minAmount`.
unfoldable pub choose_definition :
    WorkflowEntityType → ℤ → List (ℕ × WorkflowDefinition) → Option (ℕ × WorkflowDefinition)
choose_definition kind amount rows = head_of (
    sort_by (λ a b. ltb_ℤ b.1.min_amount a.1.min_amount)
      (filter (λ r. is_eligible kind amount r.1) rows))

-- The steps by rising `stepOrder`.
unfoldable pub sorted_steps : WorkflowDefinition → List WorkflowStep
sorted_steps d = sort_by (λ a b. ltb a.step_order b.step_order) d.steps

-- `setHours(getHours() + hours)`
unfoldable pub after_hours : ℕ → ℕ → ℕ
after_hours now hours = now + hours * 3_600_000

pub record TaskParams : Type 0 where
  pub entity_type : WorkflowEntityType
  pub entity_id : ℕ
  pub amount : ℤ
  pub requester_id : ℕ

abbrev pub new_task : TaskParams → ℕ → WorkflowStep → ApprovalTask
new_task p now first = record {
  subject_entity_type = p.entity_type;
  subject_entity_id = p.entity_id;
  amount = p.amount;
  status = ApprovalTaskStatus.pending;
  current_step = first.step_order;
  assigned_role = first.approver_role;
  due_at = after_hours now first.escalation_hours;
  requester_id = p.requester_id;
  resolved_at = none;
  resolved_by_id = none;
}

-- The first step of the definition that `createTask` picks.
unfoldable pub first_step : TaskParams → Db → Option WorkflowStep
first_step p db = elim (choose_definition p.entity_type p.amount db.workflow_definitions.rows) [
  | none ↦ none
  | some r ↦ head_of (sorted_steps r.1)
]

-- `createTask`: the id of the task, or none where there is no definition.
unfoldable pub create_task : TaskParams → Op (Option ℕ)
create_task p db = elim (first_step p db) [
  | none ↦ (ok none, db)
  | some first ↦ (
    ok (some db.approval_tasks.next_id),
    record db { approval_tasks = append (new_task p db.clock first) db.approval_tasks },
  )
]

abbrev pub is_pending_task : ApprovalTaskStatus → Bool
is_pending_task ApprovalTaskStatus.pending = true
is_pending_task _ = false

-- `getPendingTask`
unfoldable pub get_pending_task : ℕ → UserRole → Op ApprovalTask
get_pending_task id role = do
  t ← find_or_throw (not_found Reason.task_not_found) (λ db. find_by_id id db.approval_tasks)
  throw_if (not (is_pending_task t.status)) (bad_request Reason.task_not_pending)
  throw_if (not (role_tag t.assigned_role == role_tag role)) (bad_request Reason.task_other_role)
  pure t

abbrev pub store_task : ℕ → ApprovalTask → Db → Db
store_task id t db = record db { approval_tasks = store id t db.approval_tasks }

abbrev pub resolved : ApprovalTaskStatus → ℕ → ℕ → ApprovalTask → ApprovalTask
resolved status user_id clock t = record t {
  status = status;
  resolved_at = some clock;
  resolved_by_id = some user_id;
}

-- `approve` and `reject`, which differ in the status they set
unfoldable pub resolve_task : ApprovalTaskStatus → ℕ → ℕ → UserRole → Op (Unit {0})
resolve_task status id user_id role = do
  t ← get_pending_task id role
  modify (λ db. store_task id (resolved status user_id db.clock t) db)

abbrev pub approve_task : ℕ → ℕ → UserRole → Op (Unit {0})
approve_task = resolve_task ApprovalTaskStatus.approved

abbrev pub reject_task : ℕ → ℕ → UserRole → Op (Unit {0})
reject_task = resolve_task ApprovalTaskStatus.rejected

-- `steps.find((s) => s.stepOrder === task.currentStep)`
unfoldable pub current_of : WorkflowDefinition → ApprovalTask → Option WorkflowStep
current_of d t = find (λ s. s.step_order == t.current_step) (sorted_steps d)

-- The step of the fallback role, behind the current one.
unfoldable pub fallback_step : Option WorkflowStep → ApprovalTask → Option WorkflowStep
fallback_step none t = none
fallback_step (some s) t = elim s.fallback_role [
  | none ↦ none
  | some role ↦ some (record s { approver_role = role; step_order = t.current_step + 1 })
]

-- `next`
unfoldable pub next_step : WorkflowDefinition → ApprovalTask → Option WorkflowStep
next_step d t = elim (find (λ s. ltb t.current_step s.step_order) (sorted_steps d)) [
  | some s ↦ some s
  | none ↦ fallback_step (current_of d t) t
]

-- `current?.escalationHours ?? 24`
unfoldable pub hours_of : Option WorkflowStep → ℕ
hours_of none = 24
hours_of (some s) = s.escalation_hours

unfoldable pub moved_on :
    WorkflowDefinition → ApprovalTask → ℕ → ApprovalTaskStatus → WorkflowStep → ApprovalTask
moved_on d t now status next = record t {
  current_step = next.step_order;
  assigned_role = next.approver_role;
  status = status;
  due_at = after_hours now (hours_of (current_of d t));
}

-- The body of the loop for a task that is overdue: whether it was escalated.
unfoldable pub escalate_task : ℕ → ApprovalTask → WorkflowDefinition → Op ℕ
escalate_task id t d db = elim (next_step d t) [
  | none ↦ (ok 0, store_task id (record t { status = ApprovalTaskStatus.expired }) db)
  | some next ↦ (
    ok 1,
    store_task id (moved_on d t db.clock ApprovalTaskStatus.pending next)
        (store_task id (moved_on d t db.clock ApprovalTaskStatus.escalated next) db),
  )
]

-- The definition of the task's type, if it has steps.
unfoldable pub definition_of : ApprovalTask → Db → Option WorkflowDefinition
definition_of t db =
    elim (find_where (is_active_for t.subject_entity_type) db.workflow_definitions) [
      | none ↦ none
      | some r ↦ if has_steps r.1 then some r.1 else none
    ]

unfoldable pub escalate_if_due : ℕ × ApprovalTask → Op ℕ
escalate_if_due (id, t) db =
    if ltb db.clock t.due_at
    then (ok 0, db)
    else elim (definition_of t db) [ none ↦ (ok 0, db) | some d ↦ escalate_task id t d db ]

unfoldable pub escalate_tasks : List (ℕ × ApprovalTask) → Op ℕ
escalate_tasks [] = pure 0
escalate_tasks (task ∷ tasks) =
    escalate_if_due task >>= λ one. escalate_tasks tasks >>= λ rest. pure (one + rest)

-- `escalateOverdue`
unfoldable pub escalate_overdue : Op ℕ
escalate_overdue db =
    escalate_tasks (all_where (λ t. is_pending_task t.status) db.approval_tasks) db

-- `pendingCount` and `inbox`, for a role
unfoldable pub is_in_inbox : UserRole → ApprovalTask → Bool
is_in_inbox role t = is_pending_task t.status && role_tag t.assigned_role == role_tag role

unfoldable pub pending_count : UserRole → Db → ℕ
pending_count role db = length (all_where (is_in_inbox role) db.approval_tasks)
