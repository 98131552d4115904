-- ===== src/Tests/Tasks.antt =====
-- The tasks of approval and the expenses.
use haroti_lpg_management.Common.Enums.{
  UserRole, ExpenseStatus, FiscalPeriodStatus, ApprovalTaskStatus, WorkflowEntityType,
}
use haroti_lpg_management.Common.Errors.{Reason, bad_request, ok, err}
use haroti_lpg_management.Database.Documents.{WorkflowStep, WorkflowDefinition, ApprovalTask}
use haroti_lpg_management.Database.Entities.{Expense}
use haroti_lpg_management.Database.State.{Db}
use haroti_lpg_management.Database.Table.{lookup}
use haroti_lpg_management.Expenses.{approve_expense}
use haroti_lpg_management.Expenses.Approval.{approve_expense-unposted}
use haroti_lpg_management.Finance.Journal.{day_of, covers, posting_closed}
use haroti_lpg_management.Prelude.{
  pos, ◌≤ℤ◌, All, insert_by, sort_by, ℕ, ◌≡◌, refl, true, none, some, [], ◌∷◌, arith,
}
use haroti_lpg_management.Tests.Data.{table_of, company}
use haroti_lpg_management.Workflows.{
  is_active_for, has_steps, is_eligible, choose_definition, after_hours, definition_of,
}
use haroti_lpg_management.Workflows.Choice.{choose_definition-most}
use haroti_lpg_management.Workflows.Expiry.{overdue_runs, HasExpired, escalations-expire}

abbrev manager_step : WorkflowStep
manager_step = record {
  step_order = 1;
  approver_role = UserRole.station_manager;
  escalation_hours = 24;
  fallback_role = none;
}

abbrev director_step : WorkflowStep
director_step = record {
  step_order = 2;
  approver_role = UserRole.operations_manager;
  escalation_hours = 24;
  fallback_role = some UserRole.director;
}

abbrev a_definition : WorkflowDefinition
a_definition = record {
  entity_type = WorkflowEntityType.expense;
  min_amount = pos 0;
  is_active = true;
  steps = director_step ∷ manager_step ∷ [];
}

abbrev large_definition : WorkflowDefinition
large_definition = record a_definition { min_amount = pos 100_000 }

abbrev a_task : ApprovalTask
a_task = record {
  subject_entity_type = WorkflowEntityType.expense;
  subject_entity_id = 0;
  amount = pos 7_000_000;
  status = ApprovalTaskStatus.pending;
  current_step = 1;
  assigned_role = UserRole.station_manager;
  due_at = 10;
  requester_id = 0;
  resolved_at = none;
  resolved_by_id = none;
}

abbrev inbox : Db
inbox = record company {
  workflow_definitions = table_of a_definition;
  approval_tasks = table_of a_task;
}

escalations-expire_example :
    HasExpired 0 (overdue_runs (100_000_000 ∷ 200_000_000 ∷ 300_000_000 ∷ []) inbox)
unfolding lookup definition_of is_active_for has_steps after_hours
escalations-expire_example =
    escalations-expire 2 24 0 (100_000_000 ∷ 200_000_000 ∷ 300_000_000 ∷ []) a_task a_definition
      inbox (refl, refl, refl, (tt, tt)) (omega arith, (omega arith, tt)) (omega arith)
      (omega arith, (omega arith, tt)) (omega arith) (omega arith, (omega arith, (omega arith, tt)))
      (omega arith)

choice_lem :
    choose_definition WorkflowEntityType.expense
      (pos 7_000_000)
      ((0, a_definition) ∷ (1, large_definition) ∷ [])
    ≡ some (1, large_definition)
unfolding choose_definition sort_by is_eligible is_active_for has_steps insert_by
choice_lem = refl

choose_definition-most_example :
    (is_eligible WorkflowEntityType.expense (pos 7_000_000) large_definition ≡ true)
    × All {A = ℕ × WorkflowDefinition}
        (λ s.
          is_eligible WorkflowEntityType.expense (pos 7_000_000) s.1 ≡ true
          → s.1.min_amount ≤ℤ large_definition.min_amount)
        ((0, a_definition) ∷ (1, large_definition) ∷ [])
choose_definition-most_example =
    choose_definition-most WorkflowEntityType.expense (pos 7_000_000)
      ((0, a_definition) ∷ (1, large_definition) ∷ []) {r = (1, large_definition)} choice_lem

abbrev an_expense : Expense
an_expense = record {
  amount = pos 7_000_000;
  paid_in_cash = true;
  status = ExpenseStatus.submitted;
  shift_id = none;
  created_by_id = 0;
  approved_by_id = none;
}

abbrev closed_station : Db
closed_station = record company {
  expenses = table_of an_expense;
  periods =
      table_of (record { start_date = 0; end_date = 9; status = FiscalPeriodStatus.hard_closed });
}

closed_station_lem : posting_closed closed_station ≡ true
unfolding posting_closed covers day_of
closed_station_lem = refl

approve_expense-unposted_example :
    (db' : Db) × (approve_expense 0 1 UserRole.station_manager closed_station
      ≡ (err (bad_request Reason.period_hard_closed), db'))
    × (db'.entries ≡ closed_station.entries)
    × (approve_expense 0 2 UserRole.director (record db' { clock = 900_000_000 })
        ≡ (ok tt, record db' { clock = 900_000_000 }))
unfolding lookup
approve_expense-unposted_example =
    approve_expense-unposted 0 1 2 900_000_000 UserRole.station_manager UserRole.director
      closed_station an_expense refl refl refl refl refl refl closed_station_lem
