-- ===== src/Expenses.antt =====
-- backend/src/expenses/expenses.service.ts: the expenses of the stations and the deposits of cash.
pub mod Approval
use haroti_lpg_management.Common.Enums.{UserRole, ExpenseStatus, WorkflowEntityType}
use haroti_lpg_management.Common.Errors.{Reason, bad_request, not_found, ok}
use haroti_lpg_management.Database.Documents.{CashDeposit}
use haroti_lpg_management.Database.Entities.{Expense}
use haroti_lpg_management.Database.State.{
  Db, Op, pure, find_or_throw, ◌>>=◌, ◌>>◌, throw_if, modify, when,
}
use haroti_lpg_management.Database.Table.{find_by_id, store, append}
use haroti_lpg_management.Finance.Posting.{post_station_expense}
use haroti_lpg_management.Prelude.{
  ℤ, pos, ltb_ℤ, ◌==◌, if◌then◌else◌, ℕ, Bool, true, false, not, Option, none, some,
}
use haroti_lpg_management.Workflows.{TaskParams, create_task}

pub record CreateExpenseDto : Type 0 where
  pub amount : ℤ
  pub paid_in_cash : Bool
  pub shift_id : Option ℕ

-- `dto.amount > 50000`
unfoldable pub needs_approval : ℤ → Bool
needs_approval amount = ltb_ℤ (pos 5_000_000) amount

abbrev pub new_expense : CreateExpenseDto → ℕ → Expense
new_expense dto user_id = record {
  amount = dto.amount;
  paid_in_cash = dto.paid_in_cash;
  status = if needs_approval dto.amount then ExpenseStatus.submitted else ExpenseStatus.approved;
  shift_id = dto.shift_id;
  created_by_id = user_id;
  approved_by_id = none;
}

unfoldable pub save_expense : Expense → Op ℕ
save_expense e db = (ok db.expenses.next_id, record db { expenses = append e db.expenses })

abbrev pub expense_task : ℕ → ℤ → ℕ → TaskParams
expense_task id amount user_id = record {
  entity_type = WorkflowEntityType.expense;
  entity_id = id;
  amount = amount;
  requester_id = user_id;
}

-- What `create` does with the expense that it has saved.
unfoldable pub settle_expense : Bool → ℤ → ℕ → ℕ → Op (Unit {0})
settle_expense true amount user_id id = create_task (expense_task id amount user_id) >> pure tt
settle_expense false amount user_id id = post_station_expense amount id >> pure tt

-- `create`
unfoldable pub create_expense : CreateExpenseDto → ℕ → Op ℕ
create_expense dto user_id = do
  id ← save_expense (new_expense dto user_id)
  settle_expense (needs_approval dto.amount) dto.amount user_id id
  pure id

-- The roles of `approve`.
abbrev pub may_approve_expense : UserRole → Bool
may_approve_expense UserRole.station_manager = true
may_approve_expense UserRole.operations_manager = true
may_approve_expense UserRole.finance_manager = true
may_approve_expense UserRole.system_admin = true
may_approve_expense UserRole.director = true
may_approve_expense _ = false

abbrev pub is_approved_expense : ExpenseStatus → Bool
is_approved_expense ExpenseStatus.approved = true
is_approved_expense _ = false

abbrev pub is_rejected_expense : ExpenseStatus → Bool
is_rejected_expense ExpenseStatus.rejected = true
is_rejected_expense _ = false

unfoldable pub find_expense : ℕ → Op Expense
find_expense id =
    find_or_throw (not_found Reason.expense_not_found) (λ db. find_by_id id db.expenses)

abbrev pub store_expense : ℕ → Expense → Db → Db
store_expense id e db = record db { expenses = store id e db.expenses }

-- `approve`, behind the test for an expense that is approved already
unfoldable pub approve_waiting : ℕ → ℕ → Expense → Op (Unit {0})
approve_waiting id approver_id e = do
  throw_if (is_rejected_expense e.status) (bad_request Reason.expense_rejected)
  throw_if (e.created_by_id == approver_id) (bad_request Reason.expense_own_approval)
  modify (
      store_expense id
        (record e { status = ExpenseStatus.approved; approved_by_id = some approver_id }))
  post_station_expense e.amount id
  pure tt

-- `approve`
unfoldable pub approve_expense : ℕ → ℕ → UserRole → Op (Unit {0})
approve_expense id approver_id role = do
  throw_if (not (may_approve_expense role)) (bad_request Reason.role_insufficient)
  e ← find_expense id
  when (not (is_approved_expense e.status)) (approve_waiting id approver_id e)

-- `reject`
unfoldable pub reject_expense : ℕ → ℕ → Op (Unit {0})
reject_expense id approver_id = do
  e ← find_expense id
  modify (
      store_expense id
        (record e { status = ExpenseStatus.rejected; approved_by_id = some approver_id }))

abbrev pub new_deposit : ℕ → ℤ → Option ℕ → ℕ → CashDeposit
new_deposit station_id amount shift_id user_id = record {
  station_id = station_id;
  amount = amount;
  shift_id = shift_id;
  created_by_id = user_id;
}

-- `createDeposit`
unfoldable pub create_deposit : ℕ → ℤ → Option ℕ → ℕ → Op ℕ
create_deposit station_id amount shift_id user_id db = (
  ok db.cash_deposits.next_id,
  record db {
    cash_deposits = append (new_deposit station_id amount shift_id user_id) db.cash_deposits;
  },
)
