-- ===== src/Shifts/Reckoning.antt =====
-- The sums of `closeShift`: the payments of the shift's sales by kind, the gas sold, and the
-- expenses paid from the till.
use haroti_lpg_management.Common.Enums.{PaymentMethod, ExpenseStatus}
use haroti_lpg_management.Database.Entities.{Expense, SalePayment, Sale}
use haroti_lpg_management.Database.State.{Db}
use haroti_lpg_management.Database.Table.{all_where}
use haroti_lpg_management.Prelude.{
  ℤ, pos, ◌+ℤ◌, sum_of, ◌==◌, ℕ, Bool, true, false, ◌&&◌, none, some, List, [], ◌∷◌,
}

pub record Totals : Type 0 where
  pub cash : ℤ
  pub mobile_money : ℤ
  pub bank : ℤ
  pub credit : ℤ
  pub lpg_sold : ℤ

abbrev pub no_totals : Totals
no_totals = record {
  cash = pos 0;
  mobile_money = pos 0;
  bank = pos 0;
  credit = pos 0;
  lpg_sold = pos 0;
}

-- The `switch` on the method of a payment.
unfoldable pub add_payment : PaymentMethod → ℤ → Totals → Totals
add_payment PaymentMethod.airtel_money a t = record t { mobile_money = t.mobile_money +ℤ a }
add_payment PaymentMethod.tnm_mpamba a t = record t { mobile_money = t.mobile_money +ℤ a }
add_payment PaymentMethod.paychangu a t = record t { mobile_money = t.mobile_money +ℤ a }
add_payment PaymentMethod.bank_transfer a t = record t { bank = t.bank +ℤ a }
add_payment PaymentMethod.card a t = record t { bank = t.bank +ℤ a }
add_payment PaymentMethod.customer_account a t = record t { credit = t.credit +ℤ a }
add_payment _ a t = record t { cash = t.cash +ℤ a }

unfoldable pub add_payments : List SalePayment → Totals → Totals
add_payments [] t = t
add_payments (p ∷ ps) t = add_payments ps (add_payment p.method p.amount t)

-- The loop over the sales.
unfoldable pub sale_totals : List (ℕ × Sale) → Totals → Totals
sale_totals [] t = t
sale_totals (s ∷ ss) t =
    sale_totals ss
      (add_payments s.1.payments (record t { lpg_sold = t.lpg_sold +ℤ s.1.lpg_quantity_kg }))

abbrev pub is_due : ExpenseStatus → Bool
is_due ExpenseStatus.approved = true
is_due ExpenseStatus.submitted = true
is_due _ = false

-- `where: { shiftId, status: In([APPROVED, SUBMITTED]) }`, paid in cash
unfoldable pub is_cash_expense_of : ℕ → Expense → Bool
is_cash_expense_of shift_id e =
    elim e.shift_id [ none ↦ false | some s ↦ s == shift_id ] && is_due e.status && e.paid_in_cash

unfoldable pub cash_expenses_of : ℕ → Db → ℤ
cash_expenses_of shift_id db =
    sum_of (λ e. e.1.amount) (all_where (is_cash_expense_of shift_id) db.expenses)

unfoldable pub shift_sales : ℕ → Db → List (ℕ × Sale)
shift_sales shift_id db = all_where (λ s. s.shift_id == shift_id) db.sales
