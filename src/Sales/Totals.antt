-- ===== src/Sales/Totals.antt =====
-- The sums of `todaySummary`.
use haroti_lpg_management.Common.Enums.{PaymentMethod}
use haroti_lpg_management.Database.Entities.{Sale}
use haroti_lpg_management.Database.State.{Db}
use haroti_lpg_management.Prelude.{
  ℤ, ◌+ℤ◌, int_laws, filter, sum_of, if◌then◌else◌, Bool-cases, ℕ, ◌≡◌, refl, ap, ◌∙◌, inl, inr,
  Bool, Option, List, [], ◌∷◌,
}
use haroti_lpg_management.Sales.Summary.{every_method, was_paid_by, revenue_of, today_summary}

-- Each sale stands under exactly one method of payment.
sum_filter :
    (p : ℕ × Sale → Bool) (f : ℕ × Sale → ℤ) (s : ℕ × Sale) (sales : List (ℕ × Sale))
    → sum_of f (filter p (s ∷ sales))
      ≡ (if p s then f s +ℤ sum_of f (filter p sales) else sum_of f (filter p sales))
unfolding sum_of
sum_filter p f s sales = elim (Bool-cases (p s)) [ inl hit ↦ rw hit refl | inr miss ↦ rw miss refl ]

by_method : List (ℕ × Sale) → ℤ
by_method sales = sum_of (λ m. revenue_of (filter (was_paid_by m) sales)) every_method

by_method-step :
    (s : ℕ × Sale) (sales : List (ℕ × Sale))
    → by_method (s ∷ sales) ≡ s.1.total_amount +ℤ by_method sales
unfolding by_method revenue_of sum_of
by_method-step (i, s) sales = go s.payment_method refl
  where
    go :
        (m : PaymentMethod)
        → s.payment_method ≡ m
        → by_method ((i, s) ∷ sales) ≡ s.total_amount +ℤ by_method sales
    go PaymentMethod.cash e = rw e (omega int_laws)
    go PaymentMethod.airtel_money e = rw e (omega int_laws)
    go PaymentMethod.tnm_mpamba e = rw e (omega int_laws)
    go PaymentMethod.bank_transfer e = rw e (omega int_laws)
    go PaymentMethod.card e = rw e (omega int_laws)
    go PaymentMethod.customer_account e = rw e (omega int_laws)
    go PaymentMethod.paychangu e = rw e (omega int_laws)
    go PaymentMethod.mixed e = rw e (omega int_laws)

by_method-total : (sales : List (ℕ × Sale)) → by_method sales ≡ revenue_of sales
unfolding by_method revenue_of sum_of
by_method-total [] = omega int_laws
by_method-total (s ∷ sales) =
    by_method-step s sales ∙ ap (λ x. s.1.total_amount +ℤ x) (by_method-total sales)

-- The amounts by method of payment in the day's summary add up to its total revenue.
pub today_summary-total :
    (station : Option ℕ) (db : Db)
    → sum_of (λ x. x) (today_summary station db).by_payment_method
      ≡ (today_summary station db).total_revenue
unfolding today_summary by_method sum_of
today_summary-total station db = by_method-total _
