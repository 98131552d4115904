-- ===== src/Sales/Summary.antt =====
-- `todaySummary`: the completed sales of the current day, by method of payment. The server is
-- taken to run in UTC.
use haroti_lpg_management.Common.Enums.{PaymentMethod}
use haroti_lpg_management.Database.Entities.{Sale}
use haroti_lpg_management.Database.State.{Db}
use haroti_lpg_management.Database.Table.{all_where}
use haroti_lpg_management.Finance.Journal.{day_of}
use haroti_lpg_management.Prelude.{
  ℤ, length, filter, sum_of, ◌==◌, ℕ, Bool, true, ◌&&◌, Option, none, some, List, [], ◌∷◌, map,
}
use haroti_lpg_management.Sales.Fingerprint.{payment_tag}
use haroti_lpg_management.Sales.Lifecycle.{is_completed}

pub record Summary : Type 0 where
  pub transaction_count : ℕ
  pub total_revenue : ℤ
  pub total_kg_sold : ℤ
  pub by_payment_method : List ℤ

abbrev pub every_method : List PaymentMethod
every_method =
    PaymentMethod.cash ∷ PaymentMethod.airtel_money ∷ PaymentMethod.tnm_mpamba
    ∷ PaymentMethod.bank_transfer ∷ PaymentMethod.card ∷ PaymentMethod.customer_account
    ∷ PaymentMethod.paychangu ∷ PaymentMethod.mixed ∷ []

-- `where: { soldAt: Between(start, end), status: COMPLETED, stationId }`
unfoldable pub is_of_day : ℕ → Option ℕ → Sale → Bool
is_of_day day station s =
    day_of s.sold_at == day
    && is_completed s.status
    && elim station [ none ↦ true | some t ↦ s.station_id == t ]

abbrev pub was_paid_by : PaymentMethod → ℕ × Sale → Bool
was_paid_by m s = payment_tag (s.1.payment_method) == payment_tag m

unfoldable pub revenue_of : List (ℕ × Sale) → ℤ
revenue_of sales = sum_of (λ s. s.1.total_amount) sales

unfoldable pub today_summary : Option ℕ → Db → Summary
today_summary station db =
    let sales = all_where (is_of_day (day_of db.clock) station) db.sales in
    record {
      transaction_count = length sales;
      total_revenue = revenue_of sales;
      total_kg_sold = sum_of (λ s. s.1.lpg_quantity_kg) sales;
      by_payment_method = map (λ m. revenue_of (filter (was_paid_by m) sales)) every_method;
    }
