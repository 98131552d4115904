-- ===== src/Tests/Books.antt =====
-- The journal, the customers, the points, the shifts and the requisitions.
use haroti_lpg_management.Common.Enums.{PaymentMethod, JournalEventType}
use haroti_lpg_management.Common.Errors.{Reason, bad_request, ok, err}
use haroti_lpg_management.Customers.{apply_credit, relieve_credit, PaymentDto, record_payment}
use haroti_lpg_management.Customers.Credit.{
  BalancesAreNonneg, relieve_credit-apply_credit, record_payment-BalancesAreNonneg,
}
use haroti_lpg_management.Database.Entities.{ReferenceType, same_reference}
use haroti_lpg_management.Database.State.{◌>>=◌, ◌>>◌}
use haroti_lpg_management.Database.Table.{lookup, replace, find_by_id}
use haroti_lpg_management.Finance.Accounts.{cash_account, ar_franchise, revenue_franchise}
use haroti_lpg_management.Finance.Balance.{JournalIsBalanced}
use haroti_lpg_management.Finance.Journal.{
  posting_closed, assert_open_for_posting, EntryParams, save_entry, post_entry, reverse_found,
  reverse_entry,
}
use haroti_lpg_management.Finance.Once.{reverse_entry_again, post_once_again}
use haroti_lpg_management.Finance.Posting.{entry_of, is_entry_for, post_once}
use haroti_lpg_management.Finance.Reports.{
  entry_net, rows_net, trial_balance-zero, balance_sheet-balanced,
}
use haroti_lpg_management.Finance.Reversal.{reverse_entry_twice}
use haroti_lpg_management.Finance.Statements.{
  AccountRow, counts, aggregate_account_balances, trial_balance, balance_sheet,
}
use haroti_lpg_management.Loyalty.{redeem}
use haroti_lpg_management.Loyalty.Points.{PointsAreNonneg, redeem-PointsAreNonneg}
use haroti_lpg_management.Prelude.{
  ℤ, pos, ◌+ℤ◌, sum_of, ◌==◌, ℕ, ◌≡◌, refl, Bool, true, none, some, arith,
}
use haroti_lpg_management.Tests.Data.{a_customer, an_entry, company}

pub company-JournalIsBalanced : JournalIsBalanced company
unfolding sum_of ◌+ℤ◌
company-JournalIsBalanced = (refl, tt)

trial_balance-zero_example :
    sum_of (λ (r : AccountRow × ℤ). r.1) (trial_balance 0 30 company) ≡ pos 0
trial_balance-zero_example = trial_balance-zero 0 30 company company-JournalIsBalanced

balance_sheet-balanced_example :
    ((balance_sheet 30 company).total_assets
      ≡ (balance_sheet 30 company).total_liabilities_and_equity)
    × ((balance_sheet 30 company).balanced ≡ true)
balance_sheet-balanced_example = balance_sheet-balanced 30 company company-JournalIsBalanced

is_cash : ℕ → Bool
is_cash k = k == cash_account

reverse_entry_twice_example :
    rows_net is_cash (aggregate_account_balances 0 30 (reverse_entry 0 company).1)
      +ℤ (entry_net is_cash an_entry +ℤ entry_net is_cash an_entry)
    ≡ rows_net is_cash (aggregate_account_balances 0 30 company)
unfolding reverse_entry reverse_found assert_open_for_posting posting_closed save_entry ◌>>=◌ ◌>>◌
    lookup replace counts
reverse_entry_twice_example =
    reverse_entry_twice is_cash 0 30 0 1 company (reverse_entry 0 company).1 an_entry refl refl refl
      (omega arith) (omega arith)

relieve_credit-apply_credit_example :
    find_by_id 0 (relieve_credit 0 (pos 50_000) (apply_credit 0 (pos 50_000) company).1).1.customers
    ≡ some a_customer
unfolding lookup
relieve_credit-apply_credit_example =
    relieve_credit-apply_credit 0 (pos 50_000) company {c = a_customer} refl (omega arith)

a_payment : PaymentDto
a_payment = record {
  amount = pos 30_000;
  payment_method = PaymentMethod.cash;
  client_txn_id = none;
}

record_payment-BalancesAreNonneg_example :
    BalancesAreNonneg (record_payment 0 a_payment 0 company).1
unfolding BalancesAreNonneg
record_payment-BalancesAreNonneg_example =
    (record_payment-BalancesAreNonneg 0 a_payment 0).run company (omega arith, tt)

redeem-PointsAreNonneg_example : PointsAreNonneg (redeem 0 (pos 7) company).1
unfolding PointsAreNonneg
redeem-PointsAreNonneg_example = (redeem-PointsAreNonneg 0 (pos 7)).run company (omega arith, tt)

reverse_entry_again_example :
    reverse_entry 0 (reverse_entry 0 company).1
    ≡ (err (bad_request Reason.entry_already_reversed), (reverse_entry 0 company).1)
unfolding reverse_entry reverse_found assert_open_for_posting posting_closed save_entry ◌>>=◌ ◌>>◌
    lookup replace
reverse_entry_again_example = reverse_entry_again 0 1 company (reverse_entry 0 company).1 refl

abbrev settlement : EntryParams
settlement =
    entry_of JournalEventType.franchise_settlement ReferenceType.franchise_settlement 3 ar_franchise
      revenue_franchise (pos 40_000)

post_once_again_example :
    post_once settlement (post_once settlement company).1 ≡ (ok 1, (post_once settlement company).1)
unfolding post_once post_entry is_entry_for same_reference assert_open_for_posting posting_closed
    save_entry ◌>>◌
post_once_again_example =
    post_once_again settlement settlement company (post_once settlement company).1 refl refl refl
