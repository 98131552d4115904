-- ===== src/Finance/Statements.antt =====
-- The financial statements: `aggregateAccountBalances`, `trialBalance`, `incomeStatement` and
-- `balanceSheet`. `parseDateRange` works on local calendar days; here the range is given by its two
-- ends in milliseconds.
use haroti_lpg_management.Database.Entities.{JournalLine, JournalEntry}
use haroti_lpg_management.Database.State.{Db}
use haroti_lpg_management.Finance.Accounts.{
  AccountClass, class_tag, classify_account, account_balance,
}
use haroti_lpg_management.Finance.Journal.{is_reversed}
use haroti_lpg_management.Prelude.{
  ℤ, pos, ◌+ℤ◌, ◌-ℤ◌, ltb_ℤ, eqb_ℤ, abs, sum_of, ltb, ◌==◌, if◌then◌else◌, ℕ, Bool, not, ◌&&◌, List,
  [], ◌∷◌, map,
}

pub record AccountRow : Type 0 where
  pub code : ℕ
  pub debit : ℤ
  pub credit : ℤ

-- One line added to the record of its account, which is made if it is not there.
unfoldable pub add_line : JournalLine → List AccountRow → List AccountRow
add_line l [] =
    record {
      code = l.account_code;
      debit = pos 0 +ℤ l.debit_amount;
      credit = pos 0 +ℤ l.credit_amount;
    }
    ∷ []
add_line l (r ∷ rows) =
    if r.code == l.account_code
    then record r { debit = r.debit +ℤ l.debit_amount; credit = r.credit +ℤ l.credit_amount } ∷ rows
    else r ∷ add_line l rows

unfoldable pub add_lines : List JournalLine → List AccountRow → List AccountRow
add_lines [] rows = rows
add_lines (l ∷ ls) rows = add_lines ls (add_line l rows)

-- The entry is not skipped by the loop.
unfoldable pub counts : ℕ → ℕ → JournalEntry → Bool
counts start end e =
    not (is_reversed e.posting_status) && not (ltb e.posted_at start) && not (ltb end e.posted_at)

unfoldable pub aggregate : ℕ → ℕ → List (ℕ × JournalEntry) → List AccountRow → List AccountRow
aggregate start end [] rows = rows
aggregate start end (e ∷ es) rows =
    aggregate start end es (if counts start end e.1 then add_lines e.1.lines rows else rows)

unfoldable pub aggregate_account_balances : ℕ → ℕ → Db → List AccountRow
aggregate_account_balances start end db = aggregate start end db.entries.rows []

-- `trialBalance`, in the order of the accounts' first lines; the sort by code is left out.
unfoldable pub trial_balance : ℕ → ℕ → Db → List (AccountRow × ℤ)
trial_balance start end db =
    map (λ r. (r, r.debit -ℤ r.credit)) (aggregate_account_balances start end db)

abbrev pub in_class : AccountClass → ℕ → Bool
in_class c code = class_tag (classify_account code) == class_tag c

-- The lines of a statement: the accounts of one class with a balance that is not zero.
unfoldable pub statement_lines : AccountClass → List AccountRow → List (ℕ × ℤ)
statement_lines c [] = []
statement_lines c (r ∷ rows) =
    let amount = account_balance (classify_account r.code) r.debit r.credit in
    let rest = statement_lines c rows in
    if eqb_ℤ amount (pos 0)
    then rest
    else if in_class c r.code
    then (r.code, amount) ∷ rest
    else rest

abbrev total_of : List (ℕ × ℤ) → ℤ
total_of = sum_of (λ l. l.1)

pub record IncomeStatement : Type 0 where
  pub total_revenue : ℤ
  pub total_cogs : ℤ
  pub gross_profit : ℤ
  pub total_expenses : ℤ
  pub net_income : ℤ

unfoldable pub income_statement : ℕ → ℕ → Db → IncomeStatement
income_statement start end db =
    let rows = aggregate_account_balances start end db in
    let total_revenue = total_of (statement_lines AccountClass.revenue rows) in
    let total_cogs = total_of (statement_lines AccountClass.cogs rows) in
    let total_expenses = total_of (statement_lines AccountClass.expense rows) in
    record {
      total_revenue = total_revenue;
      total_cogs = total_cogs;
      gross_profit = total_revenue -ℤ total_cogs;
      total_expenses = total_expenses;
      net_income = total_revenue -ℤ total_cogs -ℤ total_expenses;
    }

pub record BalanceSheet : Type 0 where
  pub total_assets : ℤ
  pub total_liabilities : ℤ
  pub total_equity : ℤ
  pub total_liabilities_and_equity : ℤ
  pub balanced : Bool

-- `balanceSheet`, of all entries up to a time.
unfoldable pub balance_sheet : ℕ → Db → BalanceSheet
balance_sheet end db =
    let rows = aggregate_account_balances 0 end db in
    let total_assets = total_of (statement_lines AccountClass.asset rows) in
    let total_liabilities = total_of (statement_lines AccountClass.liability rows) in
    let total_equity = (income_statement 0 end db).net_income in
    record {
      total_assets = total_assets;
      total_liabilities = total_liabilities;
      total_equity = total_equity;
      total_liabilities_and_equity = total_liabilities +ℤ total_equity;
      balanced = ltb_ℤ (abs (total_assets -ℤ (total_liabilities +ℤ total_equity))) (pos 2);
    }
