-- ===== src/Finance/Reports.antt =====
-- The trial balance and the balance sheet against the journal that they are made from.
use mathlib.Core.Path.{ap₂}
use haroti_lpg_management.Database.Entities.{JournalLine, JournalEntry}
use haroti_lpg_management.Database.State.{Db}
use haroti_lpg_management.Finance.Accounts.{
  AccountClass, class_tag, classify_account, account_balance,
}
use haroti_lpg_management.Finance.Balance.{debits, credits, IsBalanced, JournalIsBalanced}
use haroti_lpg_management.Finance.Statements.{
  AccountRow, add_line, add_lines, counts, aggregate, aggregate_account_balances, trial_balance,
  in_class, statement_lines, income_statement, balance_sheet,
}
use haroti_lpg_management.Prelude.{
  ℤ, pos, pos_part, neg_part, ◌+ℤ◌, ◌-ℤ◌, ltb_ℤ, eqb_ℤ, abs, negate, int_laws, All, sum_of, ◌==◌,
  if◌then◌else◌, ==_iff, Bool-cases, ℕ, ◌≡◌, refl, sym, ap, ◌∙◌, inl, inr, Bool, true, false, List,
  [], ◌∷◌, map, arith,
}

-- What a line adds to the accounts that a test picks.
abbrev pub line_net : (ℕ → Bool) → JournalLine → ℤ
line_net p l = if p l.account_code then l.debit_amount -ℤ l.credit_amount else pos 0

-- What is in the accounts that a test picks.
abbrev row_net : (ℕ → Bool) → AccountRow → ℤ
row_net p r = if p r.code then r.debit -ℤ r.credit else pos 0

abbrev pub entry_net : (ℕ → Bool) → JournalEntry → ℤ
entry_net p e = sum_of (line_net p) e.lines

abbrev pub rows_net : (ℕ → Bool) → List AccountRow → ℤ
rows_net p = sum_of (row_net p)

-- What an entry contributes to those accounts, if the range counts it.
abbrev pub contribution : (ℕ → Bool) → ℕ → ℕ → JournalEntry → ℤ
contribution p start end e = if counts start end e then entry_net p e else pos 0

-- The net of those accounts over all entries.
abbrev pub journal_net : (ℕ → Bool) → ℕ → ℕ → List (ℕ × JournalEntry) → ℤ
journal_net p start end = sum_of (λ e. contribution p start end e.1)

rows_net-add_line :
    (p : ℕ → Bool) (l : JournalLine) (rows : List AccountRow)
    → rows_net p (add_line l rows) ≡ rows_net p rows +ℤ line_net p l
unfolding add_line sum_of
rows_net-add_line p l [] = elim (Bool-cases (p l.account_code)) [
  | inl hit ↦ rw hit (omega int_laws)
  | inr miss ↦ rw miss (omega int_laws)
]
rows_net-add_line p l (r ∷ rows) = elim (Bool-cases (r.code == l.account_code)) [
  | inl same ↦
      let e : r.code ≡ l.account_code = (==_iff r.code l.account_code).0 same in
      elim (Bool-cases (p r.code)) [
        | inl hit ↦ rw (same, hit, rw e at hit) (omega int_laws)
        | inr miss ↦ rw (same, miss, rw e at miss) (omega int_laws)
      ]
  | inr other ↦ rw (other, rows_net-add_line p l rows) (omega int_laws)
]

rows_net-add_lines :
    (p : ℕ → Bool) (ls : List JournalLine) (rows : List AccountRow)
    → rows_net p (add_lines ls rows) ≡ rows_net p rows +ℤ sum_of (line_net p) ls
unfolding add_lines sum_of
rows_net-add_lines p [] rows = omega int_laws
rows_net-add_lines p (l ∷ ls) rows =
    rw (rows_net-add_lines p ls (add_line l rows), rows_net-add_line p l rows) (omega int_laws)

rows_net-aggregate :
    (p : ℕ → Bool) (start end : ℕ) (es : List (ℕ × JournalEntry)) (rows : List AccountRow)
    → rows_net p (aggregate start end es rows) ≡ rows_net p rows +ℤ journal_net p start end es
unfolding aggregate sum_of
rows_net-aggregate p start end [] rows = omega int_laws
rows_net-aggregate p start end (e ∷ es) rows = elim (Bool-cases (counts start end e.1)) [
  | inl counted ↦
      rw
        (
          counted,
          rows_net-aggregate p start end es (add_lines e.1.lines rows),
          rows_net-add_lines p e.1.lines rows,
        )
        (omega int_laws)
  | inr skipped ↦ rw (skipped, rows_net-aggregate p start end es rows) (omega int_laws)
]

-- The aggregated balances of any accounts are the sum of what the counted entries put there.
pub aggregate-net :
    (p : ℕ → Bool) (start end : ℕ) (db : Db)
    → rows_net p (aggregate_account_balances start end db) ≡ journal_net p start end db.entries.rows
unfolding aggregate_account_balances sum_of
aggregate-net p start end db =
    rw (rows_net-aggregate p start end db.entries.rows []) (omega int_laws)

abbrev every_account : ℕ → Bool
every_account code = true

entry_net-zero :
    (ls : List JournalLine) → sum_of (line_net every_account) ls ≡ debits ls -ℤ credits ls
unfolding sum_of
entry_net-zero [] = omega int_laws
entry_net-zero (l ∷ ls) = rw (entry_net-zero ls) (omega int_laws)

minus_self : (a b : ℤ) → a ≡ b → a -ℤ b ≡ pos 0
minus_self a b e = rw e (omega int_laws)

journal_net-zero :
    (start end : ℕ) (es : List (ℕ × JournalEntry))
    → All (λ e. IsBalanced e.1) es
    → journal_net every_account start end es ≡ pos 0
unfolding sum_of
journal_net-zero start end [] h = refl
journal_net-zero start end (e ∷ es) (b, bs) =
    let zero_entry = entry_net-zero e.1.lines ∙ minus_self _ _ b in
    elim (Bool-cases (counts start end e.1)) [
      | inl counted ↦ rw (counted, journal_net-zero start end es bs, zero_entry) (omega int_laws)
      | inr skipped ↦ rw (skipped, journal_net-zero start end es bs) (omega int_laws)
    ]

-- The balances of the trial balance of a balanced journal add up to zero over any range of time.
pub trial_balance-zero :
    (start end : ℕ) (db : Db)
    → JournalIsBalanced db
    → sum_of (λ (r : AccountRow × ℤ). r.1) (trial_balance start end db) ≡ pos 0
unfolding trial_balance sum_of
trial_balance-zero start end db h =
    balances (aggregate_account_balances start end db)
    ∙ aggregate-net every_account start end db
    ∙ journal_net-zero start end db.entries.rows h
  where
    balances :
        (rows : List AccountRow)
        → sum_of
            (λ (r : AccountRow × ℤ). r.1)
            (map (λ (r : AccountRow). (r, r.debit -ℤ r.credit)) rows)
          ≡ rows_net every_account rows
    balances [] = refl
    balances (r ∷ rows) = rw (balances rows) refl

-- The sign of a class: liabilities and revenue are counted on the credit side.
abbrev signed : AccountClass → ℤ → ℤ
signed AccountClass.liability n = negate n
signed AccountClass.revenue n = negate n
signed _ n = n

account_balance-signed :
    (k c : AccountClass) (d r : ℤ)
    → (class_tag k == class_tag c) ≡ true
    → account_balance k d r ≡ signed c (d -ℤ r)
unfolding account_balance
account_balance-signed AccountClass.asset AccountClass.asset d r h = refl
account_balance-signed AccountClass.liability AccountClass.liability d r h = omega int_laws
account_balance-signed AccountClass.revenue AccountClass.revenue d r h = omega int_laws
account_balance-signed AccountClass.cogs AccountClass.cogs d r h = refl
account_balance-signed AccountClass.expense AccountClass.expense d r h = refl
account_balance-signed _ _ d r h = cc

signed-zero : (c : AccountClass) → signed c (pos 0) ≡ pos 0
unfolding negate
signed-zero AccountClass.liability = refl
signed-zero _ = refl

signed-add : (c : AccountClass) (a b : ℤ) → signed c a +ℤ signed c b ≡ signed c (a +ℤ b)
signed-add AccountClass.liability a b = omega int_laws
signed-add _ a b = omega int_laws

eqb_ℤ-eq : (a b : ℤ) → eqb_ℤ a b ≡ true → a ≡ b
eqb_ℤ-eq a b h = ground arith

abbrev amount_of : AccountRow → ℤ
amount_of r = account_balance (classify_account r.code) r.debit r.credit

row_net-signed :
    (c : AccountClass) (r : AccountRow)
    → in_class c r.code ≡ true
    → amount_of r ≡ signed c (row_net (in_class c) r)
row_net-signed c r hit =
    rw hit (account_balance-signed (classify_account r.code) c r.debit r.credit hit)

row_net-out :
    (c : AccountClass) (r : AccountRow)
    → in_class c r.code ≡ false
    → signed c (row_net (in_class c) r) ≡ pos 0
row_net-out c r miss = rw miss (signed-zero c)

add_zero_left : (a b : ℤ) → a ≡ pos 0 → a +ℤ b ≡ b
add_zero_left a b e = rw e (omega int_laws)

-- The total of a class on a statement is the net of its accounts, in the direction of the class.
statement_lines-total :
    (c : AccountClass) (rows : List AccountRow)
    → sum_of (λ (l : ℕ × ℤ). l.1) (statement_lines c rows) ≡ signed c (rows_net (in_class c) rows)
unfolding statement_lines sum_of
statement_lines-total c [] = sym (signed-zero c)
statement_lines-total c (r ∷ rows) =
    let ih = statement_lines-total c rows in
    let split = signed-add c (row_net (in_class c) r) (rows_net (in_class c) rows) in
    elim (Bool-cases (in_class c r.code)) [
      | inr miss ↦ elim (Bool-cases (eqb_ℤ (amount_of r) (pos 0))) [
        | inl none_left ↦
            rw (none_left) (ih ∙ sym (add_zero_left _ _ (row_net-out c r miss)) ∙ split)
        | inr some_left ↦
            rw (some_left, miss)
              (rw miss at (ih ∙ sym (add_zero_left _ _ (row_net-out c r miss)) ∙ split))
      ]
      | inl hit ↦ elim (Bool-cases (eqb_ℤ (amount_of r) (pos 0))) [
        | inl none_left ↦
            let zero_row = sym (row_net-signed c r hit) ∙ eqb_ℤ-eq _ _ none_left in
            rw (none_left) (ih ∙ sym (add_zero_left _ _ zero_row) ∙ split)
        | inr some_left ↦
            rw (some_left, hit) (rw hit at (ap₂ ◌+ℤ◌ (row_net-signed c r hit) ih ∙ split))
      ]
    ]

-- The five classes share out the accounts.
abbrev five_classes : List AccountRow → ℤ
five_classes rows =
    rows_net (in_class AccountClass.asset) rows
    +ℤ rows_net (in_class AccountClass.liability) rows
    +ℤ rows_net (in_class AccountClass.revenue) rows
    +ℤ rows_net (in_class AccountClass.cogs) rows
    +ℤ rows_net (in_class AccountClass.expense) rows

abbrev share : AccountClass → AccountClass → ℤ → ℤ
share k c n = if class_tag k == class_tag c then n else pos 0

share_all :
    (k : AccountClass) (n : ℤ)
    → n
      ≡ share k AccountClass.asset n
        +ℤ share k AccountClass.liability n
        +ℤ share k AccountClass.revenue n
        +ℤ share k AccountClass.cogs n
        +ℤ share k AccountClass.expense n
share_all AccountClass.asset n = omega int_laws
share_all _ n = omega int_laws

add_five :
    (a b c d e x y z u v m n : ℤ)
    → m ≡ a +ℤ b +ℤ c +ℤ d +ℤ e
    → n ≡ x +ℤ y +ℤ z +ℤ u +ℤ v
    → m +ℤ n ≡ (a +ℤ x) +ℤ (b +ℤ y) +ℤ (c +ℤ z) +ℤ (d +ℤ u) +ℤ (e +ℤ v)
add_five a b c d e x y z u v m n h k = rw (h, k) (omega int_laws)

rows_net-classes : (rows : List AccountRow) → rows_net every_account rows ≡ five_classes rows
unfolding sum_of
rows_net-classes [] = omega int_laws
rows_net-classes (r ∷ rows) =
    add_five _ _ _ _ _ _ _ _ _ _ _ _ (share_all (classify_account r.code) (r.debit -ℤ r.credit))
      (rows_net-classes rows)

sheet_lem : (a l r c e : ℤ) → a +ℤ l +ℤ r +ℤ c +ℤ e ≡ pos 0 → a ≡ negate l +ℤ (negate r -ℤ c -ℤ e)
sheet_lem a l r c e h = omega (int_laws, ap pos_part h, ap neg_part h)

small : (a b : ℤ) → a ≡ b → ltb_ℤ (abs (a -ℤ b)) (pos 2) ≡ true
unfolding abs
small a b e = rw (minus_self a b e)

-- For a balanced journal the balance sheet's assets equal its liabilities and equity exactly, at
-- any date, and its balanced flag is true.
pub balance_sheet-balanced :
    (end : ℕ) (db : Db)
    → JournalIsBalanced db
    → ((balance_sheet end db).total_assets ≡ (balance_sheet end db).total_liabilities_and_equity)
      × ((balance_sheet end db).balanced ≡ true)
unfolding balance_sheet income_statement
balance_sheet-balanced end db h =
    let rows = aggregate_account_balances 0 end db in
    let zero_sum =
      sym (rows_net-classes rows)
      ∙ aggregate-net every_account 0 end db
      ∙ journal_net-zero 0 end db.entries.rows h in
    let equal =
      statement_lines-total AccountClass.asset rows
      ∙ sheet_lem _ _ _ _ _ zero_sum
      ∙ sym (
          ap₂ ◌+ℤ◌ (statement_lines-total AccountClass.liability rows) (
            ap₂ ◌-ℤ◌
              (ap₂ ◌-ℤ◌ (statement_lines-total AccountClass.revenue rows)
                (statement_lines-total AccountClass.cogs rows))
              (statement_lines-total AccountClass.expense rows))) in
    (equal, small _ _ equal)
