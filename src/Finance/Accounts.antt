-- ===== src/Finance/Accounts.antt =====
-- backend/src/finance/gl-accounts.ts. Account codes are numbers of four digits, so the test
-- `code.startsWith('1')` is a test of the thousands.
use haroti_lpg_management.Prelude.{ℤ, pos, ◌-ℤ◌, ◌==◌, if◌then◌else◌, ◌/◌, ℕ}

pub data AccountClass : Type 0 where
  asset liability revenue cogs expense : AccountClass

abbrev pub class_tag : AccountClass → ℕ
class_tag AccountClass.asset = 1
class_tag AccountClass.liability = 2
class_tag AccountClass.revenue = 4
class_tag AccountClass.cogs = 5
class_tag AccountClass.expense = 6

unfoldable pub classify_account : ℕ → AccountClass
classify_account code =
    if code / 1000 == 1
    then AccountClass.asset
    else if code / 1000 == 2
    then AccountClass.liability
    else if code / 1000 == 4
    then AccountClass.revenue
    else if code / 1000 == 5
    then AccountClass.cogs
    else if code / 1000 == 6
    then AccountClass.expense
    else AccountClass.asset

-- The normal balance: positive in the natural direction of the class.
unfoldable pub account_balance : AccountClass → ℤ → ℤ → ℤ
account_balance AccountClass.liability debit credit = credit -ℤ debit
account_balance AccountClass.revenue debit credit = credit -ℤ debit
account_balance _ debit credit = debit -ℤ credit

-- `GL_ACCOUNTS`
abbrev pub inventory_central : ℕ
inventory_central = 1200

abbrev pub inventory_station : ℕ
inventory_station = 1210

abbrev pub inventory_consignment : ℕ
inventory_consignment = 1220

abbrev pub inventory_bulk_lpg : ℕ
inventory_bulk_lpg = 1250

abbrev pub accounts_payable : ℕ
accounts_payable = 2100

abbrev pub cash_account : ℕ
cash_account = 1100

abbrev pub ar_franchise : ℕ
ar_franchise = 1300

abbrev pub ar_customer : ℕ
ar_customer = 1310

abbrev pub revenue_accessory : ℕ
revenue_accessory = 4100

abbrev pub revenue_bundle : ℕ
revenue_bundle = 4110

abbrev pub revenue_lpg : ℕ
revenue_lpg = 4200

abbrev pub revenue_franchise : ℕ
revenue_franchise = 4350

abbrev pub cogs_lpg : ℕ
cogs_lpg = 5200

abbrev pub cogs_accessory : ℕ
cogs_accessory = 5100

abbrev pub commission_payable : ℕ
commission_payable = 2200

abbrev pub expense_station : ℕ
expense_station = 6100

abbrev pub petty_cash : ℕ
petty_cash = 1110

abbrev pub revenue_payc : ℕ
revenue_payc = 4300

abbrev pub deferred_payc : ℕ
deferred_payc = 2300

-- In cents for a kilogram.
abbrev pub default_lpg_cost_per_kg : ℤ
default_lpg_cost_per_kg = pos 120_000
