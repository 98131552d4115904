-- ===== src/Tests/Data.antt =====
-- A database with one row in each table that the tests need.
use haroti_lpg_management.Common.Enums.{
  UserRole, StockMovementType, PaymentMethod, SaleStatus, CommercialStream, SalesChannel,
  StockOwnership, JournalEventType, JournalPostingStatus,
}
use haroti_lpg_management.Database.Entities.{
  TxnId, ReferenceType, Station, JournalEntry, User, Customer, AccessoryStock, Shift, SaleItem,
  Sale, LoyaltyAccount,
}
use haroti_lpg_management.Database.State.{Db}
use haroti_lpg_management.Database.Table.{Table, empty_table}
use haroti_lpg_management.Finance.Accounts.{cash_account, revenue_lpg}
use haroti_lpg_management.Finance.Posting.{reference_to}
use haroti_lpg_management.Inventory.{MovementParams}
use haroti_lpg_management.Inventory.Log.{Levels}
use haroti_lpg_management.Prelude.{pos, negsuc, false, none, some, [], ◌∷◌}
use haroti_lpg_management.Shifts.{new_shift}

abbrev pub table_of : {A : Type 0} → A → Table A
table_of a = record { rows = (0, a) ∷ []; next_id = 1 }

abbrev pub a_station : Station
a_station = record {
  tank_capacity_kg = pos 1_000_000;
  current_stock_kg = pos 500_000;
  weighted_avg_cost_per_kg = pos 120_000;
  commercial_stream = CommercialStream.retail_forecourt;
  last_synced_at = none;
}

abbrev pub a_customer : Customer
a_customer = record {
  credit_limit = pos 1_000_000;
  outstanding_balance = pos 20_000;
  is_suspended = false;
}

abbrev pub an_entry : JournalEntry
an_entry = record {
  event_type = JournalEventType.lpg_refill_sale;
  posting_status = JournalPostingStatus.posted;
  reference = some (reference_to ReferenceType.sale 0);
  reverses_entry_id = none;
  reversed_by_entry_id = none;
  posted_at = 10;
  lines =
      record { account_code = cash_account; debit_amount = pos 925_000; credit_amount = pos 0 }
      ∷ record { account_code = revenue_lpg; debit_amount = pos 0; credit_amount = pos 925_000 }
      ∷ [];
}

abbrev pub a_user : User
a_user = record {
  role = UserRole.attendant;
  can_override_price = false;
  discount_limit_percent = pos 500;
}

abbrev pub an_account : LoyaltyAccount
an_account = record { customer_id = 0; points_balance = pos 10; lifetime_earned = pos 10 }

abbrev pub an_item : SaleItem
an_item = record {
  product_id = none;
  item_name = 1;
  lpg_quantity_kg = pos 5_000;
  unit_price = pos 185_000;
  line_total = pos 925_000;
  quantity = 1;
}

abbrev pub a_sale : Sale
a_sale = record {
  station_id = 0;
  attendant_id = 0;
  customer_id = none;
  shift_id = 0;
  subtotal = pos 925_000;
  discount_amount = pos 0;
  total_amount = pos 925_000;
  lpg_quantity_kg = pos 5_000;
  payment_method = PaymentMethod.cash;
  status = SaleStatus.completed;
  client_txn_id = none;
  sold_at = 10;
  sales_channel = SalesChannel.retail_list;
  commercial_stream = CommercialStream.retail_forecourt;
  items = an_item ∷ [];
  payments = record { method = PaymentMethod.cash; amount = pos 925_000 } ∷ [];
}

abbrev pub a_shift : Shift
a_shift = new_shift 0 0 (pos 10_000) (pos 505_000) 5

abbrev pub a_bottle : AccessoryStock
a_bottle = record {
  station_id = 0;
  product_id = 0;
  ownership = StockOwnership.owned;
  quantity = pos 4;
  has_batch = false;
}

abbrev pub company : Db
company = record {
  clock = 20;
  elapsed = λ n. n;
  stations = table_of a_station;
  movements = empty_table;
  entries = table_of an_entry;
  periods = empty_table;
  users = table_of a_user;
  customers = table_of a_customer;
  customer_payments = empty_table;
  accessory_stocks = table_of a_bottle;
  products = empty_table;
  shifts = table_of a_shift;
  tanks = empty_table;
  readings = empty_table;
  expenses = empty_table;
  sales = table_of a_sale;
  transfers = empty_table;
  loyalty_accounts = table_of an_account;
  loyalty_transactions = empty_table;
  requisitions = empty_table;
  commissions = empty_table;
  cylinders = empty_table;
  prices = empty_table;
  channel_prices = empty_table;
  bundles = empty_table;
  deliveries = empty_table;
  allocations = empty_table;
  suppliers = empty_table;
  purchase_orders = empty_table;
  supplier_invoices = empty_table;
  workflow_definitions = empty_table;
  approval_tasks = empty_table;
  cash_deposits = empty_table;
  paychangu_transactions = empty_table;
  paychangu_webhooks = empty_table;
  payc_meters = empty_table;
  payc_credits = empty_table;
  payc_telemetry = empty_table;
  agreements = empty_table;
  settlements = empty_table;
  cylinder_movements = empty_table;
  work_orders = empty_table;
}

-- A sale of two kilograms, with an identifier of the client's.
abbrev pub two_kg : MovementParams
two_kg = record {
  station_id = 0;
  kind = StockMovementType.refill_sale;
  quantity_kg = negsuc 1_999;
  reference = none;
  user_id = some 0;
  client_txn_id = some (TxnId.plain 7);
  requires_approval = false;
}

-- More gas than there is.
abbrev pub too_much : MovementParams
too_much = record (two_kg) { quantity_kg = negsuc 600_000; client_txn_id = none }

abbrev pub opening_levels : Levels
opening_levels _ = pos 500_000
