-- ===== src/Database/Entities.antt =====
-- The entities, with the columns that the modelled services read or write. Identifiers are
-- numbers; texts that are only shown (names, notes, reasons) are left out, and so are the numbers of
-- documents, except for the journal entries, whose number follows from their event and time.
use haroti_lpg_management.Common.Enums.{
  UserRole, StockMovementType, PaymentMethod, SaleStatus, CylinderStatus, TransferStatus,
  TransferItemType, ShiftStatus, ExpenseStatus, CommercialStream, SalesChannel, StockOwnership,
  RequisitionStatus, JournalEventType, TankReadingContext, JournalPostingStatus, FiscalPeriodStatus,
  LoyaltyTxnType,
}
use haroti_lpg_management.Prelude.{ℤ, ◌==◌, ℕ, Bool, false, ◌&&◌, Option, List}

-- A `client_txn_id`: a text of the client's, or one behind the prefix `stock-` that a sale adds.
pub data TxnId : Type 0 where
  plain : ℕ → TxnId
  stock : TxnId → TxnId

-- `===` of two texts
unfoldable pub same_txn : TxnId → TxnId → Bool
same_txn (TxnId.plain a) (TxnId.plain b) = a == b
same_txn (TxnId.stock a) (TxnId.stock b) = same_txn a b
same_txn (TxnId.plain a) (TxnId.stock b) = false
same_txn (TxnId.stock a) (TxnId.plain b) = false

-- The values of `reference_type`.
pub data ReferenceType : Type 0 where
  sale transfer delivery purchase_order franchise_settlement customer_payment : ReferenceType
  expense requisition shift payc_meter : ReferenceType

abbrev pub reference_tag : ReferenceType → ℕ
reference_tag ReferenceType.sale = 0
reference_tag ReferenceType.transfer = 1
reference_tag ReferenceType.delivery = 2
reference_tag ReferenceType.purchase_order = 3
reference_tag ReferenceType.franchise_settlement = 4
reference_tag ReferenceType.customer_payment = 5
reference_tag ReferenceType.expense = 6
reference_tag ReferenceType.requisition = 7
reference_tag ReferenceType.shift = 8
reference_tag ReferenceType.payc_meter = 9

-- The columns `reference_type` and `reference_id`.
pub record Reference : Type 0 where
  pub kind : ReferenceType
  pub id : ℕ

unfoldable pub same_reference : Reference → Reference → Bool
same_reference a b = reference_tag a.kind == reference_tag b.kind && a.id == b.id

pub record Station : Type 0 where
  pub tank_capacity_kg : ℤ
  pub current_stock_kg : ℤ
  pub weighted_avg_cost_per_kg : ℤ
  pub commercial_stream : CommercialStream
  pub last_synced_at : Option ℕ

pub record StockMovement : Type 0 where
  pub station_id : ℕ
  pub kind : StockMovementType
  pub quantity_kg : ℤ
  pub stock_before_kg : ℤ
  pub stock_after_kg : ℤ
  pub reference : Option Reference
  pub created_by_id : Option ℕ
  pub client_txn_id : Option TxnId
  pub requires_approval : Bool

pub record JournalLine : Type 0 where
  pub account_code : ℕ
  pub debit_amount : ℤ
  pub credit_amount : ℤ

pub record JournalEntry : Type 0 where
  pub event_type : JournalEventType
  pub posting_status : JournalPostingStatus
  pub reference : Option Reference
  pub reverses_entry_id : Option ℕ
  pub reversed_by_entry_id : Option ℕ
  pub posted_at : ℕ
  pub lines : List JournalLine

pub record FiscalPeriod : Type 0 where
  pub start_date : ℕ
  pub end_date : ℕ
  pub status : FiscalPeriodStatus

pub record User : Type 0 where
  pub role : UserRole
  pub can_override_price : Bool
  pub discount_limit_percent : ℤ

pub record Customer : Type 0 where
  pub credit_limit : ℤ
  pub outstanding_balance : ℤ
  pub is_suspended : Bool

pub record CustomerPayment : Type 0 where
  pub customer_id : ℕ
  pub amount : ℤ
  pub payment_method : PaymentMethod
  pub received_by_id : ℕ
  pub paid_at : ℕ
  pub client_txn_id : Option TxnId

pub record AccessoryStock : Type 0 where
  pub station_id : ℕ
  pub product_id : ℕ
  pub ownership : StockOwnership
  pub quantity : ℤ
  pub has_batch : Bool

pub record Product : Type 0 where
  pub unit_price : ℤ
  pub cost_price : ℤ

pub record Shift : Type 0 where
  pub station_id : ℕ
  pub attendant_id : ℕ
  pub status : ShiftStatus
  pub opened_at : ℕ
  pub closed_at : Option ℕ
  pub opening_cash_float : ℤ
  pub opening_lpg_stock_kg : ℤ
  pub cash_sales : ℤ
  pub mobile_money_sales : ℤ
  pub bank_sales : ℤ
  pub credit_sales : ℤ
  pub cash_expenses : ℤ
  pub cash_deposited : ℤ
  pub expected_cash : ℤ
  pub cash_counted : Option ℤ
  pub cash_variance : Option ℤ
  pub lpg_sold_kg : ℤ
  pub expected_lpg_stock_kg : Option ℤ
  pub physical_lpg_stock_kg : Option ℤ
  pub stock_variance_kg : Option ℤ
  pub approved_by_id : Option ℕ
  pub locked_at : Option ℕ

pub record Tank : Type 0 where
  pub station_id : ℕ
  pub capacity_kg : ℤ
  pub safe_working_capacity_kg : ℤ
  pub current_stock_kg : ℤ

pub record TankReading : Type 0 where
  pub tank_id : ℕ
  pub reading_kg : ℤ
  pub context : TankReadingContext
  pub reference : Option Reference
  pub recorded_by_id : Option ℕ
  pub recorded_at : ℕ

pub record Expense : Type 0 where
  pub amount : ℤ
  pub paid_in_cash : Bool
  pub status : ExpenseStatus
  pub shift_id : Option ℕ
  pub created_by_id : ℕ
  pub approved_by_id : Option ℕ

pub record SaleItem : Type 0 where
  pub product_id : Option ℕ
  pub item_name : ℕ
  pub lpg_quantity_kg : ℤ
  pub unit_price : ℤ
  pub line_total : ℤ
  pub quantity : ℕ

pub record SalePayment : Type 0 where
  pub method : PaymentMethod
  pub amount : ℤ

pub record Sale : Type 0 where
  pub station_id : ℕ
  pub attendant_id : ℕ
  pub customer_id : Option ℕ
  pub shift_id : ℕ
  pub subtotal : ℤ
  pub discount_amount : ℤ
  pub total_amount : ℤ
  pub lpg_quantity_kg : ℤ
  pub payment_method : PaymentMethod
  pub status : SaleStatus
  pub client_txn_id : Option TxnId
  pub sold_at : ℕ
  pub sales_channel : SalesChannel
  pub commercial_stream : CommercialStream
  pub items : List SaleItem
  pub payments : List SalePayment

pub record TransferItem : Type 0 where
  pub id : ℕ
  pub item_type : TransferItemType
  pub quantity_dispatched : ℤ
  pub quantity_received : Option ℤ

pub record Transfer : Type 0 where
  pub source_station_id : ℕ
  pub destination_station_id : ℕ
  pub status : TransferStatus
  pub requested_by_id : ℕ
  pub approved_by_id : ℕ
  pub dispatched_at : ℕ
  pub received_at : Option ℕ
  pub items : List TransferItem

pub record LoyaltyAccount : Type 0 where
  pub customer_id : ℕ
  pub points_balance : ℤ
  pub lifetime_earned : ℤ

pub record LoyaltyTransaction : Type 0 where
  pub account_id : ℕ
  pub kind : LoyaltyTxnType
  pub points : ℤ
  pub balance_after : ℤ

pub record Requisition : Type 0 where
  pub requested_by_id : ℕ
  pub status : RequisitionStatus
  pub total_amount : ℤ
  pub lines : List (ℕ × ℤ × ℤ)
  pub gm_approved_by_id : Option ℕ
  pub gm_approved_at : Option ℕ
  pub paid_by_id : Option ℕ
  pub paid_at : Option ℕ

pub record AgentCommission : Type 0 where
  pub agent_id : ℕ
  pub sale_id : Option ℕ
  pub sale_amount : ℤ
  pub commission_percent : ℤ
  pub commission_amount : ℤ

pub record Cylinder : Type 0 where
  pub serial_number : ℕ
  pub status : CylinderStatus
  pub next_inspection_date : Option ℕ
  pub station_id : Option ℕ
  pub customer_id : Option ℕ

pub record PriceList : Type 0 where
  pub station_id : Option ℕ
  pub price_per_kg : ℤ
  pub effective_from : ℕ
  pub effective_to : Option ℕ
  pub is_active : Bool

pub record ChannelPrice : Type 0 where
  pub product_id : ℕ
  pub channel : SalesChannel
  pub unit_price : ℤ
  pub is_active : Bool

-- A bundle with its items: products and their quantities.
pub record ProductBundle : Type 0 where
  pub name : ℕ
  pub bundle_price : ℤ
  pub is_active : Bool
  pub items : List (ℕ × ℕ)
