-- ===== src/Database/State.antt =====
-- The database as one state, and an operation of a service on it: a function from the state to
-- the value returned or the exception thrown, with the state that it leaves. What was written
-- before an exception stays written, since the services save row by row.
use haroti_lpg_management.Common.Errors.{Failure, Result, ok, err}
use haroti_lpg_management.Database.Documents.{
  Delivery, DeliveryAllocation, Supplier, PurchaseOrder, SupplierInvoice, WorkflowDefinition,
  ApprovalTask, CashDeposit, PaychanguTransaction, PaychanguWebhook, PaycMeter,
  PaycCreditTransaction, PaycTelemetry, FranchiseAgreement, FranchiseSettlement, CylinderMovement,
  MaintenanceWorkOrder,
}
use haroti_lpg_management.Database.Entities.{
  Station, StockMovement, JournalEntry, FiscalPeriod, User, Customer, CustomerPayment,
  AccessoryStock, Product, Shift, Tank, TankReading, Expense, Sale, Transfer, LoyaltyAccount,
  LoyaltyTransaction, Requisition, AgentCommission, Cylinder, PriceList, ChannelPrice,
  ProductBundle,
}
use haroti_lpg_management.Database.Table.{Table}
use haroti_lpg_management.Prelude.{ℕ, Bool, true, false, Option, none, some, List, [], ◌∷◌}

pub record Db : Type 0 where
  pub clock : ℕ
  -- The milliseconds from `clock` on until the entry with this id is given its number.
  pub elapsed : ℕ → ℕ
  pub stations : Table Station
  pub movements : Table StockMovement
  pub entries : Table JournalEntry
  pub periods : Table FiscalPeriod
  pub users : Table User
  pub customers : Table Customer
  pub customer_payments : Table CustomerPayment
  pub accessory_stocks : Table AccessoryStock
  pub products : Table Product
  pub shifts : Table Shift
  pub tanks : Table Tank
  pub readings : Table TankReading
  pub expenses : Table Expense
  pub sales : Table Sale
  pub transfers : Table Transfer
  pub loyalty_accounts : Table LoyaltyAccount
  pub loyalty_transactions : Table LoyaltyTransaction
  pub requisitions : Table Requisition
  pub commissions : Table AgentCommission
  pub cylinders : Table Cylinder
  pub prices : Table PriceList
  pub channel_prices : Table ChannelPrice
  pub bundles : Table ProductBundle
  pub deliveries : Table Delivery
  pub allocations : Table DeliveryAllocation
  pub suppliers : Table Supplier
  pub purchase_orders : Table PurchaseOrder
  pub supplier_invoices : Table SupplierInvoice
  pub workflow_definitions : Table WorkflowDefinition
  pub approval_tasks : Table ApprovalTask
  pub cash_deposits : Table CashDeposit
  pub paychangu_transactions : Table PaychanguTransaction
  pub paychangu_webhooks : Table PaychanguWebhook
  pub payc_meters : Table PaycMeter
  pub payc_credits : Table PaycCreditTransaction
  pub payc_telemetry : Table PaycTelemetry
  pub agreements : Table FranchiseAgreement
  pub settlements : Table FranchiseSettlement
  pub cylinder_movements : Table CylinderMovement
  pub work_orders : Table MaintenanceWorkOrder

abbrev pub Op : Type 0 → Type 0
Op A = Db → Result A × Db

module _ {A : Type 0} where
  abbrev pub pure : A → Op A
  pure a db = (ok a, db)

  abbrev pub throw : Failure → Op A
  throw e db = (err e, db)

  -- A value read from the state.
  abbrev pub gets : (Db → A) → Op A
  gets f db = (ok (f db), db)

  -- `if (!x) throw e`
  abbrev pub or_throw : Failure → Option A → Op A
  or_throw e none db = (err e, db)
  or_throw e (some a) db = (ok a, db)

  -- A row that must be there.
  abbrev pub find_or_throw : Failure → (Db → Option A) → Op A
  find_or_throw e get db = or_throw e (get db) db

-- Sequencing: an exception ends the operation.
abbrev pub continue_with : {S A B : Type 0} → Result A × S → (A → S → Result B × S) → Result B × S
continue_with (ok a, db) f = f a db
continue_with (err e, db) f = (err e, db)

infixl 5 ◌>>=◌ ◌>>◌
unfoldable pub ◌>>=◌ : {A B : Type 0} → Op A → (A → Op B) → Op B
◌>>=◌ m f db = continue_with (m db) f

unfoldable pub ◌>>◌ : {A B : Type 0} → Op A → Op B → Op B
◌>>◌ m k db = continue_with (m db) (λ _. k)

-- `if (c) throw e`
abbrev pub throw_if : Bool → Failure → Op (Unit {0})
throw_if true e db = (err e, db)
throw_if false e db = (ok tt, db)

abbrev pub modify : (Db → Db) → Op (Unit {0})
modify f db = (ok tt, f db)

-- `if (c) await m`
abbrev pub when : Bool → Op (Unit {0}) → Op (Unit {0})
when true m = m
when false m = pure tt

-- `for (const x of xs) await f(x)`
unfoldable pub for_each : {A : Type 0} → (A → Op (Unit {0})) → List A → Op (Unit {0})
for_each f [] = pure tt
for_each f (x ∷ xs) = f x >> for_each f xs
