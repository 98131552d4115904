-- ===== src/Sales/Lifecycle.antt =====
-- The operations on a sale that is there: `approveDiscount`, `completePaychanguSale`,
-- `failPaychanguSale`, `refreshPaychanguPayment`, `cancelPendingPayment` and `voidSale`. The
-- transaction of a payment, and the query of the gateway for it, are parameters.
use haroti_lpg_management.Common.Enums.{UserRole, StockMovementType, SaleStatus}
use haroti_lpg_management.Common.Errors.{Reason, bad_request, not_found, forbidden, ok}
use haroti_lpg_management.Customers.{relieve_credit}
use haroti_lpg_management.Database.Entities.{ReferenceType, Sale}
use haroti_lpg_management.Database.State.{
  Db, Op, pure, gets, find_or_throw, ◌>>=◌, ◌>>◌, throw_if, modify, when,
}
use haroti_lpg_management.Database.Table.{find_by_id}
use haroti_lpg_management.Finance.Journal.{reverse_all_for_reference}
use haroti_lpg_management.Finance.Posting.{reference_to}
use haroti_lpg_management.Inventory.{MovementParams, apply_movement}
use haroti_lpg_management.Prelude.{
  pos, ltb_ℤ, ◌==◌, ℕ, Bool, true, false, not, ◌||◌, Option, none, some,
}
use haroti_lpg_management.Sales.Create.{store_sale}
use haroti_lpg_management.Sales.Finalize.{has_credit, finalize_sale}
use haroti_lpg_management.Sales.Pricing.{active_price}

-- `DISCOUNT_APPROVER_ROLES`
abbrev pub may_approve_discount : UserRole → Bool
may_approve_discount UserRole.station_manager = true
may_approve_discount UserRole.operations_manager = true
may_approve_discount UserRole.finance_manager = true
may_approve_discount UserRole.director = true
may_approve_discount UserRole.system_admin = true
may_approve_discount _ = false

abbrev pub is_completed : SaleStatus → Bool
is_completed SaleStatus.completed = true
is_completed _ = false

abbrev pub is_voided : SaleStatus → Bool
is_voided SaleStatus.voided = true
is_voided _ = false

abbrev pub awaits_approval : SaleStatus → Bool
awaits_approval SaleStatus.pending_approval = true
awaits_approval _ = false

abbrev pub awaits_payment : SaleStatus → Bool
awaits_payment SaleStatus.pending_payment = true
awaits_payment _ = false

-- `findOne`
unfoldable pub find_sale : ℕ → Op Sale
find_sale id = find_or_throw (not_found Reason.sale_not_found) (λ db. find_by_id id db.sales)

abbrev pub with_status : SaleStatus → Sale → Sale
with_status status s = record s { status = status }

-- The end of `approveDiscount` and of `completePaychanguSale`: completed, saved and finalized. The
-- request that is made up from the sale has no bundle.
unfoldable pub complete_sale : ℕ → Sale → Op (Unit {0})
complete_sale id s = do
  price ← gets (active_price s.station_id)
  modify (store_sale id (with_status SaleStatus.completed s))
  finalize_sale id (with_status SaleStatus.completed s) false price

-- `approveDiscount`
unfoldable pub approve_discount : ℕ → ℕ → UserRole → Op (Unit {0})
approve_discount id approver_id role = do
  throw_if (not (may_approve_discount role)) (forbidden Reason.role_insufficient)
  s ← find_sale id
  throw_if (not (awaits_approval s.status)) (bad_request Reason.sale_not_pending_approval)
  throw_if (s.attendant_id == approver_id) (forbidden Reason.sale_own_approval)
  complete_sale id s

-- `completePaychanguSale`
unfoldable pub complete_paychangu_sale : ℕ → Op (Unit {0})
complete_paychangu_sale id = find_sale id >>= λ s. when (not (is_completed s.status)) (
    throw_if (not (awaits_payment s.status)) (bad_request Reason.sale_not_pending_payment)
    >> complete_sale id s)

-- `failPaychanguSale`
unfoldable pub fail_paychangu_sale : ℕ → Op (Unit {0})
fail_paychangu_sale id db = elim (find_by_id id db.sales) [
  | none ↦ (ok tt, db)
  | some s ↦
      when (awaits_payment s.status) (modify (store_sale id (with_status SaleStatus.voided s))) db
]

module _ (transaction_of : ℕ → Db → Option ℕ) (query_payment : ℕ → Op (Unit {0})) where
  -- The query of the transaction, if the sale has one.
  unfoldable pub query_sale : ℕ → Op (Unit {0})
  query_sale id db = elim (transaction_of id db) [
    | none ↦ (ok tt, db)
    | some txn ↦ query_payment txn db
  ]

  -- `refreshPaychanguPayment`
  unfoldable pub refresh_paychangu_payment : ℕ → Op (Unit {0})
  refresh_paychangu_payment id = find_sale id >>= λ s.
      when (not (is_completed s.status || is_voided s.status)) (
        throw_if (not (awaits_payment s.status)) (bad_request Reason.sale_not_pending_payment)
        >> query_sale id)

  -- The end of `cancelPendingPayment`. The payment is queried before it is given up, and a sale
  -- that the query has settled is left as it is.
  unfoldable pub cancel_unless_settled : ℕ → Op (Unit {0})
  cancel_unless_settled id db = elim (transaction_of id db) [
    | none ↦ fail_paychangu_sale id db
    | some txn ↦
        (query_payment txn
            >> (find_sale id >>= λ s. when (awaits_payment s.status) (fail_paychangu_sale id)))
          db
  ]

  -- `cancelPendingPayment`
  unfoldable pub cancel_pending_payment : ℕ → Op (Unit {0})
  cancel_pending_payment id = find_sale id >>= λ s.
      when (not (is_completed s.status || is_voided s.status)) (
        throw_if (not (awaits_payment s.status)) (bad_request Reason.sale_not_pending_payment)
        >> cancel_unless_settled id)

abbrev pub return_movement : ℕ → ℕ → Sale → MovementParams
return_movement id user_id s = record {
  station_id = s.station_id;
  kind = StockMovementType.stock_adjustment;
  quantity_kg = s.lpg_quantity_kg;
  reference = some (reference_to ReferenceType.sale id);
  user_id = some user_id;
  client_txn_id = none;
  requires_approval = false;
}

-- The credit of a voided sale, given back.
unfoldable pub relieve_sale_credit : Sale → Op (Unit {0})
relieve_sale_credit s = elim s.customer_id [
  | none ↦ pure tt
  | some c ↦ when (has_credit s.payments) (relieve_credit c s.total_amount)
]

-- What a sale has done, undone: its entries, its gas and its credit.
unfoldable pub undo_sale : ℕ → ℕ → Sale → Op (Unit {0})
undo_sale id user_id s = do
  reverse_all_for_reference (reference_to ReferenceType.sale id)
  when (ltb_ℤ (pos 0) s.lpg_quantity_kg) (apply_movement (return_movement id user_id s) >> pure tt)
  relieve_sale_credit s

-- `voidSale`
unfoldable pub void_sale : ℕ → ℕ → Op (Unit {0})
void_sale id user_id = do
  s ← find_sale id
  throw_if (not (is_completed s.status)) (bad_request Reason.sale_not_completed)
  undo_sale id user_id s
  modify (store_sale id (with_status SaleStatus.voided s))
