-- ===== src/Procurement.antt =====
-- backend/src/procurement/procurement.service.ts: purchase orders, from the draft to the payment.
-- The documents that are printed for an order are not modelled.
pub mod Match
pub mod Receipt
pub mod Orders
pub mod Payment
pub mod Invoices
pub mod Numbers
use haroti_lpg_management.Accessories.{receive_stock}
use haroti_lpg_management.Common.Decimal.{round_div}
use haroti_lpg_management.Common.Enums.{UserRole, StockOwnership, PurchaseOrderStatus}
use haroti_lpg_management.Common.Errors.{Reason, bad_request, not_found, ok}
use haroti_lpg_management.Database.Documents.{Supplier, PurchaseOrderLine, PurchaseOrder}
use haroti_lpg_management.Database.State.{
  Db, Op, pure, or_throw, find_or_throw, ◌>>=◌, ◌>>◌, throw_if, modify,
}
use haroti_lpg_management.Database.Table.{find_by_id, store, append}
use haroti_lpg_management.Finance.Posting.{post_supplier_payment, post_accessory_grn}
use haroti_lpg_management.Prelude.{
  ℤ, pos, pos_part, ◌+ℤ◌, ◌-ℤ◌, ◌*ℤ◌, ltb_ℤ, sum_of, if◌then◌else◌, or_else, ◌*◌, ℕ, Bool, true,
  false, not, ◌||◌, Option, none, some, List, [], ◌∷◌, ◌++◌, map,
}
use haroti_lpg_management.Procurement.Match.{assert_payable, mark_paid}

pub record PurchaseOrderLineDto : Type 0 where
  pub product_id : Option ℕ
  pub quantity : ℕ
  pub unit_cost : ℤ

pub record CreatePurchaseOrderDto : Type 0 where
  pub supplier_id : ℕ
  pub destination_station_id : Option ℕ
  pub freight_cost : Option ℤ
  pub customs_duty : Option ℤ
  pub clearing_fees : Option ℤ
  pub lines : List PurchaseOrderLineDto

-- `l.quantity * l.unitCost`
unfoldable pub base_cost : PurchaseOrderLineDto → ℤ
base_cost l = pos l.quantity *ℤ l.unit_cost

unfoldable pub landed_extras : CreatePurchaseOrderDto → ℤ
landed_extras dto =
    or_else dto.freight_cost (pos 0)
    +ℤ or_else dto.customs_duty (pos 0)
    +ℤ or_else dto.clearing_fees (pos 0)

-- The cost of a piece with its share of the extras; `quantity` is at least 1 (`@Min(1)`).
unfoldable pub landed_unit : ℤ → ℤ → PurchaseOrderLineDto → ℤ
landed_unit line_total extras l =
    if ltb_ℤ (pos 0) line_total
    then round_div (l.unit_cost *ℤ (line_total *ℤ pos l.quantity) +ℤ base_cost l *ℤ extras)
        (pos_part line_total * l.quantity)
    else l.unit_cost

unfoldable pub order_line : ℤ → ℤ → PurchaseOrderLineDto → PurchaseOrderLine
order_line line_total extras l = record {
  product_id = l.product_id;
  quantity = l.quantity;
  unit_cost = l.unit_cost;
  landed_unit_cost = landed_unit line_total extras l;
  line_total = pos l.quantity *ℤ landed_unit line_total extras l;
  quantity_received = 0;
}

unfoldable pub new_order : CreatePurchaseOrderDto → ℕ → PurchaseOrder
new_order dto user_id =
    let extras = landed_extras dto in
    let line_total = sum_of base_cost dto.lines in
    record {
      supplier_id = dto.supplier_id;
      destination_station_id = dto.destination_station_id;
      status = PurchaseOrderStatus.draft;
      freight_cost = or_else dto.freight_cost (pos 0);
      customs_duty = or_else dto.customs_duty (pos 0);
      clearing_fees = or_else dto.clearing_fees (pos 0);
      total_amount = line_total +ℤ extras;
      created_by_id = user_id;
      approved_by_id = none;
      lines = map (order_line line_total extras) dto.lines;
    }

-- `suppliersRepo.findOne({ where: { id, isActive: true } })`
unfoldable pub active_supplier : ℕ → Db → Option Supplier
active_supplier id db = elim (find_by_id id db.suppliers) [
  | none ↦ none
  | some s ↦ if s.is_active then some s else none
]

unfoldable pub save_order : PurchaseOrder → Op ℕ
save_order po db =
    (ok db.purchase_orders.next_id, record db { purchase_orders = append po db.purchase_orders })

-- `create`
unfoldable pub create_order : CreatePurchaseOrderDto → ℕ → Op ℕ
create_order dto user_id = do
  find_or_throw (not_found Reason.supplier_not_found) (active_supplier dto.supplier_id)
  save_order (new_order dto user_id)

-- `findOne`
unfoldable pub find_order : ℕ → Op PurchaseOrder
find_order id =
    find_or_throw (not_found Reason.order_not_found) (λ db. find_by_id id db.purchase_orders)

abbrev pub store_order : ℕ → PurchaseOrder → Db → Db
store_order id po db = record db { purchase_orders = store id po db.purchase_orders }

abbrev pub with_order_status : PurchaseOrderStatus → PurchaseOrder → PurchaseOrder
with_order_status status po = record po { status = status }

abbrev pub is_draft : PurchaseOrderStatus → Bool
is_draft PurchaseOrderStatus.draft = true
is_draft _ = false

abbrev pub is_pending_approval : PurchaseOrderStatus → Bool
is_pending_approval PurchaseOrderStatus.pending_approval = true
is_pending_approval _ = false

abbrev pub is_approved : PurchaseOrderStatus → Bool
is_approved PurchaseOrderStatus.approved = true
is_approved _ = false

abbrev pub is_ordered : PurchaseOrderStatus → Bool
is_ordered PurchaseOrderStatus.ordered = true
is_ordered _ = false

abbrev pub is_received : PurchaseOrderStatus → Bool
is_received PurchaseOrderStatus.received = true
is_received _ = false

-- `submitForApproval`
unfoldable pub submit_for_approval : ℕ → Op (Unit {0})
submit_for_approval id = do
  po ← find_order id
  throw_if (not (is_draft po.status)) (bad_request Reason.order_not_draft)
  modify (store_order id (with_order_status PurchaseOrderStatus.pending_approval po))

-- `APPROVAL_THRESHOLDS[role] ?? 0`, in hundredths; none for `Infinity`.
abbrev pub approval_limit : UserRole → Option ℤ
approval_limit UserRole.station_manager = some (pos 50_000_000)
approval_limit UserRole.operations_manager = some (pos 200_000_000)
approval_limit UserRole.finance_manager = some (pos 1_000_000_000)
approval_limit UserRole.director = none
approval_limit _ = some (pos 0)

-- `toNumber(po.totalAmount) > limit`
abbrev pub exceeds : ℤ → Option ℤ → Bool
exceeds amount none = false
exceeds amount (some limit) = ltb_ℤ limit amount

-- `approve`
unfoldable pub approve_order : ℕ → ℕ → UserRole → Op (Unit {0})
approve_order id user_id role = do
  po ← find_order id
  throw_if (not (is_pending_approval po.status)) (bad_request Reason.order_not_pending)
  throw_if (exceeds po.total_amount (approval_limit role)) (bad_request Reason.amount_over_limit)
  modify (
      store_order id
        (record po { status = PurchaseOrderStatus.approved; approved_by_id = some user_id }))

-- `placeOrder`
unfoldable pub place_order : ℕ → Op (Unit {0})
place_order id = do
  po ← find_order id
  throw_if (not (is_approved po.status)) (bad_request Reason.order_not_approved)
  modify (store_order id (with_order_status PurchaseOrderStatus.ordered po))

-- A line in the loop of `receive`: its pieces into the stock, if it is of a product.
unfoldable pub receive_line : ℕ → PurchaseOrderLine → Op PurchaseOrderLine
receive_line station_id line = elim line.product_id [
  | none ↦ pure line
  | some product_id ↦
      receive_stock station_id product_id (pos line.quantity -ℤ pos line.quantity_received)
        StockOwnership.owned true
      >> pure (record line { quantity_received = line.quantity })
]

-- The loop of `receive`, which saves line after line.
unfoldable pub receive_lines :
    ℕ → PurchaseOrder → ℕ → List PurchaseOrderLine → List PurchaseOrderLine → Op PurchaseOrder
receive_lines id po station_id done [] = pure (record po { lines = done })
receive_lines id po station_id done (line ∷ lines) = receive_line station_id line >>= λ saved.
    modify (store_order id (record po { lines = (done ++ saved ∷ []) ++ lines }))
    >> receive_lines id po station_id (done ++ saved ∷ []) lines

unfoldable pub receive_at : ℕ → PurchaseOrder → ℕ → Op (Unit {0})
receive_at id po station_id = do
  received ← receive_lines id po station_id [] po.lines
  modify (store_order id (with_order_status PurchaseOrderStatus.received received))
  post_accessory_grn po.total_amount id
  pure tt

-- `receive`
unfoldable pub receive_order : ℕ → Op (Unit {0})
receive_order id = do
  po ← find_order id
  throw_if (not (is_ordered po.status || is_approved po.status))
      (bad_request Reason.order_not_ordered)
  station_id ← or_throw (bad_request Reason.destination_required) po.destination_station_id
  receive_at id po station_id

-- `pay`
unfoldable pub pay_order : ℕ → Op (Unit {0})
pay_order id = do
  po ← find_order id
  throw_if (not (is_received po.status)) (bad_request Reason.order_not_received)
  assert_payable id
  post_supplier_payment po.total_amount id
  mark_paid id
  modify (store_order id (with_order_status PurchaseOrderStatus.paid po))
