-- ===== src/Procurement/Invoices.antt =====
-- The match of an invoice, and the invoices of a supplier under their numbers
-- (backend/src/procurement/three-way-match.service.ts).
use mathlib.Core.Option.{some-injective}
use mathlib.Core.Logic.{◌↔◌}
use haroti_lpg_management.Common.Errors.{ok}
use haroti_lpg_management.Database.Documents.{PurchaseOrderLine, PurchaseOrder, SupplierInvoice}
use haroti_lpg_management.Database.State.{Db}
use haroti_lpg_management.Database.Table.{find_by_id}
use haroti_lpg_management.Prelude.{
  pos, ◌-ℤ◌, ◌*ℤ◌, ◌≤ℤ◌, ◌<ℤ◌, abs, any, all, Bool-cases, Option-cases, is_some, ℕ, ◌≡◌, refl, sym,
  ◌∙◌, inl, inr, Bool, true, false, not, ◌&&◌, some, List, [], ◌∷◌, map, arith,
}
use haroti_lpg_management.Procurement.{receive_order}
use haroti_lpg_management.Procurement.Match.{is_line_received, over_tolerance, is_match}
use haroti_lpg_management.Procurement.Orders.{receive_order-received}
use haroti_lpg_management.Procurement.Receipt.{received_line}
use haroti_lpg_management.Sales.Pricing.{later}

-- The variance is at most two percent of the order.
abbrev pub WithinTolerance : SupplierInvoice → PurchaseOrder → Type 0
WithinTolerance i po = abs (i.amount -ℤ po.total_amount) *ℤ pos 100 ≤ℤ pos 2 *ℤ po.total_amount

-- An invoice of an order with a positive total is matched exactly if every line is received in
-- full and the variance is at most two percent of the order.
pub is_match_iff :
    (i : SupplierInvoice) (po : PurchaseOrder)
    → pos 0 <ℤ po.total_amount
    → (is_match i po ≡ true) ↔ ((all is_line_received po.lines ≡ true) × WithinTolerance i po)
unfolding is_match over_tolerance
is_match_iff i po positive = ground arith

-- A line of no product that is not received in full.
unfoldable pub is_open_service : PurchaseOrderLine → Bool
is_open_service line = not (is_some line.product_id) && not (is_line_received line)

not-true : (b : Bool) → not b ≡ true → b ≡ false
not-true true h = sym h
not-true false h = refl

&&_false : (b : Bool) → (b && false) ≡ false
&&_false true = refl
&&_false false = refl

service_line_lem :
    (line : PurchaseOrderLine)
    → is_open_service line ≡ true
    → is_line_received (received_line line) ≡ false
unfolding is_open_service received_line is_line_received
service_line_lem line h = elim (Option-cases line.product_id) [
  | inl service ↦
      let k : not (is_line_received line) ≡ true = rw service at h in
      rw (service, received_line) (not-true (is_line_received line) k)
  | inr (product, known) ↦ cc (rw known at h)
]

-- The receipt passes such a line by.
service_lem :
    (lines : List PurchaseOrderLine)
    → any is_open_service lines ≡ true
    → all is_line_received (map received_line lines) ≡ false
service_lem [] h = cc
service_lem (line ∷ lines) h = elim (Bool-cases (is_open_service line)) [
  | inl here ↦ rw (service_line_lem line here) refl
  | inr later ↦
      rw (service_lem lines (rw later at h)) (&&_false (is_line_received (received_line line)))
]

-- An order with a line of no product that is not received in full is matched by no invoice after a
-- receipt that returned.
pub receive_order-service :
    (id : ℕ) (db db' : Db) {po : PurchaseOrder} {u : Unit {0}}
    → receive_order id db ≡ (ok u, db')
    → find_by_id id db.purchase_orders ≡ some po
    → any is_open_service po.lines ≡ true
    → (po' : PurchaseOrder) × (find_by_id id db'.purchase_orders ≡ some po')
      × ((i : SupplierInvoice) → is_match i po' ≡ false)
unfolding is_match
receive_order-service id db db' {po} run found service =
    let (po1, found1, _, stands) = receive_order-received id db db' run in
    let same : po1 ≡ po = some-injective _ _ (sym found1 ∙ found) in
    let miss : all is_line_received (map received_line po1.lines) ≡ false =
      rw same (service_lem po.lines service) in
    (_, stands, λ i. rw miss refl)
