-- ===== src/Procurement/Match.antt =====
-- backend/src/procurement/three-way-match.service.ts: the invoices of the suppliers, matched with
-- the order and with what was received. The row found by `order: { createdAt: 'DESC' }` is the last
-- one in the order of insertion.
use haroti_lpg_management.Common.Enums.{
  PurchaseOrderStatus, SupplierInvoiceStatus, ThreeWayMatchStatus,
}
use haroti_lpg_management.Common.Errors.{Reason, bad_request, not_found, ok}
use haroti_lpg_management.Database.Documents.{PurchaseOrderLine, PurchaseOrder, SupplierInvoice}
use haroti_lpg_management.Database.State.{
  Db, Op, pure, gets, find_or_throw, ◌>>=◌, ◌>>◌, throw_if, modify, when,
}
use haroti_lpg_management.Database.Table.{find_by_id, store, append, find_where, all_where}
use haroti_lpg_management.Prelude.{
  ℤ, pos, ◌-ℤ◌, ◌*ℤ◌, ltb_ℤ, abs, all, last_of, leb, ◌==◌, if◌then◌else◌, or_else, is_some, ℕ, Bool,
  true, false, not, ◌&&◌, Option, none, some,
}

pub record RegisterInvoiceDto : Type 0 where
  pub invoice_number : ℕ
  pub supplier_id : ℕ
  pub purchase_order_id : Option ℕ
  pub amount : ℤ
  pub tax_amount : Option ℤ

-- `where: { invoiceNumber, supplierId }`
unfoldable pub is_invoice : ℕ → ℕ → SupplierInvoice → Bool
is_invoice number supplier i = i.invoice_number == number && i.supplier_id == supplier

abbrev pub new_invoice : RegisterInvoiceDto → SupplierInvoice
new_invoice dto = record {
  invoice_number = dto.invoice_number;
  supplier_id = dto.supplier_id;
  purchase_order_id = dto.purchase_order_id;
  amount = dto.amount;
  tax_amount = or_else dto.tax_amount (pos 0);
  status = SupplierInvoiceStatus.registered;
  match_status = ThreeWayMatchStatus.pending;
  variance_amount = none;
}

unfoldable pub save_invoice : SupplierInvoice → Op ℕ
save_invoice i db = (
  ok db.supplier_invoices.next_id,
  record db { supplier_invoices = append i db.supplier_invoices },
)

unfoldable pub find_invoice : ℕ → Op SupplierInvoice
find_invoice id =
    find_or_throw (not_found Reason.invoice_not_found) (λ db. find_by_id id db.supplier_invoices)

abbrev pub store_invoice : ℕ → SupplierInvoice → Db → Db
store_invoice id i db = record db { supplier_invoices = store id i db.supplier_invoices }

-- `l.quantityReceived >= l.quantity`
unfoldable pub is_line_received : PurchaseOrderLine → Bool
is_line_received l = leb l.quantity l.quantity_received

-- `variancePct > THREE_WAY_TOLERANCE_PCT`: the variance in percent is |v| * 100 / amount.
unfoldable pub over_tolerance : ℤ → ℤ → Bool
over_tolerance variance po_amount =
    ltb_ℤ (pos 0) po_amount && ltb_ℤ (pos 2 *ℤ po_amount) (abs variance *ℤ pos 100)

unfoldable pub is_match : SupplierInvoice → PurchaseOrder → Bool
is_match i po =
    all is_line_received po.lines
    && not (over_tolerance (i.amount -ℤ po.total_amount) po.total_amount)

-- The invoice once it is matched.
unfoldable pub matched_invoice : SupplierInvoice → PurchaseOrder → SupplierInvoice
matched_invoice i po = record i {
  match_status =
      if is_match i po then ThreeWayMatchStatus.matched else ThreeWayMatchStatus.variance;
  status = if is_match i po then SupplierInvoiceStatus.matched else SupplierInvoiceStatus.variance;
  variance_amount = some (i.amount -ℤ po.total_amount);
}

-- The order that the invoice is linked to.
unfoldable pub order_of : SupplierInvoice → Db → Option PurchaseOrder
order_of i db = elim i.purchase_order_id [
  | none ↦ none
  | some id ↦ find_by_id id db.purchase_orders
]

-- `runMatch`
unfoldable pub run_match : ℕ → Op (Unit {0})
run_match id = do
  i ← find_invoice id
  po ← find_or_throw (bad_request Reason.invoice_not_linked) (order_of i)
  modify (store_invoice id (matched_invoice i po))

-- `register`
unfoldable pub register_invoice : RegisterInvoiceDto → Op ℕ
register_invoice dto = do
  duplicate ←
      gets (λ db. find_where (is_invoice dto.invoice_number dto.supplier_id) db.supplier_invoices)
  throw_if (is_some duplicate) (bad_request Reason.duplicate_invoice)
  id ← save_invoice (new_invoice dto)
  when (is_some dto.purchase_order_id) (run_match id)
  pure id

abbrev pub is_variance : ThreeWayMatchStatus → Bool
is_variance ThreeWayMatchStatus.variance = true
is_variance _ = false

-- `approveVariance`
unfoldable pub approve_variance : ℕ → Op (Unit {0})
approve_variance id = do
  i ← find_invoice id
  throw_if (not (is_variance i.match_status)) (bad_request Reason.no_variance)
  modify (
      store_invoice id (record i {
        match_status = ThreeWayMatchStatus.approved;
        status = SupplierInvoiceStatus.matched;
      }))

-- `where: { purchaseOrderId }`
unfoldable pub is_invoice_for : ℕ → SupplierInvoice → Bool
is_invoice_for order_id i = elim i.purchase_order_id [ none ↦ false | some p ↦ p == order_id ]

unfoldable pub latest_invoice : ℕ → Db → Option (ℕ × SupplierInvoice)
latest_invoice order_id db = last_of (all_where (is_invoice_for order_id) db.supplier_invoices)

-- The invoice may be paid.
abbrev pub is_payable : ThreeWayMatchStatus → Bool
is_payable ThreeWayMatchStatus.matched = true
is_payable ThreeWayMatchStatus.approved = true
is_payable _ = false

abbrev pub is_received_order : Option PurchaseOrder → Bool
is_received_order none = false
is_received_order (some po) = elim po.status [ PurchaseOrderStatus.received ↦ true | _ ↦ false ]

-- `assertPayable`
unfoldable pub assert_payable : ℕ → Op (Unit {0})
assert_payable order_id = do
  r ← find_or_throw (bad_request Reason.invoice_required) (latest_invoice order_id)
  throw_if (not (is_payable r.1.match_status)) (bad_request Reason.match_required)
  po ← gets (λ db. find_by_id order_id db.purchase_orders)
  throw_if (not (is_received_order po)) (bad_request Reason.order_not_received)

-- `markPaid`
unfoldable pub mark_paid : ℕ → Op (Unit {0})
mark_paid order_id db = elim (latest_invoice order_id db) [
  | none ↦ (ok tt, db)
  | some (id, i) ↦ (ok tt, store_invoice id (record i { status = SupplierInvoiceStatus.paid }) db)
]
