-- ===== src/Procurement/Payment.antt =====
-- The payment of a purchase order, and any call on an order
-- (backend/src/procurement/procurement.service.ts).
use haroti_lpg_management.Common.Enums.{UserRole, PurchaseOrderStatus}
use haroti_lpg_management.Common.Errors.{Reason, bad_request, ok, err}
use haroti_lpg_management.Database.Documents.{PurchaseOrder, SupplierInvoice}
use haroti_lpg_management.Database.Frame.{post_once-Blind}
use haroti_lpg_management.Database.Keeps.{
  Keeps, Keeps-gets, Keeps-find_or_throw, Keeps-throw_if, Keeps->>=, Keeps->>, kept_by,
}
use haroti_lpg_management.Database.Returns.{find_or_throw_inv, >>=_inv, >>_inv, throw_if_inv}
use haroti_lpg_management.Database.State.{Db, gets, find_or_throw, ◌>>=◌, ◌>>◌, throw_if, modify}
use haroti_lpg_management.Database.Table.{find_by_id}
use haroti_lpg_management.Finance.Posting.{post_supplier_payment}
use haroti_lpg_management.Prelude.{
  ℤ, ◌≤ℤ◌, ltb_ℤ, Bool-cases, Option-cases, ℕ, ◌≡◌, refl, sym, ◌∙◌, subst, inl, inr, true, not,
  some, arith,
}
use haroti_lpg_management.Procurement.{
  find_order, store_order, with_order_status, is_pending_approval, is_received, approval_limit,
  approve_order, pay_order,
}
use haroti_lpg_management.Procurement.Match.{
  latest_invoice, is_payable, is_received_order, assert_payable, mark_paid,
}
use haroti_lpg_management.Procurement.Orders.{
  OrderCall, call_order, find_order_inv, Moved, received_lem, store_lem, submit-Moved, place-Moved,
  approve-Moved, receive-Moved, paid_edge,
}
use haroti_lpg_management.Procurement.Receipt.{OrderStands}
use haroti_lpg_management.Shifts.Locks.{not-false}

assert_payable-Keeps : {P : Db → Type 0} (id : ℕ) → Keeps P (assert_payable id)
unfolding assert_payable
assert_payable-Keeps id =
    Keeps->>= (Keeps-find_or_throw _ _)
      λ r. Keeps->> (Keeps-throw_if _ _) (Keeps->>= (Keeps-gets _) λ po. Keeps-throw_if _ _)

-- The latest invoice of the order is matched, or its variance is approved.
unfoldable pub HasPayableInvoice : ℕ → Db → Type 0
HasPayableInvoice id db =
    (r : ℕ × SupplierInvoice) × (latest_invoice id db ≡ some r)
    × (is_payable r.1.match_status ≡ true)

assert_payable_inv :
    (id : ℕ) (db db' : Db) {u : Unit {0}}
    → assert_payable id db ≡ (ok u, db')
    → HasPayableInvoice id db
unfolding assert_payable HasPayableInvoice
assert_payable_inv id db db' run =
    let ready = λ (db : Db). find_by_id id db.purchase_orders in
    let last = gets ready >>= λ po.
    throw_if (not (is_received_order po)) (bad_request Reason.order_not_received) in
    let test = λ (r : ℕ × SupplierInvoice). not (is_payable r.1.match_status) in
    let (r, db1, read, rest) =
      >>=_inv (find_or_throw (bad_request Reason.invoice_required) (latest_invoice id))
        (λ r. throw_if (test r) (bad_request Reason.match_required) >> last) run in
    let (found, _) =
      find_or_throw_inv (bad_request Reason.invoice_required) (latest_invoice id) {db = db} read in
    let (_, db2, passed, _) =
      >>_inv (throw_if (test r) (bad_request Reason.match_required)) last rest in
    let (holds, _) = throw_if_inv (test r) (bad_request Reason.match_required) passed in
    (r, found, not-false (is_payable r.1.match_status) holds)

mark_paid-OrderStands :
    (order id : ℕ) (po : PurchaseOrder) → Keeps (OrderStands order po) (mark_paid id)
unfolding mark_paid OrderStands
mark_paid-OrderStands order id po = record {
  run = λ db h. elim (Option-cases (latest_invoice id db)) [
    | inl none_yet ↦ rw (none_yet, mark_paid) h
    | inr (r, found) ↦ rw (found, mark_paid) h
  ];
}

-- A payment of a purchase order that returns was made of an order that was received and whose
-- latest invoice was matched or had its variance approved, and leaves the order paid.
pub pay_order-guards :
    (id : ℕ) (db db' : Db) {u : Unit {0}}
    → pay_order id db ≡ (ok u, db')
    → (po : PurchaseOrder) × (find_by_id id db.purchase_orders ≡ some po)
      × (po.status ≡ PurchaseOrderStatus.received)
      × HasPayableInvoice id db
      × (find_by_id id db'.purchase_orders ≡ some (with_order_status PurchaseOrderStatus.paid po))
unfolding pay_order OrderStands post_supplier_payment
pay_order-guards id db db' run =
    let save = λ (po : PurchaseOrder).
      modify (store_order id (with_order_status PurchaseOrderStatus.paid po)) in
    let post = λ (po : PurchaseOrder).
      post_supplier_payment po.total_amount id >> (mark_paid id >> save po) in
    let test = λ (po : PurchaseOrder). not (is_received po.status) in
    let (po, db1, read, rest) =
      >>=_inv (find_order id)
        (λ po.
          throw_if (test po) (bad_request Reason.order_not_received)
          >> (assert_payable id >> post po))
        run in
    let (found, same) = find_order_inv id read in
    let (_, db2, passed, more) =
      >>_inv (throw_if (test po) (bad_request Reason.order_not_received))
        (assert_payable id >> post po) rest in
    let (holds, same2) = throw_if_inv (test po) (bad_request Reason.order_not_received) passed in
    let there2 : OrderStands id po db2 = subst (OrderStands id po) (same ∙ same2) found in
    let (_, db3, payable, posting) = >>_inv (assert_payable id) (post po) more in
    let invoice = assert_payable_inv id db2 db3 payable in
    let there3 : OrderStands id po db3 =
      kept_by (assert_payable-Keeps {P = OrderStands id po} id) payable there2 in
    let (_, db4, posted, marking) =
      >>_inv (post_supplier_payment po.total_amount id) (mark_paid id >> save po) posting in
    let there4 : OrderStands id po db4 =
      kept_by (post_once-Blind (OrderStands id po) (λ db _ _ _ _ h. h) _) posted there3 in
    let (_, db5, marked, last) = >>_inv (mark_paid id) (save po) marking in
    let there5 : OrderStands id po db5 = kept_by (mark_paid-OrderStands id id po) marked there4 in
    (
      po,
      found,
      received_lem po.status holds,
      subst (HasPayableInvoice id) (sym (same ∙ same2)) invoice,
      store_lem id (with_order_status PurchaseOrderStatus.paid po) po db5 db' there5 last,
    )

-- After a payment that returned, another payment of the order is refused as not received and
-- changes nothing.
pub pay_order_twice :
    (id : ℕ) (db db' : Db) {u : Unit {0}}
    → pay_order id db ≡ (ok u, db')
    → pay_order id db' ≡ (err (bad_request Reason.order_not_received), db')
unfolding pay_order find_order ◌>>=◌ ◌>>◌
pay_order_twice id db db' run =
    let (po, _, _, _, stands) = pay_order-guards id db db' run in rw stands refl

-- An approval of an order that returns was made of an order whose total is within the limit of the
-- role, if the role has one.
pub approve_order-limit :
    (id user : ℕ) (role : UserRole) (db db' : Db) {po : PurchaseOrder} {limit : ℤ} {u : Unit {0}}
    → approve_order id user role db ≡ (ok u, db')
    → find_by_id id db.purchase_orders ≡ some po
    → approval_limit role ≡ some limit
    → po.total_amount ≤ℤ limit
unfolding approve_order find_order ◌>>=◌ ◌>>◌
approve_order-limit id user role db db' {po} {limit} run found has_limit =
    elim (Bool-cases (not (is_pending_approval po.status))) [
      | inl refused ↦ cc (rw (found, refused) at run)
      | inr pending ↦ elim (Bool-cases (ltb_ℤ limit po.total_amount)) [
        | inl over ↦ cc (rw (found, pending, has_limit, over) at run)
        | inr within ↦ ground (arith, within)
      ]
    ]

-- Every call on a purchase order that returns moves the order along an edge of the diagram from
-- draft over pending approval, approved and ordered to received and paid, in which an approved
-- order may be received without being placed.
pub call_order-Moved :
    (call : OrderCall) (id : ℕ) (db db' : Db) {u : Unit {0}}
    → call_order call id db ≡ (ok u, db')
    → Moved id db db'
unfolding call_order
call_order-Moved OrderCall.submit_call id db db' run = submit-Moved id db db' run
call_order-Moved OrderCall.place_call id db db' run = place-Moved id db db' run
call_order-Moved OrderCall.receive_call id db db' run = receive-Moved id db db' run
call_order-Moved OrderCall.pay_call id db db' run =
    unfold Moved in
    let (po, found, was_received, _, stands) = pay_order-guards id db db' run in
    (
      po,
      with_order_status PurchaseOrderStatus.paid po,
      found,
      stands,
      paid_edge po.status was_received,
    )
call_order-Moved (OrderCall.approve_call user role) id db db' run =
    approve-Moved id user role db db' run
