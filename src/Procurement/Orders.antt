-- ===== src/Procurement/Orders.antt =====
-- The statuses of a purchase order as a diagram, and the operations on an order
-- (backend/src/procurement/procurement.service.ts).
use haroti_lpg_management.Common.Enums.{UserRole, PurchaseOrderStatus}
use haroti_lpg_management.Common.Errors.{Reason, Failure, bad_request, not_found, Result, ok}
use haroti_lpg_management.Database.Documents.{PurchaseOrder}
use haroti_lpg_management.Database.Frame.{post_entry-Blind}
use haroti_lpg_management.Database.Keeps.{Keeps-pure, Keeps->>, kept_by}
use haroti_lpg_management.Database.Returns.{
  or_throw_inv, find_or_throw_inv, >>=_inv, >>_inv, throw_if_inv,
}
use haroti_lpg_management.Database.State.{Db, Op, pure, or_throw, ◌>>=◌, ◌>>◌, throw_if, modify}
use haroti_lpg_management.Database.Table.{find_by_id}
use haroti_lpg_management.Finance.Posting.{post_accessory_grn}
use haroti_lpg_management.Prelude.{
  ℕ, ◌≡◌, sym, ap, ◌∙◌, subst, Bool, false, not, ◌||◌, some, [], map, arith,
}
use haroti_lpg_management.Procurement.{
  find_order, store_order, with_order_status, is_draft, is_pending_approval, is_approved,
  is_ordered, is_received, submit_for_approval, approval_limit, exceeds, approve_order, place_order,
  receive_lines, receive_at, receive_order, pay_order,
}
use haroti_lpg_management.Procurement.Receipt.{
  OrderStands, IsThere, store_order-OrderStands, received_line, receive_lines-IsThere,
  receive_lines_inv,
}

infix 40 ◌⇒◌
pub data ◌⇒◌ : PurchaseOrderStatus → PurchaseOrderStatus → Type 0 where
  submit : PurchaseOrderStatus.draft ⇒ PurchaseOrderStatus.pending_approval
  agree : PurchaseOrderStatus.pending_approval ⇒ PurchaseOrderStatus.approved
  place : PurchaseOrderStatus.approved ⇒ PurchaseOrderStatus.ordered
  take : PurchaseOrderStatus.ordered ⇒ PurchaseOrderStatus.received
  take_early : PurchaseOrderStatus.approved ⇒ PurchaseOrderStatus.received
  settle_bill : PurchaseOrderStatus.received ⇒ PurchaseOrderStatus.paid

-- The calls that an order can be moved by.
pub data OrderCall : Type 0 where
  submit_call place_call receive_call pay_call : OrderCall
  approve_call : ℕ → UserRole → OrderCall

unfoldable pub call_order : OrderCall → ℕ → Op (Unit {0})
call_order OrderCall.submit_call id = submit_for_approval id
call_order OrderCall.place_call id = place_order id
call_order OrderCall.receive_call id = receive_order id
call_order OrderCall.pay_call id = pay_order id
call_order (OrderCall.approve_call user role) id = approve_order id user role

pub find_order_inv :
    (id : ℕ) {db db' : Db} {po : PurchaseOrder}
    → find_order id db ≡ (ok po, db')
    → (find_by_id id db.purchase_orders ≡ some po) × (db ≡ db')
unfolding find_order
find_order_inv id {db} h =
    find_or_throw_inv (not_found Reason.order_not_found) (λ db. find_by_id id db.purchase_orders)
      {db = db} h

-- The order has taken an edge of the diagram.
unfoldable pub Moved : ℕ → Db → Db → Type 0
Moved id db db' =
    (po : PurchaseOrder) × (po' : PurchaseOrder) × (find_by_id id db.purchase_orders ≡ some po)
    × (find_by_id id db'.purchase_orders ≡ some po')
    × (po.status ⇒ po'.status)

pub edge_from : {s t u : PurchaseOrderStatus} → s ≡ t → t ⇒ u → s ⇒ u
edge_from {u = u} same edge = subst (λ x. x ⇒ u) (sym same) edge

draft_lem : (s : PurchaseOrderStatus) → not (is_draft s) ≡ false → s ≡ PurchaseOrderStatus.draft
draft_lem s h = ground arith

pending_lem :
    (s : PurchaseOrderStatus)
    → not (is_pending_approval s) ≡ false
    → s ≡ PurchaseOrderStatus.pending_approval
pending_lem s h = ground arith

approved_lem :
    (s : PurchaseOrderStatus) → not (is_approved s) ≡ false → s ≡ PurchaseOrderStatus.approved
approved_lem s h = ground arith

pub received_lem :
    (s : PurchaseOrderStatus) → not (is_received s) ≡ false → s ≡ PurchaseOrderStatus.received
received_lem s h = ground arith

takes_lem :
    (s : PurchaseOrderStatus)
    → not (is_ordered s || is_approved s) ≡ false
    → s ⇒ PurchaseOrderStatus.received
takes_lem PurchaseOrderStatus.draft h = cc
takes_lem PurchaseOrderStatus.pending_approval h = cc
takes_lem PurchaseOrderStatus.approved h = take_early
takes_lem PurchaseOrderStatus.ordered h = take
takes_lem PurchaseOrderStatus.partially_received h = cc
takes_lem PurchaseOrderStatus.received h = cc
takes_lem PurchaseOrderStatus.paid h = cc
takes_lem PurchaseOrderStatus.cancelled h = cc

-- A write of the order that was found ends the call.
pub store_lem :
    (id : ℕ) (new po : PurchaseOrder) (db db' : Db) {u : Unit {0}}
    → find_by_id id db.purchase_orders ≡ some po
    → modify (store_order id new) db ≡ (ok u, db')
    → find_by_id id db'.purchase_orders ≡ some new
unfolding IsThere OrderStands
store_lem id new po db db' found run =
    subst (λ (r : Result (Unit {0}) × Db). find_by_id id r.1.purchase_orders ≡ some new) run
      (store_order-OrderStands id new db (po, found))

-- The calls that test the status of the order and then save it.
module _ (id : ℕ) (test : PurchaseOrder → Bool) (reason : Failure)
    (new : PurchaseOrder → PurchaseOrder)
    (edge : (po : PurchaseOrder) → test po ≡ false → po.status ⇒ (new po).status) where
  guarded_move :
      (db db' : Db) {u : Unit {0}}
      → (find_order id >>= λ po. throw_if (test po) reason >> modify (store_order id (new po))) db
        ≡ (ok u, db')
      → Moved id db db'
  unfolding Moved
  guarded_move db db' run =
      let (po, db1, read, rest) =
        >>=_inv (find_order id)
          (λ po. throw_if (test po) reason >> modify (store_order id (new po))) run in
      let (found, same) = find_order_inv id read in
      let (_, db2, passed, last) =
        >>_inv (throw_if (test po) reason) (modify (store_order id (new po))) rest in
      let (holds, same2) = throw_if_inv (test po) reason passed in
      let there : find_by_id id db2.purchase_orders ≡ some po =
        subst (λ (x : Db). find_by_id id x.purchase_orders ≡ some po) (same ∙ same2) found in
      (po, new po, found, store_lem id (new po) po db2 db' there last, edge po holds)

pub submit-Moved :
    (id : ℕ) (db db' : Db) {u : Unit {0}}
    → submit_for_approval id db ≡ (ok u, db')
    → Moved id db db'
unfolding submit_for_approval
submit-Moved id db db' run =
    guarded_move id (λ po. not (is_draft po.status)) (bad_request Reason.order_not_draft)
      (λ po. with_order_status PurchaseOrderStatus.pending_approval po)
      (λ po h. edge_from (draft_lem po.status h) submit) db db' run

pub place-Moved :
    (id : ℕ) (db db' : Db) {u : Unit {0}} → place_order id db ≡ (ok u, db') → Moved id db db'
unfolding place_order
place-Moved id db db' run =
    guarded_move id (λ po. not (is_approved po.status)) (bad_request Reason.order_not_approved)
      (λ po. with_order_status PurchaseOrderStatus.ordered po)
      (λ po h. edge_from (approved_lem po.status h) place) db db' run

pub approve-Moved :
    (id user : ℕ) (role : UserRole) (db db' : Db) {u : Unit {0}}
    → approve_order id user role db ≡ (ok u, db')
    → Moved id db db'
unfolding approve_order Moved
approve-Moved id user role db db' run =
    let new = λ (po : PurchaseOrder). record po {
      status = PurchaseOrderStatus.approved;
      approved_by_id = some user;
    } in
    let over = λ (po : PurchaseOrder). exceeds po.total_amount (approval_limit role) in
    let (po, db1, read, rest) =
      >>=_inv (find_order id)
        (λ po.
          throw_if (not (is_pending_approval po.status)) (bad_request Reason.order_not_pending)
          >> (throw_if (over po) (bad_request Reason.amount_over_limit)
              >> modify (store_order id (new po))))
        run in
    let (found, same) = find_order_inv id read in
    let (_, db2, passed, more) =
      >>_inv (throw_if (not (is_pending_approval po.status)) (bad_request Reason.order_not_pending))
        (throw_if (over po) (bad_request Reason.amount_over_limit)
          >> modify (store_order id (new po)))
        rest in
    let (holds, same2) = throw_if_inv _ (bad_request Reason.order_not_pending) passed in
    let (_, db3, within, last) =
      >>_inv (throw_if (over po) (bad_request Reason.amount_over_limit))
        (modify (store_order id (new po))) more in
    let (_, same3) = throw_if_inv (over po) (bad_request Reason.amount_over_limit) within in
    let there : find_by_id id db3.purchase_orders ≡ some po =
      subst (λ (x : Db). find_by_id id x.purchase_orders ≡ some po) (same ∙ same2 ∙ same3) found in
    (
      po,
      new po,
      found,
      store_lem id (new po) po db3 db' there last,
      edge_from (pending_lem po.status holds) agree,
    )

-- What the goods received leave of the order.
receive_at-OrderStands :
    (id station : ℕ) (po : PurchaseOrder) (db db' : Db) {u : Unit {0}}
    → find_by_id id db.purchase_orders ≡ some po
    → receive_at id po station db ≡ (ok u, db')
    → find_by_id id db'.purchase_orders
      ≡ some
          (record po { status = PurchaseOrderStatus.received; lines = map received_line po.lines })
unfolding receive_at IsThere OrderStands post_accessory_grn
receive_at-OrderStands id station po db db' found run =
    let rest = λ (received : PurchaseOrder).
      modify (store_order id (with_order_status PurchaseOrderStatus.received received))
      >> (post_accessory_grn po.total_amount id >> pure tt) in
    let (received, db1, looped, stored) =
      >>=_inv (receive_lines id po station [] po.lines) rest run in
    let there1 : IsThere id db1 =
      kept_by (receive_lines-IsThere id po station [] po.lines) looped (po, found) in
    let full = receive_lines_inv id po station [] po.lines db db1 looped in
    let new = with_order_status PurchaseOrderStatus.received received in
    let (_, db2, saved, posted) =
      >>_inv (modify (store_order id new)) (post_accessory_grn po.total_amount id >> pure tt)
        stored in
    let stands : OrderStands id new db2 =
      subst (λ (r : Result (Unit {0}) × Db). OrderStands id new r.1) saved
        (store_order-OrderStands id new db1 there1) in
    let last : OrderStands id new db' =
      kept_by
        (Keeps->> (post_entry-Blind (OrderStands id new) (λ db _ _ _ _ h. h) _) (Keeps-pure tt))
        posted stands in
    last ∙ ap (λ (r : PurchaseOrder). some (with_order_status PurchaseOrderStatus.received r)) full

-- A receipt that returns leaves the order received: each line of a product with its whole quantity
-- received, each other line and all else of the order as they were.
pub receive_order-received :
    (id : ℕ) (db db' : Db) {u : Unit {0}}
    → receive_order id db ≡ (ok u, db')
    → (po : PurchaseOrder) × (find_by_id id db.purchase_orders ≡ some po)
      × (po.status ⇒ PurchaseOrderStatus.received)
      × (find_by_id id db'.purchase_orders
          ≡ some (record po {
            status = PurchaseOrderStatus.received;
            lines = map received_line po.lines;
          }))
unfolding receive_order
receive_order-received id db db' run =
    let to = λ (po : PurchaseOrder).
      or_throw (bad_request Reason.destination_required) po.destination_station_id
      >>= receive_at id po in
    let test = λ (po : PurchaseOrder). not (is_ordered po.status || is_approved po.status) in
    let (po, db1, read, rest) =
      >>=_inv (find_order id)
        (λ po. throw_if (test po) (bad_request Reason.order_not_ordered) >> to po) run in
    let (found, same) = find_order_inv id read in
    let (_, db2, passed, more) =
      >>_inv (throw_if (test po) (bad_request Reason.order_not_ordered)) (to po) rest in
    let (holds, same2) = throw_if_inv (test po) (bad_request Reason.order_not_ordered) passed in
    let (station, db3, known, last) =
      >>=_inv (or_throw (bad_request Reason.destination_required) po.destination_station_id)
        (receive_at id po) more in
    let (_, same3) =
      or_throw_inv (bad_request Reason.destination_required) po.destination_station_id known in
    let there : find_by_id id db3.purchase_orders ≡ some po =
      subst (λ (x : Db). find_by_id id x.purchase_orders ≡ some po) (same ∙ same2 ∙ same3) found in
    (po, found, takes_lem po.status holds, receive_at-OrderStands id station po db3 db' there last)

pub receive-Moved :
    (id : ℕ) (db db' : Db) {u : Unit {0}} → receive_order id db ≡ (ok u, db') → Moved id db db'
unfolding Moved
receive-Moved id db db' run =
    let (po, found, edge, stands) = receive_order-received id db db' run in
    (po, _, found, stands, edge)

pub paid_edge :
    (s : PurchaseOrderStatus) → s ≡ PurchaseOrderStatus.received → s ⇒ PurchaseOrderStatus.paid
paid_edge s h = edge_from h settle_bill
