-- ===== src/Procurement/Receipt.antt =====
-- What `receive` leaves of an order (backend/src/procurement/procurement.service.ts).
use mathlib.Core.List.{append-nil, append_assoc}
use haroti_lpg_management.Accessories.{receive_stock}
use haroti_lpg_management.Common.Enums.{StockOwnership}
use haroti_lpg_management.Common.Errors.{ok}
use haroti_lpg_management.Database.Documents.{PurchaseOrderLine, PurchaseOrder}
use haroti_lpg_management.Database.Frame.{receive_stock-Blind}
use haroti_lpg_management.Database.Keeps.{Keeps, Keeps-pure, Keeps->>=, Keeps->>}
use haroti_lpg_management.Database.Returns.{>>=_inv, >>_inv, pure_inv}
use haroti_lpg_management.Database.State.{Db, pure, modify}
use haroti_lpg_management.Database.Table.{find_by_id, lookup-replace}
use haroti_lpg_management.Prelude.{
  pos, ◌-ℤ◌, Option-cases, ℕ, ◌≡◌, sym, ap, ◌∙◌, inl, inr, true, none, some, List, [], ◌∷◌, ◌++◌,
  map, arith,
}
use haroti_lpg_management.Procurement.{store_order, receive_line, receive_lines}

unfoldable pub OrderStands : ℕ → PurchaseOrder → Db → Type 0
OrderStands id po db = find_by_id id db.purchase_orders ≡ some po

unfoldable pub IsThere : ℕ → Db → Type 0
IsThere id db = (po : PurchaseOrder) × (find_by_id id db.purchase_orders ≡ some po)

pub store_order-OrderStands :
    (id : ℕ) (new : PurchaseOrder) (db : Db)
    → IsThere id db
    → OrderStands id new (store_order id new db)
unfolding IsThere OrderStands
store_order-OrderStands id new db (old, h) =
    rw (lookup-replace id id new {old = old} db.purchase_orders.rows h) (ground arith)

store_order-IsThere :
    (id : ℕ) (new : PurchaseOrder) (db : Db) → IsThere id db → IsThere id (store_order id new db)
unfolding IsThere OrderStands
store_order-IsThere id new db h = (new, store_order-OrderStands id new db h)

-- A line as the loop leaves it.
unfoldable pub received_line : PurchaseOrderLine → PurchaseOrderLine
received_line line = elim line.product_id [
  | none ↦ line
  | some product ↦ record line { quantity_received = line.quantity }
]

receive_line-IsThere :
    (id station : ℕ) (line : PurchaseOrderLine) → Keeps (IsThere id) (receive_line station line)
unfolding receive_line IsThere
receive_line-IsThere id station line = elim (Option-cases line.product_id) [
  | inl service ↦ rw (service, receive_line) (Keeps-pure line)
  | inr (product, known) ↦
      rw (known, receive_line)
        (Keeps->> (receive_stock-Blind _ (λ db _ _ _ _ h. h) station product _ _ _) (Keeps-pure _))
]

receive_line_inv :
    (station : ℕ) (line saved : PurchaseOrderLine) (db db' : Db)
    → receive_line station line db ≡ (ok saved, db')
    → saved ≡ received_line line
unfolding receive_line received_line
receive_line_inv station line saved db db' run = elim (Option-cases line.product_id) [
  | inl service ↦
      rw (service, received_line) (sym (pure_inv line (rw (service, receive_line) at run)))
  | inr (product, known) ↦
      let (_, db1, _, rest) =
        >>_inv
          (receive_stock station product (pos line.quantity -ℤ pos line.quantity_received)
            StockOwnership.owned true)
          (pure (record line { quantity_received = line.quantity }))
          (rw (known, receive_line) at run) in
      rw (known, received_line)
        (sym (pure_inv (record line { quantity_received = line.quantity }) rest))
]

pub receive_lines-IsThere :
    (id : ℕ) (po : PurchaseOrder) (station : ℕ) (done lines : List PurchaseOrderLine)
    → Keeps (IsThere id) (receive_lines id po station done lines)
unfolding receive_lines
receive_lines-IsThere id po station done [] = Keeps-pure _
receive_lines-IsThere id po station done (line ∷ lines) =
    Keeps->>= (receive_line-IsThere id station line) λ saved.
      Keeps->> (record { run = λ db h. store_order-IsThere id _ db h })
        (receive_lines-IsThere id po station (done ++ saved ∷ []) lines)

-- The order that the loop returns: the lines received, all else as it was.
pub receive_lines_inv :
    (id : ℕ) (po : PurchaseOrder) (station : ℕ) (done lines : List PurchaseOrderLine)
    {received : PurchaseOrder} (db db' : Db)
    → receive_lines id po station done lines db ≡ (ok received, db')
    → received ≡ record po { lines = done ++ map received_line lines }
unfolding receive_lines
receive_lines_inv id po station done [] db db' run =
    sym (pure_inv (record po { lines = done }) run)
    ∙ ap (λ ls. record po { lines = ls }) (sym (append-nil done))
receive_lines_inv id po station done (line ∷ lines) db db' run =
    let (saved, db1, one, rest) = >>=_inv (receive_line station line) _ run in
    let (_, db2, _, more) =
      >>_inv (modify (store_order id (record po { lines = (done ++ saved ∷ []) ++ lines })))
        (receive_lines id po station (done ++ saved ∷ []) lines) rest in
    let ih = receive_lines_inv id po station (done ++ saved ∷ []) lines db2 db' more in
    let same = receive_line_inv station line saved db db1 one in
    ih
    ∙ ap (λ ls. record po { lines = ls })
        (append_assoc done (saved ∷ []) (map received_line lines)
          ∙ ap (λ x. done ++ x ∷ map received_line lines) same)
