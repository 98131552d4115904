-- ===== src/Sales/Amounts.antt =====
-- The amounts of a sale that `createSale` makes.
use haroti_lpg_management.Common.Enums.{SaleStatus}
use haroti_lpg_management.Common.Errors.{Reason, bad_request, Result, ok, err}
use haroti_lpg_management.Customers.{find_customer, check_credit}
use haroti_lpg_management.Customers.Credit.{ltb_false}
use haroti_lpg_management.Database.Entities.{Station, User, SaleItem, Sale}
use haroti_lpg_management.Database.Keeps.{
  Keeps, Keeps-pure, Keeps-throw, Keeps-find_or_throw, Keeps-throw_if, Keeps->>=, Keeps->>,
  Keeps-when,
}
use haroti_lpg_management.Database.Returns.{>>=_inv, >>_inv, throw_if_inv, pure_inv}
use haroti_lpg_management.Database.State.{Db, Op, pure, throw, find_or_throw, ◌>>=◌, ◌>>◌, modify}
use haroti_lpg_management.Database.Table.{Table, find_by_id, append, total}
use haroti_lpg_management.Prelude.{
  ℤ, pos, ◌+ℤ◌, ◌-ℤ◌, ◌≤ℤ◌, ltb_ℤ, abs, int_laws, sum_of, Option-cases, is_some, ℕ, ◌≡◌, refl, sym,
  ap, ◌∙◌, subst, inl, inr, Bool, true, false, List,
}
use haroti_lpg_management.Sales.Create.{
  uses_gateway, Amounts, amounts_of, payment_total, check_amounts, check_sale_credit, check_details,
  check_gateway, needs_discount_approval, first_status, sale_row, save_new_sale, store_sale,
  as_bad_request, or_else_undo, start_gateway_payment, conclude_sale, make_sale,
}
use haroti_lpg_management.Sales.Finalize.{finalize_sale}
use haroti_lpg_management.Sales.Fingerprint.{CreateSaleDto}
use haroti_lpg_management.Sales.Frame.{finalize-kept}

check_amounts_inv :
    (dto : CreateSaleDto) (a : Amounts) (db db' : Db) {u : Unit {0}}
    → check_amounts dto a db ≡ (ok u, db')
    → (a.discount ≤ℤ a.subtotal) × (abs (payment_total dto.payments -ℤ a.total) ≤ℤ pos 5)
unfolding check_amounts
check_amounts_inv dto a db db' h =
    let (_, d1, first, h1) = >>_inv _ _ h in
    let (fits, _) =
      throw_if_inv (ltb_ℤ a.subtotal a.discount) (bad_request Reason.discount_exceeds_subtotal)
        first in
    let (close, _) =
      throw_if_inv (ltb_ℤ (pos 5) (abs (payment_total dto.payments -ℤ a.total)))
        (bad_request Reason.payments_differ) h1 in
    (
      ltb_false a.subtotal a.discount fits,
      ltb_false (pos 5) (abs (payment_total dto.payments -ℤ a.total)) close,
    )

-- The table of the sales is this one.
abbrev pub HasSales : Table Sale → Db → Type 0
HasSales sales db = db.sales ≡ sales

module _ (P : Db → Type 0) where
  check_credit-reads : (id : ℕ) (amount : ℤ) → Keeps P (check_credit id amount)
  unfolding check_credit find_customer
  check_credit-reads id amount =
      Keeps->>= (Keeps-find_or_throw _ _)
        λ c. Keeps->> (Keeps-throw_if _ _) (Keeps->> (Keeps-throw_if _ _) (Keeps-pure c))

  sale_credit-reads : (dto : CreateSaleDto) (total : ℤ) → Keeps P (check_sale_credit dto total)
  unfolding check_sale_credit
  sale_credit-reads dto total = elim (Option-cases dto.customer_id) [
    | inl nobody ↦ rw nobody (Keeps-when _ (Keeps-throw _))
    | inr (c, known) ↦
        rw known (Keeps-when _ (Keeps->> (check_credit-reads c total) (Keeps-pure tt)))
  ]

  details-reads : (card : Bool) (dto : CreateSaleDto) → Keeps P (check_details card dto)
  details-reads true dto = Keeps->> (Keeps-throw_if _ _) (Keeps-throw_if _ _)
  details-reads false dto = Keeps-throw_if _ _

  gateway-reads : (dto : CreateSaleDto) → Keeps P (check_gateway dto)
  unfolding check_gateway
  gateway-reads dto = Keeps-when _ (Keeps->> (Keeps-throw_if _ _) (details-reads _ dto))

  amounts-reads : (dto : CreateSaleDto) (a : Amounts) → Keeps P (check_amounts dto a)
  unfolding check_amounts
  amounts-reads dto a = Keeps->> (Keeps-throw_if _ _) (Keeps-throw_if _ _)

  -- What an operation that returned leaves.
  kept_to :
      {A : Type 0} (m : Op A) (db db' : Db) {a : A} → Keeps P m → m db ≡ (ok a, db') → P db → P db'
  kept_to {A} m db db' k e h = subst (λ (r : Result A × Db). P r.1) e (k.run db h)

undone_end :
    (r : Result (Unit {0})) (void : Db → Db) (db db' : Db)
    → ◌≡◌ {A = Result (Unit {0}) × Db}
        (elim r [ ok _ ↦ (ok tt, db) | err e ↦ (modify void >> throw (as_bad_request e)) db ])
        (ok tt, db')
    → db ≡ db'
unfolding ◌>>◌
undone_end (ok u) void db db' h = ap (λ (x : Result (Unit {0}) × Db). x.1) h
undone_end (err e) void db db' h = cc

-- A payment through the gateway that was started leaves the sales alone, if its initiation does.
started_lem :
    (initiate : ℕ → ℤ → Op (Unit {0})) (sales : Table Sale) (id : ℕ) (s : Sale) (db db' : Db)
    → Keeps (HasSales sales) (initiate id s.total_amount)
    → start_gateway_payment initiate id s db ≡ (ok tt, db')
    → HasSales sales db
    → HasSales sales db'
unfolding start_gateway_payment or_else_undo
started_lem initiate sales id s db db' k e h =
    let m : Op (Unit {0}) =
      initiate id s.total_amount
      >> (find_or_throw (bad_request Reason.sale_not_found) (λ db. find_by_id id db.sales)
          >> pure tt) in
    let ran = (Keeps->> k (Keeps->> (Keeps-find_or_throw _ _) (Keeps-pure tt))).run db h in
    subst (HasSales sales)
      (undone_end (m db).0 (store_sale id (record s { status = SaleStatus.voided })) (m db).1 db' e)
      ran

concluded_lem :
    (initiate : ℕ → ℤ → Op (Unit {0})) (sales : Table Sale) (has_bundle : Bool) (price : ℤ) (id : ℕ)
    (s : Sale) (status : SaleStatus) (db db' : Db)
    → Keeps (HasSales sales) (initiate id s.total_amount)
    → conclude_sale initiate has_bundle price id s status db ≡ (ok tt, db')
    → HasSales sales db
    → HasSales sales db'
unfolding conclude_sale
concluded_lem initiate sales b price id s SaleStatus.completed db db' k e h =
    kept_to (HasSales sales) (finalize_sale id s b price) db db'
      (finalize-kept (λ x payments. x ≡ sales) id s b price) e h
concluded_lem initiate sales b price id s SaleStatus.pending_payment db db' k e h =
    started_lem initiate sales id s db db' k e h
concluded_lem initiate sales b price id s _ db db' k e h =
    kept_to (HasSales sales) (pure tt) db db' (Keeps-pure tt) e h

-- The amounts of a sale that was made from this request and these items.
pub record IsMadeOf (dto : CreateSaleDto) (items : List SaleItem) (s : Sale) : Type 0 where
  pub items_are : s.items ≡ items
  pub payments_are : s.payments ≡ dto.payments
  pub subtotal_is : s.subtotal ≡ sum_of (λ i. i.line_total) items
  pub gas_is : s.lpg_quantity_kg ≡ sum_of (λ i. i.lpg_quantity_kg) items
  pub total_is : s.total_amount +ℤ s.discount_amount ≡ s.subtotal
  pub discount_fits : s.discount_amount ≤ℤ s.subtotal
  pub payments_fit : abs (payment_total s.payments -ℤ s.total_amount) ≤ℤ pos 5

row_lem :
    (dto : CreateSaleDto) (attendant : ℕ) (station : Station) (items : List SaleItem)
    (status : SaleStatus) (clock : ℕ)
    → ((amounts_of dto items).discount ≤ℤ (amounts_of dto items).subtotal)
      × (abs (payment_total dto.payments -ℤ (amounts_of dto items).total) ≤ℤ pos 5)
    → IsMadeOf dto items (sale_row dto attendant station items (amounts_of dto items) status clock)
unfolding amounts_of
row_lem dto attendant station items status clock (fits, close) = record {
  items_are = refl;
  payments_are = refl;
  subtotal_is = refl;
  gas_is = refl;
  total_is = omega int_laws;
  discount_fits = fits;
  payments_fit = close;
}

-- The end of `createSale`: the row is added, and what follows leaves the sales alone.
added_lem :
    (initiate : ℕ → ℤ → Op (Unit {0}))
    (apart : (sales : Table Sale) (id : ℕ) (amount : ℤ)
      → Keeps (HasSales sales) (initiate id amount))
    (make : ℕ → Sale) (has_bundle : Bool) (price : ℤ) (status : SaleStatus) (sales : Table Sale)
    (db db' : Db) (id : ℕ)
    → HasSales sales db
    → (save_new_sale make >>= λ saved.
          conclude_sale initiate has_bundle price saved.0 saved.1 status >> pure saved.0)
        db
      ≡ (ok id, db')
    → (db'.sales ≡ append (make db.clock) sales) × (id ≡ sales.next_id)
unfolding save_new_sale ◌>>=◌
added_lem initiate apart make has_bundle price status sales db db' id h e =
    let s = make db.clock in
    let there = record db { sales = append s db.sales } in
    let (_, d1, done, e1) =
      >>_inv (conclude_sale initiate has_bundle price db.sales.next_id s status) _ e in
    let kept =
      concluded_lem initiate (append s sales) has_bundle price db.sales.next_id s status there d1
        (apart _ _ _) done (ap (append s) h) in
    (
      subst (HasSales (append s sales)) (ap (λ (r : Result ℕ × Db). r.1) e1) kept,
      sym (pure_inv db.sales.next_id e1) ∙ ap (λ (t : Table Sale). t.next_id) h,
    )

abbrev find_attendant : ℕ → Op User
find_attendant id =
    find_or_throw (bad_request Reason.attendant_not_found) (λ db. find_by_id id db.users)

-- A sale that is made is the one row added to the sales, under the id returned. It has the items
-- and the payments it was made of; its subtotal and its gas are the sums over the items, its total
-- is the subtotal less the discount, the discount is at most the subtotal, and the payments are
-- within five cents of the total. The initiation of a payment must leave the sales alone.
pub make_sale-amounts :
    (initiate : ℕ → ℤ → Op (Unit {0}))
    (apart : (sales : Table Sale) (id : ℕ) (amount : ℤ)
      → Keeps (HasSales sales) (initiate id amount))
    (dto : CreateSaleDto) (attendant : ℕ) (station : Station) (price : ℤ) (items : List SaleItem)
    (db db' : Db) {id : ℕ}
    → make_sale initiate dto attendant station price items db ≡ (ok id, db')
    → (s : Sale) × (db'.sales ≡ append s db.sales) × (id ≡ db.sales.next_id) × IsMadeOf dto items s
unfolding make_sale
make_sale-amounts initiate apart dto attendant station price items db db' {id} h =
    let a = amounts_of dto items in
    let P = HasSales db.sales in
    let status_of : User → SaleStatus =
      λ user. first_status (needs_discount_approval a user) (uses_gateway dto.payments) in
    let (_, d1, checked, h1) = >>_inv (check_amounts dto a) _ h in
    let (_, d2, credit, h2) = >>_inv (check_sale_credit dto a.total) _ h1 in
    let (_, d3, gateway, h3) = >>_inv (check_gateway dto) _ h2 in
    let (user, d4, who, h4) = >>=_inv (find_attendant attendant) _ h3 in
    let k1 = kept_to P (check_amounts dto a) db d1 (amounts-reads P dto a) checked refl in
    let k2 =
      kept_to P (check_sale_credit dto a.total) d1 d2 (sale_credit-reads P dto a.total) credit k1 in
    let k3 = kept_to P (check_gateway dto) d2 d3 (gateway-reads P dto) gateway k2 in
    let k4 = kept_to P (find_attendant attendant) d3 d4 (Keeps-find_or_throw _ _) who k3 in
    let a_row = sale_row dto attendant station items a (status_of user) in
    let (sales, is_next) =
      added_lem initiate apart a_row (is_some dto.bundle_id) price (status_of user) db.sales d4 db'
        id k4 h4 in
    (
      a_row d4.clock,
      sales,
      is_next,
      row_lem dto attendant station items (status_of user) d4.clock
          (check_amounts_inv dto a db d1 checked),
    )
