-- ===== src/Sales/SafetyCreate.antt =====
-- `createSale` against the stocks and the journal.
use haroti_lpg_management.Accessories.Stock.{AccessoriesAreNonneg}
use haroti_lpg_management.Common.Enums.{SaleStatus, SalesChannel}
use haroti_lpg_management.Common.Errors.{Result, ok, err}
use haroti_lpg_management.Customers.{find_customer, check_credit}
use haroti_lpg_management.Database.Entities.{Station, SaleItem, Sale, Cylinder}
use haroti_lpg_management.Database.Keeps.{
  Keeps, Keeps-pure, Keeps-throw, Keeps-gets, Keeps-find_or_throw, Keeps-throw_if, Keeps->>=,
  Keeps->>, Keeps-when, Keeps-for_each,
}
use haroti_lpg_management.Database.State.{Db, Op, modify}
use haroti_lpg_management.Database.Table.{total}
use haroti_lpg_management.Prelude.{
  ℤ, Option-cases, ℕ, ◌≡◌, refl, inl, inr, Bool, true, false, Option, none, some, List, [], ◌∷◌,
}
use haroti_lpg_management.Sales.Create.{
  Amounts, check_amounts, check_sale_credit, check_details, check_gateway, save_new_sale,
  store_sale, or_else_undo, start_gateway_payment, conclude_sale, make_sale, create_new_sale,
  create_sale,
}
use haroti_lpg_management.Sales.Fingerprint.{CreateSaleDto, existing_sale}
use haroti_lpg_management.Sales.Pricing.{
  assert_eligible, assert_serial_eligible, SaleItemDto, check_serial, weights, lpg_of, price_items,
  explode_items,
}
use haroti_lpg_management.Sales.Safety.{Sound, deduct_for_sale-Sound, SameBooks, modify-Sound}
use haroti_lpg_management.Sales.SafetyFinal.{finalize_sale-Sound}
use haroti_lpg_management.Shifts.{require_open_shift_for_sale}
use haroti_lpg_management.Stations.{find_station}

explode_items-Sound :
    (station_id : ℕ) (bundle : Option ℕ) (items : List SaleItemDto)
    → Keeps Sound (explode_items station_id bundle items)
unfolding explode_items
explode_items-Sound station_id none items = Keeps-pure _
explode_items-Sound station_id (some b) items =
    Keeps->>= (Keeps-find_or_throw _ _)
      λ b. Keeps->> (deduct_for_sale-Sound station_id _) (Keeps-pure _)

module _ {P : Db → Type 0} where
  assert_eligible-Keeps : (c : Cylinder) → Keeps P (assert_eligible c)
  unfolding assert_eligible
  assert_eligible-Keeps c =
      Keeps->>= (Keeps-gets _) λ now. Keeps->> (Keeps-throw_if _ _) (Keeps-throw_if _ _)

  check_serial-Keeps : (i : SaleItemDto) → Keeps P (check_serial i)
  unfolding check_serial assert_serial_eligible
  check_serial-Keeps i = elim (Option-cases i.cylinder_serial) [
    | inl nothing ↦ rw (nothing, check_serial) (Keeps-pure tt)
    | inr (s, given) ↦
        rw (given, check_serial)
          (Keeps->>= (Keeps-find_or_throw _ _) λ c. assert_eligible-Keeps (c.1))
  ]

  lpg_of-Keeps : (i : SaleItemDto) → Keeps P (lpg_of i)
  unfolding lpg_of
  lpg_of-Keeps i = elim (Option-cases (weights i)) [
    | inl nothing ↦ rw (nothing, lpg_of) (Keeps-pure _)
    | inr (w, given) ↦ rw (given, lpg_of) (Keeps->> (Keeps-throw_if _ _) (Keeps-pure _))
  ]

  price_items-Keeps :
      (active : ℤ) (channel : SalesChannel) (items : List SaleItemDto)
      → Keeps P (price_items active channel items)
  unfolding price_items
  price_items-Keeps active channel [] = Keeps-pure _
  price_items-Keeps active channel (i ∷ items) = Keeps->>= (lpg_of-Keeps i) λ lpg.
      Keeps->>= (Keeps-gets _)
        λ price. Keeps->>= (price_items-Keeps active channel items) λ rest. Keeps-pure _

  require_open_shift-Keeps :
      (shift station attendant : ℕ) → Keeps P (require_open_shift_for_sale shift station attendant)
  unfolding require_open_shift_for_sale
  require_open_shift-Keeps shift station attendant = Keeps->>= (Keeps-find_or_throw _ _) λ s.
      Keeps->> (Keeps-throw_if _ _)
        (Keeps->> (Keeps-throw_if _ _) (Keeps->> (Keeps-throw_if _ _) (Keeps-pure _)))

  check_amounts-Keeps : (dto : CreateSaleDto) (a : Amounts) → Keeps P (check_amounts dto a)
  unfolding check_amounts
  check_amounts-Keeps dto a = Keeps->> (Keeps-throw_if _ _) (Keeps-throw_if _ _)

  check_credit-Keeps : (id : ℕ) (amount : ℤ) → Keeps P (check_credit id amount)
  unfolding check_credit find_customer
  check_credit-Keeps id amount =
      Keeps->>= (Keeps-find_or_throw _ _)
        λ c. Keeps->> (Keeps-throw_if _ _) (Keeps->> (Keeps-throw_if _ _) (Keeps-pure _))

  check_sale_credit-Keeps :
      (dto : CreateSaleDto) (total : ℤ) → Keeps P (check_sale_credit dto total)
  unfolding check_sale_credit
  check_sale_credit-Keeps dto total = elim (Option-cases dto.customer_id) [
    | inl nobody ↦ rw (nobody, check_sale_credit) (Keeps-when _ (Keeps-throw _))
    | inr (c, known) ↦
        rw (known, check_sale_credit)
          (Keeps-when _ (Keeps->> (check_credit-Keeps c total) (Keeps-pure tt)))
  ]

  check_details-Keeps : (card : Bool) (dto : CreateSaleDto) → Keeps P (check_details card dto)
  check_details-Keeps true dto = Keeps->> (Keeps-throw_if _ _) (Keeps-throw_if _ _)
  check_details-Keeps false dto = Keeps-throw_if _ _

  check_gateway-Keeps : (dto : CreateSaleDto) → Keeps P (check_gateway dto)
  unfolding check_gateway
  check_gateway-Keeps dto = Keeps-when _ (Keeps->> (Keeps-throw_if _ _) (check_details-Keeps _ dto))

  or_else_undo-Keeps :
      {m handler : Op (Unit {0})} → Keeps P m → Keeps P handler → Keeps P (or_else_undo m handler)
  unfolding or_else_undo
  or_else_undo-Keeps {m} {handler} km kh = record { run = λ db h. go db ((m db).0) refl h }
    where
      go : (db : Db) (r : Result (Unit {0})) → (m db).0 ≡ r → P db → P (or_else_undo m handler db).1
      go db (ok u) e h = rw (e, or_else_undo) (km.run db h)
      go db (err f) e h =
          rw (e, or_else_undo) ((Keeps->> kh (Keeps-throw _)).run ((m db).1) (km.run db h))

save_new_sale-Sound : (make : ℕ → Sale) → Keeps Sound (save_new_sale make)
unfolding save_new_sale AccessoriesAreNonneg
save_new_sale-Sound make = record {
  run = λ db h. record { stock = h.stock; accessories = h.accessories; journal = h.journal };
}

pub store_sale-Sound : (id : ℕ) (s : Sale) → Keeps Sound (modify (store_sale id s))
unfolding SameBooks
store_sale-Sound id s = modify-Sound _ λ db. (refl, refl, refl)

module _ (initiate : ℕ → ℤ → Op (Unit {0}))
    (initiate-Sound : (id : ℕ) (amount : ℤ) → Keeps Sound (initiate id amount)) where
  start_gateway-Sound : (id : ℕ) (s : Sale) → Keeps Sound (start_gateway_payment initiate id s)
  unfolding start_gateway_payment
  start_gateway-Sound id s =
      or_else_undo-Keeps
        (Keeps->> (initiate-Sound id _) (Keeps->> (Keeps-find_or_throw _ _) (Keeps-pure tt)))
        (store_sale-Sound id _)

  conclude_sale-Sound :
      (has_bundle : Bool) (price : ℤ) (id : ℕ) (s : Sale) (status : SaleStatus)
      → Keeps Sound (conclude_sale initiate has_bundle price id s status)
  unfolding conclude_sale
  conclude_sale-Sound has_bundle price id s SaleStatus.completed =
      finalize_sale-Sound id s has_bundle price
  conclude_sale-Sound has_bundle price id s SaleStatus.pending_payment = start_gateway-Sound id s
  conclude_sale-Sound has_bundle price id s SaleStatus.voided = Keeps-pure tt
  conclude_sale-Sound has_bundle price id s SaleStatus.refunded = Keeps-pure tt
  conclude_sale-Sound has_bundle price id s SaleStatus.pending_approval = Keeps-pure tt

  make_sale-Sound :
      (dto : CreateSaleDto) (attendant : ℕ) (station : Station) (price : ℤ) (items : List SaleItem)
      → Keeps Sound (make_sale initiate dto attendant station price items)
  unfolding make_sale
  make_sale-Sound dto attendant station price items = Keeps->> (check_amounts-Keeps dto _) (
      Keeps->> (check_sale_credit-Keeps dto _) (
        Keeps->> (check_gateway-Keeps dto) (
          Keeps->>= (Keeps-find_or_throw _ _) λ user.
            Keeps->>= (save_new_sale-Sound _)
              λ saved. Keeps->> (conclude_sale-Sound _ price _ _ _) (Keeps-pure _))))

  create_new_sale-Sound :
      (dto : CreateSaleDto) (attendant : ℕ) → Keeps Sound (create_new_sale initiate dto attendant)
  unfolding create_new_sale find_station
  create_new_sale-Sound dto attendant = Keeps->> (Keeps-throw_if _ _) (
      Keeps->>= (Keeps-find_or_throw _ _) λ station. Keeps->> (require_open_shift-Keeps _ _ _) (
        Keeps->>= (Keeps-gets _) λ price. Keeps->> (Keeps-for_each _ check_serial-Keeps) (
          Keeps->>= (explode_items-Sound _ _ _) λ sold.
            Keeps->>= (price_items-Keeps _ _ _)
              λ items. make_sale-Sound dto attendant station price items)))

  -- A sale is created, refused, left waiting or undone without a negative stock or an unbalanced
  -- entry, if the gateway leaves the books alone.
  pub create_sale-Sound :
      (dto : CreateSaleDto) (attendant : ℕ) → Keeps Sound (create_sale initiate dto attendant)
  unfolding create_sale
  create_sale-Sound dto attendant = record {
    run = λ db h. elim (Option-cases (existing_sale dto.client_txn_id db)) [
      | inl new ↦ rw (new, create_sale) ((create_new_sale-Sound dto attendant).run db h)
      | inr (s, old) ↦ rw (old, create_sale) h
    ];
  }
