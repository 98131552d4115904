-- ===== src/Sales/Frame.antt =====
-- What the finalization of a sale leaves alone (backend/src/sales/sales.service.ts,
-- `finalizeSale`): the sales and the payments through the gateway.
use haroti_lpg_management.Accessories.{deduct_for_sale}
use haroti_lpg_management.Customers.{find_customer, apply_credit}
use haroti_lpg_management.Database.Documents.{PaychanguTransaction}
use haroti_lpg_management.Database.Entities.{Sale}
use haroti_lpg_management.Database.Frame.{
  apply_movement-Blind, post_entry-Blind, adjust_accessory-Blind,
}
use haroti_lpg_management.Database.Keeps.{
  Keeps, Keeps-pure, Keeps-gets, Keeps-find_or_throw, Keeps->>=, Keeps->>, Keeps-when,
}
use haroti_lpg_management.Database.State.{Db, pure, ◌>>◌}
use haroti_lpg_management.Database.Table.{Table, find_by_id}
use haroti_lpg_management.Finance.Journal.{EntryParams, post_entry}
use haroti_lpg_management.Finance.Posting.{
  post_bundle_sale, post_agent_commission, post_accessory_retail_sale, post_lpg_cogs,
  post_lpg_refill_sale, post_credit_sale,
}
use haroti_lpg_management.Inventory.{MovementParams, apply_movement}
use haroti_lpg_management.Loyalty.{account_of, get_or_create, apply_points, earn_from_sale}
use haroti_lpg_management.Prelude.{
  ℤ, if◌then◌else◌, Option-cases, ℕ, inl, inr, Bool, true, false, Option, List, [], ◌∷◌,
}
use haroti_lpg_management.Sales.Finalize.{
  forget, accrue_agent_commission, post_lpg_sale, finalize_lpg, finalize_accessories,
  finalize_customer, finalize_commission, finalize_sale,
}
use haroti_lpg_management.Stations.{find_station, update_station, touch_sync}

module _ (Q : Table Sale → Table PaychanguTransaction → Type 0) where
  abbrev pub OfTables : Db → Type 0
  OfTables db = Q db.sales db.paychangu_transactions

  movement-kept : (p : MovementParams) → Keeps OfTables (apply_movement p)
  movement-kept = apply_movement-Blind OfTables (λ db _ _ _ _ h. h)

  entry-kept : (p : EntryParams) → Keeps OfTables (post_entry p)
  entry-kept = post_entry-Blind OfTables (λ db _ _ _ _ h. h)

  cogs-kept : (id : ℕ) (kg cost : ℤ) → Keeps OfTables (post_lpg_cogs id kg cost)
  unfolding post_lpg_cogs
  cogs-kept id kg cost = Keeps-when _ (Keeps->> (entry-kept _) (Keeps-pure tt))

  lpg_sale-kept :
      (credit : Bool) (revenue : ℤ) (id : ℕ) (kg : ℤ) (cost : Option ℤ)
      → Keeps OfTables (post_lpg_sale credit revenue id kg cost)
  unfolding post_credit_sale post_lpg_refill_sale
  lpg_sale-kept true revenue id kg cost = Keeps->> (entry-kept _) (cogs-kept id kg _)
  lpg_sale-kept false revenue id kg cost = Keeps->> (entry-kept _) (cogs-kept id kg _)

  lpg-kept : (id : ℕ) (s : Sale) (price : ℤ) → Keeps OfTables (finalize_lpg id s price)
  unfolding finalize_lpg find_station
  lpg-kept id s price =
      Keeps->> (movement-kept _)
        (Keeps->>= (Keeps-find_or_throw _ _) λ station. lpg_sale-kept _ _ id _ _)

  retail-kept :
      (amount cogs : ℤ) (id : ℕ) → Keeps OfTables (post_accessory_retail_sale amount cogs id)
  unfolding post_accessory_retail_sale
  retail-kept amount cogs id =
      Keeps->> (entry-kept _) (Keeps-when _ (Keeps->> (entry-kept _) (Keeps-pure tt)))

  deduct-kept :
      (station : ℕ) (items : List (ℕ × ℕ)) → Keeps OfTables (deduct_for_sale station items)
  unfolding deduct_for_sale
  deduct-kept station [] = Keeps-pure _
  deduct-kept station (i ∷ items) =
      Keeps->> (adjust_accessory-Blind OfTables (λ db _ _ _ _ h. h) station _ _ _) (
        Keeps->>= (Keeps-gets _) λ cost. Keeps->>= (deduct-kept station items) λ rest. Keeps-pure _)

  accessories-kept : (id : ℕ) (s : Sale) → Keeps OfTables (finalize_accessories id s)
  unfolding finalize_accessories
  accessories-kept id s = Keeps-when _ (Keeps->>= (deduct-kept _ _) λ cogs. retail-kept _ cogs id)

  credit-kept : (id : ℕ) (amount : ℤ) → Keeps OfTables (apply_credit id amount)
  unfolding apply_credit find_customer
  credit-kept id amount = Keeps->>= (Keeps-find_or_throw _ _) λ c. record { run = λ db h. h }

  account-kept : (id : ℕ) → Keeps OfTables (get_or_create id)
  unfolding get_or_create
  account-kept id = record {
    run = λ db h. elim (Option-cases (account_of id db)) [
      | inl new ↦ rw (new, get_or_create) h
      | inr (a, old) ↦ rw (old, get_or_create) h
    ];
  }

  earn-kept : (id : ℕ) (amount : ℤ) → Keeps OfTables (earn_from_sale id amount)
  unfolding earn_from_sale apply_points
  earn-kept id amount = Keeps-when _ (
      Keeps->> (Keeps-find_or_throw _ _)
        (Keeps->>= (account-kept id) λ a. record { run = λ db h. h }))

  customer_step-kept :
      (credit : Bool) (c : ℕ) (amount : ℤ)
      → Keeps OfTables (
          if credit
          then apply_credit c amount >> (find_customer c >> pure tt)
          else forget (earn_from_sale c amount))
  unfolding find_customer forget
  customer_step-kept true c amount =
      Keeps->> (credit-kept c amount) (Keeps->> (Keeps-find_or_throw _ _) (Keeps-pure tt))
  customer_step-kept false c amount = record { run = (earn-kept c amount).run }

  customer-kept : (s : Sale) → Keeps OfTables (finalize_customer s)
  unfolding finalize_customer
  customer-kept s = elim (Option-cases s.customer_id) [
    | inl nobody ↦ rw nobody (Keeps-pure tt)
    | inr (c, known) ↦ rw known (customer_step-kept _ c _)
  ]

  accrue-kept :
      (id agent : ℕ) (amount : ℤ) (percent : ℕ)
      → Keeps OfTables (accrue_agent_commission id agent amount percent)
  unfolding accrue_agent_commission
  accrue-kept id agent amount percent = record { run = λ db h. h }

  commission-kept : (id : ℕ) (s : Sale) → Keeps OfTables (finalize_commission id s)
  unfolding finalize_commission post_agent_commission
  commission-kept id s = elim (Option-cases s.customer_id) [
    | inl nobody ↦ rw nobody (Keeps-pure tt)
    | inr (c, known) ↦
        rw (known, finalize_commission)
          (Keeps-when _
            (Keeps->>= (accrue-kept id c _ 8) λ amount. Keeps->> (entry-kept _) (Keeps-pure tt)))
  ]

  touch-kept : (id : ℕ) → Keeps OfTables (touch_sync id)
  unfolding touch_sync
  touch-kept id = record {
    run = λ db h. elim (Option-cases (find_by_id id db.stations)) [
      | inl missing ↦ rw (missing, update_station) h
      | inr (s, found) ↦ rw (found, update_station) h
    ];
  }

  pub finalize-kept :
      (id : ℕ) (s : Sale) (has_bundle : Bool) (price : ℤ)
      → Keeps OfTables (finalize_sale id s has_bundle price)
  unfolding finalize_sale post_bundle_sale
  finalize-kept id s has_bundle price =
      Keeps->> (Keeps-when _ (Keeps->> (entry-kept _) (Keeps-pure tt))) (
        Keeps->> (Keeps-when _ (lpg-kept id s price)) (
          Keeps->> (accessories-kept id s)
            (Keeps->> (customer-kept s) (Keeps->> (commission-kept id s) (touch-kept _)))))
