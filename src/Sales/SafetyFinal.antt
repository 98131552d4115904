-- ===== src/Sales/SafetyFinal.antt =====
-- `finalizeSale` against the stocks and the journal.
use haroti_lpg_management.Accessories.Stock.{AccessoriesAreNonneg}
use haroti_lpg_management.Common.Enums.{LoyaltyTxnType}
use haroti_lpg_management.Customers.{find_customer, apply_credit, relieve_credit}
use haroti_lpg_management.Database.Entities.{Station, Sale}
use haroti_lpg_management.Database.Keeps.{
  Keeps, Keeps-pure, Keeps-find_or_throw, Keeps->>=, Keeps->>, Keeps-when,
}
use haroti_lpg_management.Database.State.{Db, Op, pure, ◌>>◌, modify}
use haroti_lpg_management.Database.Table.{find_by_id, lookup-All, replace-All}
use haroti_lpg_management.Finance.Posting.{
  post_bundle_sale, post_agent_commission, post_accessory_retail_sale, post_lpg_cogs,
  post_lpg_refill_sale, post_credit_sale,
}
use haroti_lpg_management.Loyalty.{account_of, get_or_create, apply_points, earn_from_sale}
use haroti_lpg_management.Prelude.{
  ℤ, pos, ◌≤ℤ◌, if◌then◌else◌, Option-cases, ℕ, ◌≡◌, refl, inl, inr, Bool, true, false, Option,
  some,
}
use haroti_lpg_management.Sales.Finalize.{
  forget, accrue_agent_commission, post_lpg_sale, finalize_lpg, finalize_accessories,
  finalize_customer, finalize_commission, finalize_sale,
}
use haroti_lpg_management.Sales.Safety.{
  Sound, post_entry_of-Sound, apply_movement-Sound, deduct_for_sale-Sound, SameBooks, modify-Sound,
}
use haroti_lpg_management.Stations.{find_station, update_station, touch_sync}

update_station-Sound :
    (id : ℕ) (f : Station → Station)
    → ((s : Station) → (f s).current_stock_kg ≡ s.current_stock_kg)
    → Keeps Sound (modify (update_station id f))
unfolding AccessoriesAreNonneg
update_station-Sound id f same = record {
  run = λ db h. elim (Option-cases (find_by_id id db.stations)) [
    | inl missing ↦ rw (missing, update_station) h
    | inr (s, found) ↦
        rw (found, update_station)
          (record {
            stock =
                replace-All (λ (s : Station). pos 0 ≤ℤ s.current_stock_kg) id (f s) db.stations.rows
                  h.stock
                  (rw (same s) (
                    lookup-All (λ (s : Station). pos 0 ≤ℤ s.current_stock_kg) id db.stations.rows
                      h.stock found));
            accessories = h.accessories;
            journal = h.journal;
          })
  ];
}

touch_sync-Sound : (id : ℕ) → Keeps Sound (touch_sync id)
unfolding touch_sync
touch_sync-Sound id = record {
  run = λ db h.
      (update_station-Sound id (λ s. record s { last_synced_at = some db.clock }) (λ s. refl)).run
        db h;
}

post_lpg_cogs-Sound : (id : ℕ) (kg cost : ℤ) → Keeps Sound (post_lpg_cogs id kg cost)
unfolding post_lpg_cogs
post_lpg_cogs-Sound id kg cost =
    Keeps-when _ (Keeps->> (post_entry_of-Sound _ _ _ _ _ _) (Keeps-pure tt))

post_lpg_sale-Sound :
    (credit : Bool) (revenue : ℤ) (id : ℕ) (kg : ℤ) (cost : Option ℤ)
    → Keeps Sound (post_lpg_sale credit revenue id kg cost)
unfolding post_credit_sale post_lpg_refill_sale
post_lpg_sale-Sound true revenue id kg cost =
    Keeps->> (post_entry_of-Sound _ _ _ _ _ _) (post_lpg_cogs-Sound id kg _)
post_lpg_sale-Sound false revenue id kg cost =
    Keeps->> (post_entry_of-Sound _ _ _ _ _ _) (post_lpg_cogs-Sound id kg _)

find_station-Sound : (id : ℕ) → Keeps Sound (find_station id)
unfolding find_station
find_station-Sound id = Keeps-find_or_throw _ _

finalize_lpg-Sound : (id : ℕ) (s : Sale) (price : ℤ) → Keeps Sound (finalize_lpg id s price)
unfolding finalize_lpg
finalize_lpg-Sound id s price =
    Keeps->> (apply_movement-Sound _)
      (Keeps->>= (find_station-Sound _) λ station. post_lpg_sale-Sound _ _ id _ _)

post_retail-Sound :
    (amount cogs : ℤ) (id : ℕ) → Keeps Sound (post_accessory_retail_sale amount cogs id)
unfolding post_accessory_retail_sale
post_retail-Sound amount cogs id =
    Keeps->> (post_entry_of-Sound _ _ _ _ _ _)
      (Keeps-when _ (Keeps->> (post_entry_of-Sound _ _ _ _ _ _) (Keeps-pure tt)))

finalize_accessories-Sound : (id : ℕ) (s : Sale) → Keeps Sound (finalize_accessories id s)
unfolding finalize_accessories
finalize_accessories-Sound id s =
    Keeps-when _ (Keeps->>= (deduct_for_sale-Sound _ _) λ cogs. post_retail-Sound _ cogs id)

find_customer-Sound : (id : ℕ) → Keeps Sound (find_customer id)
unfolding find_customer
find_customer-Sound id = Keeps-find_or_throw _ _

pub apply_credit-Sound : (id : ℕ) (amount : ℤ) → Keeps Sound (apply_credit id amount)
unfolding apply_credit SameBooks
apply_credit-Sound id amount =
    Keeps->>= (find_customer-Sound id) λ c. modify-Sound _ λ db. (refl, refl, refl)

pub relieve_credit-Sound : (id : ℕ) (amount : ℤ) → Keeps Sound (relieve_credit id amount)
unfolding relieve_credit SameBooks
relieve_credit-Sound id amount =
    Keeps->>= (find_customer-Sound id) λ c. modify-Sound _ λ db. (refl, refl, refl)

get_or_create-Sound : (id : ℕ) → Keeps Sound (get_or_create id)
unfolding get_or_create AccessoriesAreNonneg
get_or_create-Sound id = record {
  run = λ db h. elim (Option-cases (account_of id db)) [
    | inl new ↦
        rw (new, get_or_create)
          (record { stock = h.stock; accessories = h.accessories; journal = h.journal })
    | inr (a, old) ↦ rw (old, get_or_create) h
  ];
}

apply_points-Sound :
    (id : ℕ) (delta : ℤ) (kind : LoyaltyTxnType) → Keeps Sound (apply_points id delta kind)
unfolding apply_points SameBooks
apply_points-Sound id delta kind =
    Keeps->> (Keeps-find_or_throw _ _)
      (Keeps->>= (get_or_create-Sound id) λ a. modify-Sound _ λ db. (refl, refl, refl))

earn_from_sale-Sound : (id : ℕ) (amount : ℤ) → Keeps Sound (earn_from_sale id amount)
unfolding earn_from_sale
earn_from_sale-Sound id amount = Keeps-when _ (apply_points-Sound id _ _)

Keeps-forget : {P : Db → Type 0} {m : Op (Unit {0})} → Keeps P m → Keeps P (forget m)
unfolding forget
Keeps-forget k = record { run = k.run }

account_or_points-Sound :
    (credit : Bool) (c : ℕ) (amount : ℤ)
    → Keeps Sound (
        if credit
        then apply_credit c amount >> (find_customer c >> pure tt)
        else forget (earn_from_sale c amount))
account_or_points-Sound true c amount =
    Keeps->> (apply_credit-Sound c amount) (Keeps->> (find_customer-Sound c) (Keeps-pure tt))
account_or_points-Sound false c amount = Keeps-forget (earn_from_sale-Sound c amount)

finalize_customer-Sound : (s : Sale) → Keeps Sound (finalize_customer s)
unfolding finalize_customer
finalize_customer-Sound s = elim (Option-cases s.customer_id) [
  | inl nobody ↦ rw nobody (Keeps-pure tt)
  | inr (c, known) ↦ rw known (account_or_points-Sound _ c _)
]

accrue-Sound :
    (id agent : ℕ) (amount : ℤ) (percent : ℕ)
    → Keeps Sound (accrue_agent_commission id agent amount percent)
unfolding accrue_agent_commission AccessoriesAreNonneg
accrue-Sound id agent amount percent = record {
  run = λ db h. record { stock = h.stock; accessories = h.accessories; journal = h.journal };
}

post_agent-Sound : (amount : ℤ) (id : ℕ) → Keeps Sound (post_agent_commission amount id)
unfolding post_agent_commission
post_agent-Sound amount id = post_entry_of-Sound _ _ _ _ _ _

post_bundle-Sound : (amount : ℤ) (id : ℕ) → Keeps Sound (post_bundle_sale amount id)
unfolding post_bundle_sale
post_bundle-Sound amount id = post_entry_of-Sound _ _ _ _ _ _

finalize_commission-Sound : (id : ℕ) (s : Sale) → Keeps Sound (finalize_commission id s)
unfolding finalize_commission
finalize_commission-Sound id s = elim (Option-cases s.customer_id) [
  | inl nobody ↦ rw nobody (Keeps-pure tt)
  | inr (c, known) ↦
      rw (known, finalize_commission)
        (Keeps-when _ (
          Keeps->>= (accrue-Sound id c _ 8)
            λ amount. Keeps->> (post_agent-Sound amount id) (Keeps-pure tt)))
]

pub finalize_sale-Sound :
    (id : ℕ) (s : Sale) (has_bundle : Bool) (price : ℤ)
    → Keeps Sound (finalize_sale id s has_bundle price)
unfolding finalize_sale
finalize_sale-Sound id s has_bundle price =
    Keeps->> (Keeps-when _ (Keeps->> (post_bundle-Sound _ id) (Keeps-pure tt))) (
      Keeps->> (Keeps-when _ (finalize_lpg-Sound id s price)) (
        Keeps->> (finalize_accessories-Sound id s) (
          Keeps->> (finalize_customer-Sound s)
            (Keeps->> (finalize_commission-Sound id s) (touch_sync-Sound _)))))
