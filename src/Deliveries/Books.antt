-- ===== src/Deliveries/Books.antt =====
-- Deliveries against the stocks and the journal (backend/src/deliveries/deliveries.service.ts).
use haroti_lpg_management.Accessories.Stock.{AccessoriesAreNonneg}
use haroti_lpg_management.Common.Enums.{DeliveryStatus}
use haroti_lpg_management.Common.Errors.{Reason, bad_request, ok, err}
use haroti_lpg_management.Database.Documents.{Delivery}
use haroti_lpg_management.Database.Entities.{Station}
use haroti_lpg_management.Database.Keeps.{
  Keeps, or_throw-Keeps, Keeps-pure, Keeps-find_or_throw, Keeps->>=, Keeps->>, Keeps-when,
}
use haroti_lpg_management.Database.Returns.{>>=_ok, >>_err}
use haroti_lpg_management.Database.State.{Db, pure, or_throw, ◌>>◌, when}
use haroti_lpg_management.Database.Table.{find_by_id, lookup-All, replace-All}
use haroti_lpg_management.Deliveries.{
  next_status, find_delivery, landed_amount, post_delivery, take_in, advance_to, advance_found,
  advance_status,
}
use haroti_lpg_management.Deliveries.Taken.{stocked, taken, take_in-taken, taken-station}
use haroti_lpg_management.Finance.Journal.{posting_closed, assert_open_for_posting, post_entry}
use haroti_lpg_management.Inventory.{stock_after}
use haroti_lpg_management.Prelude.{
  ℤ, pos, ◌≤ℤ◌, ltb_ℤ, Option-cases, ℕ, ◌≡◌, refl, ◌∙◌, inl, inr, true, some,
}
use haroti_lpg_management.Sales.Safety.{
  Sound, post_entry_of-Sound, apply_movement-Sound, SameBooks, modify-Sound,
}
use haroti_lpg_management.Stations.{find_station, update_station, update_weighted_avg_cost}

-- A change of a station that leaves its stock.
update_station-Sound :
    (id : ℕ) (f : Station → Station)
    → ((s : Station) → (f s).current_stock_kg ≡ s.current_stock_kg)
    → (db : Db) → Sound db
    → Sound (update_station id f db)
unfolding AccessoriesAreNonneg
update_station-Sound id f same db h = elim (Option-cases (find_by_id id db.stations)) [
  | inl missing ↦ rw (missing, update_station) h
  | inr (s, found) ↦
      let old =
        lookup-All (λ (t : Station). pos 0 ≤ℤ t.current_stock_kg) id db.stations.rows h.stock
          found in
      let kept : pos 0 ≤ℤ (f s).current_stock_kg = rw (same s) old in
      rw (found, update_station)
        (record {
          stock =
              replace-All (λ (t : Station). pos 0 ≤ℤ t.current_stock_kg) id (f s) db.stations.rows
                h.stock kept;
          accessories = h.accessories;
          journal = h.journal;
        })
]

update_cost-Sound : (id : ℕ) (kg cost : ℤ) → Keeps Sound (update_weighted_avg_cost id kg cost)
unfolding update_weighted_avg_cost find_station
update_cost-Sound id kg cost =
    Keeps->>= (Keeps-find_or_throw _ _)
      λ s. Keeps->> (record { run = update_station-Sound id _ (λ t. refl) }) (Keeps-pure _)

take_in-Sound : (id user : ℕ) (d : Delivery) → Keeps Sound (take_in id user d)
unfolding take_in post_delivery
take_in-Sound id user d = Keeps->> (apply_movement-Sound _) (
    Keeps->> (update_cost-Sound _ _ _) (Keeps->> (post_entry_of-Sound _ _ _ _ _ _) (Keeps-pure tt)))

advance_to-Sound :
    (id user : ℕ) (d : Delivery) (next : DeliveryStatus) → Keeps Sound (advance_to id user d next)
unfolding advance_to SameBooks
advance_to-Sound id user d next =
    Keeps->> (Keeps-when _ (take_in-Sound id user d)) (modify-Sound _ (λ db. (refl, refl, refl)))

-- An advance of a delivery, made, refused or stopped half-way, keeps the books sound.
pub advance_status-Sound : (id user : ℕ) → Keeps Sound (advance_status id user)
unfolding advance_status find_delivery advance_found
advance_status-Sound id user = Keeps->>= (Keeps-find_or_throw _ _) λ d.
    Keeps->>= (record { run = λ db h. or_throw-Keeps Sound _ (next_status d.status) db h })
      λ next. advance_to-Sound id user d next

post_delivery_closed :
    (id : ℕ) (amount : ℤ) (db : Db)
    → posting_closed db ≡ true
    → post_delivery id amount db ≡ (err (bad_request Reason.period_hard_closed), db)
unfolding post_delivery post_entry assert_open_for_posting ◌>>◌
post_delivery_closed id amount db h = rw h refl

take_in_closed :
    (id user : ℕ) (d : Delivery) (db : Db) {s : Station} {after : ℤ}
    → find_by_id d.station_id db.stations ≡ some s
    → stock_after s.current_stock_kg d.quantity_received_kg ≡ some after
    → posting_closed db ≡ true
    → take_in id user d db
      ≡ (err (bad_request Reason.period_hard_closed), taken id user d s after db)
unfolding posting_closed
take_in_closed id user d db {s} {after} found fits closed =
    take_in-taken id user d db found fits
    ∙ >>_err (post_delivery id (landed_amount d)) (pure tt)
        (post_delivery_closed id (landed_amount d) (taken id user d s after db) closed)

-- On a day that is closed for postings, the advance of a delivery that waits for the manager's
-- approval and has received gas fails, and leaves the delivery waiting with its gas in the stock
-- of the station.
pub advance_status-stuck :
    (id user : ℕ) (d : Delivery) (db : Db) {s : Station} {after : ℤ}
    → find_by_id id db.deliveries ≡ some d
    → d.status ≡ DeliveryStatus.manager_approval
    → ltb_ℤ (pos 0) d.quantity_received_kg ≡ true
    → find_by_id d.station_id db.stations ≡ some s
    → stock_after s.current_stock_kg d.quantity_received_kg ≡ some after
    → posting_closed db ≡ true
    → (db' : Db) × (advance_status id user db ≡ (err (bad_request Reason.period_hard_closed), db'))
      × (find_by_id id db'.deliveries ≡ some d)
      × (find_by_id d.station_id db'.stations ≡ some (stocked d s after))
unfolding advance_status advance_found advance_to find_delivery
advance_status-stuck id user d db {s} {after} stands waiting gas found fits closed =
    let next = DeliveryStatus.inventory_updated in
    let read : find_delivery id db ≡ (ok d, db) = rw stands refl in
    let known : or_throw (bad_request Reason.delivery_cannot_advance) (next_status d.status) db
        ≡ (ok next, db) =
      rw waiting refl in
    let failed : when (ltb_ℤ (pos 0) d.quantity_received_kg) (take_in id user d) db
        ≡ (err (bad_request Reason.period_hard_closed), taken id user d s after db) =
      rw gas (take_in_closed id user d db found fits closed) in
    (
      taken id user d s after db,
      >>=_ok (find_delivery id) (advance_found id user) read
          ∙ >>=_ok (or_throw (bad_request Reason.delivery_cannot_advance) (next_status d.status))
              (advance_to id user d) known
          ∙ >>_err (when _ (take_in id user d)) _ failed,
      stands,
      taken-station id user d db found,
    )
