-- ===== src/Deliveries/Taken.antt =====
-- The steps that take the gas of a delivery into the books, one after the other
-- (backend/src/deliveries/deliveries.service.ts, `advanceStatus`).
use haroti_lpg_management.Common.Errors.{ok}
use haroti_lpg_management.Database.Documents.{Delivery}
use haroti_lpg_management.Database.Entities.{Station}
use haroti_lpg_management.Database.Returns.{>>_ok}
use haroti_lpg_management.Database.State.{Db, pure, ◌>>=◌, ◌>>◌}
use haroti_lpg_management.Database.Table.{lookup, replace, find_by_id, store, lookup-replace}
use haroti_lpg_management.Deliveries.{
  delivery_movement, landed_per_kg, landed_amount, post_delivery, take_in,
}
use haroti_lpg_management.Inventory.{existing_movement, stock_after, write_movement}
use haroti_lpg_management.Inventory.Stock.{move_stock_moved, apply_movement_new}
use haroti_lpg_management.Prelude.{ℤ, ℕ, ◌≡◌, refl, ◌∙◌, some, arith}
use haroti_lpg_management.Stations.{
  find_station, update_station, weighted_cost, update_weighted_avg_cost,
}

update_cost_found :
    (id : ℕ) (kg cost : ℤ) (db : Db) {s : Station}
    → find_by_id id db.stations ≡ some s
    → update_weighted_avg_cost id kg cost db ≡ (
      ok (weighted_cost s.current_stock_kg s.weighted_avg_cost_per_kg kg cost),
      record db {
        stations =
            store id
              (record s {
                weighted_avg_cost_per_kg =
                    weighted_cost s.current_stock_kg s.weighted_avg_cost_per_kg kg cost;
              })
              db.stations;
      },
    )
unfolding update_weighted_avg_cost find_station ◌>>=◌ ◌>>◌
update_cost_found id kg cost db found = rw found (rw (found, update_station) refl)

abbrev pub stocked : Delivery → Station → ℤ → Station
stocked d s after = record s {
  current_stock_kg = after;
  weighted_avg_cost_per_kg =
      weighted_cost after s.weighted_avg_cost_per_kg d.quantity_received_kg (landed_per_kg d);
}

-- The state with the gas in the stock and its cost averaged, before the posting.
abbrev pub taken : ℕ → ℕ → Delivery → Station → ℤ → Db → Db
taken id user d s after db =
    let moved = write_movement (delivery_movement id user d) s after db in
    record moved { stations = store d.station_id (stocked d s after) moved.stations }

pub take_in-taken :
    (id user : ℕ) (d : Delivery) (db : Db) {s : Station} {after : ℤ}
    → find_by_id d.station_id db.stations ≡ some s
    → stock_after s.current_stock_kg d.quantity_received_kg ≡ some after
    → take_in id user d db
      ≡ (post_delivery id (landed_amount d) >> pure tt) (taken id user d s after db)
unfolding take_in existing_movement
take_in-taken id user d db {s} {after} found fits =
    let p = delivery_movement id user d in
    let first = apply_movement_new p db refl ∙ move_stock_moved p db found fits in
    let there : find_by_id d.station_id (write_movement p s after db).stations
        ≡ some (record s { current_stock_kg = after }) =
      rw
        (lookup-replace d.station_id d.station_id (record s { current_stock_kg = after }) {old = s}
          db.stations.rows found)
        (ground arith) in
    let second =
      update_cost_found d.station_id d.quantity_received_kg (landed_per_kg d)
        (write_movement p s after db) there in
    >>_ok _ _ first ∙ >>_ok _ _ second

pub taken-station :
    (id user : ℕ) (d : Delivery) (db : Db) {s : Station} {after : ℤ}
    → find_by_id d.station_id db.stations ≡ some s
    → find_by_id d.station_id (taken id user d s after db).stations ≡ some (stocked d s after)
taken-station id user d db {s} {after} found =
    let r = record s { current_stock_kg = after } in
    let there : lookup d.station_id (replace d.station_id r db.stations.rows) ≡ some r =
      rw (lookup-replace d.station_id d.station_id r {old = s} db.stations.rows found)
        (ground arith) in
    rw
      (lookup-replace d.station_id d.station_id (stocked d s after) {old = r}
        (replace d.station_id r db.stations.rows) there)
      (ground arith)
