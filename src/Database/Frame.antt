-- ===== src/Database/Frame.antt =====
-- Properties of the state that do not look at the stocks or the journal, against the operations
-- that write nothing else.
-- A property that the stations, movements, entries and shelves do not matter to.
use haroti_lpg_management.Accessories.{save_stock, adjust_accessory, mark_batch, receive_stock}
use haroti_lpg_management.Accessories.Stock.{
  on_hand, adjust_accessory_refuses, adjust_accessory_lem, ltb_ℤ-cases,
}
use haroti_lpg_management.Common.Enums.{StockOwnership}
use haroti_lpg_management.Database.Entities.{Station, StockMovement, JournalEntry, AccessoryStock}
use haroti_lpg_management.Database.Keeps.{
  Keeps, Keeps-pure, Keeps-gets, Keeps-find_or_throw, Keeps->>=, Keeps->>,
}
use haroti_lpg_management.Database.State.{Db}
use haroti_lpg_management.Database.Table.{Table, find_by_id}
use haroti_lpg_management.Finance.Balance.{assert_open-Keeps}
use haroti_lpg_management.Finance.Journal.{EntryParams, new_entry, post_entry}
use haroti_lpg_management.Finance.Once.{sought, post_once_old, post_once_new}
use haroti_lpg_management.Finance.Posting.{post_once}
use haroti_lpg_management.Finance.Saved.{save_entry-Frame}
use haroti_lpg_management.Inventory.{MovementParams, apply_movement}
use haroti_lpg_management.Inventory.Stock.{apply_movement-Keeps}
use haroti_lpg_management.Prelude.{
  ℤ, pos, ◌+ℤ◌, Option-cases, ℕ, inl, inr, Bool, true, false, Option, none, some,
}
use haroti_lpg_management.Stations.{find_station, update_station, update_weighted_avg_cost}

abbrev pub Blind : (Db → Type 0) → Type 0
Blind P =
    (db : Db) (stations : Table Station) (movements : Table StockMovement)
    (entries : Table JournalEntry) (shelves : Table AccessoryStock)
    → P db
    → P (record db {
      stations = stations;
      movements = movements;
      entries = entries;
      accessory_stocks = shelves;
    })

module _ (P : Db → Type 0) (blind : Blind P) where
  pub apply_movement-Blind : (p : MovementParams) → Keeps P (apply_movement p)
  apply_movement-Blind p =
      apply_movement-Keeps P p
        λ db s after found moved h. blind db _ _ db.entries db.accessory_stocks h

  pub post_entry-Blind : (p : EntryParams) → Keeps P (post_entry p)
  unfolding post_entry
  post_entry-Blind p = Keeps->> assert_open-Keeps (
      save_entry-Frame P (new_entry p)
        λ db h. blind db db.stations db.movements _ db.accessory_stocks h)

  update_station-Blind :
      (id : ℕ) (f : Station → Station) (db : Db) → P db → P (update_station id f db)
  update_station-Blind id f db h = elim (Option-cases (find_by_id id db.stations)) [
    | inl missing ↦ rw (missing, update_station) h
    | inr (s, found) ↦
        rw (found, update_station) (blind db _ db.movements db.entries db.accessory_stocks h)
  ]

  pub update_cost-Blind : (id : ℕ) (kg cost : ℤ) → Keeps P (update_weighted_avg_cost id kg cost)
  unfolding update_weighted_avg_cost find_station
  update_cost-Blind id kg cost =
      Keeps->>= (Keeps-find_or_throw _ _)
        λ s. Keeps->> (record { run = update_station-Blind id _ }) (Keeps-pure _)

  save_stock-Blind :
      (row : Option (ℕ × AccessoryStock)) (station_id product_id : ℕ) (ownership : StockOwnership)
      (quantity : ℤ) (db : Db)
      → P db
      → P (save_stock row station_id product_id ownership quantity db).1
  save_stock-Blind none station_id product_id ownership quantity db h =
      blind db db.stations db.movements db.entries _ h
  save_stock-Blind (some r) station_id product_id ownership quantity db h =
      blind db db.stations db.movements db.entries _ h

  pub adjust_accessory-Blind :
      (station_id product_id : ℕ) (delta : ℤ) (ownership : StockOwnership)
      → Keeps P (adjust_accessory station_id product_id delta ownership)
  adjust_accessory-Blind station_id product_id delta ownership = record {
    run = λ db h. elim (ltb_ℤ-cases (on_hand station_id product_id ownership db +ℤ delta) (pos 0)) [
      | inl less ↦ rw (adjust_accessory_refuses station_id product_id delta ownership db less) h
      | inr enough ↦
          rw (adjust_accessory_lem station_id product_id delta ownership db enough)
            (save_stock-Blind _ station_id product_id ownership _ db h)
    ];
  }

  mark_batch-Blind :
      (id : ℕ) (row : Option AccessoryStock) (batch : Bool) (db : Db)
      → P db
      → P (mark_batch id row batch db)
  mark_batch-Blind id none batch db h = h
  mark_batch-Blind id (some s) true db h = blind db db.stations db.movements db.entries _ h
  mark_batch-Blind id (some s) false db h = h

  pub receive_stock-Blind :
      (station_id product_id : ℕ) (quantity : ℤ) (ownership : StockOwnership) (batch : Bool)
      → Keeps P (receive_stock station_id product_id quantity ownership batch)
  unfolding receive_stock
  receive_stock-Blind station_id product_id quantity ownership batch =
      Keeps->>= (adjust_accessory-Blind station_id product_id quantity ownership)
        λ id. Keeps->>= (Keeps-gets _) λ row. record { run = mark_batch-Blind id row batch }

  pub post_once-Blind : (p : EntryParams) → Keeps P (post_once p)
  post_once-Blind p = record {
    run = λ db h. elim (Option-cases (sought p db)) [
      | inl new ↦ rw (post_once_new p db new) ((post_entry-Blind p).run db h)
      | inr (r, old) ↦ rw (post_once_old p db old) h
    ];
  }
