-- ===== src/Shifts/Tank.antt =====
-- `ensureTanksForStation` and `recordReading` of backend/src/tanks/tanks.service.ts.
use haroti_lpg_management.Common.Decimal.{round_div}
use haroti_lpg_management.Common.Enums.{TankReadingContext}
use haroti_lpg_management.Common.Errors.{Reason, not_found, ok}
use haroti_lpg_management.Database.Entities.{ReferenceType, Station, Tank}
use haroti_lpg_management.Database.State.{Db, Op, find_or_throw, ◌>>=◌, modify}
use haroti_lpg_management.Database.Table.{find_by_id, store, append, find_where}
use haroti_lpg_management.Prelude.{ℤ, pos, ◌*ℤ◌, ◌==◌, ℕ, none, some}

-- The tank that is made for a station which has none: its safe capacity is nine tenths.
abbrev pub new_tank : ℕ → Station → Tank
new_tank station_id s = record {
  station_id = station_id;
  capacity_kg = s.tank_capacity_kg;
  safe_working_capacity_kg = round_div (s.tank_capacity_kg *ℤ pos 9) 10;
  current_stock_kg = s.current_stock_kg;
}

-- The id of the station's tank.
unfoldable pub ensure_tanks_for_station : ℕ → Station → Op ℕ
ensure_tanks_for_station station_id s db =
    elim (find_where (λ t. t.station_id == station_id) db.tanks) [
      | some t ↦ (ok t.0, db)
      | none ↦ (ok db.tanks.next_id, record db { tanks = append (new_tank station_id s) db.tanks })
    ]

abbrev pub write_reading : ℕ → ℤ → TankReadingContext → ℕ → ℕ → Tank → Db → Db
write_reading tank_id reading context shift_id user_id t db = record db {
  tanks = store tank_id (record t { current_stock_kg = reading }) db.tanks;
  readings =
      append
        (record {
          tank_id = tank_id;
          reading_kg = reading;
          context = context;
          reference = some (record { kind = ReferenceType.shift; id = shift_id });
          recorded_by_id = some user_id;
          recorded_at = db.clock;
        })
        db.readings;
}

-- `recordReading` with a reference to a shift.
unfoldable pub record_reading : ℕ → ℤ → TankReadingContext → ℕ → ℕ → Op (Unit {0})
record_reading tank_id reading context shift_id user_id = do
  tank ← find_or_throw (not_found Reason.tank_not_found) (λ db. find_by_id tank_id db.tanks)
  modify (write_reading tank_id reading context shift_id user_id tank)
