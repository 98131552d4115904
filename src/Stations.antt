-- ===== src/Stations.antt =====
-- backend/src/stations/stations.service.ts: the station of a document, its last contact and the
-- weighted average cost of its gas.
use haroti_lpg_management.Common.Decimal.{round_div}
use haroti_lpg_management.Common.Errors.{Reason, not_found}
use haroti_lpg_management.Database.Entities.{Station}
use haroti_lpg_management.Database.State.{Db, Op, pure, find_or_throw, ◌>>=◌, ◌>>◌, modify}
use haroti_lpg_management.Database.Table.{find_by_id, store}
use haroti_lpg_management.Prelude.{
  ℤ, pos, pos_part, ◌+ℤ◌, ◌-ℤ◌, ◌*ℤ◌, ltb_ℤ, max_zero, if◌then◌else◌, ℕ, none, some,
}

-- `findOne`
unfoldable pub find_station : ℕ → Op Station
find_station id =
    find_or_throw (not_found Reason.station_not_found) (λ db. find_by_id id db.stations)

-- `stationsRepo.update(id, ...)`: writes nothing if the station is not there.
abbrev pub update_station : ℕ → (Station → Station) → Db → Db
update_station id f db = elim (find_by_id id db.stations) [
  | none ↦ db
  | some s ↦ record db { stations = store id (f s) db.stations }
]

-- `touchSync`
unfoldable pub touch_sync : ℕ → Op (Unit {0})
touch_sync id =
    modify (λ db. update_station id (λ s. record s { last_synced_at = some db.clock }) db)

-- The new cost in cents for a kilogram, from the stock after the receipt.
unfoldable pub weighted_cost : ℤ → ℤ → ℤ → ℤ → ℤ
weighted_cost new_stock old_cost received landed =
    if ltb_ℤ (pos 0) new_stock
    then round_div (max_zero (new_stock -ℤ received) *ℤ old_cost +ℤ received *ℤ landed)
        (pos_part new_stock)
    else landed

-- `updateWeightedAvgCost`
unfoldable pub update_weighted_avg_cost : ℕ → ℤ → ℤ → Op ℤ
update_weighted_avg_cost id received landed = do
  s ← find_station id
  let cost = weighted_cost s.current_stock_kg s.weighted_avg_cost_per_kg received landed
  modify (update_station id (λ t. record t { weighted_avg_cost_per_kg = cost }))
  pure cost
