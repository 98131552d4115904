-- ===== src/Tanks.antt =====
-- backend/src/tanks/tanks.service.ts: the check of the stocks against the log of the movements.
-- The readings of the tanks are in Shifts/Tank.antt.
pub mod Integrity
use haroti_lpg_management.Database.Entities.{Station, StockMovement}
use haroti_lpg_management.Database.State.{Db}
use haroti_lpg_management.Prelude.{
  ℤ, pos, ◌-ℤ◌, ltb_ℤ, abs, filter, sum_of, ◌==◌, ℕ, Bool, List, map,
}

-- `movementsRepo.find({ where: { stationId: station.id } })` and the loop over them
unfoldable pub net_of : ℕ → List (ℕ × StockMovement) → ℤ
net_of station_id movements =
    sum_of (λ m. m.1.quantity_kg) (filter (λ m. m.1.station_id == station_id) movements)

-- `delta`
unfoldable pub stock_delta : Db → ℕ × Station → ℤ
stock_delta db r = r.1.current_stock_kg -ℤ net_of r.0 db.movements.rows

-- `Math.abs(delta) > 0.5`
unfoldable pub is_issue : Db → ℕ × Station → Bool
is_issue db r = ltb_ℤ (pos 500) (abs (stock_delta db r))

-- `stockIntegrityCheck`: the stations with an issue, and by how much their stock is off.
unfoldable pub stock_integrity_check : Db → List (ℕ × ℤ)
stock_integrity_check db =
    map (λ r. (r.0, stock_delta db r)) (filter (is_issue db) db.stations.rows)
