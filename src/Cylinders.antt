-- ===== src/Cylinders.antt =====
-- backend/src/cylinders/cylinders.service.ts: the swap of two cylinders at a station. The check of
-- a cylinder is in Sales/Pricing.antt.
pub mod Swap
use haroti_lpg_management.Common.Enums.{CylinderStatus, CylinderMovementType}
use haroti_lpg_management.Common.Errors.{Reason, not_found}
use haroti_lpg_management.Database.Documents.{CylinderMovement}
use haroti_lpg_management.Database.Entities.{Cylinder}
use haroti_lpg_management.Database.State.{Db, Op, find_or_throw, ◌>>=◌, ◌>>◌, modify}
use haroti_lpg_management.Database.Table.{find_by_id, store, append, find_where}
use haroti_lpg_management.Prelude.{◌==◌, ℕ, Option, none, some}
use haroti_lpg_management.Sales.Pricing.{assert_eligible}

unfoldable pub find_serial : ℕ → Db → Option (ℕ × Cylinder)
find_serial serial db = find_where (λ c. c.serial_number == serial) db.cylinders

pub record SwapParams : Type 0 where
  pub station_id : ℕ
  pub customer_id : ℕ
  pub incoming_serial : ℕ
  pub outgoing_serial : ℕ
  pub sale_id : Option ℕ

abbrev pub swapped_in : SwapParams → Cylinder → Cylinder
swapped_in p c = record c {
  status = CylinderStatus.with_customer;
  customer_id = some p.customer_id;
  station_id = some p.station_id;
}

abbrev pub swapped_out : SwapParams → Cylinder → Cylinder
swapped_out p c = record c {
  status = CylinderStatus.empty;
  customer_id = none;
  station_id = some p.station_id;
}

-- `cylindersRepo.save([incoming, outgoing])`
unfoldable pub save_swapped : SwapParams → ℕ × Cylinder → ℕ × Cylinder → Db → Db
save_swapped p incoming outgoing db = record db {
  cylinders =
      store outgoing.0 (swapped_out p outgoing.1)
        (store incoming.0 (swapped_in p incoming.1) db.cylinders);
}

abbrev pub movement_in : SwapParams → ℕ → CylinderMovement
movement_in p id = record {
  cylinder_id = id;
  kind = CylinderMovementType.swap_in;
  from_station_id = none;
  to_station_id = some p.station_id;
  customer_id = some p.customer_id;
  sale_id = p.sale_id;
}

abbrev pub movement_out : SwapParams → ℕ → CylinderMovement
movement_out p id = record {
  cylinder_id = id;
  kind = CylinderMovementType.swap_out;
  from_station_id = some p.station_id;
  to_station_id = none;
  customer_id = some p.customer_id;
  sale_id = p.sale_id;
}

-- `movementsRepo.save([...])`
unfoldable pub log_swap : SwapParams → ℕ → ℕ → Db → Db
log_swap p incoming outgoing db = record db {
  cylinder_movements =
      append (movement_out p outgoing) (append (movement_in p incoming) db.cylinder_movements);
}

-- `swap`
unfoldable pub swap : SwapParams → Op (Unit {0})
swap p = do
  find_or_throw (not_found Reason.customer_not_found) (λ db. find_by_id p.customer_id db.customers)
  incoming ← find_or_throw (not_found Reason.swapped_not_found) (find_serial p.incoming_serial)
  outgoing ← find_or_throw (not_found Reason.swapped_not_found) (find_serial p.outgoing_serial)
  assert_eligible outgoing.1
  modify (save_swapped p incoming outgoing)
  modify (log_swap p incoming.0 outgoing.0)
