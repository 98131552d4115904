-- ===== src/Maintenance.antt =====
-- backend/src/maintenance/maintenance.service.ts: the work orders and the hydro tests of the
-- cylinders. The date of the last inspection, which nothing reads, and the numbers and texts of
-- the orders are left out.
pub mod Inspection
use haroti_lpg_management.Common.Enums.{CylinderStatus, WorkOrderType, WorkOrderStatus}
use haroti_lpg_management.Common.Errors.{Reason, not_found, ok}
use haroti_lpg_management.Database.Documents.{MaintenanceWorkOrder}
use haroti_lpg_management.Database.Entities.{Cylinder}
use haroti_lpg_management.Database.State.{
  Db, Op, pure, gets, find_or_throw, ◌>>=◌, ◌>>◌, modify, for_each,
}
use haroti_lpg_management.Database.Table.{find_by_id, store, append, find_where}
use haroti_lpg_management.Finance.Journal.{day_of}
use haroti_lpg_management.Prelude.{
  ◌==◌, if◌then◌else◌, ◌+◌, ◌-◌, ◌*◌, ◌/◌, ◌%◌, ℕ, Bool, true, false, ◌&&◌, Option, none, some,
  List,
}

abbrev pub is_hydro_test : WorkOrderType → Bool
is_hydro_test WorkOrderType.cylinder_hydro_test = true
is_hydro_test _ = false

abbrev pub is_open_order : WorkOrderStatus → Bool
is_open_order WorkOrderStatus.is_open = true
is_open_order _ = false

unfoldable pub find_work_order : ℕ → Op MaintenanceWorkOrder
find_work_order id =
    find_or_throw (not_found Reason.work_order_not_found) (λ db. find_by_id id db.work_orders)

abbrev pub store_work_order : ℕ → MaintenanceWorkOrder → Db → Db
store_work_order id w db = record db { work_orders = store id w db.work_orders }

-- `assign`
unfoldable pub assign_work_order : ℕ → ℕ → Op (Unit {0})
assign_work_order id user_id = do
  w ← find_work_order id
  modify (
      store_work_order id
        (record w { assigned_to_id = some user_id; status = WorkOrderStatus.in_progress }))

-- `if (certificateRef) wo.hydroCertificateRef = certificateRef`
abbrev pub certified : Option ℕ → Option ℕ → Option ℕ
certified none old = old
certified (some ref) old = some ref

abbrev pub completed_order : ℕ → Option ℕ → MaintenanceWorkOrder → MaintenanceWorkOrder
completed_order now certificate w = record w {
  status = WorkOrderStatus.completed;
  completed_at = some now;
  hydro_certificate_ref = certified certificate w.hydro_certificate_ref;
}

-- The cylinder of the relation, if the order has one.
unfoldable pub cylinder_of : MaintenanceWorkOrder → Db → Option (ℕ × Cylinder)
cylinder_of w db = elim w.cylinder_id [
  | none ↦ none
  | some c ↦ elim (find_by_id c db.cylinders) [ none ↦ none | some row ↦ some (c, row) ]
]

abbrev pub inspected : ℕ → Cylinder → Cylinder
inspected next c = record c { status = CylinderStatus.available; next_inspection_date = some next }

unfoldable pub inspect : ℕ → Option (ℕ × Cylinder) → Db → Db
inspect next none db = db
inspect next (some c) db = record db { cylinders = store c.0 (inspected next c.1) db.cylinders }

-- The days of the years before a year that is counted from March on, with its leap days.
unfoldable pub days_before : ℕ → ℕ
days_before y = 365 * y + y / 4 - y / 100 + y / 400

-- The year, counted from March on, of a day that is counted from 1 March of the year 0 on.
unfoldable pub march_year : ℕ → ℕ
march_year z =
    let era = z / 146_097 in
    let day = z % 146_097 in era * 400 + (day - day / 1_460 + day / 36_524 - day / 146_096) / 365

-- 1 January 1970, counted from 1 March of the year 0 on.
abbrev pub epoch_day : ℕ
epoch_day = 719_468

-- `setFullYear(getFullYear() + 5)` of a day after 1970: the same day of the year that begins in
-- March, and 1 March where 29 February is not there.
unfoldable pub five_years_on : ℕ → ℕ
five_years_on day =
    let z = day + epoch_day in let y = march_year z in day + (days_before (y + 5) - days_before y)

-- `next.toISOString().slice(0, 10)`, the first millisecond of that day
unfoldable pub next_inspection : ℕ → ℕ
next_inspection now = five_years_on (day_of now) * 86_400_000

-- `completeHydro`
unfoldable pub complete_hydro : ℕ → Option ℕ → Op (Unit {0})
complete_hydro id certificate = do
  w ← find_work_order id
  now ← gets (λ db. db.clock)
  cylinder ← gets (cylinder_of w)
  modify (inspect (next_inspection now) cylinder)
  modify (store_work_order id (completed_order now certificate w))

-- `complete`, of an order that is there
unfoldable pub complete_found : ℕ → MaintenanceWorkOrder → Op (Unit {0})
complete_found id w =
    if is_hydro_test w.kind
    then complete_hydro id none
    else (gets (λ db. db.clock) >>= λ now.
        modify (store_work_order id (completed_order now none w)))

-- `complete`
unfoldable pub complete_work_order : ℕ → Op (Unit {0})
complete_work_order id = gets (λ db. find_by_id id db.work_orders) >>= λ found. elim found [
  | none ↦ pure tt
  | some w ↦ complete_found id w
]

-- `where: { cylinderId, type: CYLINDER_HYDRO_TEST, status: OPEN }`
unfoldable pub is_hydro_order_of : ℕ → MaintenanceWorkOrder → Bool
is_hydro_order_of cylinder_id w =
    elim w.cylinder_id [ none ↦ false | some c ↦ c == cylinder_id ]
    && is_hydro_test w.kind
    && is_open_order w.status

abbrev pub hydro_order : ℕ × Cylinder → MaintenanceWorkOrder
hydro_order c = record {
  kind = WorkOrderType.cylinder_hydro_test;
  status = WorkOrderStatus.is_open;
  station_id = c.1.station_id;
  cylinder_id = some c.0;
  due_date = c.1.next_inspection_date;
  assigned_to_id = none;
  completed_at = none;
  hydro_certificate_ref = none;
}

-- One round of the loop of `createHydroTestOrders`.
unfoldable pub order_hydro_test : ℕ × Cylinder → Op (Unit {0})
order_hydro_test c db = elim (find_where (is_hydro_order_of c.0) db.work_orders) [
  | some w ↦ (ok tt, db)
  | none ↦ (ok tt, record db { work_orders = append (hydro_order c) db.work_orders })
]

-- `createHydroTestOrders`, of the cylinders that `hydroTestDue` finds
unfoldable pub create_hydro_test_orders : List (ℕ × Cylinder) → Op (Unit {0})
create_hydro_test_orders due = for_each order_hydro_test due
