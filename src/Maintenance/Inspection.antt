-- ===== src/Maintenance/Inspection.antt =====
-- A hydro test that is completed, and the check of the cylinder by the sales
-- (backend/src/maintenance/maintenance.service.ts, backend/src/cylinders/cylinders.service.ts).
use haroti_lpg_management.Common.Enums.{CylinderStatus}
use haroti_lpg_management.Common.Errors.{Reason, bad_request, ok, err}
use haroti_lpg_management.Database.Documents.{MaintenanceWorkOrder}
use haroti_lpg_management.Database.Entities.{Cylinder}
use haroti_lpg_management.Database.State.{Db, ◌>>=◌, ◌>>◌}
use haroti_lpg_management.Database.Table.{find_by_id, lookup-replace}
use haroti_lpg_management.Finance.Journal.{day_of}
use haroti_lpg_management.Maintenance.{
  find_work_order, store_work_order, completed_order, cylinder_of, inspected, inspect, days_before,
  five_years_on, next_inspection, complete_hydro,
}
use haroti_lpg_management.Prelude.{
  ltb, ◌+◌, ◌*◌, ◌≤◌, ◌<◌, ℕ, ◌≡◌, refl, true, false, Option, some, arith,
}
use haroti_lpg_management.Sales.Pricing.{assert_eligible}

-- The cylinder that a work order is for, under its identifier.
abbrev pub IsTested : ℕ → Cylinder → MaintenanceWorkOrder → Db → Type 0
IsTested k c w db = (w.cylinder_id ≡ some k) × (find_by_id k db.cylinders ≡ some c)

inspected_lem :
    (k next : ℕ) (c : Cylinder) (db : Db)
    → find_by_id k db.cylinders ≡ some c
    → find_by_id k (inspect next (some (k, c)) db).cylinders ≡ some (inspected next c)
unfolding inspect
inspected_lem k next c db found =
    rw (lookup-replace k k (inspected next c) {old = c} db.cylinders.rows found) (ground arith)

cylinder_of_lem :
    (k : ℕ) (c : Cylinder) (w : MaintenanceWorkOrder) (db : Db)
    → IsTested k c w db
    → cylinder_of w db ≡ some (k, c)
unfolding cylinder_of
cylinder_of_lem k c w db (linked, there) = rw (linked, there, cylinder_of) refl

completed_lem :
    (id : ℕ) (certificate : Option ℕ) (w : MaintenanceWorkOrder) (db : Db)
    (cylinder : Option (ℕ × Cylinder))
    → find_by_id id db.work_orders ≡ some w
    → cylinder_of w db ≡ cylinder
    → complete_hydro id certificate db ≡ (
      ok tt,
      store_work_order id
          (completed_order db.clock certificate w)
          (inspect (next_inspection db.clock) cylinder db),
    )
unfolding complete_hydro find_work_order ◌>>=◌ ◌>>◌
completed_lem id certificate w db cylinder found its = rw (found, its) refl

not_over : (a b : ℕ) → b ≤ a → ltb a b ≡ false
not_over a b h = ground arith

-- Five years have 1825 days and at most two leap days.
pub five_years_on-bounds :
    (day : ℕ) → (day + 1_825 ≤ five_years_on day) × (five_years_on day ≤ day + 1_827)
unfolding five_years_on days_before
five_years_on-bounds day = (omega arith, omega arith)

over_lem : (a b : ℕ) → a < b → ltb a b ≡ true
over_lem a b h = ground arith

-- The completion of a hydro test returns, whatever the status of the cylinder was, and leaves the
-- cylinder available with the date five calendar years on as its next inspection: it is accepted
-- at any time within 1825 days of that day and refused as overdue at any time after 1827 days.
pub complete_hydro-eligible :
    (id k : ℕ) (certificate : Option ℕ) (w : MaintenanceWorkOrder) (c : Cylinder)
    (db soon late : Db)
    → find_by_id id db.work_orders ≡ some w
    → IsTested k c w db
    → soon.clock ≤ (day_of db.clock + 1_825) * 86_400_000
    → (day_of db.clock + 1_827) * 86_400_000 < late.clock
    → (db' : Db) × (c' : Cylinder) × (complete_hydro id certificate db ≡ (ok tt, db'))
      × (find_by_id k db'.cylinders ≡ some c')
      × (c'.status ≡ CylinderStatus.available)
      × (c'.next_inspection_date ≡ some (next_inspection db.clock))
      × (assert_eligible c' soon ≡ (ok tt, soon))
      × (assert_eligible c' late ≡ (err (bad_request Reason.cylinder_overdue), late))
unfolding assert_eligible next_inspection ◌>>=◌ ◌>>◌
complete_hydro-eligible id k certificate w c db soon late found its early over =
    let (low, high) = five_years_on-bounds (day_of db.clock) in
    let next = next_inspection db.clock in
    (
      store_work_order id (completed_order db.clock certificate w) (inspect next (some (k, c)) db),
      inspected next c,
      completed_lem id certificate w db (some (k, c)) found (cylinder_of_lem k c w db its),
      inspected_lem k next c db its.1,
      refl,
      refl,
      rw (not_over next soon.clock (omega (arith, low, early))) refl,
      rw (over_lem next late.clock (omega (arith, high, over))) refl,
    )
