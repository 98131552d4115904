-- ===== src/Tests/Exchanges.antt =====
-- The settlements, the swaps of cylinders and the hydro tests.
use haroti_lpg_management.Accessories.{unit_price_of}
use haroti_lpg_management.Common.Decimal.{round_div}
use haroti_lpg_management.Common.Enums.{CylinderStatus, WorkOrderStatus}
use haroti_lpg_management.Common.Errors.{Reason, bad_request, ok, err}
use haroti_lpg_management.Cylinders.{find_serial, SwapParams, swap}
use haroti_lpg_management.Cylinders.Swap.{IsSwapped, swap-IsSwapped}
use haroti_lpg_management.Database.Documents.{FranchiseAgreement, MaintenanceWorkOrder}
use haroti_lpg_management.Database.Entities.{same_reference, Cylinder}
use haroti_lpg_management.Database.State.{Db, ◌>>=◌, ◌>>◌}
use haroti_lpg_management.Database.Table.{lookup, find_by_id}
use haroti_lpg_management.Finance.Journal.{
  day_of, covers, posting_closed, assert_open_for_posting, journal_line, save_entry, post_entry,
}
use haroti_lpg_management.Finance.Posting.{
  is_entry_for, post_once, post_franchise_settlement, post_franchise_consignment_settlement,
}
use haroti_lpg_management.Franchise.{
  is_settled_sale, sales_of_period, settled_total, royalty_of, is_consignment_at, consignment_value,
  settlement_lines, new_settlement, save_settlement, post_royalty, post_consignment,
  generate_settlement, invoice_settlement,
}
use haroti_lpg_management.Franchise.Settlement.{generate_settlement-invoiced}
use haroti_lpg_management.Maintenance.{
  days_before, march_year, five_years_on, next_inspection, complete_hydro, hydro_order,
}
use haroti_lpg_management.Maintenance.Inspection.{complete_hydro-eligible}
use haroti_lpg_management.Prelude.{
  ◌+ℤ◌, ◌*ℤ◌, div_floor, length, sum_of, ◌≡◌, refl, false, none, some, [], ◌∷◌, arith,
}
use haroti_lpg_management.Sales.Pricing.{is_blocked, assert_eligible}
use haroti_lpg_management.Tests.Data.{table_of, company}

abbrev an_agreement : FranchiseAgreement
an_agreement = record { station_id = 0; royalty_percent = 500 }

-- The station of the tests, under an agreement of five percent.
abbrev franchise : Db
franchise = record company { agreements = table_of an_agreement }

generate_settlement-invoiced_example :
    let after = record (generate_settlement 0 0 30 franchise).1 { clock = 90 } in
    invoice_settlement 0 after ≡ (ok tt, after)
unfolding lookup
generate_settlement-invoiced_example =
    generate_settlement-invoiced 0 0 30 90 an_agreement franchise refl refl

-- The royalty of five percent is posted once.
royalty_posted :
    (find_by_id 0 (generate_settlement 0 0 30 franchise).1.settlements
      ≡ some (new_settlement 0 0 30 an_agreement (sales_of_period 0 0 30 franchise) franchise))
    × (length (generate_settlement 0 0 30 franchise).1.entries.rows ≡ 2)
unfolding lookup generate_settlement ◌>>=◌ save_settlement ◌>>◌ post_royalty new_settlement
    royalty_of round_div div_floor ◌+ℤ◌ ◌*ℤ◌ settled_total sum_of sales_of_period is_settled_sale
    post_franchise_settlement unit_price_of same_reference assert_open_for_posting covers day_of
    journal_line post_entry posting_closed save_entry is_entry_for
    post_franchise_consignment_settlement post_once consignment_value is_consignment_at
    post_consignment settlement_lines
royalty_posted = (refl, refl)

abbrev damaged_bottle : Cylinder
damaged_bottle = record {
  serial_number = 11;
  status = CylinderStatus.damaged;
  next_inspection_date = none;
  station_id = some 0;
  customer_id = none;
}

abbrev held_bottle : Cylinder
held_bottle = record {
  serial_number = 22;
  status = CylinderStatus.with_customer;
  next_inspection_date = some 80;
  station_id = some 0;
  customer_id = some 0;
}

abbrev depot : Db
depot = record company {
  cylinders = record { rows = (0, damaged_bottle) ∷ (1, held_bottle) ∷ []; next_id = 2 };
}

abbrev an_exchange : SwapParams
an_exchange = record {
  station_id = 0;
  customer_id = 0;
  incoming_serial = 11;
  outgoing_serial = 22;
  sale_id = none;
}

swap-IsSwapped_example :
    (is_blocked held_bottle.status ≡ false)
    × IsSwapped an_exchange 0 1 damaged_bottle held_bottle depot (swap an_exchange depot).1
unfolding find_serial lookup swap ◌>>◌ ◌>>=◌ assert_eligible
swap-IsSwapped_example =
    swap-IsSwapped an_exchange 0 1 damaged_bottle held_bottle depot (swap an_exchange depot).1
      (refl, refl) (refl, refl) refl refl

abbrev a_hydro_test : MaintenanceWorkOrder
a_hydro_test = record (hydro_order (0, damaged_bottle)) { status = WorkOrderStatus.in_progress }

abbrev workshop : Db
workshop = record depot { work_orders = table_of a_hydro_test }

-- The day, and eight years on.
abbrev at_once : Db
at_once = record depot { clock = 100_000_000 }

abbrev years_later : Db
years_later = record depot { clock = 300_000_000_000 }

complete_hydro-eligible_example :
    (db' : Db) × (c' : Cylinder) × (complete_hydro 0 none workshop ≡ (ok tt, db'))
    × (find_by_id 0 db'.cylinders ≡ some c')
    × (c'.status ≡ CylinderStatus.available)
    × (c'.next_inspection_date ≡ some (next_inspection workshop.clock))
    × (assert_eligible c' at_once ≡ (ok tt, at_once))
    × (assert_eligible c' years_later ≡ (err (bad_request Reason.cylinder_overdue), years_later))
unfolding lookup day_of
complete_hydro-eligible_example =
    complete_hydro-eligible 0 0 none a_hydro_test damaged_bottle workshop at_once years_later refl
      (refl, refl) (omega arith) (omega arith)

-- 29 February 2024 to 1 March 2029, 1 January 2026 to 1 January 2031, and over the year 2100 from
-- 28 February 2096 and 1 March 2099.
known_dates :
    (five_years_on 19_782 ≡ 21_609)
    × (five_years_on 20_454 ≡ 22_280)
    × (five_years_on 46_079 ≡ 47_905)
    × (five_years_on 47_176 ≡ 49_002)
unfolding five_years_on march_year days_before
known_dates = (refl, refl, refl, refl)
