-- ===== src/Tests/Stock.antt =====
-- The stock of gas.
use haroti_lpg_management.Common.Enums.{StockMovementType}
use haroti_lpg_management.Common.Errors.{ok}
use haroti_lpg_management.Database.Entities.{TxnId, Station}
use haroti_lpg_management.Database.State.{Db, ◌>>=◌, ◌>>◌}
use haroti_lpg_management.Database.Table.{lookup, replace, find_by_id}
use haroti_lpg_management.Inventory.{
  MovementParams, existing_movement, stock_after, movement_row, move_stock, apply_movement,
}
use haroti_lpg_management.Inventory.Log.{replay, Explains, apply_movement-Explains}
use haroti_lpg_management.Inventory.Position.{
  StockPosition, movements_of, stock_position, adjustment_of, stock_position-variance,
}
use haroti_lpg_management.Inventory.Stock.{apply_movement_once}
use haroti_lpg_management.Inventory.Total.{total_stock, apply_movement-total_stock}
use haroti_lpg_management.Prelude.{
  pos, negsuc, ◌+ℤ◌, ◌≤ℤ◌, max_zero, sum_of, ◌≡◌, refl, ◌⊎◌, some, [], arith,
}
use haroti_lpg_management.Tanks.{stock_integrity_check}
use haroti_lpg_management.Tanks.Integrity.{empty_levels, stock_integrity_check-clean}
use haroti_lpg_management.Tests.Data.{table_of, a_station, company, two_kg, opening_levels}

company-Explains : Explains opening_levels company
unfolding replay lookup
company-Explains = record { chained = tt; current = λ k s e. ground arith }

after_two_kg : Db
after_two_kg = (apply_movement two_kg company).1

apply_movement_once_example :
    apply_movement two_kg (apply_movement two_kg company).1
    ≡ (ok (0, movement_row two_kg (pos 500_000) (pos 498_000)), (apply_movement two_kg company).1)
unfolding apply_movement move_stock existing_movement ◌>>=◌ ◌>>◌ lookup replace stock_after ◌+ℤ◌
    max_zero
apply_movement_once_example =
    apply_movement_once two_kg two_kg (TxnId.plain 7) company (apply_movement two_kg company).1
      {m = (0, movement_row two_kg (pos 500_000) (pos 498_000))} refl refl refl

apply_movement-Explains_example : Explains opening_levels (apply_movement two_kg company).1
apply_movement-Explains_example =
    (apply_movement-Explains opening_levels two_kg).run company company-Explains

stock_position-variance_example :
    (report : StockPosition) × (stock_position 0 (apply_movement two_kg company).1
      ≡ (ok report, (apply_movement two_kg company).1))
    × (report.stock_variance_kg
        ≡ opening_levels 0
          +ℤ sum_of adjustment_of (movements_of 0 (apply_movement two_kg company).1))
unfolding apply_movement move_stock existing_movement ◌>>=◌ ◌>>◌ lookup replace stock_after ◌+ℤ◌
    max_zero movements_of
stock_position-variance_example =
    stock_position-variance opening_levels (apply_movement two_kg company).1 0
      {s = record (a_station) { current_stock_kg = pos 498_000 }} refl
      ((apply_movement-Explains opening_levels two_kg).run company company-Explains) (refl, tt)
      (omega arith, tt)

apply_movement-total_stock_example :
    (s : Station) × (find_by_id 0 company.stations ≡ some s)
    × (((pos 0 ≤ℤ s.current_stock_kg +ℤ two_kg.quantity_kg)
          × (total_stock (apply_movement two_kg company).1
              ≡ total_stock company +ℤ two_kg.quantity_kg))
        ⊎ ((s.current_stock_kg +ℤ two_kg.quantity_kg ≡ negsuc 0)
            × (total_stock (apply_movement two_kg company).1
                ≡ total_stock company +ℤ two_kg.quantity_kg +ℤ pos 1)))
unfolding apply_movement move_stock existing_movement ◌>>=◌ ◌>>◌ lookup replace stock_after ◌+ℤ◌
    max_zero
apply_movement-total_stock_example =
    apply_movement-total_stock two_kg company (apply_movement two_kg company).1
      {m = (0, movement_row two_kg (pos 500_000) (pos 498_000))} refl refl

abbrev new_company : Db
new_company = record company {
  stations = table_of (record (a_station) { current_stock_kg = pos 0 });
}

abbrev first_delivery : MovementParams
first_delivery = record (two_kg) {
  kind = StockMovementType.supplier_delivery;
  quantity_kg = pos 600_000;
}

new_company-Explains : Explains empty_levels new_company
unfolding replay lookup
new_company-Explains = record { chained = tt; current = λ k s e. ground arith }

after_delivery : Db
after_delivery = (apply_movement first_delivery new_company).1

stock_integrity_check-clean_example : stock_integrity_check after_delivery ≡ []
unfolding after_delivery apply_movement move_stock existing_movement ◌>>=◌ ◌>>◌ lookup replace
    stock_after ◌+ℤ◌ max_zero
stock_integrity_check-clean_example =
    stock_integrity_check-clean after_delivery
      ((apply_movement-Explains empty_levels first_delivery).run new_company new_company-Explains)
      (λ k. ground arith) (refl, tt)
