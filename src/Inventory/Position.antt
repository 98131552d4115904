-- ===== src/Inventory/Position.antt =====
-- `stockPosition`: the stock that the movements explain, against the stock that is kept.
use haroti_lpg_management.Common.Enums.{StockMovementType}
use haroti_lpg_management.Common.Errors.{Reason, not_found, ok}
use haroti_lpg_management.Database.Entities.{Station, StockMovement}
use haroti_lpg_management.Database.State.{Db, Op, pure, gets, find_or_throw, ◌>>=◌, ◌>>◌}
use haroti_lpg_management.Database.Table.{find_by_id, all_where}
use haroti_lpg_management.Inventory.Log.{Levels, Explains, changes, replay-changes}
use haroti_lpg_management.Prelude.{
  ℤ, pos, pos_part, neg_part, ◌+ℤ◌, ◌-ℤ◌, ◌≤ℤ◌, abs, one_sign, int_laws, All, filter, sum_of, ◌==◌,
  Bool-cases, ℕ, ◌≡◌, refl, ap, ◌∙◌, inl, inr, some, List, [], ◌∷◌,
}

pub record Components : Type 0 where
  pub received : ℤ
  pub transfers_in : ℤ
  pub sold : ℤ
  pub transfers_out : ℤ
  pub losses : ℤ

abbrev pub no_components : Components
no_components = record {
  received = pos 0;
  transfers_in = pos 0;
  sold = pos 0;
  transfers_out = pos 0;
  losses = pos 0;
}

-- One round of the loop: the `switch` on the type of the movement.
unfoldable pub add_movement : StockMovementType → ℤ → Components → Components
add_movement StockMovementType.supplier_delivery q c = record c { received = c.received +ℤ q }
add_movement StockMovementType.opening_stock q c = record c { received = c.received +ℤ q }
add_movement StockMovementType.transfer_in q c = record c { transfers_in = c.transfers_in +ℤ q }
add_movement StockMovementType.refill_sale q c = record c { sold = c.sold +ℤ abs q }
add_movement StockMovementType.transfer_out q c = record c {
  transfers_out = c.transfers_out +ℤ abs q;
}
add_movement StockMovementType.leakage_loss q c = record c { losses = c.losses +ℤ abs q }
add_movement StockMovementType.internal_consumption q c = record c { losses = c.losses +ℤ abs q }
add_movement StockMovementType.testing_calibration q c = record c { losses = c.losses +ℤ abs q }
add_movement StockMovementType.stock_adjustment q c = c
add_movement StockMovementType.closing_stock q c = c

unfoldable pub components_of : List (ℕ × StockMovement) → Components → Components
components_of [] c = c
components_of (m ∷ ms) c = components_of ms (add_movement m.1.kind m.1.quantity_kg c)

unfoldable pub expected_closing : Components → ℤ
expected_closing c = c.received +ℤ c.transfers_in -ℤ c.sold -ℤ c.transfers_out -ℤ c.losses

pub record StockPosition : Type 0 where
  pub physical_closing_stock_kg : ℤ
  pub expected_closing_stock_kg : ℤ
  pub stock_variance_kg : ℤ
  pub components : Components

-- The movements of one station.
unfoldable pub movements_of : ℕ → Db → List (ℕ × StockMovement)
movements_of station_id db = all_where (λ m. m.station_id == station_id) db.movements

unfoldable pub stock_position : ℕ → Op StockPosition
stock_position station_id = do
  station ←
      find_or_throw (not_found Reason.station_not_found) (λ db. find_by_id station_id db.stations)
  movements ← gets (movements_of station_id)
  let c = components_of movements no_components
  pure (record {
    physical_closing_stock_kg = station.current_stock_kg;
    expected_closing_stock_kg = expected_closing c;
    stock_variance_kg = station.current_stock_kg -ℤ expected_closing c;
    components = c;
  })

-- The signs that the callers of `applyMovement` give to each type of movement.
abbrev pub HasSign : StockMovementType → ℤ → Type 0
HasSign StockMovementType.refill_sale q = q ≤ℤ pos 0
HasSign StockMovementType.transfer_out q = q ≤ℤ pos 0
HasSign StockMovementType.leakage_loss q = q ≤ℤ pos 0
HasSign StockMovementType.internal_consumption q = q ≤ℤ pos 0
HasSign StockMovementType.testing_calibration q = q ≤ℤ pos 0
HasSign _ q = Unit

-- What a movement adds to the kept stock and not to the expected one: an adjustment.
unfoldable pub unexplained : StockMovementType → ℤ → ℤ
unexplained StockMovementType.stock_adjustment q = q
unexplained StockMovementType.closing_stock q = q
unexplained _ q = pos 0

add_movement-lem :
    (k : StockMovementType) (q : ℤ) (c : Components)
    → HasSign k q
    → expected_closing (add_movement k q c) +ℤ unexplained k q ≡ expected_closing c +ℤ q
unfolding add_movement unexplained expected_closing
add_movement-lem StockMovementType.opening_stock q c h = omega (int_laws, one_sign q)
add_movement-lem _ q c h = omega (int_laws, one_sign q)

abbrev pub quantity_of : ℕ × StockMovement → ℤ
quantity_of m = m.1.quantity_kg

abbrev pub adjustment_of : ℕ × StockMovement → ℤ
adjustment_of m = unexplained m.1.kind m.1.quantity_kg

abbrev pub IsSigned : ℕ × StockMovement → Type 0
IsSigned m = HasSign m.1.kind m.1.quantity_kg

components_of-lem :
    (ms : List (ℕ × StockMovement)) (c : Components)
    → All IsSigned ms
    → expected_closing (components_of ms c) +ℤ sum_of adjustment_of ms
      ≡ expected_closing c +ℤ sum_of quantity_of ms
unfolding components_of sum_of
components_of-lem [] c h = refl
components_of-lem (m ∷ ms) c (h, hs) =
    let ih = components_of-lem ms (add_movement m.1.kind m.1.quantity_kg c) hs in
    let step = add_movement-lem m.1.kind m.1.quantity_kg c h in grind (int_laws, ih, step)

-- The movement changed the stock by its quantity: the one-gram tolerance was not used.
abbrev pub IsExact : ℕ × StockMovement → Type 0
IsExact m = m.1.stock_after_kg ≡ m.1.stock_before_kg +ℤ m.1.quantity_kg

changes-sum :
    (k : ℕ) (ms : List (ℕ × StockMovement))
    → All IsExact ms
    → changes k ms ≡ sum_of quantity_of (filter (λ m. m.1.station_id == k) ms)
unfolding changes sum_of
changes-sum k [] h = refl
changes-sum k (m ∷ ms) (h, hs) = elim (Bool-cases (m.1.station_id == k)) [
  | inl here ↦ rw (here, changes-sum k ms hs, h) (omega int_laws)
  | inr other ↦ rw (other, changes-sum k ms hs) refl
]

regroup : (o q c u : ℤ) → c +ℤ u ≡ expected_closing no_components +ℤ q → o +ℤ q -ℤ c ≡ o +ℤ u
unfolding expected_closing
regroup o q c u h = omega (int_laws, ap pos_part h, ap neg_part h)

-- Where the log explains the stocks, the station's movements have the signs of their types and
-- none used the tolerance, the stock position returns a report whose variance is the opening stock
-- plus the adjustments of the station.
pub stock_position-variance :
    (opening : Levels) (db : Db) (k : ℕ) {s : Station}
    → find_by_id k db.stations ≡ some s
    → Explains opening db
    → All IsExact db.movements.rows
    → All IsSigned (movements_of k db)
    → (report : StockPosition) × (stock_position k db ≡ (ok report, db))
      × (report.stock_variance_kg ≡ opening k +ℤ sum_of adjustment_of (movements_of k db))
unfolding stock_position movements_of ◌>>=◌ ◌>>◌
stock_position-variance opening db k {s} found log exact signs =
    let c = components_of (movements_of k db) no_components in
    let current = log.current k s found ∙ replay-changes opening db.movements.rows k log.chained in
    let total = changes-sum k db.movements.rows exact in
    let counted = components_of-lem (movements_of k db) no_components signs in
    (
      record {
        physical_closing_stock_kg = s.current_stock_kg;
        expected_closing_stock_kg = expected_closing c;
        stock_variance_kg = s.current_stock_kg -ℤ expected_closing c;
        components = c;
      },
      rw found refl,
      rw current (rw total (regroup (opening k) _ _ _ counted)),
    )
