-- ===== src/Tanks/Integrity.antt =====
-- The stocks against the log (backend/src/tanks/tanks.service.ts, `stockIntegrityCheck`).
use haroti_lpg_management.Database.Entities.{Station, StockMovement}
use haroti_lpg_management.Database.State.{Db}
use haroti_lpg_management.Database.Table.{find_by_id}
use haroti_lpg_management.Inventory.{stock_after}
use haroti_lpg_management.Inventory.Log.{
  Levels, set_level, IsChained, Explains, changes, replay-changes,
}
use haroti_lpg_management.Prelude.{
  ℤ, pos, pos_part, neg_part, ◌+ℤ◌, ◌-ℤ◌, ◌≤ℤ◌, ltb_ℤ, abs, max_zero, one_sign, int_laws, length,
  All, filter, sum_of, ◌==◌, Bool-cases, ◌≤◌, ℕ, ◌≡◌, refl, ap, ◌∙◌, inl, inr, false, some, List,
  [], ◌∷◌, arith,
}
use haroti_lpg_management.Tanks.{net_of, stock_delta, is_issue, stock_integrity_check}

-- A movement that is accepted changes the stock by its quantity, or by a gram more.
stock_after-bounds :
    (before quantity : ℤ) {after : ℤ}
    → stock_after before quantity ≡ some after
    → (quantity ≤ℤ after -ℤ before) × (after -ℤ before ≤ℤ quantity +ℤ pos 1)
unfolding stock_after max_zero ◌+ℤ◌ ◌-ℤ◌
stock_after-bounds before quantity h = ground (arith, one_sign before, one_sign quantity)

-- The movements of one station.
abbrev pub moved_at : ℕ → List (ℕ × StockMovement) → List (ℕ × StockMovement)
moved_at k ms = filter (λ m. m.1.station_id == k) ms

changes-net_of :
    (f : Levels) (ms : List (ℕ × StockMovement)) (k : ℕ)
    → IsChained f ms
    → (net_of k ms ≤ℤ changes k ms) × (changes k ms ≤ℤ net_of k ms +ℤ pos (length (moved_at k ms)))
unfolding changes net_of sum_of
changes-net_of f [] k h = (omega int_laws, omega int_laws)
changes-net_of f (m ∷ ms) k h =
    let (low, high) = changes-net_of (set_level m.1.station_id m.1.stock_after_kg f) ms k h.2 in
    elim (Bool-cases (m.1.station_id == k)) [
      | inl here ↦
          let (above, below) = stock_after-bounds m.1.stock_before_kg m.1.quantity_kg h.1 in
          rw here
            (omega (int_laws, low, high, above, below), omega (int_laws, low, high, above, below))
      | inr other ↦ rw other (low, high)
    ]

-- Each station is found under its identifier.
abbrev pub AreFound : List (ℕ × Station) → Db → Type 0
AreFound rows db = All (λ r. find_by_id r.0 db.stations ≡ some r.1) rows

-- No station has more than these many movements.
abbrev pub IsShort : ℕ → Db → Type 0
IsShort n db = (k : ℕ) → length (moved_at k db.movements.rows) ≤ n

small-abs : (a : ℤ) (n : ℕ) → pos 0 ≤ℤ a → a ≤ℤ pos n → ltb_ℤ (pos n) (abs a) ≡ false
unfolding abs
small-abs a n low high = ground (arith, one_sign a)

-- The stock of each station before the first movement.
abbrev pub empty_levels : Levels
empty_levels k = pos 0

within_lem :
    (stock change net : ℤ) (n : ℕ)
    → stock ≡ pos 0 +ℤ change
    → net ≤ℤ change
    → change ≤ℤ net +ℤ pos n
    → n ≤ 500
    → ltb_ℤ (pos 500) (abs (stock -ℤ net)) ≡ false
within_lem stock change net n h low high few =
    small-abs (stock -ℤ net) 500 (omega (int_laws, ap pos_part h, ap neg_part h, low))
      (omega (int_laws, ap pos_part h, ap neg_part h, high, few))

station_lem :
    (db : Db) (r : ℕ × Station)
    → Explains empty_levels db
    → find_by_id r.0 db.stations ≡ some r.1
    → IsShort 500 db
    → is_issue db r ≡ false
unfolding is_issue stock_delta
station_lem db r h found few =
    let ms = db.movements.rows in
    let (low, high) = changes-net_of empty_levels ms r.0 h.chained in
    within_lem r.1.current_stock_kg (changes r.0 ms) (net_of r.0 ms) (length (moved_at r.0 ms))
      (h.current r.0 r.1 found ∙ replay-changes empty_levels ms r.0 h.chained) low high (few r.0)

no_issues :
    (db : Db) (rows : List (ℕ × Station))
    → Explains empty_levels db
    → IsShort 500 db
    → AreFound rows db
    → filter (is_issue db) rows ≡ []
no_issues db [] h few found = refl
no_issues db (r ∷ rows) h few (here, there) =
    rw (station_lem db r h here few) (no_issues db rows h few there)

-- Where the log explains the stocks from nothing on and each station has at most 500 movements,
-- the check finds no station whose stock is off by more than half a kilogram.
pub stock_integrity_check-clean :
    (db : Db)
    → Explains empty_levels db
    → IsShort 500 db
    → AreFound db.stations.rows db
    → stock_integrity_check db ≡ []
unfolding stock_integrity_check
stock_integrity_check-clean db h few found = rw (no_issues db db.stations.rows h few found) refl
