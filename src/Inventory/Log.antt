-- ===== src/Inventory/Log.antt =====
-- The log of movements that `applyMovement` writes, against the stocks.
use haroti_lpg_management.Database.Entities.{Station, StockMovement}
use haroti_lpg_management.Database.Keeps.{Keeps}
use haroti_lpg_management.Database.State.{Db}
use haroti_lpg_management.Database.Table.{lookup, replace, find_by_id, lookup-replace}
use haroti_lpg_management.Inventory.{MovementParams, stock_after, movement_row, apply_movement}
use haroti_lpg_management.Inventory.Stock.{apply_movement-Keeps}
use haroti_lpg_management.Prelude.{
  ℤ, pos, ◌+ℤ◌, ◌-ℤ◌, int_laws, ◌==◌, if◌then◌else◌, ==_iff, Bool-cases, ℕ, ◌≡◌, refl, ap, ◌∙◌, inl,
  inr, some, List, [], ◌∷◌, ◌++◌, arith,
}

-- The stock of each station, by its id.
abbrev pub Levels : Type 0
Levels = ℕ → ℤ

abbrev pub set_level : ℕ → ℤ → Levels → Levels
set_level k v f j = if k == j then v else f j

-- The stocks after a list of movements.
unfoldable pub replay : Levels → List (ℕ × StockMovement) → Levels
replay f [] = f
replay f (m ∷ ms) = replay (set_level m.1.station_id m.1.stock_after_kg f) ms

-- Every movement records the stock that the replay has before it, and the stock that
-- `stock_after` allows.
abbrev pub IsChained : Levels → List (ℕ × StockMovement) → Type 0
IsChained f [] = Unit
IsChained f (m ∷ ms) =
    (m.1.stock_before_kg ≡ f m.1.station_id)
    × (stock_after m.1.stock_before_kg m.1.quantity_kg ≡ some m.1.stock_after_kg)
    × IsChained (set_level m.1.station_id m.1.stock_after_kg f) ms

-- The log explains the stocks.
pub record Explains (opening : Levels) (db : Db) : Type 0 where
  pub chained : IsChained opening db.movements.rows
  pub current :
      (k : ℕ) (s : Station)
      → find_by_id k db.stations ≡ some s
      → s.current_stock_kg ≡ replay opening db.movements.rows k

replay-append :
    (f : Levels) (ms : List (ℕ × StockMovement)) (m : ℕ × StockMovement)
    → replay f (ms ++ m ∷ []) ≡ set_level m.1.station_id m.1.stock_after_kg (replay f ms)
unfolding replay
replay-append f [] m = refl
replay-append f (x ∷ ms) m = replay-append (set_level x.1.station_id x.1.stock_after_kg f) ms m

IsChained-append :
    (f : Levels) (ms : List (ℕ × StockMovement)) (m : ℕ × StockMovement)
    → IsChained f ms
    → m.1.stock_before_kg ≡ replay f ms m.1.station_id
    → stock_after m.1.stock_before_kg m.1.quantity_kg ≡ some m.1.stock_after_kg
    → IsChained f (ms ++ m ∷ [])
unfolding replay
IsChained-append f [] m h e q = (e, q, tt)
IsChained-append f (x ∷ ms) m h e q =
    (h.0, h.1, IsChained-append (set_level x.1.station_id x.1.stock_after_kg f) ms m h.2 e q)

-- A movement, accepted or refused, keeps the log explaining the stocks: every movement starts at
-- the level before it and the replay of the log from the opening levels gives every station's
-- stock.
pub apply_movement-Explains :
    (opening : Levels) (p : MovementParams) → Keeps (Explains opening) (apply_movement p)
apply_movement-Explains opening p =
    apply_movement-Keeps (Explains opening) p λ db s after found moved h.
      let m : ℕ × StockMovement = (db.movements.next_id, movement_row p s.current_stock_kg after) in
      record {
        chained =
            IsChained-append opening db.movements.rows m h.chained (h.current p.station_id s found)
              moved;
        current = λ k s' e.
            rw (replay-append opening db.movements.rows m)
              (level-lem opening db p s after k s' h e found);
      }
  where
    level-lem :
        (opening : Levels) (db : Db) (p : MovementParams) (s : Station) (after : ℤ) (k : ℕ)
        (s' : Station)
        → Explains opening db
        → lookup k (replace p.station_id (record s { current_stock_kg = after }) db.stations.rows)
          ≡ some s'
        → find_by_id p.station_id db.stations ≡ some s
        → s'.current_stock_kg
          ≡ (if p.station_id == k then after else replay opening db.movements.rows k)
    level-lem opening db p s after k s' h e found = ground (
      arith,
      lookup-replace k p.station_id (record s { current_stock_kg = after }) {old = s}
          db.stations.rows found,
      h.current k s',
    )

-- What the movements of one station change, by their own records.
unfoldable pub changes : ℕ → List (ℕ × StockMovement) → ℤ
changes k [] = pos 0
changes k (m ∷ ms) =
    if m.1.station_id == k
    then m.1.stock_after_kg -ℤ m.1.stock_before_kg +ℤ changes k ms
    else changes k ms

-- The replayed stock of a station is its opening stock and the changes of its own movements.
pub replay-changes :
    (f : Levels) (ms : List (ℕ × StockMovement)) (k : ℕ)
    → IsChained f ms
    → replay f ms k ≡ f k +ℤ changes k ms
unfolding replay changes
replay-changes f [] k h = omega int_laws
replay-changes f (m ∷ ms) k h =
    let ih = replay-changes (set_level m.1.station_id m.1.stock_after_kg f) ms k h.2 in
    elim (Bool-cases (m.1.station_id == k)) [
      | inl here ↦
          let before : m.1.stock_before_kg ≡ f k = h.0 ∙ ap f ((==_iff m.1.station_id k).0 here) in
          rw (ih, here, before) (omega int_laws)
      | inr other ↦ rw (ih, other) refl
    ]
