-- ===== src/Inventory/Stock.antt =====
-- The stock of a station under `applyMovement`.
use haroti_lpg_management.Common.Errors.{Reason, Failure, bad_request, not_found, ok, err}
use haroti_lpg_management.Database.Entities.{TxnId, same_txn, Station, StockMovement}
use haroti_lpg_management.Database.Keeps.{Keeps}
use haroti_lpg_management.Database.State.{Db, ◌>>=◌, ◌>>◌}
use haroti_lpg_management.Database.Table.{
  Table, find_by_id, append, find_where, Every, replace-All, find-append,
}
use haroti_lpg_management.Inventory.{
  MovementParams, has_txn, existing_movement, stock_after, movement_row, write_movement, move_stock,
  apply_movement,
}
use haroti_lpg_management.Prelude.{
  ℤ, pos, negsuc, ◌+ℤ◌, ◌≤ℤ◌, ◌<ℤ◌, max_zero, Option-cases, ℕ, ◌≡◌, refl, ◌⊎◌, inl, inr, Bool, true,
  none, some, arith,
}

-- No station has less than nothing.
abbrev pub StockIsNonneg : Db → Type 0
StockIsNonneg db = Every (λ s. pos 0 ≤ℤ s.current_stock_kg) db.stations

pub stock_after_nonneg :
    (before quantity : ℤ) {after : ℤ} → stock_after before quantity ≡ some after → pos 0 ≤ℤ after
unfolding stock_after max_zero
stock_after_nonneg before quantity e = ground arith

-- The new stock is the sum, but for a deficit of one gram, which is taken for zero.
pub stock_after_lem :
    (before quantity : ℤ) {after : ℤ}
    → stock_after before quantity ≡ some after
    → (after ≡ before +ℤ quantity) ⊎ ((before +ℤ quantity ≡ negsuc 0) × (after ≡ pos 0))
unfolding stock_after max_zero
stock_after_lem before quantity e = ground arith

pub stock_after_refuses :
    (before quantity : ℤ) → (before +ℤ quantity) <ℤ negsuc 0 → stock_after before quantity ≡ none
unfolding stock_after
stock_after_refuses before quantity h = ground arith

-- The three ways in which the transaction ends.
pub move_stock_missing :
    (p : MovementParams) (db : Db)
    → find_by_id p.station_id db.stations ≡ none
    → move_stock p db ≡ (err (not_found Reason.station_not_found), db)
unfolding move_stock ◌>>=◌ ◌>>◌
move_stock_missing p db missing = rw missing

pub move_stock_refused :
    (p : MovementParams) (db : Db) {s : Station}
    → find_by_id p.station_id db.stations ≡ some s
    → stock_after s.current_stock_kg p.quantity_kg ≡ none
    → move_stock p db ≡ (err (bad_request Reason.insufficient_lpg_stock), db)
unfolding move_stock ◌>>=◌ ◌>>◌
move_stock_refused p db found refused = rw (found, refused)

pub move_stock_moved :
    (p : MovementParams) (db : Db) {s : Station} {after : ℤ}
    → find_by_id p.station_id db.stations ≡ some s
    → stock_after s.current_stock_kg p.quantity_kg ≡ some after
    → move_stock p db ≡ (
      ok (db.movements.next_id, movement_row p s.current_stock_kg after),
      write_movement p s after db,
    )
unfolding move_stock ◌>>=◌ ◌>>◌
move_stock_moved p db found moved = rw (found, moved)

-- A property that the writes of a movement keep is kept by `apply_movement`.
abbrev Refusal : MovementParams → Db → Type 0
Refusal p db = (e : Failure) × (move_stock p db ≡ (err e, db))

abbrev Movement : MovementParams → Db → Type 0
Movement p db =
    (s : Station) × (after : ℤ) × (find_by_id p.station_id db.stations ≡ some s)
    × (stock_after s.current_stock_kg p.quantity_kg ≡ some after)
    × (move_stock p db ≡ (
      ok (db.movements.next_id, movement_row p s.current_stock_kg after),
      write_movement p s after db,
    ))

pub move_stock-cases : (p : MovementParams) (db : Db) → Refusal p db ⊎ Movement p db
move_stock-cases p db = elim (Option-cases (find_by_id p.station_id db.stations)) [
  | inl missing ↦ inl (_, move_stock_missing p db missing)
  | inr (s, found) ↦ elim (Option-cases (stock_after s.current_stock_kg p.quantity_kg)) [
    | inl refused ↦ inl (_, move_stock_refused p db found refused)
    | inr (after, moved) ↦ inr (s, after, found, moved, move_stock_moved p db found moved)
  ]
]

-- The lookup by client transaction: a movement under that identifier is returned as it is.
pub apply_movement_old :
    (p : MovementParams) (db : Db) {m : ℕ × StockMovement}
    → existing_movement p.client_txn_id db ≡ some m
    → apply_movement p db ≡ (ok m, db)
unfolding apply_movement
apply_movement_old p db old = rw (old, apply_movement)

pub apply_movement_new :
    (p : MovementParams) (db : Db)
    → existing_movement p.client_txn_id db ≡ none
    → apply_movement p db ≡ move_stock p db
unfolding apply_movement
apply_movement_new p db new = rw (new, apply_movement)

module _ (P : Db → Type 0) (p : MovementParams)
    (writes : (db : Db) (s : Station) (after : ℤ)
      → find_by_id p.station_id db.stations ≡ some s
      → stock_after s.current_stock_kg p.quantity_kg ≡ some after
      → P db
      → P (write_movement p s after db)) where
  move_stock-Keeps : (db : Db) → P db → P (move_stock p db).1
  move_stock-Keeps db h = elim (move_stock-cases p db) [
    | inl (e, refused) ↦ rw refused h
    | inr (s, after, found, moved, made) ↦ rw made (writes db s after found moved h)
  ]

  apply_movement-run : (db : Db) → P db → P (apply_movement p db).1
  apply_movement-run db h = elim (Option-cases (existing_movement p.client_txn_id db)) [
    | inl new ↦ rw (apply_movement_new p db new) (move_stock-Keeps db h)
    | inr (m, old) ↦ rw (apply_movement_old p db old) h
  ]

  pub apply_movement-Keeps : Keeps P (apply_movement p)
  apply_movement-Keeps = record { run = apply_movement-run }

-- No movement, accepted or refused, leaves a station with a negative stock.
pub apply_movement-StockIsNonneg : (p : MovementParams) → Keeps StockIsNonneg (apply_movement p)
apply_movement-StockIsNonneg p = apply_movement-Keeps StockIsNonneg p λ db s after found moved h.
    replace-All (λ (s : Station). pos 0 ≤ℤ s.current_stock_kg) p.station_id _ db.stations.rows h
      (stock_after_nonneg s.current_stock_kg p.quantity_kg moved)

-- A movement that is refused leaves the state as it was.
pub apply_movement-IsAtomic :
    (p : MovementParams) (db : Db) {e : Failure}
    → (apply_movement p db).0 ≡ err e
    → (apply_movement p db).1 ≡ db
apply_movement-IsAtomic p db {e} h = elim (Option-cases (existing_movement p.client_txn_id db)) [
  | inl new ↦ rw (apply_movement_new p db new) (move_lem (rw (apply_movement_new p db new) at h))
  | inr (m, old) ↦ rw (apply_movement_old p db old) refl
]
  where
    move_lem : (move_stock p db).0 ≡ err e → (move_stock p db).1 ≡ db
    move_lem k = elim (move_stock-cases p db) [
      | inl (_, refused) ↦ rw refused refl
      | inr (s, after, found, moved, made) ↦ cc (k, made)
    ]

find_where-append :
    (p : StockMovement → Bool) (m : StockMovement) (t : Table StockMovement)
    → find_where p t ≡ none
    → p m ≡ true
    → find_where p (append m t) ≡ some (t.next_id, m)
find_where-append p m t e h = find-append p (t.next_id, m) t.rows e h

same_txn_refl : (t : TxnId) → same_txn t t ≡ true
unfolding same_txn
same_txn_refl (TxnId.plain a) = ground arith
same_txn_refl (TxnId.stock a) = same_txn_refl a

first_is_found :
    (p : MovementParams) (t : TxnId) (db db' : Db) {m : ℕ × StockMovement}
    → p.client_txn_id ≡ some t
    → apply_movement p db ≡ (ok m, db')
    → existing_movement (some t) db' ≡ some m
unfolding existing_movement
first_is_found p t db db' {m} hp h = elim (Option-cases (existing_movement (some t) db)) [
  | inr (m', old) ↦ cc (old, apply_movement_old p db {m = m'} (rw hp old), h)
  | inl new ↦ elim (move_stock-cases p db) [
    | inl (_, refused) ↦ cc (h, apply_movement_new p db (rw hp new), refused)
    | inr (s, after, found, fits, made) ↦
        let row = movement_row p s.current_stock_kg after in
        let here : has_txn t row ≡ true = unfold has_txn in rw (hp, same_txn_refl t) refl in
        cc (
          h,
          apply_movement_new p db (rw hp new),
          made,
          find_where-append (has_txn t) row db.movements new here,
        )
  ]
]

-- A movement repeated, right after one that was accepted, with the same client transaction id
-- returns the first movement and changes nothing, whatever its other arguments.
pub apply_movement_once :
    (p q : MovementParams) (t : TxnId) (db db' : Db) {m : ℕ × StockMovement}
    → p.client_txn_id ≡ some t
    → q.client_txn_id ≡ some t
    → apply_movement p db ≡ (ok m, db')
    → apply_movement q db' ≡ (ok m, db')
apply_movement_once p q t db db' {m} hp hq h =
    apply_movement_old q db' (rw hq (first_is_found p t db db' hp h))
