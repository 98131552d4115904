-- ===== src/Inventory.antt =====
-- backend/src/inventory/inventory.service.ts: the LPG stock of the stations and the log of its
-- movements. `applyMovement` runs in a database transaction that throws before it writes.
pub mod Stock
pub mod Log
pub mod Position
pub mod Total
use haroti_lpg_management.Common.Enums.{StockMovementType}
use haroti_lpg_management.Common.Errors.{Reason, bad_request, not_found, ok}
use haroti_lpg_management.Database.Entities.{TxnId, same_txn, Reference, Station, StockMovement}
use haroti_lpg_management.Database.State.{
  Db, Op, pure, gets, or_throw, find_or_throw, ◌>>=◌, ◌>>◌, throw_if, modify,
}
use haroti_lpg_management.Database.Table.{find_by_id, store, append, find_where}
use haroti_lpg_management.Prelude.{
  ℤ, pos, negsuc, ◌+ℤ◌, ltb_ℤ, leb_ℤ, eqb_ℤ, abs, max_zero, if◌then◌else◌, ℕ, Bool, false, Option,
  none, some,
}

pub record MovementParams : Type 0 where
  pub station_id : ℕ
  pub kind : StockMovementType
  pub quantity_kg : ℤ
  pub reference : Option Reference
  pub user_id : Option ℕ
  pub client_txn_id : Option TxnId
  pub requires_approval : Bool

-- The column `client_txn_id` holds this identifier.
unfoldable pub has_txn : TxnId → StockMovement → Bool
has_txn t m = elim m.client_txn_id [ none ↦ false | some u ↦ same_txn u t ]

-- `movementsRepo.findOne({ where: { clientTxnId } })`, if the caller gave one
unfoldable pub existing_movement : Option TxnId → Db → Option (ℕ × StockMovement)
existing_movement none db = none
existing_movement (some t) db = find_where (has_txn t) db.movements

-- The new stock in grams, or none where the check `after < -0.001` refuses it.
unfoldable pub stock_after : ℤ → ℤ → Option ℤ
stock_after before quantity =
    let after = before +ℤ quantity in if ltb_ℤ after (negsuc 0) then none else some (max_zero after)

abbrev pub movement_row : MovementParams → ℤ → ℤ → StockMovement
movement_row p before after = record {
  station_id = p.station_id;
  kind = p.kind;
  quantity_kg = p.quantity_kg;
  stock_before_kg = before;
  stock_after_kg = after;
  reference = p.reference;
  created_by_id = p.user_id;
  client_txn_id = p.client_txn_id;
  requires_approval = p.requires_approval;
}

-- The writes of the transaction: the station's stock and the new movement.
abbrev pub write_movement : MovementParams → Station → ℤ → Db → Db
write_movement p station after db = record db {
  stations = store p.station_id (record station { current_stock_kg = after }) db.stations;
  movements = append (movement_row p station.current_stock_kg after) db.movements;
}

-- The body of the transaction.
unfoldable pub move_stock : MovementParams → Op (ℕ × StockMovement)
move_stock p = do
  station ←
      find_or_throw (not_found Reason.station_not_found) (λ db. find_by_id p.station_id db.stations)
  after ←
      or_throw (bad_request Reason.insufficient_lpg_stock)
        (stock_after station.current_stock_kg p.quantity_kg)
  id ← gets (λ db. db.movements.next_id)
  modify (write_movement p station after)
  pure (id, movement_row p station.current_stock_kg after)

unfoldable pub apply_movement : MovementParams → Op (ℕ × StockMovement)
unfolding move_stock
apply_movement p db = elim (existing_movement p.client_txn_id db) [
  | some m ↦ (ok m, db)
  | none ↦ move_stock p db
]

pub record AdjustStockDto : Type 0 where
  pub station_id : ℕ
  pub quantity_kg : ℤ
  pub client_txn_id : Option TxnId

-- `adjustStock`; its entry in the audit log is not modelled.
unfoldable pub adjust_stock : AdjustStockDto → ℕ → Op (ℕ × StockMovement)
adjust_stock dto user_id = do
  throw_if (eqb_ℤ dto.quantity_kg (pos 0)) (bad_request Reason.adjustment_is_zero)
  apply_movement (record {
    station_id = dto.station_id;
    kind = StockMovementType.stock_adjustment;
    quantity_kg = dto.quantity_kg;
    reference = none;
    user_id = some user_id;
    client_txn_id = dto.client_txn_id;
    requires_approval = leb_ℤ (pos 20_000) (abs dto.quantity_kg);
  })
