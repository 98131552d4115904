-- ===== src/Transfers.antt =====
-- backend/src/transfers/transfers.service.ts: gas moved from one station to another in two steps,
-- a dispatch that takes it from the source and a receipt that adds it to the destination.
pub mod Safety
pub mod Total
use haroti_lpg_management.Common.Enums.{StockMovementType, TransferStatus, TransferItemType}
use haroti_lpg_management.Common.Errors.{Reason, bad_request, not_found, ok}
use haroti_lpg_management.Database.Entities.{ReferenceType, TransferItem, Transfer}
use haroti_lpg_management.Database.State.{
  Db, Op, pure, or_throw, find_or_throw, ◌>>=◌, ◌>>◌, throw_if, modify, when, for_each,
}
use haroti_lpg_management.Database.Table.{find_by_id, store, append}
use haroti_lpg_management.Inventory.{MovementParams, apply_movement}
use haroti_lpg_management.Prelude.{
  ℤ, negate, find, ◌==◌, if◌then◌else◌, ◌+◌, ℕ, Bool, true, false, not, none, some, List, [], ◌∷◌,
}
use haroti_lpg_management.Stations.{find_station}

abbrev pub is_lpg : TransferItemType → Bool
is_lpg TransferItemType.lpg = true
is_lpg _ = false

abbrev pub is_receivable : TransferStatus → Bool
is_receivable TransferStatus.in_transit = true
is_receivable TransferStatus.dispatched = true
is_receivable _ = false

pub record CreateTransferDto : Type 0 where
  pub source_station_id : ℕ
  pub destination_station_id : ℕ
  pub items : List (TransferItemType × ℤ)

-- The items of a new transfer. Identifiers are compared within one transfer only, so the position
-- serves.
unfoldable pub new_items : ℕ → List (TransferItemType × ℤ) → List TransferItem
new_items i [] = []
new_items i ((kind, quantity) ∷ items) =
    record { id = i; item_type = kind; quantity_dispatched = quantity; quantity_received = none }
    ∷ new_items (i + 1) items

abbrev pub new_transfer : CreateTransferDto → ℕ → ℕ → Transfer
new_transfer dto user_id clock = record {
  source_station_id = dto.source_station_id;
  destination_station_id = dto.destination_station_id;
  status = TransferStatus.dispatched;
  requested_by_id = user_id;
  approved_by_id = user_id;
  dispatched_at = clock;
  received_at = none;
  items = new_items 0 dto.items;
}

unfoldable pub save_new_transfer : CreateTransferDto → ℕ → Op (ℕ × Transfer)
save_new_transfer dto user_id db =
    let t = new_transfer dto user_id db.clock in
    (ok (db.transfers.next_id, t), record db { transfers = append t db.transfers })

abbrev pub transfer_movement : StockMovementType → ℕ → ℤ → ℕ → ℕ → MovementParams
transfer_movement kind station_id quantity transfer_id user_id = record {
  station_id = station_id;
  kind = kind;
  quantity_kg = quantity;
  reference = some (record { kind = ReferenceType.transfer; id = transfer_id });
  user_id = some user_id;
  client_txn_id = none;
  requires_approval = false;
}

-- One round of the loop of `create`.
unfoldable pub dispatch_item : ℕ → ℕ → ℕ → TransferItem → Op (Unit {0})
dispatch_item source transfer_id user_id item = when (is_lpg item.item_type) (
    apply_movement (
      transfer_movement StockMovementType.transfer_out source (negate item.quantity_dispatched)
        transfer_id user_id)
    >> pure tt)

abbrev pub store_transfer : ℕ → Transfer → Db → Db
store_transfer id t db = record db { transfers = store id t db.transfers }

-- `create`
unfoldable pub create_transfer : CreateTransferDto → ℕ → Op ℕ
create_transfer dto user_id = do
  throw_if (dto.source_station_id == dto.destination_station_id) (bad_request Reason.same_station)
  find_station dto.source_station_id
  saved ← save_new_transfer dto user_id
  for_each (dispatch_item dto.source_station_id saved.0 user_id) saved.1.items
  modify (store_transfer saved.0 (record (saved.1) { status = TransferStatus.in_transit }))
  pure saved.0

-- `item.quantityReceived = ...` on the first item with that identifier
unfoldable pub set_received : ℕ → ℤ → List TransferItem → List TransferItem
set_received k quantity [] = []
set_received k quantity (i ∷ items) =
    if i.id == k
    then record i { quantity_received = some quantity } ∷ items
    else i ∷ set_received k quantity items

-- The loop of `receive` over the received quantities; the result is the list of items with what
-- was received.
unfoldable pub receive_items : ℕ → ℕ → ℕ → List (ℕ × ℤ) → List TransferItem → Op (List TransferItem)
receive_items destination transfer_id user_id [] items = pure items
receive_items destination transfer_id user_id ((k, quantity) ∷ received) items =
    or_throw (bad_request Reason.unknown_transfer_item) (find (λ i. i.id == k) items) >>= λ item.
    when (is_lpg item.item_type) (
      apply_movement
        (transfer_movement StockMovementType.transfer_in destination quantity transfer_id user_id)
      >> pure tt)
    >> receive_items destination transfer_id user_id received (set_received k quantity items)

-- `receive`
unfoldable pub receive_transfer : ℕ → List (ℕ × ℤ) → ℕ → Op (Unit {0})
receive_transfer id received user_id = do
  t ← find_or_throw (not_found Reason.transfer_not_found) (λ db. find_by_id id db.transfers)
  throw_if (not (is_receivable t.status)) (bad_request Reason.transfer_not_receivable)
  items ← receive_items t.destination_station_id id user_id received t.items
  modify (λ db.
      store_transfer id
        (record t { items = items; status = TransferStatus.confirmed; received_at = some db.clock })
        db)
