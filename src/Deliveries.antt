-- ===== src/Deliveries.antt =====
-- backend/src/deliveries/deliveries.service.ts: a delivery of gas on its way from the order to the
-- accounts. Money is in hundredths, gas in grams, the landed cost in thousandths.
pub mod Workflow
pub mod Books
pub mod Taken
pub mod Arrival
use haroti_lpg_management.Common.Decimal.{round_div}
use haroti_lpg_management.Common.Enums.{StockMovementType, DeliveryStatus, JournalEventType}
use haroti_lpg_management.Common.Errors.{Reason, bad_request, not_found, ok}
use haroti_lpg_management.Database.Documents.{Delivery, AllocationStatus, DeliveryAllocation}
use haroti_lpg_management.Database.Entities.{ReferenceType}
use haroti_lpg_management.Database.State.{
  Db, Op, pure, or_throw, find_or_throw, ◌>>=◌, ◌>>◌, throw_if, modify, when, for_each,
}
use haroti_lpg_management.Database.Table.{find_by_id, store, append}
use haroti_lpg_management.Finance.Accounts.{inventory_bulk_lpg, accounts_payable}
use haroti_lpg_management.Finance.Journal.{post_entry}
use haroti_lpg_management.Finance.Posting.{reference_to, entry_of}
use haroti_lpg_management.Inventory.{MovementParams, apply_movement}
use haroti_lpg_management.Prelude.{
  ℤ, pos, pos_part, ◌+ℤ◌, ◌*ℤ◌, ltb_ℤ, if◌then◌else◌, or_else, ℕ, Bool, true, false, not, ◌&&◌,
  Option, none, some, List,
}
use haroti_lpg_management.Stations.{find_station, update_weighted_avg_cost}

pub record CreateDeliveryDto : Type 0 where
  pub supplier_id : ℕ
  pub station_id : ℕ
  pub quantity_ordered_kg : ℤ
  pub quantity_dispatched_kg : ℤ
  pub quantity_received_kg : ℤ
  pub buying_price_per_kg : ℤ
  pub transport_cost : Option ℤ

abbrev pub new_delivery : CreateDeliveryDto → ℕ → Delivery
new_delivery dto user_id = record {
  supplier_id = dto.supplier_id;
  station_id = dto.station_id;
  quantity_ordered_kg = dto.quantity_ordered_kg;
  quantity_dispatched_kg = dto.quantity_dispatched_kg;
  quantity_received_kg = dto.quantity_received_kg;
  buying_price_per_kg = dto.buying_price_per_kg;
  transport_cost = or_else dto.transport_cost (pos 0);
  status = DeliveryStatus.purchase_order;
  approved_by_id = none;
  created_by_id = user_id;
}

unfoldable pub save_delivery : Delivery → Op ℕ
save_delivery d db = (ok db.deliveries.next_id, record db { deliveries = append d db.deliveries })

-- `create`
unfoldable pub create_delivery : CreateDeliveryDto → ℕ → Op ℕ
create_delivery dto user_id = do
  find_station dto.station_id
  save_delivery (new_delivery dto user_id)

-- `WORKFLOW[idx + 1]`, if the status is in `WORKFLOW` and not its last.
abbrev pub next_status : DeliveryStatus → Option DeliveryStatus
next_status DeliveryStatus.purchase_order = some DeliveryStatus.supplier_dispatch
next_status DeliveryStatus.supplier_dispatch = some DeliveryStatus.station_receipt
next_status DeliveryStatus.station_receipt = some DeliveryStatus.quantity_verification
next_status DeliveryStatus.quantity_verification = some DeliveryStatus.manager_approval
next_status DeliveryStatus.manager_approval = some DeliveryStatus.inventory_updated
next_status DeliveryStatus.inventory_updated = some DeliveryStatus.accounts_payable
next_status DeliveryStatus.accounts_payable = none
next_status DeliveryStatus.cancelled = none

abbrev pub is_inventory_updated : DeliveryStatus → Bool
is_inventory_updated DeliveryStatus.inventory_updated = true
is_inventory_updated _ = false

abbrev pub is_manager_approval : DeliveryStatus → Bool
is_manager_approval DeliveryStatus.manager_approval = true
is_manager_approval _ = false

-- `findOne` and its exception
unfoldable pub find_delivery : ℕ → Op Delivery
find_delivery id =
    find_or_throw (not_found Reason.delivery_not_found) (λ db. find_by_id id db.deliveries)

abbrev pub store_delivery : ℕ → Delivery → Db → Db
store_delivery id d db = record db { deliveries = store id d db.deliveries }

abbrev pub delivery_movement : ℕ → ℕ → Delivery → MovementParams
delivery_movement id user_id d = record {
  station_id = d.station_id;
  kind = StockMovementType.supplier_delivery;
  quantity_kg = d.quantity_received_kg;
  reference = some (reference_to ReferenceType.delivery id);
  user_id = some user_id;
  client_txn_id = none;
  requires_approval = false;
}

-- `landedCost`: a gram costs a thousandth of the price of a kilogram.
unfoldable pub landed_cost : Delivery → ℤ
landed_cost d =
    round_div (d.quantity_received_kg *ℤ d.buying_price_per_kg +ℤ d.transport_cost *ℤ pos 1_000) 100

-- `landedPerKg`, of a quantity above zero
unfoldable pub landed_per_kg : Delivery → ℤ
landed_per_kg d =
    if ltb_ℤ (pos 0) d.quantity_received_kg
    then round_div (landed_cost d *ℤ pos 100) (pos_part d.quantity_received_kg)
    else pos 0

-- The landed cost as the column of the journal keeps it.
abbrev pub landed_amount : Delivery → ℤ
landed_amount d = round_div (landed_cost d) 10

unfoldable pub post_delivery : ℕ → ℤ → Op ℕ
post_delivery id amount = post_entry (
    entry_of JournalEventType.lpg_delivery ReferenceType.delivery id inventory_bulk_lpg
      accounts_payable amount)

-- The gas that was received: into the stock, its cost and the journal.
unfoldable pub take_in : ℕ → ℕ → Delivery → Op (Unit {0})
take_in id user_id d = do
  apply_movement (delivery_movement id user_id d)
  update_weighted_avg_cost d.station_id d.quantity_received_kg (landed_per_kg d)
  post_delivery id (landed_amount d)
  pure tt

abbrev pub advanced : DeliveryStatus → ℕ → Delivery → Delivery
advanced next user_id d =
    if is_inventory_updated next
    then record d { status = next; approved_by_id = some user_id }
    else record d { status = next }

-- The end of `advanceStatus`, with the next status.
unfoldable pub advance_to : ℕ → ℕ → Delivery → DeliveryStatus → Op (Unit {0})
advance_to id user_id d next = do
  when (is_inventory_updated next && ltb_ℤ (pos 0) d.quantity_received_kg) (take_in id user_id d)
  modify (store_delivery id (advanced next user_id d))

unfoldable pub advance_found : ℕ → ℕ → Delivery → Op (Unit {0})
advance_found id user_id d =
    or_throw (bad_request Reason.delivery_cannot_advance) (next_status d.status)
    >>= advance_to id user_id d

-- `advanceStatus`
unfoldable pub advance_status : ℕ → ℕ → Op (Unit {0})
advance_status id user_id = find_delivery id >>= advance_found id user_id

-- `approve`
unfoldable pub approve_delivery : ℕ → ℕ → Op (Unit {0})
approve_delivery id user_id = do
  d ← find_delivery id
  throw_if (not (is_manager_approval d.status)) (bad_request Reason.delivery_not_awaiting)
  advance_status id user_id

abbrev pub allocation : ℕ → ℕ × ℤ → DeliveryAllocation
allocation delivery_id (station_id, kg) = record {
  bulk_delivery_id = delivery_id;
  station_id = station_id;
  allocated_kg = kg;
  status = AllocationStatus.planned;
}

-- `createAllocations`
unfoldable pub create_allocations : ℕ → List (ℕ × ℤ) → Op (Unit {0})
create_allocations delivery_id allocations = do
  find_delivery delivery_id
  for_each
      (λ a.
        modify (λ db. record db { allocations = append (allocation delivery_id a) db.allocations }))
      allocations
