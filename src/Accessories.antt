-- ===== src/Accessories.antt =====
-- backend/src/accessories/accessories.service.ts: the stock of accessories at the stations, their
-- prices by channel and the bundles. Quantities are whole pieces.
pub mod Stock
use haroti_lpg_management.Common.Enums.{SalesChannel, StockOwnership}
use haroti_lpg_management.Common.Errors.{Reason, bad_request, ok, err}
use haroti_lpg_management.Database.Entities.{AccessoryStock, ChannelPrice}
use haroti_lpg_management.Database.State.{Db, Op, pure, gets, ◌>>=◌, ◌>>◌, modify}
use haroti_lpg_management.Database.Table.{find_by_id, store, append, find_where}
use haroti_lpg_management.Prelude.{
  ℤ, pos, ◌+ℤ◌, ◌*ℤ◌, ltb_ℤ, negate, ◌==◌, if◌then◌else◌, ℕ, Bool, true, false, not, ◌&&◌, Option,
  none, some, List, [], ◌∷◌,
}

abbrev pub is_owned : StockOwnership → Bool
is_owned StockOwnership.owned = true
is_owned StockOwnership.consignment = false

abbrev pub same_ownership : StockOwnership → StockOwnership → Bool
same_ownership StockOwnership.owned b = is_owned b
same_ownership StockOwnership.consignment b = not (is_owned b)

-- `where: { stationId, productId, ownership }`
unfoldable pub is_stock_of : ℕ → ℕ → StockOwnership → AccessoryStock → Bool
is_stock_of station_id product_id ownership s =
    s.station_id == station_id && s.product_id == product_id && same_ownership s.ownership ownership

abbrev new_stock : ℕ → ℕ → StockOwnership → ℤ → AccessoryStock
new_stock station_id product_id ownership quantity = record {
  station_id = station_id;
  product_id = product_id;
  ownership = ownership;
  quantity = quantity;
  has_batch = false;
}

-- `stockRepo.save(row)` with the new quantity: of the row that was found, or of a new one.
abbrev pub save_stock : Option (ℕ × AccessoryStock) → ℕ → ℕ → StockOwnership → ℤ → Db → ℕ × Db
save_stock (some (id, s)) station_id product_id ownership quantity db = (
  id,
  record db { accessory_stocks = store id (record s { quantity = quantity }) db.accessory_stocks },
)
save_stock none station_id product_id ownership quantity db = (
  db.accessory_stocks.next_id,
  record db {
    accessory_stocks =
        append (new_stock station_id product_id ownership quantity) db.accessory_stocks;
  },
)

abbrev pub quantity_at : Option (ℕ × AccessoryStock) → ℤ
quantity_at none = pos 0
quantity_at (some r) = r.1.quantity

-- `adjustStock`: the id of the row that was saved.
unfoldable pub adjust_accessory : ℕ → ℕ → ℤ → StockOwnership → Op ℕ
adjust_accessory station_id product_id delta ownership db =
    let row = find_where (is_stock_of station_id product_id ownership) db.accessory_stocks in
    let quantity = quantity_at row +ℤ delta in
    if ltb_ℤ quantity (pos 0)
    then (err (bad_request Reason.insufficient_accessory_stock), db)
    else let (id, db') = save_stock row station_id product_id ownership quantity db in (ok id, db')

-- `product?.costPrice ?? 0`
unfoldable pub cost_price_of : ℕ → Db → ℤ
cost_price_of product_id db = elim (find_by_id product_id db.products) [
  | none ↦ pos 0
  | some p ↦ p.cost_price
]

-- The loop of `deductForSale`; the result is the cost of the goods.
unfoldable pub deduct_for_sale : ℕ → List (ℕ × ℕ) → Op ℤ
deduct_for_sale station_id [] = pure (pos 0)
deduct_for_sale station_id (item ∷ items) =
    adjust_accessory station_id item.0 (negate (pos item.1)) StockOwnership.owned
    >> (gets (cost_price_of item.0) >>= λ cost.
        deduct_for_sale station_id items >>= λ rest. pure (cost *ℤ pos item.1 +ℤ rest))

abbrev pub channel_tag : SalesChannel → ℕ
channel_tag SalesChannel.retail_list = 0
channel_tag SalesChannel.wholesale = 1
channel_tag SalesChannel.franchise_purchase = 2
channel_tag SalesChannel.agent_commission = 3

-- `where: { productId, channel, isActive: true }`
unfoldable pub is_price_of : ℕ → SalesChannel → ChannelPrice → Bool
is_price_of product_id channel p =
    p.product_id == product_id && channel_tag p.channel == channel_tag channel && p.is_active

-- `product?.unitPrice ?? 0`
unfoldable pub unit_price_of : ℕ → Db → ℤ
unit_price_of product_id db = elim (find_by_id product_id db.products) [
  | none ↦ pos 0
  | some p ↦ p.unit_price
]

-- `getPrice`: the active price of the channel, or the product's own.
unfoldable pub get_price : ℕ → SalesChannel → Db → ℤ
get_price product_id channel db =
    elim (find_where (is_price_of product_id channel) db.channel_prices) [
      | some p ↦ p.1.unit_price
      | none ↦ unit_price_of product_id db
    ]

-- The batch number of the row that was saved, if one was given.
abbrev pub mark_batch : ℕ → Option AccessoryStock → Bool → Db → Db
mark_batch id none batch db = db
mark_batch id (some s) true db = record db {
  accessory_stocks = store id (record s { has_batch = true }) db.accessory_stocks;
}
mark_batch id (some s) false db = db

-- `receiveStock`
unfoldable pub receive_stock : ℕ → ℕ → ℤ → StockOwnership → Bool → Op (Unit {0})
receive_stock station_id product_id quantity ownership batch = do
  id ← adjust_accessory station_id product_id quantity ownership
  row ← gets (λ db. find_by_id id db.accessory_stocks)
  modify (mark_batch id row batch)
