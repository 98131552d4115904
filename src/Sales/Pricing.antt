-- ===== src/Sales/Pricing.antt =====
-- The price of the gas and the lines of a new sale: `getActivePrice`, `assertSerialEligible`,
-- `explodeBundle` and the first loops of `createSale`.
use haroti_lpg_management.Accessories.{deduct_for_sale, get_price}
use haroti_lpg_management.Common.Decimal.{round_div}
use haroti_lpg_management.Common.Enums.{CylinderStatus, SalesChannel}
use haroti_lpg_management.Common.Errors.{Reason, bad_request, not_found}
use haroti_lpg_management.Database.Entities.{SaleItem, Cylinder, PriceList, ProductBundle}
use haroti_lpg_management.Database.State.{Db, Op, pure, gets, find_or_throw, ◌>>=◌, ◌>>◌, throw_if}
use haroti_lpg_management.Database.Table.{find_by_id, find_where, all_where}
use haroti_lpg_management.Prelude.{
  ℤ, pos, ◌-ℤ◌, ◌*ℤ◌, ltb_ℤ, leb_ℤ, eqb_ℤ, ltb, leb, ◌==◌, if◌then◌else◌, or_else, is_some, ℕ, Bool,
  true, false, not, ◌&&◌, Option, none, some, List, [], ◌∷◌,
}

unfoldable pub price_is_for : Option ℕ → PriceList → Bool
price_is_for none p = not (is_some p.station_id) && p.is_active
price_is_for (some s) p = elim p.station_id [ none ↦ false | some t ↦ t == s ] && p.is_active

-- The later of two prices by `effectiveFrom`; the first one of a tie.
abbrev pub later : PriceList → Option PriceList → PriceList
later p none = p
later p (some q) = if ltb p.effective_from q.effective_from then q else p

-- `findOne({ where, order: { effectiveFrom: 'DESC' } })`
unfoldable pub latest : List (ℕ × PriceList) → Option PriceList
latest [] = none
latest ((i, p) ∷ prices) = some (later p (latest prices))

abbrev pub latest_price : Option ℕ → Db → Option PriceList
latest_price station db = latest (all_where (price_is_for station) db.prices)

-- The price has begun and has not ended.
unfoldable pub is_current : ℕ → PriceList → Bool
is_current now p =
    leb p.effective_from now && elim p.effective_to [ none ↦ true | some t ↦ leb now t ]

-- `toNumber(national?.pricePerKg ?? 1850)`
unfoldable pub national_price : Db → ℤ
national_price db = elim (latest_price none db) [ none ↦ pos 185_000 | some p ↦ p.price_per_kg ]

-- `getActivePrice`
unfoldable pub active_price : ℕ → Db → ℤ
active_price station_id db = elim (latest_price (some station_id) db) [
  | none ↦ national_price db
  | some p ↦ if is_current db.clock p then p.price_per_kg else national_price db
]

-- `blockedStatuses`
abbrev pub is_blocked : CylinderStatus → Bool
is_blocked CylinderStatus.condemned = true
is_blocked CylinderStatus.damaged = true
is_blocked CylinderStatus.under_inspection = true
is_blocked _ = false

-- `assertEligible`
unfoldable pub assert_eligible : Cylinder → Op (Unit {0})
assert_eligible c = gets (λ db. db.clock) >>= λ now.
    throw_if (is_blocked c.status) (bad_request Reason.cylinder_blocked)
    >> throw_if (elim c.next_inspection_date [ none ↦ false | some d ↦ ltb d now ])
        (bad_request Reason.cylinder_overdue)

-- `assertSerialEligible`
unfoldable pub assert_serial_eligible : ℕ → Op (Unit {0})
assert_serial_eligible serial = do
  c ←
      find_or_throw (not_found Reason.cylinder_not_found)
        (λ db. find_where (λ c. c.serial_number == serial) db.cylinders)
  assert_eligible c.1

pub record SaleItemDto : Type 0 where
  pub product_id : Option ℕ
  pub item_name : ℕ
  pub cylinder_serial : Option ℕ
  pub empty_weight_kg : Option ℤ
  pub filled_weight_kg : Option ℤ
  pub lpg_quantity_kg : Option ℤ
  pub unit_price : ℤ
  pub quantity : ℕ

-- The check on the serial number of one item.
unfoldable pub check_serial : SaleItemDto → Op (Unit {0})
check_serial i = elim i.cylinder_serial [ none ↦ pure tt | some s ↦ assert_serial_eligible s ]

-- The two weights of an item, if it has both.
abbrev pub weights : SaleItemDto → Option (ℤ × ℤ)
weights i = elim i.empty_weight_kg [
  | none ↦ none
  | some e ↦ elim i.filled_weight_kg [ none ↦ none | some f ↦ some (e, f) ]
]

-- The gas of an item: the difference of its weights, or what the client says.
unfoldable pub lpg_of : SaleItemDto → Op ℤ
lpg_of i = elim (weights i) [
  | none ↦ pure (or_else i.lpg_quantity_kg (pos 0))
  | some (e, f) ↦
      throw_if (leb_ℤ (f -ℤ e) (pos 0)) (bad_request Reason.weight_not_positive) >> pure (f -ℤ e)
]

-- The unit price: the active price for gas, and the price of the channel for a product that comes
-- with no price.
unfoldable pub price_of : SaleItemDto → ℤ → ℤ → SalesChannel → Db → ℤ
price_of i lpg active channel db = elim i.product_id [
  | none ↦ if ltb_ℤ (pos 0) lpg then active else i.unit_price
  | some p ↦ if eqb_ℤ i.unit_price (pos 0) then get_price p channel db else i.unit_price
]

unfoldable pub line_total_of : ℤ → ℤ → ℕ → ℤ
line_total_of lpg unit_price quantity =
    if ltb_ℤ (pos 0) lpg then round_div (lpg *ℤ unit_price) 1000 else unit_price *ℤ pos quantity

abbrev pub item_row : SaleItemDto → ℤ → ℤ → SaleItem
item_row i lpg unit_price = record {
  product_id = i.product_id;
  item_name = i.item_name;
  lpg_quantity_kg = lpg;
  unit_price = unit_price;
  line_total = line_total_of lpg unit_price i.quantity;
  quantity = i.quantity;
}

-- The loop of `createSale` that prices the items.
unfoldable pub price_items : ℤ → SalesChannel → List SaleItemDto → Op (List SaleItem)
price_items active channel [] = pure []
price_items active channel (i ∷ items) = lpg_of i >>= λ lpg.
    gets (price_of i lpg active channel) >>= λ unit_price.
    price_items active channel items >>= λ rest. pure (item_row i lpg unit_price ∷ rest)

-- The single line that a bundle is sold as.
abbrev pub bundle_item : ProductBundle → SaleItemDto
bundle_item b = record {
  product_id = none;
  item_name = b.name;
  cylinder_serial = none;
  empty_weight_kg = none;
  filled_weight_kg = none;
  lpg_quantity_kg = none;
  unit_price = b.bundle_price;
  quantity = 1;
}

-- `bundle?.name ?? 'Starter Kit'` and `bundle?.bundlePrice ?? 0`: `listBundles` lists only the
-- active bundles. The name 0 stands for the text.
abbrev pub starter_kit : SaleItemDto
starter_kit = record {
  product_id = none;
  item_name = 0;
  cylinder_serial = none;
  empty_weight_kg = none;
  filled_weight_kg = none;
  lpg_quantity_kg = none;
  unit_price = pos 0;
  quantity = 1;
}

-- The items of the sale: those given, or the bundle, whose components leave the stock here.
unfoldable pub explode_items : ℕ → Option ℕ → List SaleItemDto → Op (List SaleItemDto)
explode_items station_id none items = pure items
explode_items station_id (some bundle_id) items = do
  b ← find_or_throw (not_found Reason.bundle_not_found) (λ db. find_by_id bundle_id db.bundles)
  deduct_for_sale station_id b.items
  pure ((if b.is_active then bundle_item b else starter_kit) ∷ [])
