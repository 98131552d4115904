-- ===== src/Sales/Finalize.antt =====
-- `finalizeSale`: what a sale does to the journal, the stocks, the customer's accounts and the
-- commissions. The fields that the source takes from the request are those of the saved sale.
-- Notifications and the audit log are not modelled.
use haroti_lpg_management.Accessories.{deduct_for_sale}
use haroti_lpg_management.Common.Decimal.{round_div}
use haroti_lpg_management.Common.Enums.{StockMovementType, PaymentMethod, SalesChannel}
use haroti_lpg_management.Common.Errors.{ok}
use haroti_lpg_management.Customers.{find_customer, apply_credit}
use haroti_lpg_management.Database.Entities.{
  TxnId, ReferenceType, SaleItem, SalePayment, Sale, AgentCommission,
}
use haroti_lpg_management.Database.State.{Op, pure, ◌>>=◌, ◌>>◌, when}
use haroti_lpg_management.Database.Table.{append}
use haroti_lpg_management.Finance.Posting.{
  reference_to, post_bundle_sale, post_agent_commission, post_accessory_retail_sale,
  post_lpg_refill_sale, post_credit_sale,
}
use haroti_lpg_management.Inventory.{MovementParams, apply_movement}
use haroti_lpg_management.Loyalty.{earn_from_sale}
use haroti_lpg_management.Prelude.{
  ℤ, pos, ◌*ℤ◌, ltb_ℤ, eqb_ℤ, negate, length, any, filter, sum_of, leb, if◌then◌else◌, or_else,
  is_some, ◌*◌, ℕ, Bool, true, false, ◌&&◌, Option, none, some, List, map,
}
use haroti_lpg_management.Stations.{find_station, touch_sync}

abbrev pub is_customer_account : PaymentMethod → Bool
is_customer_account PaymentMethod.customer_account = true
is_customer_account _ = false

unfoldable pub has_credit : List SalePayment → Bool
has_credit payments = any (λ p. is_customer_account p.method) payments

-- `void m()`: a promise that nobody waits for. It is run to its end here, and its exceptions are
-- lost.
unfoldable pub forget : Op (Unit {0}) → Op (Unit {0})
forget m db = (ok tt, (m db).1)

abbrev pub commission_row : ℕ → ℕ → ℤ → ℕ → AgentCommission
commission_row sale_id agent_id amount percent = record {
  agent_id = agent_id;
  sale_id = some sale_id;
  sale_amount = amount;
  commission_percent = pos (percent * 100);
  commission_amount = round_div (amount *ℤ pos percent) 100;
}

-- `accrueAgentCommission`: the amount of the commission.
unfoldable pub accrue_agent_commission : ℕ → ℕ → ℤ → ℕ → Op ℤ
accrue_agent_commission sale_id agent_id amount percent db =
    let row = commission_row sale_id agent_id amount percent in
    (ok row.commission_amount, record db { commissions = append row db.commissions })

abbrev pub refill_movement : ℕ → Sale → MovementParams
refill_movement id s = record {
  station_id = s.station_id;
  kind = StockMovementType.refill_sale;
  quantity_kg = negate s.lpg_quantity_kg;
  reference = some (reference_to ReferenceType.sale id);
  user_id = some s.attendant_id;
  client_txn_id = elim s.client_txn_id [ none ↦ none | some t ↦ some (TxnId.stock t) ];
  requires_approval = false;
}

-- The posting of the gas, on credit or not.
abbrev pub post_lpg_sale : Bool → ℤ → ℕ → ℤ → Option ℤ → Op (Unit {0})
post_lpg_sale true revenue id kg cost = post_credit_sale revenue id kg cost
post_lpg_sale false revenue id kg cost = post_lpg_refill_sale revenue id kg cost

-- The gas of the sale: its movement, and its revenue and cost at the active price.
unfoldable pub finalize_lpg : ℕ → Sale → ℤ → Op (Unit {0})
finalize_lpg id s price = do
  apply_movement (refill_movement id s)
  station ← find_station s.station_id
  let revenue = round_div (s.lpg_quantity_kg *ℤ price) 1000
  post_lpg_sale (has_credit s.payments) revenue id s.lpg_quantity_kg
      (some station.weighted_avg_cost_per_kg)

-- `i.productId && lpgQuantityKg === 0 && lineTotal > 0`
unfoldable pub is_accessory_line : SaleItem → Bool
is_accessory_line i =
    is_some i.product_id && eqb_ℤ i.lpg_quantity_kg (pos 0) && ltb_ℤ (pos 0) i.line_total

abbrev pub accessory_lines : Sale → List SaleItem
accessory_lines s = filter is_accessory_line s.items

-- The products and quantities to take from the stock.
unfoldable pub products_of : List SaleItem → List (ℕ × ℕ)
products_of items = map (λ i. (or_else i.product_id 0, i.quantity)) items

unfoldable pub finalize_accessories : ℕ → Sale → Op (Unit {0})
finalize_accessories id s = when (leb 1 (length (accessory_lines s))) (do
  cogs ← deduct_for_sale s.station_id (products_of (accessory_lines s))
  post_accessory_retail_sale (sum_of (λ i. i.line_total) (accessory_lines s)) cogs id)

-- The customer's account and points.
unfoldable pub finalize_customer : Sale → Op (Unit {0})
finalize_customer s = elim s.customer_id [
  | none ↦ pure tt
  | some c ↦
      if has_credit s.payments
      then apply_credit c s.total_amount >> (find_customer c >> pure tt)
      else forget (earn_from_sale c s.total_amount)
]

abbrev pub is_agent_channel : SalesChannel → Bool
is_agent_channel SalesChannel.agent_commission = true
is_agent_channel _ = false

-- The commission of 8 %, accrued and posted.
unfoldable pub finalize_commission : ℕ → Sale → Op (Unit {0})
finalize_commission id s = elim s.customer_id [
  | none ↦ pure tt
  | some c ↦ when (is_agent_channel s.sales_channel) (
      accrue_agent_commission id c s.total_amount 8 >>= λ amount.
      post_agent_commission amount id >> pure tt)
]

unfoldable pub finalize_sale : ℕ → Sale → Bool → ℤ → Op (Unit {0})
finalize_sale id s has_bundle price = do
  when has_bundle (post_bundle_sale (sum_of (λ i. i.line_total) s.items) id >> pure tt)
  when (ltb_ℤ (pos 0) s.lpg_quantity_kg) (finalize_lpg id s price)
  finalize_accessories id s
  finalize_customer s
  finalize_commission id s
  touch_sync s.station_id
