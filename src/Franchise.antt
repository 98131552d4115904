-- ===== src/Franchise.antt =====
-- backend/src/franchise/franchise.service.ts: the settlements of the franchise stations. The
-- commissions that sales accrue are in Sales/Finalize.antt.
pub mod Settlement
use haroti_lpg_management.Accessories.{is_owned, unit_price_of}
use haroti_lpg_management.Common.Decimal.{round_div}
use haroti_lpg_management.Common.Enums.{SettlementStatus}
use haroti_lpg_management.Common.Errors.{Reason, not_found, ok}
use haroti_lpg_management.Database.Documents.{
  FranchiseAgreement, FranchiseSettlementLine, FranchiseSettlement,
}
use haroti_lpg_management.Database.Entities.{AccessoryStock, Sale}
use haroti_lpg_management.Database.State.{
  Db, Op, pure, gets, find_or_throw, ◌>>=◌, ◌>>◌, modify, when,
}
use haroti_lpg_management.Database.Table.{find_by_id, store, append, all_where}
use haroti_lpg_management.Finance.Posting.{
  post_franchise_settlement, post_franchise_consignment_settlement,
}
use haroti_lpg_management.Prelude.{
  ℤ, pos, ◌*ℤ◌, ltb_ℤ, length, sum_of, leb, ◌==◌, if◌then◌else◌, zero, suc, ℕ, Bool, true, false,
  not, ◌&&◌, List, [], ◌∷◌,
}
use haroti_lpg_management.Sales.Lifecycle.{is_completed}

-- `where: { stationId, soldAt: Between(start, end), status: COMPLETED }`
unfoldable pub is_settled_sale : ℕ → ℕ → ℕ → Sale → Bool
is_settled_sale station_id period_start period_end s =
    s.station_id == station_id
    && leb period_start s.sold_at
    && leb s.sold_at period_end
    && is_completed s.status

unfoldable pub sales_of_period : ℕ → ℕ → ℕ → Db → List (ℕ × Sale)
sales_of_period station_id period_start period_end db =
    all_where (is_settled_sale station_id period_start period_end) db.sales

-- `totalSales`
unfoldable pub settled_total : List (ℕ × Sale) → ℤ
settled_total sales = sum_of (λ s. s.1.total_amount) sales

-- `round2(totalSales * (royaltyPercent / 100))`: the percentage has two digits of its own.
unfoldable pub royalty_of : ℤ → ℕ → ℤ
royalty_of total_sales royalty_percent = round_div (total_sales *ℤ pos royalty_percent) 10_000

-- The rows of `listStock(stationId)` that are on consignment.
unfoldable pub is_consignment_at : ℕ → AccessoryStock → Bool
is_consignment_at station_id s = s.station_id == station_id && not (is_owned s.ownership)

-- `consignmentValue`
unfoldable pub consignment_value : ℕ → Db → ℤ
consignment_value station_id db =
    sum_of (λ s. s.1.quantity *ℤ unit_price_of s.1.product_id db)
      (all_where (is_consignment_at station_id) db.accessory_stocks)

-- `Math.max(n, 1)`
abbrev pub at_least_one : ℕ → ℕ
at_least_one zero = 1
at_least_one (suc n) = suc n

abbrev pub single_line : ℤ → FranchiseSettlementLine
single_line amount = record { quantity = 1; unit_amount = amount; line_total = amount }

unfoldable pub settlement_lines : ℕ → ℤ → ℤ → ℤ → List FranchiseSettlementLine
settlement_lines count total_sales royalty_due consignment_due =
    record {
      quantity = count;
      unit_amount = round_div total_sales (at_least_one count);
      line_total = total_sales;
    }
    ∷ single_line royalty_due
    ∷ (if ltb_ℤ (pos 0) consignment_due then single_line consignment_due ∷ [] else [])

-- `settlementsRepo.create({...})`
unfoldable pub new_settlement :
    ℕ → ℕ → ℕ → FranchiseAgreement → List (ℕ × Sale) → Db → FranchiseSettlement
new_settlement agreement_id period_start period_end a sales db =
    let total_sales = settled_total sales in
    let royalty_due = royalty_of total_sales a.royalty_percent in
    let consignment_due = consignment_value a.station_id db in
    record {
      agreement_id = agreement_id;
      period_start = period_start;
      period_end = period_end;
      status = SettlementStatus.invoiced;
      total_sales = total_sales;
      royalty_due = royalty_due;
      consignment_due = consignment_due;
      lines = settlement_lines (length sales) total_sales royalty_due consignment_due;
    }

unfoldable pub save_settlement : FranchiseSettlement → Op ℕ
save_settlement s db =
    (ok db.settlements.next_id, record db { settlements = append s db.settlements })

-- The postings at the end of `generateSettlement`.
unfoldable pub post_royalty : ℕ → ℤ → Op (Unit {0})
post_royalty id amount =
    when (ltb_ℤ (pos 0) amount) (post_franchise_settlement amount id >> pure tt)

unfoldable pub post_consignment : ℕ → ℤ → Op (Unit {0})
post_consignment id amount =
    when (ltb_ℤ (pos 0) amount) (post_franchise_consignment_settlement amount id >> pure tt)

-- `generateSettlement`: the id of the settlement.
unfoldable pub generate_settlement : ℕ → ℕ → ℕ → Op ℕ
generate_settlement agreement_id period_start period_end = do
  a ←
      find_or_throw (not_found Reason.agreement_not_found)
        (λ db. find_by_id agreement_id db.agreements)
  sales ← gets (sales_of_period a.station_id period_start period_end)
  s ← gets (new_settlement agreement_id period_start period_end a sales)
  id ← save_settlement s
  post_royalty id s.royalty_due
  post_consignment id s.consignment_due
  pure id

abbrev pub is_invoiced : SettlementStatus → Bool
is_invoiced SettlementStatus.invoiced = true
is_invoiced _ = false

abbrev pub store_settlement : ℕ → FranchiseSettlement → Db → Db
store_settlement id s db = record db { settlements = store id s db.settlements }

unfoldable pub find_settlement : ℕ → Op FranchiseSettlement
find_settlement id =
    find_or_throw (not_found Reason.settlement_not_found) (λ db. find_by_id id db.settlements)

-- `invoiceSettlement`, behind the test of the status
unfoldable pub invoice_waiting : ℕ → FranchiseSettlement → Op (Unit {0})
invoice_waiting id s = do
  modify (store_settlement id (record s { status = SettlementStatus.invoiced }))
  post_royalty id s.royalty_due

-- `invoiceSettlement`
unfoldable pub invoice_settlement : ℕ → Op (Unit {0})
invoice_settlement id = do
  s ← find_settlement id
  when (not (is_invoiced s.status)) (invoice_waiting id s)
