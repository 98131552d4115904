-- ===== src/Finance/Posting.antt =====
-- The postings of `FinanceService`: one entry, or two where goods leave at a cost.
use haroti_lpg_management.Common.Decimal.{round_div}
use haroti_lpg_management.Common.Enums.{JournalEventType}
use haroti_lpg_management.Common.Errors.{ok}
use haroti_lpg_management.Database.Entities.{ReferenceType, Reference, same_reference, JournalEntry}
use haroti_lpg_management.Database.State.{Op, pure, ◌>>◌, when}
use haroti_lpg_management.Database.Table.{find_where}
use haroti_lpg_management.Finance.Accounts.{
  inventory_central, inventory_station, inventory_consignment, inventory_bulk_lpg, accounts_payable,
  cash_account, ar_franchise, ar_customer, revenue_accessory, revenue_bundle, revenue_lpg,
  revenue_franchise, cogs_lpg, cogs_accessory, commission_payable, expense_station, petty_cash,
  default_lpg_cost_per_kg,
}
use haroti_lpg_management.Finance.Journal.{debit_line, credit_line, EntryParams, post_entry}
use haroti_lpg_management.Prelude.{
  ℤ, pos, ◌*ℤ◌, ltb_ℤ, ◌==◌, or_else, ℕ, Bool, false, ◌&&◌, Option, none, some, [], ◌∷◌,
}

abbrev pub reference_to : ReferenceType → ℕ → Reference
reference_to kind id = record { kind = kind; id = id }

-- Every posting debits one account and credits another with the same amount.
abbrev pub entry_of : JournalEventType → ReferenceType → ℕ → ℕ → ℕ → ℤ → EntryParams
entry_of event kind id debit credit amount = record {
  event_type = event;
  reference = reference_to kind id;
  lines = debit_line debit amount ∷ credit_line credit amount ∷ [];
}

unfoldable pub post_bundle_sale : ℤ → ℕ → Op ℕ
post_bundle_sale amount ref_id = post_entry (
    entry_of JournalEventType.bundle_sale ReferenceType.sale ref_id cash_account revenue_bundle
      amount)

unfoldable pub post_agent_commission : ℤ → ℕ → Op ℕ
post_agent_commission amount ref_id = post_entry (
    entry_of JournalEventType.agent_commission ReferenceType.sale ref_id cogs_accessory
      commission_payable amount)

unfoldable pub post_accessory_retail_sale : ℤ → ℤ → ℕ → Op (Unit {0})
post_accessory_retail_sale amount cogs ref_id = do
  post_entry (
      entry_of JournalEventType.accessory_retail_sale ReferenceType.sale ref_id cash_account
        revenue_accessory amount)
  when (ltb_ℤ (pos 0) cogs) (
      post_entry (
        entry_of JournalEventType.accessory_cogs ReferenceType.sale ref_id cogs_accessory
          inventory_station cogs)
      >> pure tt)

-- `round2(cogsKg * unitCost)`: grams by cents for a kilogram.
unfoldable pub lpg_cost : ℤ → ℤ → ℤ
lpg_cost kg cost_per_kg = round_div (kg *ℤ cost_per_kg) 1000

-- The second entry of an LPG sale.
unfoldable pub post_lpg_cogs : ℕ → ℤ → ℤ → Op (Unit {0})
post_lpg_cogs ref_id cogs_kg cost_per_kg =
    let cogs = lpg_cost cogs_kg cost_per_kg in
    when (ltb_ℤ (pos 0) cogs) (
      post_entry (
        entry_of JournalEventType.lpg_cogs ReferenceType.sale ref_id cogs_lpg inventory_bulk_lpg
          cogs)
      >> pure tt)

unfoldable pub post_lpg_refill_sale : ℤ → ℕ → ℤ → Option ℤ → Op (Unit {0})
post_lpg_refill_sale amount ref_id cogs_kg cost_per_kg = do
  post_entry (
      entry_of JournalEventType.lpg_refill_sale ReferenceType.sale ref_id cash_account revenue_lpg
        amount)
  post_lpg_cogs ref_id cogs_kg (or_else cost_per_kg default_lpg_cost_per_kg)

unfoldable pub post_credit_sale : ℤ → ℕ → ℤ → Option ℤ → Op (Unit {0})
post_credit_sale amount ref_id cogs_kg cost_per_kg = do
  post_entry (
      entry_of JournalEventType.customer_credit_sale ReferenceType.sale ref_id ar_customer
        revenue_lpg amount)
  post_lpg_cogs ref_id cogs_kg (or_else cost_per_kg default_lpg_cost_per_kg)

unfoldable pub post_customer_payment : ℤ → ℕ → Op ℕ
post_customer_payment amount ref_id = post_entry (
    entry_of JournalEventType.customer_payment ReferenceType.customer_payment ref_id cash_account
      ar_customer amount)

abbrev pub event_tag : JournalEventType → ℕ
event_tag JournalEventType.supplier_payment = 1
event_tag JournalEventType.franchise_settlement = 2
event_tag JournalEventType.franchise_consignment = 3
event_tag _ = 0

-- `where: { referenceType, referenceId, eventType }`, for an event with a tag of its own
unfoldable pub is_entry_for : Reference → ℕ → JournalEntry → Bool
is_entry_for r tag e =
    elim e.reference [ none ↦ false | some q ↦ same_reference q r ] && event_tag e.event_type == tag

-- A posting that is made once for its reference: an entry that is there is returned.
unfoldable pub post_once : EntryParams → Op ℕ
post_once p db = elim (find_where (is_entry_for p.reference (event_tag p.event_type)) db.entries) [
  | some e ↦ (ok e.0, db)
  | none ↦ post_entry p db
]

unfoldable pub post_supplier_payment : ℤ → ℕ → Op ℕ
post_supplier_payment amount ref_id = post_once (
    entry_of JournalEventType.supplier_payment ReferenceType.purchase_order ref_id accounts_payable
      cash_account amount)

unfoldable pub post_franchise_settlement : ℤ → ℕ → Op ℕ
post_franchise_settlement amount ref_id = post_once (
    entry_of JournalEventType.franchise_settlement ReferenceType.franchise_settlement ref_id
      ar_franchise revenue_franchise amount)

unfoldable pub post_franchise_consignment_settlement : ℤ → ℕ → Op ℕ
post_franchise_consignment_settlement amount ref_id = post_once (
    entry_of JournalEventType.franchise_consignment ReferenceType.franchise_settlement ref_id
      ar_franchise inventory_consignment amount)

unfoldable pub post_accessory_grn : ℤ → ℕ → Op ℕ
post_accessory_grn amount ref_id = post_entry (
    entry_of JournalEventType.accessory_grn ReferenceType.purchase_order ref_id inventory_central
      accounts_payable amount)

unfoldable pub post_consignment_transfer : ℤ → ℕ → Op ℕ
post_consignment_transfer amount ref_id = post_entry (
    entry_of JournalEventType.accessory_consignment ReferenceType.transfer ref_id
      inventory_consignment inventory_central amount)

unfoldable pub post_station_expense : ℤ → ℕ → Op ℕ
post_station_expense amount ref_id = post_entry (
    entry_of JournalEventType.station_expense ReferenceType.expense ref_id expense_station
      petty_cash amount)

unfoldable pub post_requisition_payment : ℤ → ℕ → Op ℕ
post_requisition_payment amount ref_id = post_entry (
    entry_of JournalEventType.requisition_payment ReferenceType.requisition ref_id expense_station
      accounts_payable amount)
