-- ===== src/Tests/Purchases.antt =====
-- The deliveries and the purchase orders.
use haroti_lpg_management.Accessories.{is_stock_of, adjust_accessory, receive_stock}
use haroti_lpg_management.Common.Enums.{
  DeliveryStatus, PurchaseOrderStatus, FiscalPeriodStatus, SupplierInvoiceStatus,
  ThreeWayMatchStatus,
}
use haroti_lpg_management.Common.Errors.{Reason, bad_request, ok, err}
use haroti_lpg_management.Database.Documents.{
  Delivery, PurchaseOrderLine, PurchaseOrder, SupplierInvoice,
}
use haroti_lpg_management.Database.Entities.{same_reference, FiscalPeriod}
use haroti_lpg_management.Database.State.{Db, ◌>>=◌, ◌>>◌}
use haroti_lpg_management.Database.Table.{lookup, replace, find_by_id}
use haroti_lpg_management.Deliveries.{
  find_delivery, store_delivery, advance_to, advance_found, advance_status,
}
use haroti_lpg_management.Deliveries.Arrival.{CanAdvance, is_number_taken, advance_all-arrives}
use haroti_lpg_management.Deliveries.Books.{advance_status-stuck}
use haroti_lpg_management.Deliveries.Taken.{stocked}
use haroti_lpg_management.Deliveries.Workflow.{steps_left, advance_all, advance_all-length}
use haroti_lpg_management.Finance.Journal.{
  day_of, covers, posting_closed, assert_open_for_posting, journal_line, save_entry, post_entry,
}
use haroti_lpg_management.Finance.Posting.{
  is_entry_for, post_once, post_supplier_payment, post_accessory_grn,
}
use haroti_lpg_management.Inventory.{stock_after}
use haroti_lpg_management.Prelude.{
  pos, ◌+ℤ◌, ◌-ℤ◌, max_zero, length, last_of, ◌+◌, ℕ, ◌≡◌, refl, true, false, none, some, [], ◌∷◌,
  arith,
}
use haroti_lpg_management.Procurement.{
  find_order, with_order_status, receive_line, receive_lines, receive_at, receive_order, pay_order,
}
use haroti_lpg_management.Procurement.Invoices.{is_open_service, receive_order-service}
use haroti_lpg_management.Procurement.Match.{
  RegisterInvoiceDto, is_line_received, is_match, register_invoice, is_invoice_for, latest_invoice,
  assert_payable, mark_paid,
}
use haroti_lpg_management.Procurement.Numbers.{InvoicesAreDistinct, register_invoice-Keeps}
use haroti_lpg_management.Procurement.Orders.{OrderCall, call_order, Moved}
use haroti_lpg_management.Procurement.Payment.{
  HasPayableInvoice, pay_order-guards, call_order-Moved,
}
use haroti_lpg_management.Tests.Data.{table_of, a_station, company}

abbrev a_delivery : Delivery
a_delivery = record {
  supplier_id = 0;
  station_id = 0;
  quantity_ordered_kg = pos 10_000;
  quantity_dispatched_kg = pos 10_000;
  quantity_received_kg = pos 10_000;
  buying_price_per_kg = pos 100_000;
  transport_cost = pos 5_000;
  status = DeliveryStatus.purchase_order;
  approved_by_id = none;
  created_by_id = 0;
}

abbrev depot : Db
depot = record company { deliveries = table_of a_delivery }

depot-CanAdvance : CanAdvance 0 a_delivery depot
unfolding posting_closed lookup
depot-CanAdvance = record {
  stands = refl;
  is_open = refl;
  station = a_station;
  station_found = refl;
  is_nonneg = omega arith;
}

advance_all-arrives_example :
    (db' : Db) × (d' : Delivery) × (advance_all 0 (1 ∷ 1 ∷ 1 ∷ 1 ∷ 2 ∷ 2 ∷ []) depot ≡ (ok tt, db'))
    × (find_by_id 0 db'.deliveries ≡ some d')
    × (d'.status ≡ DeliveryStatus.accounts_payable)
unfolding is_number_taken
advance_all-arrives_example =
    advance_all-arrives 0 (1 ∷ 1 ∷ 1 ∷ 1 ∷ 2 ∷ 2 ∷ []) depot a_delivery depot-CanAdvance refl
      (λ e. cc) refl

abbrev dispatched_delivery : Delivery
dispatched_delivery = record a_delivery { status = DeliveryStatus.supplier_dispatch }

one_advance : advance_all 0 (1 ∷ []) depot ≡ (ok tt, store_delivery 0 dispatched_delivery depot)
unfolding advance_all advance_status advance_found advance_to find_delivery ◌>>=◌ ◌>>◌ lookup
one_advance = refl

advance_all-length_example :
    length {A = ℕ} (1 ∷ []) + steps_left DeliveryStatus.supplier_dispatch
    ≡ steps_left DeliveryStatus.purchase_order
unfolding lookup replace
advance_all-length_example =
    advance_all-length 0 (1 ∷ []) depot (store_delivery 0 dispatched_delivery depot)
      {d = a_delivery} {d' = dispatched_delivery} refl refl one_advance

-- A day that is closed for postings.
abbrev pub closed_day : FiscalPeriod
closed_day = record { start_date = 0; end_date = 9; status = FiscalPeriodStatus.hard_closed }

abbrev waiting_delivery : Delivery
waiting_delivery = record a_delivery { status = DeliveryStatus.manager_approval }

abbrev closed_depot : Db
closed_depot = record company {
  deliveries = table_of waiting_delivery;
  periods = table_of closed_day;
}

pub is_closed_lem : posting_closed closed_depot ≡ true
unfolding posting_closed covers day_of
is_closed_lem = refl

moved_lem : stock_after (pos 500_000) (pos 10_000) ≡ some (pos 510_000)
unfolding stock_after max_zero ◌+ℤ◌
moved_lem = refl

advance_status-stuck_example :
    (db' : Db) × (advance_status 0 2 closed_depot
      ≡ (err (bad_request Reason.period_hard_closed), db'))
    × (find_by_id 0 db'.deliveries ≡ some waiting_delivery)
    × (find_by_id 0 db'.stations ≡ some (stocked waiting_delivery a_station (pos 510_000)))
unfolding lookup
advance_status-stuck_example =
    advance_status-stuck 0 2 waiting_delivery closed_depot {s = a_station} {after = pos 510_000}
      refl refl refl refl moved_lem is_closed_lem

-- Two bottles, and their carriage as a line of no product.
abbrev bottles : PurchaseOrderLine
bottles = record {
  product_id = some 0;
  quantity = 2;
  unit_cost = pos 10_000;
  landed_unit_cost = pos 10_000;
  line_total = pos 20_000;
  quantity_received = 0;
}

abbrev carriage : PurchaseOrderLine
carriage = record bottles { product_id = none; quantity = 1; line_total = pos 10_000 }

abbrev an_order : PurchaseOrder
an_order = record {
  supplier_id = 0;
  destination_station_id = some 0;
  status = PurchaseOrderStatus.ordered;
  freight_cost = pos 0;
  customs_duty = pos 0;
  clearing_fees = pos 0;
  total_amount = pos 30_000;
  created_by_id = 0;
  approved_by_id = some 1;
  lines = bottles ∷ carriage ∷ [];
}

abbrev buyer : Db
buyer = record company { purchase_orders = table_of an_order }

abbrev after_receipt : Db
after_receipt = (receive_order 0 buyer).1

receipt_lem : receive_order 0 buyer ≡ (ok tt, after_receipt)
unfolding receive_order ◌>>=◌ find_order lookup ◌>>◌ receive_at receive_lines receive_line
    receive_stock adjust_accessory ◌+ℤ◌ is_stock_of ◌-ℤ◌ post_accessory_grn post_entry
    assert_open_for_posting posting_closed replace save_entry
receipt_lem = refl

call_order-Moved_example : Moved 0 buyer after_receipt
call_order-Moved_example =
    call_order-Moved OrderCall.receive_call 0 buyer after_receipt (unfold call_order in receipt_lem)

receive_order-service_example :
    (po' : PurchaseOrder) × (find_by_id 0 after_receipt.purchase_orders ≡ some po')
    × ((i : SupplierInvoice) → is_match i po' ≡ false)
unfolding lookup is_open_service is_line_received
receive_order-service_example =
    receive_order-service 0 buyer after_receipt {po = an_order} receipt_lem refl refl

abbrev an_invoice : SupplierInvoice
an_invoice = record {
  invoice_number = 7;
  supplier_id = 0;
  purchase_order_id = some 0;
  amount = pos 30_000;
  tax_amount = pos 0;
  status = SupplierInvoiceStatus.matched;
  match_status = ThreeWayMatchStatus.matched;
  variance_amount = none;
}

abbrev debtor : Db
debtor = record company {
  purchase_orders = table_of (record an_order { status = PurchaseOrderStatus.received });
  supplier_invoices = table_of an_invoice;
}

abbrev after_payment : Db
after_payment = (pay_order 0 debtor).1

payment_lem : pay_order 0 debtor ≡ (ok tt, after_payment)
unfolding pay_order ◌>>=◌ ◌>>◌ find_order lookup assert_payable latest_invoice last_of
    is_invoice_for post_supplier_payment post_once is_entry_for same_reference post_entry
    assert_open_for_posting posting_closed save_entry replace covers day_of journal_line mark_paid
payment_lem = refl

pay_order-guards_example :
    (po : PurchaseOrder) × (find_by_id 0 debtor.purchase_orders ≡ some po)
    × (po.status ≡ PurchaseOrderStatus.received)
    × HasPayableInvoice 0 debtor
    × (find_by_id 0 after_payment.purchase_orders
        ≡ some (with_order_status PurchaseOrderStatus.paid po))
pay_order-guards_example = pay_order-guards 0 debtor after_payment payment_lem

abbrev another_invoice : RegisterInvoiceDto
another_invoice = record {
  invoice_number = 8;
  supplier_id = 0;
  purchase_order_id = none;
  amount = pos 100;
  tax_amount = none;
}

register_invoice-Keeps_example : InvoicesAreDistinct (register_invoice another_invoice debtor).1
unfolding InvoicesAreDistinct
register_invoice-Keeps_example = (register_invoice-Keeps another_invoice).run debtor (tt, tt)
