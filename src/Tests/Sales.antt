-- ===== src/Tests/Sales.antt =====
-- The sales, the transfers, the shifts and the requisitions.
use haroti_lpg_management.Accessories.Stock.{AccessoriesAreNonneg}
use haroti_lpg_management.Common.Decimal.{round_div}
use haroti_lpg_management.Common.Enums.{
  UserRole, PaymentMethod, SaleStatus, TransferItemType, ShiftStatus,
}
use haroti_lpg_management.Common.Errors.{Reason, bad_request, err}
use haroti_lpg_management.Database.Entities.{TxnId, same_reference, Shift, Sale, Requisition}
use haroti_lpg_management.Database.Keeps.{Keeps, Keeps-throw}
use haroti_lpg_management.Database.State.{Db, Op, throw, ◌>>=◌, ◌>>◌, for_each}
use haroti_lpg_management.Database.Table.{lookup, replace, find_by_id, append}
use haroti_lpg_management.Finance.Journal.{
  posting_closed, assert_open_for_posting, save_entry, post_entry, reverse_entry, is_posted_for,
  reverse_all_for_reference,
}
use haroti_lpg_management.Finance.Posting.{post_requisition_payment}
use haroti_lpg_management.Inventory.{existing_movement, stock_after, move_stock, apply_movement}
use haroti_lpg_management.Inventory.Total.{total_stock}
use haroti_lpg_management.Prelude.{
  ℤ, pos, ◌+ℤ◌, ◌-ℤ◌, ◌*ℤ◌, ◌≤ℤ◌, abs, max_zero, negate, div_floor, sum_of, ◌==◌, ℕ, ◌≡◌, refl,
  true, false, none, some, List, [], ◌∷◌, arith,
}
use haroti_lpg_management.Requisitions.{
  line_cost, new_requisition, save_requisition, create_requisition, find_requisition, gm_approved,
  approve_requisition, paid_by, pay_requisition,
}
use haroti_lpg_management.Requisitions.Steps.{Request, serve, serve_all, serve_all-paid}
use haroti_lpg_management.Requisitions.Workflow.{IsApprovedByOther, RequisitionsAreInOrder}
use haroti_lpg_management.Sales.Amounts.{IsMadeOf, make_sale-amounts}
use haroti_lpg_management.Sales.Create.{
  uses_gateway, amounts_of, check_amounts, check_sale_credit, check_gateway, discount_percent,
  needs_discount_approval, first_status, save_new_sale, conclude_sale, make_sale, create_sale,
}
use haroti_lpg_management.Sales.Finalize.{
  has_credit, finalize_accessories, finalize_customer, finalize_commission, finalize_sale,
}
use haroti_lpg_management.Sales.Fingerprint.{CreateSaleDto}
use haroti_lpg_management.Sales.Guards.{approve_discount-guards}
use haroti_lpg_management.Sales.Lifecycle.{
  may_approve_discount, awaits_approval, find_sale, complete_sale, approve_discount,
  relieve_sale_credit, undo_sale, void_sale,
}
use haroti_lpg_management.Sales.Reachable.{Step, Reaches, Reaches-Sound}
use haroti_lpg_management.Sales.Safety.{Sound}
use haroti_lpg_management.Sales.Void.{void_sale_twice}
use haroti_lpg_management.Shifts.{may_approve_shift, shift_is_pending, approve_shift}
use haroti_lpg_management.Shifts.Close.{
  CloseShiftDto, closed_shift, settle_shift, close_rest, close_shift,
}
use haroti_lpg_management.Shifts.Guards.{approve_shift-guards}
use haroti_lpg_management.Shifts.Invariant.{paid_in, close_shift-payments}
use haroti_lpg_management.Shifts.Locks.{LockIsRight, LocksAreRight, close_shift-LocksAreRight}
use haroti_lpg_management.Shifts.Reckoning.{no_totals, sale_totals, cash_expenses_of, shift_sales}
use haroti_lpg_management.Shifts.Tank.{ensure_tanks_for_station, record_reading}
use haroti_lpg_management.Stations.{find_station, touch_sync}
use haroti_lpg_management.Tests.Books.{company-JournalIsBalanced}
use haroti_lpg_management.Tests.Data.{table_of, a_station, an_item, a_sale, a_shift, company}
use haroti_lpg_management.Transfers.{
  CreateTransferDto, new_items, save_new_transfer, dispatch_item, create_transfer,
}
use haroti_lpg_management.Transfers.Total.{requested_gas, create_transfer-total_stock}

company-Sound : Sound company
unfolding AccessoriesAreNonneg
company-Sound = record {
  stock = (omega arith, tt);
  accessories = (omega arith, tt);
  journal = company-JournalIsBalanced;
}

-- A gateway that refuses every payment.
abbrev refuse : ℕ → ℤ → Op (Unit {0})
refuse id amount = throw (bad_request Reason.gateway_failed)

refuse-Sound : (id : ℕ) (amount : ℤ) → Keeps Sound (refuse id amount)
refuse-Sound id amount = Keeps-throw _

abbrev a_request : CreateSaleDto
a_request = record {
  station_id = 0;
  customer_id = some 0;
  shift_id = 0;
  items =
      record {
        product_id = none;
        item_name = 1;
        cylinder_serial = none;
        empty_weight_kg = none;
        filled_weight_kg = none;
        lpg_quantity_kg = some (pos 2_000);
        unit_price = pos 0;
        quantity = 1;
      }
      ∷ [];
  payments = record { method = PaymentMethod.paychangu; amount = pos 370_000 } ∷ [];
  discount_amount = none;
  client_txn_id = some (TxnId.plain 9);
  bundle_id = none;
  sales_channel = none;
  has_card_number_and_expiry = false;
  has_card_cvv_and_name = false;
  has_customer_phone = true;
}

abbrev sold : Db
sold = (create_sale refuse a_request 0 company).1

-- A sale that the gateway refuses, and the voiding of the sale that was there.
Reaches-Sound_example : Sound (void_sale 0 1 sold).1
Reaches-Sound_example =
    Reaches-Sound refuse refuse-Sound company (void_sale 0 1 sold).1
      (Reaches.then_step company sold (void_sale 0 1 sold).1
        (Reaches.then_step company company sold (Reaches.here company)
          (Step.sell a_request 0 company))
        (Step.undo 0 1 sold))
      company-Sound

void_sale_twice_example :
    void_sale 0 2 (void_sale 0 1 company).1
    ≡ (err (bad_request Reason.sale_not_completed), (void_sale 0 1 company).1)
unfolding void_sale find_sale undo_sale ◌>>=◌ lookup ◌>>◌ reverse_all_for_reference for_each
    is_posted_for same_reference reverse_entry assert_open_for_posting posting_closed save_entry
    apply_movement existing_movement stock_after ◌+ℤ◌ relieve_sale_credit
void_sale_twice_example = void_sale_twice 0 1 2 company (void_sale 0 1 company).1 refl

abbrev cash_request : CreateSaleDto
cash_request = record (a_request) {
  discount_amount = some (pos 100_000);
  payments = record { method = PaymentMethod.cash; amount = pos 825_000 } ∷ [];
}

make_sale-amounts_example :
    (s : Sale) × ((make_sale refuse cash_request 0 a_station
        (pos 185_000)
        (an_item ∷ [])
        company).1.sales
      ≡ append s company.sales)
    × (company.sales.next_id ≡ company.sales.next_id)
    × IsMadeOf cash_request (an_item ∷ []) s
unfolding make_sale ◌>>=◌ ◌>>◌ lookup check_amounts amounts_of sum_of ◌+ℤ◌ abs ◌-ℤ◌ ◌*ℤ◌
    check_sale_credit has_credit check_gateway uses_gateway save_new_sale needs_discount_approval
    discount_percent first_status round_div div_floor conclude_sale
make_sale-amounts_example =
    make_sale-amounts refuse (λ sales id amount. Keeps-throw _) cash_request 0 a_station
      (pos 185_000) (an_item ∷ []) company
      (make_sale refuse cash_request 0 a_station (pos 185_000) (an_item ∷ []) company).1 refl

abbrev closing : CloseShiftDto
closing = record {
  cash_counted = pos 935_000;
  physical_lpg_stock_kg = pos 500_000;
  cash_deposited = none;
}

abbrev closed : Shift
closed =
    closed_shift a_shift (sale_totals (shift_sales 0 company) no_totals)
      (cash_expenses_of 0 company) closing 0 20

close_shift-payments_example :
    closed.cash_sales +ℤ closed.mobile_money_sales +ℤ closed.bank_sales +ℤ closed.credit_sales
    ≡ sum_of paid_in (shift_sales 0 company)
unfolding close_shift ◌>>=◌ ◌>>◌ lookup settle_shift close_rest find_station
    ensure_tanks_for_station record_reading
close_shift-payments_example =
    close_shift-payments 0 0 closing company {c = closed}
      {db' = (close_shift 0 closing 0 company).1} refl

close_shift-LocksAreRight_example : LocksAreRight (close_shift 0 closing 0 company).1
unfolding LocksAreRight LockIsRight
close_shift-LocksAreRight_example =
    (close_shift-LocksAreRight 0 closing 0).run company ((refl, refl), tt)

abbrev requests : List Request
requests =
    Request.create ((3, pos 1_000) ∷ []) 5 UserRole.storekeeper
    ∷ Request.approve 0 6 UserRole.director
    ∷ Request.pay 0 7 UserRole.finance_manager
    ∷ []

abbrev paid_requisition : Requisition
paid_requisition = paid_by 7 20 (gm_approved 6 20 (new_requisition ((3, pos 1_000) ∷ []) 5))

serve_all-paid_example : IsApprovedByOther paid_requisition
unfolding serve_all serve RequisitionsAreInOrder create_requisition approve_requisition
    pay_requisition find_requisition save_requisition post_requisition_payment post_entry
    assert_open_for_posting posting_closed save_entry ◌>>=◌ ◌>>◌ lookup replace sum_of line_cost
    ◌*ℤ◌ ◌+ℤ◌
serve_all-paid_example = serve_all-paid requests company 0 {r = paid_requisition} tt refl refl

-- A shift and a sale that wait for somebody's approval.
abbrev waiting : Db
waiting = record (company) {
  shifts = table_of (record (a_shift) { status = ShiftStatus.pending_approval });
  sales = table_of (record (a_sale) {
    status = SaleStatus.pending_approval;
    lpg_quantity_kg = pos 0;
    items = [];
  });
}

approve_shift-guards_example :
    (may_approve_shift UserRole.director ≡ true)
    × ((s : Shift) × (find_by_id 0 waiting.shifts ≡ some s)
        × (shift_is_pending s.status ≡ true)
        × ((s.attendant_id == 4) ≡ false))
unfolding approve_shift ◌>>=◌ ◌>>◌ lookup
approve_shift-guards_example =
    approve_shift-guards 0 4 UserRole.director waiting
      (approve_shift 0 4 UserRole.director waiting).1 refl

approve_discount-guards_example :
    (may_approve_discount UserRole.director ≡ true)
    × ((s : Sale) × (find_by_id 0 waiting.sales ≡ some s)
        × (awaits_approval s.status ≡ true)
        × ((s.attendant_id == 4) ≡ false))
unfolding approve_discount find_sale ◌>>=◌ ◌>>◌ lookup complete_sale finalize_sale
    finalize_accessories finalize_customer finalize_commission touch_sync
approve_discount-guards_example =
    approve_discount-guards 0 4 UserRole.director waiting
      (approve_discount 0 4 UserRole.director waiting).1 refl

-- A second station, and two kilograms that go to it.
abbrev two_stations : Db
two_stations = record (company) {
  stations = record { rows = (0, a_station) ∷ (1, a_station) ∷ []; next_id = 2 };
}

abbrev two_to_go : CreateTransferDto
two_to_go = record {
  source_station_id = 0;
  destination_station_id = 1;
  items = (TransferItemType.lpg, pos 2_000) ∷ (TransferItemType.accessory, pos 3) ∷ [];
}

create_transfer-total_stock_example :
    (total_stock two_stations
      ≤ℤ total_stock (create_transfer two_to_go 0 two_stations).1 +ℤ requested_gas two_to_go.items)
    × (total_stock (create_transfer two_to_go 0 two_stations).1 +ℤ requested_gas two_to_go.items
        ≤ℤ total_stock two_stations +ℤ pos 2)
unfolding create_transfer find_station save_new_transfer dispatch_item apply_movement move_stock
    existing_movement ◌>>=◌ ◌>>◌ for_each lookup replace stock_after ◌+ℤ◌ max_zero negate new_items
create_transfer-total_stock_example =
    create_transfer-total_stock two_to_go 0 two_stations
      (create_transfer two_to_go 0 two_stations).1 refl
