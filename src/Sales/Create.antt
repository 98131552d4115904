-- ===== src/Sales/Create.antt =====
-- `createSale`. The initiation of a PayChangu payment, a call of an external gateway, is the
-- parameter `initiate`, and its result is that of the call: the sale's id and amount go in.
use haroti_lpg_management.Common.Decimal.{round_div}
use haroti_lpg_management.Common.Enums.{PaymentMethod, SaleStatus, SalesChannel}
use haroti_lpg_management.Common.Errors.{
  Reason, Failure, bad_request, not_found, forbidden, conflict, internal_error, ok, err,
}
use haroti_lpg_management.Customers.{check_credit}
use haroti_lpg_management.Database.Entities.{Station, User, SaleItem, SalePayment, Sale}
use haroti_lpg_management.Database.State.{
  Db, Op, pure, throw, gets, find_or_throw, ◌>>=◌, ◌>>◌, throw_if, modify, when, for_each,
}
use haroti_lpg_management.Database.Table.{find_by_id, store, append}
use haroti_lpg_management.Expenses.{needs_approval}
use haroti_lpg_management.Prelude.{
  ℤ, pos, pos_part, ◌-ℤ◌, ◌*ℤ◌, ltb_ℤ, abs, length, any, sum_of, ltb, leb, if◌then◌else◌, or_else,
  is_some, ℕ, Bool, true, false, not, ◌&&◌, ◌||◌, none, some, List, [], ◌∷◌,
}
use haroti_lpg_management.Sales.Finalize.{has_credit, finalize_sale}
use haroti_lpg_management.Sales.Fingerprint.{CreateSaleDto, same_fingerprint, existing_sale}
use haroti_lpg_management.Sales.Pricing.{active_price, check_serial, price_items, explode_items}
use haroti_lpg_management.Shifts.{require_open_shift_for_sale}
use haroti_lpg_management.Stations.{find_station}

abbrev pub is_paychangu : PaymentMethod → Bool
is_paychangu PaymentMethod.paychangu = true
is_paychangu _ = false

abbrev pub is_card : PaymentMethod → Bool
is_card PaymentMethod.card = true
is_card _ = false

unfoldable pub uses_gateway : List SalePayment → Bool
uses_gateway payments =
    any (λ p. is_paychangu p.method) payments || any (λ p. is_card p.method) payments

-- The amounts of a sale: `subtotal`, `discount`, `total` and `lpgQuantityKg`.
pub record Amounts : Type 0 where
  pub subtotal : ℤ
  pub discount : ℤ
  pub total : ℤ
  pub lpg_quantity_kg : ℤ

unfoldable pub amounts_of : CreateSaleDto → List SaleItem → Amounts
amounts_of dto items =
    let subtotal = sum_of (λ i. i.line_total) items in
    let discount = or_else dto.discount_amount (pos 0) in
    record {
      subtotal = subtotal;
      discount = discount;
      total = subtotal -ℤ discount;
      lpg_quantity_kg = sum_of (λ i. i.lpg_quantity_kg) items;
    }

abbrev pub payment_total : List SalePayment → ℤ
payment_total payments = sum_of (λ p. p.amount) payments

-- The checks on the amounts.
unfoldable pub check_amounts : CreateSaleDto → Amounts → Op (Unit {0})
check_amounts dto a = do
  throw_if (ltb_ℤ a.subtotal a.discount) (bad_request Reason.discount_exceeds_subtotal)
  throw_if (ltb_ℤ (pos 5) (abs (payment_total dto.payments -ℤ a.total)))
      (bad_request Reason.payments_differ)

-- A sale on credit needs a customer with enough credit left.
unfoldable pub check_sale_credit : CreateSaleDto → ℤ → Op (Unit {0})
check_sale_credit dto total = when (has_credit dto.payments) (elim dto.customer_id [
  | none ↦ throw (bad_request Reason.customer_required)
  | some c ↦ check_credit c total >> pure tt
])

-- What a card needs, and what mobile money needs.
abbrev pub check_details : Bool → CreateSaleDto → Op (Unit {0})
check_details true dto =
    throw_if (not dto.has_card_number_and_expiry) (bad_request Reason.card_number_required)
    >> throw_if (not dto.has_card_cvv_and_name) (bad_request Reason.card_cvv_required)
check_details false dto = throw_if (not dto.has_customer_phone) (bad_request Reason.phone_required)

-- The checks on a payment through the gateway.
unfoldable pub check_gateway : CreateSaleDto → Op (Unit {0})
check_gateway dto = when (uses_gateway dto.payments) (
    throw_if (ltb 1 (length dto.payments)) (bad_request Reason.gateway_combined)
    >> check_details (any (λ p. is_card p.method) dto.payments) dto)

abbrev pub payment_method_of : List SalePayment → PaymentMethod
payment_method_of (p ∷ []) = p.method
payment_method_of _ = PaymentMethod.mixed

-- `discountPercent`, in hundredths of a percent
unfoldable pub discount_percent : Amounts → ℤ
discount_percent a =
    if ltb_ℤ (pos 0) a.subtotal
    then round_div (a.discount *ℤ pos 10_000) (pos_part a.subtotal)
    else pos 0

unfoldable pub needs_discount_approval : Amounts → User → Bool
needs_discount_approval a u =
    ltb_ℤ (pos 0) a.discount
    && not u.can_override_price
    && ltb_ℤ u.discount_limit_percent (discount_percent a)

unfoldable pub first_status : Bool → Bool → SaleStatus
first_status needs_approval gateway =
    if needs_approval
    then SaleStatus.pending_approval
    else if gateway
    then SaleStatus.pending_payment
    else SaleStatus.completed

abbrev pub channel_of : CreateSaleDto → SalesChannel
channel_of dto = or_else dto.sales_channel SalesChannel.retail_list

-- `salesRepo.create(...)`
abbrev pub sale_row : CreateSaleDto → ℕ → Station → List SaleItem → Amounts → SaleStatus → ℕ → Sale
sale_row dto attendant_id station items a status clock = record {
  station_id = dto.station_id;
  attendant_id = attendant_id;
  customer_id = dto.customer_id;
  shift_id = dto.shift_id;
  subtotal = a.subtotal;
  discount_amount = a.discount;
  total_amount = a.total;
  lpg_quantity_kg = a.lpg_quantity_kg;
  payment_method = payment_method_of dto.payments;
  status = status;
  client_txn_id = dto.client_txn_id;
  sold_at = clock;
  sales_channel = channel_of dto;
  commercial_stream = station.commercial_stream;
  items = items;
  payments = dto.payments;
}

-- `salesRepo.save(sale)` of a new sale: its id and row.
unfoldable pub save_new_sale : (ℕ → Sale) → Op (ℕ × Sale)
save_new_sale make db =
    (ok (db.sales.next_id, make db.clock), record db { sales = append (make db.clock) db.sales })

abbrev pub store_sale : ℕ → Sale → Db → Db
store_sale id s db = record db { sales = store id s db.sales }

-- `throw new BadRequestException(err.message)`
abbrev pub as_bad_request : Failure → Failure
as_bad_request (bad_request r) = bad_request r
as_bad_request (not_found r) = bad_request r
as_bad_request (forbidden r) = bad_request r
as_bad_request (conflict r) = bad_request r
as_bad_request (internal_error r) = bad_request r

-- `try { await m } catch (err) { await handler; throw ... }`
unfoldable pub or_else_undo : Op (Unit {0}) → Op (Unit {0}) → Op (Unit {0})
or_else_undo m handler db = elim ((m db).0) [
  | ok _ ↦ (ok tt, (m db).1)
  | err e ↦ (handler >> throw (as_bad_request e)) ((m db).1)
]

-- The branch of a payment through the gateway: a sale whose payment cannot be initiated is voided.
unfoldable pub start_gateway_payment : (ℕ → ℤ → Op (Unit {0})) → ℕ → Sale → Op (Unit {0})
start_gateway_payment initiate id s =
    or_else_undo
      (initiate id s.total_amount
        >> (find_or_throw (bad_request Reason.sale_not_found) (λ db. find_by_id id db.sales)
            >> pure tt))
      (modify (store_sale id (record s { status = SaleStatus.voided })))

-- The end of `createSale`, by the status of the saved sale.
unfoldable pub conclude_sale :
    (ℕ → ℤ → Op (Unit {0})) → Bool → ℤ → ℕ → Sale → SaleStatus → Op (Unit {0})
conclude_sale initiate has_bundle price id s SaleStatus.completed =
    finalize_sale id s has_bundle price
conclude_sale initiate has_bundle price id s SaleStatus.pending_payment =
    start_gateway_payment initiate id s
conclude_sale initiate has_bundle price id s _ = pure tt

-- The part of `createSale` from the check of the amounts on.
unfoldable pub make_sale :
    (ℕ → ℤ → Op (Unit {0})) → CreateSaleDto → ℕ → Station → ℤ → List SaleItem → Op ℕ
make_sale initiate dto attendant_id station price items = do
  let a = amounts_of dto items
  check_amounts dto a
  check_sale_credit dto a.total
  check_gateway dto
  user ←
      find_or_throw (bad_request Reason.attendant_not_found)
        (λ db. find_by_id attendant_id db.users)
  let status = first_status (needs_discount_approval a user) (uses_gateway dto.payments)
  saved ← save_new_sale (sale_row dto attendant_id station items a status)
  conclude_sale initiate (is_some dto.bundle_id) price saved.0 saved.1 status
  pure saved.0

-- `createSale` of a sale that is new.
unfoldable pub create_new_sale : (ℕ → ℤ → Op (Unit {0})) → CreateSaleDto → ℕ → Op ℕ
create_new_sale initiate dto attendant_id = do
  throw_if (leb (length dto.items) 0 && not (is_some dto.bundle_id)) (bad_request Reason.sale_empty)
  station ← find_station dto.station_id
  require_open_shift_for_sale dto.shift_id dto.station_id attendant_id
  price ← gets (active_price dto.station_id)
  for_each check_serial dto.items
  sold ← explode_items dto.station_id dto.bundle_id dto.items
  items ← price_items price (channel_of dto) sold
  make_sale initiate dto attendant_id station price items

-- `createSale`: a repeated request returns the sale that is there, or is a conflict.
unfoldable pub create_sale : (ℕ → ℤ → Op (Unit {0})) → CreateSaleDto → ℕ → Op ℕ
create_sale initiate dto attendant_id db = elim (existing_sale dto.client_txn_id db) [
  | some s ↦
      (if same_fingerprint dto (s.1) then ok s.0 else err (conflict Reason.sale_conflict), db)
  | none ↦ create_new_sale initiate dto attendant_id db
]
