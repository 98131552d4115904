-- ===== src/Tests/Gateway.antt =====
-- The gateway and the prepaid meters.
use haroti_lpg_management.Accessories.Stock.{AccessoriesAreNonneg}
use haroti_lpg_management.Common.Decimal.{round_div}
use haroti_lpg_management.Common.Enums.{PaymentMethod, SaleStatus, PaycMeterStatus}
use haroti_lpg_management.Common.Errors.{Reason, bad_request, ok, err}
use haroti_lpg_management.Database.Documents.{
  PaychanguTransactionStatus, PaychanguPaymentMethod, PaychanguTransaction, WebhookEvent,
  StatusWord, RemoteStatus, PaycMeter,
}
use haroti_lpg_management.Database.Entities.{Sale}
use haroti_lpg_management.Database.Keeps.{Keeps-pure}
use haroti_lpg_management.Database.State.{Db, Op, pure, ◌>>=◌, ◌>>◌}
use haroti_lpg_management.Database.Table.{lookup, replace, find_by_id}
use haroti_lpg_management.Finance.Journal.{
  day_of, covers, posting_closed, assert_open_for_posting, journal_line, save_entry, post_entry,
}
use haroti_lpg_management.Inventory.{existing_movement, stock_after, move_stock, apply_movement}
use haroti_lpg_management.Payc.{
  known_price, flat_price, prepaid_value, apply_prepaid_balance, save_credit, MeterReading,
  has_serial, read_meter, consumed_kg, is_burn, record_burn, ingest_found, ingest_telemetry,
}
use haroti_lpg_management.Payc.Ledger.{IsMeter, ingest_telemetry-again}
use haroti_lpg_management.Paychangu.{
  GatewayResponse, says_failed, has_ref, store_payment, completed_payment, verify_charge,
  top_up_if_metered, complete_sale_of, fulfil, handle_payment_completed, apply_transaction_outcome,
  query_payment, process_webhook,
}
use haroti_lpg_management.Paychangu.Completion.{
  IsPayment, IsPaid, with_payment_status, query_payment-once,
}
use haroti_lpg_management.Paychangu.Outcome.{status_after, initiate_payment-status}
use haroti_lpg_management.Paychangu.Phone.{
  PhoneChar, digits_of, without_country, without_zero, normalize_phone,
}
use haroti_lpg_management.Paychangu.Refresh.{process_webhook-Sound}
use haroti_lpg_management.Paychangu.Start.{
  PaymentParams, CardResponse, new_payment, save_payment_row, with_payment, initiate_mobile,
  initiate_payment,
}
use haroti_lpg_management.Prelude.{
  ℤ, pos, ◌+ℤ◌, ◌-ℤ◌, ◌*ℤ◌, max_zero, negate, div_floor, ℕ, ◌≡◌, refl, true, false, Option, none,
  some, List, [], ◌∷◌, map, arith,
}
use haroti_lpg_management.Sales.Finalize.{finalize_lpg, finalize_sale}
use haroti_lpg_management.Sales.Lifecycle.{find_sale, complete_sale, complete_paychangu_sale}
use haroti_lpg_management.Sales.Safety.{Sound}
use haroti_lpg_management.Tests.Books.{company-JournalIsBalanced}
use haroti_lpg_management.Tests.Data.{table_of, a_sale, company}

abbrev a_payment : PaychanguTransaction
a_payment = record {
  transaction_ref = 9;
  payment_method = PaychanguPaymentMethod.airtel_money;
  amount = pos 925_000;
  status = PaychanguTransactionStatus.processing;
  completed_at = none;
  sale_id = some 0;
  payc_meter_id = none;
}

-- A sale of more gas than the station has.
abbrev large_sale : Sale
large_sale = record a_sale { status = SaleStatus.pending_payment; lpg_quantity_kg = pos 600_000 }

abbrev till : Db
till = record company { sales = table_of large_sale; paychangu_transactions = table_of a_payment }

abbrev success : Option RemoteStatus
success = some (record { word = StatusWord.success; is_lower_case = true })

abbrev says_paid : ℕ → PaychanguPaymentMethod → Option GatewayResponse
says_paid ref method = some (record { is_ok = true; status = success; data_status = success })

abbrev no_archive : ℕ → Option ℕ
no_archive imei = none

abbrev no_push : ℕ → ℤ → Op (Unit {0})
no_push meter amount = pure tt

till-IsPayment : IsPayment 9 0 a_payment till
unfolding has_ref lookup
till-IsPayment = record { by_ref = refl; by_id = refl }

till-IsPaid : IsPaid says_paid a_payment
unfolding says_failed
till-IsPaid = record {
  response = record { is_ok = true; status = success; data_status = success };
  answered = refl;
  accepted = refl;
  no_failure = refl;
  completed = refl;
}

abbrev after_query : Db
after_query = (query_payment no_archive no_push says_paid 9 till).1

-- The first query fails in the completion of the sale.
query_lem :
    query_payment no_archive no_push says_paid 9 till
    ≡ (err (bad_request Reason.insufficient_lpg_stock), after_query)
unfolding query_payment ◌>>=◌ has_ref verify_charge ◌>>◌ says_failed apply_transaction_outcome
    handle_payment_completed fulfil top_up_if_metered complete_sale_of complete_paychangu_sale
    find_sale lookup complete_sale finalize_sale finalize_lpg apply_movement existing_movement
    stock_after ◌+ℤ◌ negate
query_lem = refl

-- The payment as the failed query left it.
abbrev a_paid_payment : PaychanguTransaction
a_paid_payment = completed_payment till.clock a_payment

-- A day later.
abbrev later_till : Db
later_till = record after_query { clock = 90_000_000 }

query_payment-once_example :
    query_payment no_archive no_push says_paid 9 later_till
    ≡ (ok tt, store_payment 0 (with_payment_status a_paid_payment) later_till)
unfolding query_payment ◌>>=◌ has_ref verify_charge ◌>>◌ says_failed apply_transaction_outcome
    handle_payment_completed fulfil top_up_if_metered complete_sale_of complete_paychangu_sale
    find_sale lookup replace complete_sale finalize_sale finalize_lpg apply_movement
    existing_movement move_stock stock_after ◌+ℤ◌ negate
query_payment-once_example =
    query_payment-once no_archive no_push says_paid says_paid (λ Q meter amount. Keeps-pure tt) 9 0
      a_payment a_paid_payment a_paid_payment till after_query later_till till-IsPayment till-IsPaid
      query_lem refl (record { by_ref = refl; by_id = refl }) refl
      (record {
        response = record { is_ok = true; status = success; data_status = success };
        answered = refl;
        accepted = refl;
        no_failure = refl;
        completed = refl;
      })

till-Sound : Sound till
unfolding AccessoriesAreNonneg
till-Sound = record {
  stock = (omega arith, tt);
  accessories = (omega arith, tt);
  journal = company-JournalIsBalanced;
}

process_webhook-Sound_example :
    Sound
      (process_webhook no_archive no_push says_paid true true WebhookEvent.payment_completed
        (some 9)
        success
        till).1
process_webhook-Sound_example =
    (process_webhook-Sound no_archive no_push says_paid (λ meter amount. Keeps-pure tt) true true
        WebhookEvent.payment_completed (some 9) success).run
      till till-Sound

abbrev mobile_payment : PaymentParams
mobile_payment = record {
  amount = pos 925_000;
  payment_method = PaymentMethod.airtel_money;
  customer_phone = some (map PhoneChar.digit (0 ∷ 9 ∷ 9 ∷ 0 ∷ 0 ∷ 0 ∷ 0 ∷ 0 ∷ 0 ∷ 0 ∷ []));
  has_card = false;
  sale_id = some 0;
  payc_meter_id = none;
}

abbrev no_charge : ℕ → List ℕ → ℤ → Option GatewayResponse
no_charge ref phone amount = none

abbrev no_card_charge : ℕ → ℤ → Option CardResponse
no_card_charge ref amount = none

refused_lem :
    (initiate_payment no_charge no_card_charge true mobile_payment 12 till).0
    ≡ err (bad_request Reason.gateway_failed)
unfolding initiate_payment ◌>>◌ ◌>>=◌ save_payment_row initiate_mobile normalize_phone without_zero
    without_country digits_of
refused_lem = refl

initiate_payment-status_example :
    find_by_id 1
      (initiate_payment no_charge no_card_charge true mobile_payment 12
        till).1.paychangu_transactions
    ≡ some (
        with_payment
          (status_after (initiate_payment no_charge no_card_charge true mobile_payment 12 till).0)
          (new_payment mobile_payment 12 PaychanguPaymentMethod.airtel_money))
unfolding lookup
initiate_payment-status_example =
    initiate_payment-status no_charge no_card_charge mobile_payment 12 till
      PaychanguPaymentMethod.airtel_money refl refl

abbrev a_meter : PaycMeter
a_meter = record {
  meter_serial = 5;
  imei = none;
  customer_id = none;
  station_id = none;
  credit_balance_kg = pos 3_000;
  deferred_revenue = pos 555_000;
  daily_burn_kg = pos 0;
  status = PaycMeterStatus.active;
  last_telemetry_at = none;
  cylinder_serial = none;
  location = none;
  valve_open = none;
}

abbrev kitchen : Db
kitchen = record company { payc_meters = table_of a_meter }

abbrev a_reading : MeterReading
a_reading = record {
  meter_serial = 5;
  burn_kg = pos 1_000;
  credit_remaining_kg = pos 2_000;
  valve_open = true;
}

kitchen-IsMeter : IsMeter 5 0 a_meter kitchen
unfolding has_serial lookup
kitchen-IsMeter = record { by_serial = refl; by_id = refl }

abbrev after_reading : Db
after_reading = (ingest_telemetry no_archive a_reading kitchen).1

reading_lem : ingest_telemetry no_archive a_reading kitchen ≡ (ok true, after_reading)
unfolding ingest_telemetry has_serial ◌>>◌ ingest_found is_burn consumed_kg max_zero ◌-ℤ◌
    prepaid_value round_div div_floor ◌+ℤ◌ ◌*ℤ◌ flat_price record_burn save_credit post_entry
    replace assert_open_for_posting covers day_of journal_line posting_closed save_entry
    apply_prepaid_balance known_price read_meter
reading_lem = refl

ingest_telemetry-again_example :
    ((ingest_telemetry no_archive a_reading after_reading).0 ≡ ok true)
    × ((ingest_telemetry no_archive a_reading after_reading).1.entries ≡ after_reading.entries)
    × ((ingest_telemetry no_archive a_reading after_reading).1.payc_credits
        ≡ after_reading.payc_credits)
ingest_telemetry-again_example =
    ingest_telemetry-again no_archive a_reading 0 a_meter kitchen after_reading kitchen-IsMeter
      reading_lem
