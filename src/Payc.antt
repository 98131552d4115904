-- ===== src/Payc.antt =====
-- backend/src/payc/payc.service.ts: the prepaid meters, with their credit and its revenue. The
-- price in the vendor's archive and the exchange with the vendor behind a top-up are parameters.
-- Credit is in grams, money in hundredths, and a price in hundredths for a kilogram.
pub mod Ledger
use haroti_lpg_management.Common.Decimal.{round_div}
use haroti_lpg_management.Common.Enums.{
  PaymentMethod, JournalEventType, PaycMeterStatus, PaycCreditTxnType,
}
use haroti_lpg_management.Common.Errors.{Reason, not_found, ok}
use haroti_lpg_management.Database.Documents.{PaycMeter, PaycCreditTransaction, PaycTelemetry}
use haroti_lpg_management.Database.Entities.{ReferenceType}
use haroti_lpg_management.Database.State.{Db, Op, pure, find_or_throw, ◌>>=◌, ◌>>◌, modify, when}
use haroti_lpg_management.Database.Table.{find_by_id, store, append, find_where}
use haroti_lpg_management.Deliveries.Taken.{taken}
use haroti_lpg_management.Finance.Accounts.{cash_account, revenue_payc, deferred_payc}
use haroti_lpg_management.Finance.Journal.{post_entry}
use haroti_lpg_management.Finance.Posting.{entry_of}
use haroti_lpg_management.Prelude.{
  ℤ, pos, ◌+ℤ◌, ◌-ℤ◌, ◌*ℤ◌, ltb_ℤ, leb_ℤ, max_zero, ltb, ◌==◌, if◌then◌else◌, or_else, is_some, suc,
  ◌+◌, ℕ, Bool, true, false, not, ◌&&◌, Option, none, some, List, [], ◌∷◌, map,
}

-- `PRICE_PER_KG`
abbrev pub payc_price_per_kg : ℕ
payc_price_per_kg = 185_000

-- `LOW_CREDIT_KG`
abbrev pub low_credit_kg : ℤ
low_credit_kg = pos 500

unfoldable pub find_meter : ℕ → Op PaycMeter
find_meter id =
    find_or_throw (not_found Reason.meter_not_found) (λ db. find_by_id id db.payc_meters)

abbrev pub store_meter : ℕ → PaycMeter → Db → Db
store_meter id m db = record db { payc_meters = store id m db.payc_meters }

-- A price that is there and not zero, or the default.
unfoldable pub known_price : Option ℕ → ℕ
known_price none = payc_price_per_kg
known_price (some p) = if p == 0 then payc_price_per_kg else p

-- `getMeterFlatPrice`; `archive` is the price in the vendor's archive, none where the vendor is not
-- configured, does not answer or has none.
unfoldable pub flat_price : (ℕ → Option ℕ) → PaycMeter → ℕ
flat_price archive m = elim m.imei [
  | none ↦ payc_price_per_kg
  | some imei ↦ known_price (archive imei)
]

-- `round2(creditBalanceKg * flatPrice)`
unfoldable pub prepaid_value : ℤ → ℕ → ℤ
prepaid_value credit price = round_div (credit *ℤ pos price) 1_000

-- `applyPrepaidBalance`
unfoldable pub apply_prepaid_balance : ℕ → PaycMeter → PaycMeter
apply_prepaid_balance price m = record m {
  deferred_revenue = prepaid_value m.credit_balance_kg price;
}

-- `round3(amountMwk / flatPrice)`
unfoldable pub credit_for : ℤ → ℕ → ℤ
credit_for amount price = round_div (amount *ℤ pos 1_000) price

unfoldable pub topped_up : ℤ → ℕ → PaycMeter → PaycMeter
topped_up amount price m =
    let credit = m.credit_balance_kg +ℤ credit_for amount price in
    let meter = apply_prepaid_balance price (record m { credit_balance_kg = credit }) in
    if leb_ℤ low_credit_kg credit then record meter { status = PaycMeterStatus.active } else meter

abbrev pub topup_row : ℕ → ℤ → ℤ → PaymentMethod → Option ℕ → PaycCreditTransaction
topup_row meter_id amount credit method reference = record {
  meter_id = meter_id;
  kind = PaycCreditTxnType.topup;
  amount_mwk = amount;
  credit_kg = credit;
  payment_method = some method;
  reference = reference;
}

unfoldable pub save_credit : PaycCreditTransaction → Op (Unit {0})
save_credit c db = (ok tt, record db { payc_credits = append c db.payc_credits })

module _ (archive : ℕ → Option ℕ) where
  -- The part of `topUpCredit` in front of the exchange with the vendor.
  unfoldable pub top_up_books : ℕ → ℤ → PaymentMethod → Option ℕ → Op PaycMeter
  top_up_books id amount method reference = do
    m ← find_meter id
    let price = flat_price archive m
    modify (store_meter id (topped_up amount price m))
    save_credit (topup_row id amount (credit_for amount price) method reference)
    post_entry (
        entry_of JournalEventType.payc_credit_topup ReferenceType.payc_meter id cash_account
          deferred_payc amount)
    pure (topped_up amount price m)

  -- `topUpCredit`; `push` is the exchange with the vendor, for a meter with an IMEI and unless the
  -- caller has asked to leave it out.
  unfoldable pub top_up_credit :
      (ℕ → ℤ → Op (Unit {0})) → Bool → ℕ → ℤ → PaymentMethod → Option ℕ → Op (Unit {0})
  top_up_credit push push_to_vendor id amount method reference = do
    m ← top_up_books id amount method reference
    when (push_to_vendor && is_some m.imei) (push id amount)

-- `rebindCylinder`
unfoldable pub rebind_cylinder : ℕ → ℕ → Op (Unit {0})
rebind_cylinder id serial = do
  m ← find_meter id
  modify (store_meter id (record m { cylinder_serial = some serial }))

pub record MeterReading : Type 0 where
  pub meter_serial : ℕ
  pub burn_kg : ℤ
  pub credit_remaining_kg : ℤ
  pub valve_open : Bool

-- `where: { meterSerial }`
unfoldable pub has_serial : ℕ → PaycMeter → Bool
has_serial serial m = m.meter_serial == serial

abbrev pub status_of_reading : MeterReading → PaycMeterStatus
status_of_reading r =
    if r.valve_open
    then if ltb_ℤ r.credit_remaining_kg low_credit_kg
      then PaycMeterStatus.low_credit
      else PaycMeterStatus.active
    else PaycMeterStatus.valve_closed

unfoldable pub read_meter : MeterReading → ℕ → ℕ → PaycMeter → PaycMeter
read_meter r price now m = apply_prepaid_balance price (record m {
  daily_burn_kg = r.burn_kg;
  credit_balance_kg = r.credit_remaining_kg;
  last_telemetry_at = some now;
  valve_open = some r.valve_open;
  status = status_of_reading r;
})

-- `consumedKg`
unfoldable pub consumed_kg : MeterReading → PaycMeter → ℤ
consumed_kg r m = max_zero (m.credit_balance_kg -ℤ r.credit_remaining_kg)

-- `revenue`
abbrev pub burn_revenue : MeterReading → ℕ → PaycMeter → ℤ
burn_revenue r price m = prepaid_value (consumed_kg r m) price

abbrev pub burn_row : ℕ → ℤ → ℤ → PaycCreditTransaction
burn_row meter_id revenue consumed = record {
  meter_id = meter_id;
  kind = PaycCreditTxnType.burn;
  amount_mwk = revenue;
  credit_kg = consumed;
  payment_method = none;
  reference = none;
}

-- `consumedKg > 0.001 && revenue > 0`
unfoldable pub is_burn : ℤ → ℤ → Bool
is_burn consumed revenue = ltb_ℤ (pos 1) consumed && ltb_ℤ (pos 0) revenue

unfoldable pub record_burn : ℕ → ℤ → ℤ → Op (Unit {0})
record_burn id consumed revenue = do
  save_credit (burn_row id revenue consumed)
  post_entry (
      entry_of JournalEventType.payc_burn_revenue ReferenceType.payc_meter id deferred_payc
        revenue_payc revenue)
  pure tt

abbrev pub telemetry_row : ℕ → MeterReading → PaycTelemetry
telemetry_row id r = record {
  meter_id = id;
  burn_kg = r.burn_kg;
  credit_remaining_kg = r.credit_remaining_kg;
  valve_open = r.valve_open;
}

-- `ingestTelemetry` for a meter that was found
unfoldable pub ingest_found : (ℕ → Option ℕ) → MeterReading → ℕ → PaycMeter → Op (Unit {0})
ingest_found archive r id m = do
  modify (λ db. record db { payc_telemetry = append (telemetry_row id r) db.payc_telemetry })
  when (is_burn (consumed_kg r m) (burn_revenue r (flat_price archive m) m))
      (record_burn id (consumed_kg r m) (burn_revenue r (flat_price archive m) m))
  modify (λ db. store_meter id (read_meter r (flat_price archive m) db.clock m) db)

-- `ingestTelemetry`: whether there is such a meter.
unfoldable pub ingest_telemetry : (ℕ → Option ℕ) → MeterReading → Op Bool
ingest_telemetry archive r db = elim (find_where (has_serial r.meter_serial) db.payc_meters) [
  | none ↦ (ok false, db)
  | some (id, m) ↦ (ingest_found archive r id m >> pure true) db
]

-- `ingestBatch`: the number of the readings that were taken.
unfoldable pub ingest_batch : (ℕ → Option ℕ) → List MeterReading → Op ℕ
ingest_batch archive [] = pure 0
ingest_batch archive (r ∷ rs) = ingest_telemetry archive r >>= λ taken.
    ingest_batch archive rs >>= λ rest. pure (if taken then suc rest else rest)

pub record MeterPatch : Type 0 where
  pub customer_id : Option (Option ℕ)
  pub station_id : Option (Option ℕ)
  pub location : Option ℕ
  pub cylinder_serial : Option ℕ

-- `if (patch.x !== undefined) meter.x = patch.x`, for a column that may be empty
abbrev pub patched : Option ℕ → Option ℕ → Option ℕ
patched none old = old
patched (some new) old = some new

-- `updateMeter`
unfoldable pub update_meter : ℕ → MeterPatch → Op (Unit {0})
update_meter id patch = do
  m ← find_meter id
  modify (
      store_meter id (record m {
        customer_id = or_else patch.customer_id m.customer_id;
        station_id = or_else patch.station_id m.station_id;
        location = patched patch.location m.location;
        cylinder_serial = patched patch.cylinder_serial m.cylinder_serial;
      }))

abbrev pub is_offline : PaycMeterStatus → Bool
is_offline PaycMeterStatus.offline = true
is_offline _ = false

-- `lastTelemetryAt < cutoff`, with `OFFLINE_HOURS` of 24
unfoldable pub is_silent : ℕ → PaycMeter → Bool
is_silent now m = elim m.last_telemetry_at [ none ↦ false | some t ↦ ltb (t + 86_400_000) now ]

abbrev pub when_silent : ℕ → PaycMeter → PaycMeter
when_silent now m =
    if is_silent now m && not (is_offline m.status)
    then record m { status = PaycMeterStatus.offline }
    else m

-- `markOfflineMeters`
unfoldable pub mark_offline_meters : Op (Unit {0})
mark_offline_meters db = (
  ok tt,
  record db {
    payc_meters = record db.payc_meters {
      rows = map (λ r. (r.0, when_silent db.clock r.1)) db.payc_meters.rows;
    };
  },
)
