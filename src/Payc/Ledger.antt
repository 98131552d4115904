-- ===== src/Payc/Ledger.antt =====
-- The readings of a meter and their revenue (backend/src/payc/payc.service.ts, `ingestTelemetry`).
use haroti_lpg_management.Common.Errors.{Result, ok}
use haroti_lpg_management.Database.Documents.{PaycMeter}
use haroti_lpg_management.Database.Frame.{post_entry-Blind}
use haroti_lpg_management.Database.Keeps.{Keeps, Keeps-pure, Keeps->>, Keeps-when, kept_by}
use haroti_lpg_management.Database.Returns.{>>_inv, >>_ok}
use haroti_lpg_management.Database.Search.{find-holds, find-replace}
use haroti_lpg_management.Database.State.{Db, pure, ◌>>◌, modify, when}
use haroti_lpg_management.Database.Table.{find_by_id, store, append, find_where, lookup-replace}
use haroti_lpg_management.Finance.Balance.{credits}
use haroti_lpg_management.Payc.{
  store_meter, flat_price, apply_prepaid_balance, save_credit, MeterReading, has_serial, read_meter,
  consumed_kg, burn_revenue, is_burn, record_burn, telemetry_row, ingest_found, ingest_telemetry,
}
use haroti_lpg_management.Prelude.{
  ℤ, pos, ◌-ℤ◌, ltb_ℤ, max_zero, -ℤ_parts, pos_part-max_zero, neg_part-max_zero, one_sign, ℕ, ◌≡◌,
  refl, sym, ap, ◌∙◌, subst, Bool, true, false, Option, some, arith,
}

-- A meter under its serial number and its identifier.
pub record IsMeter (serial id : ℕ) (m : PaycMeter) (db : Db) : Type 0 where
  pub by_serial : find_where (has_serial serial) db.payc_meters ≡ some (id, m)
  pub by_id : find_by_id id db.payc_meters ≡ some m

meter_serial-read :
    (r : MeterReading) (price now : ℕ) (m : PaycMeter)
    → (read_meter r price now m).meter_serial ≡ m.meter_serial
unfolding read_meter apply_prepaid_balance
meter_serial-read r price now m = refl

has_serial-same :
    (serial : ℕ) (m new : PaycMeter)
    → new.meter_serial ≡ m.meter_serial
    → has_serial serial m ≡ true
    → has_serial serial new ≡ true
unfolding has_serial
has_serial-same serial m new same h = rw same h

store-IsMeter :
    (serial id : ℕ) (m new : PaycMeter) (db : Db)
    → IsMeter serial id m db
    → new.meter_serial ≡ m.meter_serial
    → IsMeter serial id new (store_meter id new db)
store-IsMeter serial id m new db h same = record {
  by_serial =
      find-replace PaycMeter (has_serial serial) id m new db.payc_meters.rows h.by_serial h.by_id (
        has_serial-same serial m new same (
          find-holds (λ (r : ℕ × PaycMeter). has_serial serial r.1) db.payc_meters.rows
            h.by_serial));
  by_id = rw (lookup-replace id id new {old = m} db.payc_meters.rows h.by_id) (ground arith);
}

nothing_used : (c : ℤ) → ltb_ℤ (pos 1) (max_zero (c -ℤ c)) ≡ false
nothing_used c =
    ground (
      arith,
      -ℤ_parts c c,
      pos_part-max_zero (c -ℤ c),
      neg_part-max_zero (c -ℤ c),
      one_sign (c -ℤ c),
    )

-- Nothing was used since a meter was read with the same credit.
is_burn-read :
    (r : MeterReading) (price now : ℕ) (m : PaycMeter) (revenue : ℤ)
    → is_burn (consumed_kg r (read_meter r price now m)) revenue ≡ false
unfolding is_burn consumed_kg read_meter apply_prepaid_balance
is_burn-read r price now m revenue =
    let nothing : ltb_ℤ (pos 1) (max_zero (r.credit_remaining_kg -ℤ r.credit_remaining_kg))
        ≡ false =
      nothing_used r.credit_remaining_kg in
    rw nothing refl

record_burn-meters :
    (serial id : ℕ) (m : PaycMeter) (meter : ℕ) (consumed revenue : ℤ)
    → Keeps (IsMeter serial id m) (record_burn meter consumed revenue)
unfolding record_burn save_credit
record_burn-meters serial id m meter consumed revenue =
    Keeps->> (record { run = λ db h. record { by_serial = h.by_serial; by_id = h.by_id } })
      (Keeps->>
        (post_entry-Blind _ (λ db _ _ _ _ h. record { by_serial = h.by_serial; by_id = h.by_id }) _)
        (Keeps-pure tt))

-- What a reading that was taken leaves.
ingest_found-IsMeter :
    (archive : ℕ → Option ℕ) (r : MeterReading) (id : ℕ) (m : PaycMeter) (db db' : Db)
    {u : Unit {0}}
    → IsMeter r.meter_serial id m db
    → ingest_found archive r id m db ≡ (ok u, db')
    → (now : ℕ) × IsMeter r.meter_serial id (read_meter r (flat_price archive m) now m) db'
unfolding ingest_found
ingest_found-IsMeter archive r id m db db' h run =
    let price = flat_price archive m in
    let burn =
      when (is_burn (consumed_kg r m) (burn_revenue r price m))
        (record_burn id (consumed_kg r m) (burn_revenue r price m)) in
    let last = modify (λ db. store_meter id (read_meter r price db.clock m) db) in
    let first =
      modify (λ db. record db { payc_telemetry = append (telemetry_row id r) db.payc_telemetry }) in
    let (_, db1, saved, rest) = >>_inv first (burn >> last) run in
    let h1 : IsMeter r.meter_serial id m db1 =
      kept_by {P = IsMeter r.meter_serial id m} {m = first}
        (record { run = λ db h. record { by_serial = h.by_serial; by_id = h.by_id } }) saved h in
    let (_, db2, burnt, end) = >>_inv burn last rest in
    let h2 : IsMeter r.meter_serial id m db2 =
      kept_by (Keeps-when _ (record_burn-meters r.meter_serial id m id _ _)) burnt h1 in
    (
      db2.clock,
      subst
          (λ (x : Result (Unit {0}) × Db).
            IsMeter r.meter_serial id (read_meter r price db2.clock m) x.1)
          end
          (store-IsMeter r.meter_serial id m (read_meter r price db2.clock m) db2 h2
            (meter_serial-read r price db2.clock m)),
    )

-- A reading with the credit that the meter has posts nothing.
ingest_same :
    (archive : ℕ → Option ℕ) (r : MeterReading) (id price now : ℕ) (m : PaycMeter) (db : Db)
    → (db' : Db) × (ingest_found archive r id (read_meter r price now m) db ≡ (ok tt, db'))
      × (db'.entries ≡ db.entries)
      × (db'.payc_credits ≡ db.payc_credits)
unfolding ingest_found ◌>>◌
ingest_same archive r id price now m db =
    let again = read_meter r price now m in
    let left : Db = record db {
      payc_telemetry = append (telemetry_row id r) db.payc_telemetry;
      payc_meters =
          store id (read_meter r (flat_price archive again) db.clock again) db.payc_meters;
    } in
    (
      left,
      rw (is_burn-read r price now m (burn_revenue r (flat_price archive again) again)) refl,
      refl,
      refl,
    )

-- The call for a meter that is there.
ingest_lem :
    (archive : ℕ → Option ℕ) (r : MeterReading) (id : ℕ) (m : PaycMeter) (db : Db)
    → IsMeter r.meter_serial id m db
    → ingest_telemetry archive r db ≡ (ingest_found archive r id m >> pure true) db
unfolding ingest_telemetry
ingest_lem archive r id m db h = rw (h.by_serial, ingest_telemetry) refl

-- A reading that was taken, given again at once, is taken and posts nothing: the journal and the
-- transactions of credit stay as the first reading left them.
pub ingest_telemetry-again :
    (archive : ℕ → Option ℕ) (r : MeterReading) (id : ℕ) (m : PaycMeter) (db db' : Db)
    → IsMeter r.meter_serial id m db
    → ingest_telemetry archive r db ≡ (ok true, db')
    → ((ingest_telemetry archive r db').0 ≡ ok true)
      × ((ingest_telemetry archive r db').1.entries ≡ db'.entries)
      × ((ingest_telemetry archive r db').1.payc_credits ≡ db'.payc_credits)
ingest_telemetry-again archive r id m db db' h run =
    let (_, db1, first, end) =
      >>_inv (ingest_found archive r id m) (pure true)
        (sym (ingest_lem archive r id m db h) ∙ run) in
    let same : db1 ≡ db' = ap (λ (x : Result Bool × Db). x.1) end in
    let (now, there) = ingest_found-IsMeter archive r id m db db1 h first in
    let price = flat_price archive m in
    let (db2, again, entries, credits) = ingest_same archive r id price now m db' in
    let there' : IsMeter r.meter_serial id (read_meter r price now m) db' =
      subst (IsMeter r.meter_serial id (read_meter r price now m)) same there in
    let ran =
      ingest_lem archive r id (read_meter r price now m) db' there'
      ∙ >>_ok (ingest_found archive r id (read_meter r price now m)) (pure true) again in
    (
      ap (λ (x : Result Bool × Db). x.0) ran,
      ap (λ (x : Result Bool × Db). x.1.entries) ran ∙ entries,
      ap (λ (x : Result Bool × Db). x.1.payc_credits) ran ∙ credits,
    )
