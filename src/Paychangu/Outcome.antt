-- ===== src/Paychangu/Outcome.antt =====
-- What `initiatePayment` leaves of the payment that it creates
-- (backend/src/paychangu/paychangu.service.ts).
use haroti_lpg_management.Common.Errors.{Result, ok, err}
use haroti_lpg_management.Database.Documents.{
  PaychanguTransactionStatus, PaychanguPaymentMethod, PaychanguTransaction,
}
use haroti_lpg_management.Database.Keeps.{
  Keeps, or_throw-Keeps, Keeps-throw, Keeps-throw_if, Keeps->>=, Keeps->>,
}
use haroti_lpg_management.Database.State.{Db, ◌>>=◌, ◌>>◌}
use haroti_lpg_management.Database.Table.{find_by_id, append, lookup-replace, lookup-added}
use haroti_lpg_management.Paychangu.{GatewayResponse, map_payment_method}
use haroti_lpg_management.Paychangu.Phone.{normalize_phone}
use haroti_lpg_management.Paychangu.Start.{
  PaymentParams, CardResponse, new_payment, save_payment_row, with_payment, settle_attempt,
  initiate_card_charge, initiate_mobile, attempt, initiate_payment,
}
use haroti_lpg_management.Prelude.{ℤ, ℕ, ◌≡◌, true, Option, none, some, List, arith}

abbrev pub status_after : Result ℕ → PaychanguTransactionStatus
status_after (ok id) = PaychanguTransactionStatus.processing
status_after (err e) = PaychanguTransactionStatus.failed

settled_lem :
    (id : ℕ) (t : PaychanguTransaction) (r : Result (Unit {0}) × Db)
    → find_by_id id r.1.paychangu_transactions ≡ some t
    → find_by_id id (settle_attempt id t r).1.paychangu_transactions
      ≡ some (with_payment (status_after (settle_attempt id t r).0) t)
settled_lem id t (ok u, db) h =
    rw
      (lookup-replace id id (with_payment PaychanguTransactionStatus.processing t) {old = t}
        db.paychangu_transactions.rows h)
      (ground arith)
settled_lem id t (err e, db) h =
    rw
      (lookup-replace id id (with_payment PaychanguTransactionStatus.failed t) {old = t}
        db.paychangu_transactions.rows h)
      (ground arith)

module _ (charge : ℕ → List ℕ → ℤ → Option GatewayResponse)
    (charge_card : ℕ → ℤ → Option CardResponse) where
  mobile-Keeps :
      {P : Db → Type 0} (p : PaymentParams) (ref : ℕ)
      → Keeps P (initiate_mobile charge charge_card p ref)
  unfolding initiate_mobile
  mobile-Keeps {P} p ref =
      Keeps->>= (record { run = λ db h. or_throw-Keeps P _ p.customer_phone db h })
        λ phone.
          Keeps->>= (record { run = λ db h. or_throw-Keeps P _ (normalize_phone phone) db h })
            λ mobile.
              Keeps->>=
                (record { run = λ db h. or_throw-Keeps P _ (charge ref mobile p.amount) db h })
                λ r. Keeps-throw_if _ _

  attempt-Keeps :
      {P : Db → Type 0} (p : PaymentParams) (ref : ℕ) (method : PaychanguPaymentMethod)
      → Keeps P (attempt charge charge_card p ref method)
  unfolding initiate_card_charge
  attempt-Keeps {P} p ref PaychanguPaymentMethod.card = Keeps->> (Keeps-throw_if _ _) (
      Keeps->>= (record { run = λ db h. or_throw-Keeps P _ (charge_card ref p.amount) db h })
        λ r. Keeps-throw_if _ _)
  attempt-Keeps {P} p ref PaychanguPaymentMethod.airtel_money = mobile-Keeps p ref
  attempt-Keeps {P} p ref PaychanguPaymentMethod.tnm_mpamba = mobile-Keeps p ref
  attempt-Keeps {P} p ref PaychanguPaymentMethod.bank_transfer = Keeps-throw _

  -- A payment that is created is left in processing where the call returns, and failed where it
  -- throws, whatever the gateway answers, if its identifier is new.
  pub initiate_payment-status :
      (p : PaymentParams) (ref : ℕ) (db : Db) (method : PaychanguPaymentMethod)
      → find_by_id db.paychangu_transactions.next_id db.paychangu_transactions ≡ none
      → map_payment_method p.payment_method ≡ some method
      → find_by_id db.paychangu_transactions.next_id
          (initiate_payment charge charge_card true p ref db).1.paychangu_transactions
        ≡ some (
            with_payment
              (status_after (initiate_payment charge charge_card true p ref db).0)
              (new_payment p ref method))
  unfolding initiate_payment save_payment_row ◌>>=◌ ◌>>◌
  initiate_payment-status p ref db method fresh known =
      let id = db.paychangu_transactions.next_id in
      let t = new_payment p ref method in
      let made : Db = record db { paychangu_transactions = append t db.paychangu_transactions } in
      let there = lookup-added id t db.paychangu_transactions.rows fresh in
      let kept =
        (attempt-Keeps {P = λ (x : Db). find_by_id id x.paychangu_transactions ≡ some t} p ref
            method).run
          made there in
      rw known (settled_lem id t (attempt charge charge_card p ref method made) kept)
