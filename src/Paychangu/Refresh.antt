-- ===== src/Paychangu/Refresh.antt =====
-- The payments at the gateway against the stocks and the journal
-- (backend/src/paychangu/paychangu.service.ts).
use haroti_lpg_management.Common.Enums.{PaymentMethod}
use haroti_lpg_management.Common.Errors.{Result, ok, err}
use haroti_lpg_management.Database.Documents.{
  PaychanguPaymentMethod, PaychanguTransaction, WebhookEvent, RemoteStatus, PaychanguWebhook,
}
use haroti_lpg_management.Database.Keeps.{
  Keeps, or_throw-Keeps, Keeps-pure, Keeps-find_or_throw, Keeps-throw_if, Keeps->>=, Keeps->>,
  Keeps-when,
}
use haroti_lpg_management.Database.State.{Db, Op, when}
use haroti_lpg_management.Database.Table.{find_by_id, append}
use haroti_lpg_management.Payc.{find_meter, save_credit, top_up_books, top_up_credit}
use haroti_lpg_management.Paychangu.{
  GatewayResponse, fail_sale_of, handle_payment_failed, store_webhook, mark_webhook, new_webhook,
  save_webhook, verify_charge, top_up_if_metered, complete_sale_of, fulfil,
  handle_payment_completed, apply_transaction_outcome, query_payment, webhook_outcome,
  process_event, handle_webhook_event, process_webhook,
}
use haroti_lpg_management.Prelude.{
  ℤ, if◌then◌else◌, Option-cases, ℕ, refl, inl, inr, Bool, true, false, Option, some,
}
use haroti_lpg_management.Sales.Safety.{Sound, post_entry_of-Sound, SameBooks, modify-Sound}
use haroti_lpg_management.Sales.SafetyOps.{complete_paychangu_sale-Sound, fail_paychangu_sale-Sound}

if-Sound :
    {A : Type 0} (c : Bool) (x y : Result A × Db)
    → Sound x.1
    → Sound y.1
    → Sound (if c then x else y).1
if-Sound true x y hx hy = hx
if-Sound false x y hx hy = hy

module _ (archive : ℕ → Option ℕ) (push : ℕ → ℤ → Op (Unit {0}))
    (verify : ℕ → PaychanguPaymentMethod → Option GatewayResponse)
    (pushed : (meter : ℕ) (amount : ℤ) → Keeps Sound (push meter amount)) where
  top_up_books-Sound :
      (id : ℕ) (amount : ℤ) (method : PaymentMethod) (reference : Option ℕ)
      → Keeps Sound (top_up_books archive id amount method reference)
  unfolding top_up_books find_meter save_credit SameBooks
  top_up_books-Sound id amount method reference = Keeps->>= (Keeps-find_or_throw _ _) λ m.
      Keeps->> (modify-Sound _ λ db. (refl, refl, refl)) (
        Keeps->> (modify-Sound _ λ db. (refl, refl, refl))
          (Keeps->> (post_entry_of-Sound _ _ _ _ _ _) (Keeps-pure _)))

  top_up-Sound : (t : PaychanguTransaction) → Keeps Sound (top_up_if_metered archive push t)
  unfolding top_up_if_metered top_up_credit
  top_up-Sound t = elim (Option-cases t.payc_meter_id) [
    | inl nobody ↦ rw (nobody, top_up_if_metered) (Keeps-pure tt)
    | inr (meter, known) ↦
        rw (known, top_up_if_metered)
          (Keeps->>= (top_up_books-Sound meter t.amount _ _)
            λ m. Keeps-when _ (pushed meter t.amount))
  ]

  sale-Sound : (t : PaychanguTransaction) → Keeps Sound (complete_sale_of archive push t)
  unfolding complete_sale_of
  sale-Sound t = elim (Option-cases t.sale_id) [
    | inl nobody ↦ rw (nobody, complete_sale_of) (Keeps-pure tt)
    | inr (sale, known) ↦ rw (known, complete_sale_of) (complete_paychangu_sale-Sound sale)
  ]

  completed-Sound :
      (id : ℕ) (t : PaychanguTransaction) → Keeps Sound (handle_payment_completed archive push id t)
  unfolding handle_payment_completed fulfil SameBooks
  completed-Sound id t = Keeps-when _ (
      Keeps->> (modify-Sound _ λ db. (refl, refl, refl)) (Keeps->> (top_up-Sound t) (sale-Sound t)))

  fail_sale-Sound : (t : PaychanguTransaction) → Keeps Sound (fail_sale_of t)
  unfolding fail_sale_of
  fail_sale-Sound t = elim (Option-cases t.sale_id) [
    | inl nobody ↦ record { run = λ db h. rw (nobody, fail_sale_of) h }
    | inr (sale, known) ↦ record {
      run = λ db h. rw (known, fail_sale_of) ((fail_paychangu_sale-Sound sale).run db h);
    }
  ]

  failed-Sound : (id : ℕ) (t : PaychanguTransaction) → Keeps Sound (handle_payment_failed id t)
  unfolding handle_payment_failed SameBooks
  failed-Sound id t =
      Keeps->> (Keeps-when _ (modify-Sound _ λ db. (refl, refl, refl))) (fail_sale-Sound t)

  outcome-Sound :
      (c : Bool) (id : ℕ) (t : PaychanguTransaction) (d : Bool)
      → Keeps Sound (
          if c
          then handle_payment_completed archive push id t
          else when d (handle_payment_failed id t))
  outcome-Sound true id t d = completed-Sound id t
  outcome-Sound false id t d = Keeps-when d (failed-Sound id t)

  verify-Sound : (t : PaychanguTransaction) → Keeps Sound (verify_charge verify t)
  unfolding verify_charge
  verify-Sound t =
      Keeps->>=
        (record {
          run = λ db h. or_throw-Keeps Sound _ (verify t.transaction_ref t.payment_method) db h;
        })
        λ r. Keeps->> (Keeps-throw_if _ _) (Keeps-pure r)

  -- A query of a payment keeps the books sound, whatever the gateway answers.
  pub query_payment-Sound : (ref : ℕ) → Keeps Sound (query_payment archive push verify ref)
  unfolding query_payment apply_transaction_outcome SameBooks
  query_payment-Sound ref = Keeps->>= (Keeps-find_or_throw _ _) λ row.
      Keeps->>= (verify-Sound row.1)
        λ r. Keeps->> (modify-Sound _ λ db. (refl, refl, refl)) (outcome-Sound _ row.0 _ _)

  process_event-Sound : (w : PaychanguWebhook) → Keeps Sound (process_event archive push verify w)
  unfolding process_event webhook_outcome
  process_event-Sound w =
      Keeps->>= (Keeps-find_or_throw _ _)
        λ row. Keeps->>= (verify-Sound row.1) λ r. outcome-Sound _ row.0 row.1 _

  mark_webhook-Sound :
      (id : ℕ) (w : PaychanguWebhook) (r : Result (Unit {0}) × Db)
      → Sound r.1
      → Sound (mark_webhook id w r).1
  unfolding SameBooks
  mark_webhook-Sound id w (ok u, db) h =
      (modify-Sound (store_webhook id (record w { processed = true; processed_at = some db.clock }))
          (λ db. (refl, refl, refl))).run
        db h
  mark_webhook-Sound id w (err e, db) h =
      (modify-Sound (store_webhook id (record w { has_error = true }))
          (λ db. (refl, refl, refl))).run
        db h

  handle_event-Sound : (id : ℕ) → Keeps Sound (handle_webhook_event archive push verify id)
  unfolding handle_webhook_event
  handle_event-Sound id = record {
    run = λ db h. elim (Option-cases (find_by_id id db.paychangu_webhooks)) [
      | inl missing ↦ rw (missing, handle_webhook_event) h
      | inr (w, found) ↦
          rw (found, handle_webhook_event)
            (if-Sound w.processed _ _ h
              (mark_webhook-Sound id w _ ((process_event-Sound w).run db h)))
    ];
  }

  -- A webhook keeps the books sound, whatever it says and whatever the gateway answers, if the
  -- exchange with the vendor of the meters does.
  pub process_webhook-Sound :
      (has_secret is_signed : Bool) (event : WebhookEvent) (charge : Option ℕ)
      (status : Option RemoteStatus)
      → Keeps Sound (process_webhook archive push verify has_secret is_signed event charge status)
  unfolding process_webhook save_webhook SameBooks
  process_webhook-Sound has_secret is_signed event charge status = Keeps->> (Keeps-throw_if _ _) (
      Keeps->>= (record { run = λ db h. or_throw-Keeps Sound _ charge db h })
        λ ref.
          Keeps->>=
            (record {
              run = λ db h.
                  (modify-Sound
                      (λ db. record db {
                        paychangu_webhooks =
                            append (new_webhook event ref status) db.paychangu_webhooks;
                      })
                      (λ db. (refl, refl, refl))).run
                    db h;
            })
            λ id. record { run = λ db h. (handle_event-Sound id).run db h })
