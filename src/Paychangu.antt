-- ===== src/Paychangu.antt =====
-- backend/src/paychangu/paychangu.service.ts: payments through the gateway. What the gateway
-- answers is a parameter, as are the price in the archive of the meters' vendor and the exchange
-- with it. Log lines and the free texts of the metadata are left out.
pub mod Phone
pub mod Completion
pub mod Refresh
pub mod Frame
pub mod Start
pub mod Outcome
use haroti_lpg_management.Common.Enums.{PaymentMethod}
use haroti_lpg_management.Common.Errors.{Reason, bad_request, Result, ok, err}
use haroti_lpg_management.Database.Documents.{
  PaychanguTransactionStatus, PaychanguPaymentMethod, PaychanguTransaction, WebhookEvent,
  StatusWord, RemoteStatus, PaychanguWebhook,
}
use haroti_lpg_management.Database.State.{
  Db, Op, pure, or_throw, find_or_throw, ◌>>=◌, ◌>>◌, throw_if, modify, when,
}
use haroti_lpg_management.Database.Table.{find_by_id, store, append, find_where}
use haroti_lpg_management.Payc.{top_up_credit}
use haroti_lpg_management.Prelude.{
  ℤ, ◌==◌, if◌then◌else◌, is_some, ℕ, Bool, true, false, not, ◌&&◌, ◌||◌, Option, none, some,
}
use haroti_lpg_management.Sales.Lifecycle.{complete_paychangu_sale, fail_paychangu_sale}

-- An answer of the gateway: `response.ok`, and `status` and `data.status` of its body.
pub record GatewayResponse : Type 0 where
  pub is_ok : Bool
  pub status : Option RemoteStatus
  pub data_status : Option RemoteStatus

abbrev pub is_failed_word : StatusWord → Bool
is_failed_word StatusWord.failed = true
is_failed_word _ = false

abbrev pub is_success_word : StatusWord → Bool
is_success_word StatusWord.success = true
is_success_word StatusWord.successful = true
is_success_word _ = false

-- `status === 'failed'`
unfoldable pub says_failed : Option RemoteStatus → Bool
says_failed none = false
says_failed (some s) = is_failed_word s.word && s.is_lower_case

-- `status === 'success' || status === 'successful'`
unfoldable pub says_success : Option RemoteStatus → Bool
says_success none = false
says_success (some s) = is_success_word s.word && s.is_lower_case

-- `a ?? b`
abbrev pub first_known : Option RemoteStatus → Option RemoteStatus → Option RemoteStatus
first_known none b = b
first_known (some a) b = some a

-- `mapStatusFromPaychangu`, which puts the text in lower case first
abbrev pub map_status_from_paychangu : Option RemoteStatus → PaychanguTransactionStatus
map_status_from_paychangu none = PaychanguTransactionStatus.pending
map_status_from_paychangu (some s) = elim s.word [
  | StatusWord.pending ↦ PaychanguTransactionStatus.pending
  | StatusWord.processing ↦ PaychanguTransactionStatus.processing
  | StatusWord.success ↦ PaychanguTransactionStatus.completed
  | StatusWord.successful ↦ PaychanguTransactionStatus.completed
  | StatusWord.completed ↦ PaychanguTransactionStatus.completed
  | StatusWord.failed ↦ PaychanguTransactionStatus.failed
  | StatusWord.cancelled ↦ PaychanguTransactionStatus.cancelled
  | StatusWord.expired ↦ PaychanguTransactionStatus.expired
  | StatusWord.unknown ↦ PaychanguTransactionStatus.pending
]

-- `mapPaymentMethod`, none where it throws
abbrev pub map_payment_method : PaymentMethod → Option PaychanguPaymentMethod
map_payment_method PaymentMethod.airtel_money = some PaychanguPaymentMethod.airtel_money
map_payment_method PaymentMethod.tnm_mpamba = some PaychanguPaymentMethod.tnm_mpamba
map_payment_method PaymentMethod.card = some PaychanguPaymentMethod.card
map_payment_method PaymentMethod.bank_transfer = some PaychanguPaymentMethod.bank_transfer
map_payment_method PaymentMethod.paychangu = some PaychanguPaymentMethod.airtel_money
map_payment_method PaymentMethod.cash = none
map_payment_method PaymentMethod.customer_account = none
map_payment_method PaymentMethod.mixed = none

abbrev pub is_completed_payment : PaychanguTransactionStatus → Bool
is_completed_payment PaychanguTransactionStatus.completed = true
is_completed_payment _ = false

-- FAILED, CANCELLED or EXPIRED
abbrev pub is_failed_payment : PaychanguTransactionStatus → Bool
is_failed_payment PaychanguTransactionStatus.failed = true
is_failed_payment PaychanguTransactionStatus.cancelled = true
is_failed_payment PaychanguTransactionStatus.expired = true
is_failed_payment _ = false

-- PENDING or PROCESSING
abbrev pub is_open_payment : PaychanguTransactionStatus → Bool
is_open_payment PaychanguTransactionStatus.pending = true
is_open_payment PaychanguTransactionStatus.processing = true
is_open_payment _ = false

-- `api.charge.payment` or `payment.completed`
abbrev pub is_payment_event : WebhookEvent → Bool
is_payment_event WebhookEvent.api_charge_payment = true
is_payment_event WebhookEvent.payment_completed = true
is_payment_event WebhookEvent.other_event = false

-- `where: { transactionRef }`
unfoldable pub has_ref : ℕ → PaychanguTransaction → Bool
has_ref ref t = t.transaction_ref == ref

abbrev pub store_payment : ℕ → PaychanguTransaction → Db → Db
store_payment id t db = record db { paychangu_transactions = store id t db.paychangu_transactions }

abbrev pub completed_payment : ℕ → PaychanguTransaction → PaychanguTransaction
completed_payment now t = record t {
  status = PaychanguTransactionStatus.completed;
  completed_at = some now;
}

-- `handlePaymentFailed`; an exception of the sale is only logged.
unfoldable pub fail_sale_of : PaychanguTransaction → Op (Unit {0})
fail_sale_of t db = elim t.sale_id [
  | none ↦ (ok tt, db)
  | some sale ↦ (ok tt, (fail_paychangu_sale sale db).1)
]

unfoldable pub handle_payment_failed : ℕ → PaychanguTransaction → Op (Unit {0})
handle_payment_failed id t = do
  when (not (is_failed_payment t.status))
      (modify (store_payment id (record t { status = PaychanguTransactionStatus.failed })))
  fail_sale_of t

abbrev pub store_webhook : ℕ → PaychanguWebhook → Db → Db
store_webhook id w db = record db { paychangu_webhooks = store id w db.paychangu_webhooks }

-- The end of `handleWebhookEvent`: the webhook is marked, or its error is kept.
abbrev pub mark_webhook : ℕ → PaychanguWebhook → Result (Unit {0}) × Db → Result (Unit {0}) × Db
mark_webhook id w (ok u, db) =
    (ok tt, store_webhook id (record w { processed = true; processed_at = some db.clock }) db)
mark_webhook id w (err e, db) = (err e, store_webhook id (record w { has_error = true }) db)

abbrev pub new_webhook : WebhookEvent → ℕ → Option RemoteStatus → PaychanguWebhook
new_webhook event ref status = record {
  event_type = event;
  transaction_ref = ref;
  payload_status = status;
  processed = false;
  processed_at = none;
  has_error = false;
}

unfoldable pub save_webhook : PaychanguWebhook → Op ℕ
save_webhook w db = (
  ok db.paychangu_webhooks.next_id,
  record db { paychangu_webhooks = append w db.paychangu_webhooks },
)

-- `verify` is what the gateway answers to `verifyChargeOnPaychangu`, none where the request itself
-- fails.
module _ (verify : ℕ → PaychanguPaymentMethod → Option GatewayResponse) where
  -- `callPaychanguApi` of a verification
  unfoldable pub verify_charge : PaychanguTransaction → Op GatewayResponse
  verify_charge t = do
    r ← or_throw (bad_request Reason.gateway_failed) (verify t.transaction_ref t.payment_method)
    throw_if (not r.is_ok || says_failed r.status) (bad_request Reason.gateway_failed)
    pure r

module _ (archive : ℕ → Option ℕ) (push : ℕ → ℤ → Op (Unit {0})) where
  unfoldable pub top_up_if_metered : PaychanguTransaction → Op (Unit {0})
  top_up_if_metered t = elim t.payc_meter_id [
    | none ↦ pure tt
    | some meter ↦
        top_up_credit archive push true meter t.amount PaymentMethod.paychangu
          (some t.transaction_ref)
  ]

  unfoldable pub complete_sale_of : PaychanguTransaction → Op (Unit {0})
  complete_sale_of t = elim t.sale_id [ none ↦ pure tt | some sale ↦ complete_paychangu_sale sale ]

  -- `handlePaymentCompleted` of a payment that is not completed yet
  unfoldable pub fulfil : ℕ → PaychanguTransaction → Op (Unit {0})
  fulfil id t = do
    modify (λ db. store_payment id (completed_payment db.clock t) db)
    top_up_if_metered t
    complete_sale_of t

  -- `handlePaymentCompleted`
  unfoldable pub handle_payment_completed : ℕ → PaychanguTransaction → Op (Unit {0})
  handle_payment_completed id t = when (not (is_some t.completed_at)) (fulfil id t)

  -- `applyTransactionOutcome`
  unfoldable pub apply_transaction_outcome : ℕ → PaychanguTransaction → Op (Unit {0})
  apply_transaction_outcome id t =
      if is_completed_payment t.status
      then handle_payment_completed id t
      else when (is_failed_payment t.status) (handle_payment_failed id t)

  module _ (verify : ℕ → PaychanguPaymentMethod → Option GatewayResponse) where
    -- `queryPayment`
    unfoldable pub query_payment : ℕ → Op (Unit {0})
    query_payment ref = do
      row ←
          find_or_throw (bad_request Reason.payment_not_found)
            (λ db. find_where (has_ref ref) db.paychangu_transactions)
      r ← verify_charge verify row.1
      let t = record row.1 {
        status = map_status_from_paychangu (first_known r.data_status r.status);
      }
      modify (store_payment row.0 t)
      apply_transaction_outcome row.0 t

    -- The part of `handleWebhookEvent` in its `try`.
    unfoldable pub webhook_outcome :
        WebhookEvent → Option RemoteStatus → ℕ → PaychanguTransaction → Op (Unit {0})
    webhook_outcome event status id t =
        if is_payment_event event && says_success status
        then handle_payment_completed id t
        else when (says_failed status) (handle_payment_failed id t)

    unfoldable pub process_event : PaychanguWebhook → Op (Unit {0})
    process_event w = do
      row ←
          find_or_throw (bad_request Reason.payment_not_found)
            (λ db. find_where (has_ref w.transaction_ref) db.paychangu_transactions)
      r ← verify_charge verify row.1
      webhook_outcome w.event_type
          (first_known r.data_status (first_known r.status w.payload_status)) row.0 row.1

    -- `handleWebhookEvent`
    unfoldable pub handle_webhook_event : ℕ → Op (Unit {0})
    handle_webhook_event id db = elim (find_by_id id db.paychangu_webhooks) [
      | none ↦ (ok tt, db)
      | some w ↦ if w.processed then (ok tt, db) else mark_webhook id w (process_event w db)
    ]

    -- `processWebhook`, with whether a secret is set and the signature is right; the exceptions of
    -- the event are only logged.
    unfoldable pub process_webhook :
        Bool → Bool → WebhookEvent → Option ℕ → Option RemoteStatus → Op ℕ
    process_webhook has_secret is_signed event charge_id status = do
      throw_if (has_secret && not is_signed) (bad_request Reason.invalid_signature)
      ref ← or_throw (bad_request Reason.charge_id_missing) charge_id
      id ← save_webhook (new_webhook event ref status)
      λ db. (ok id, (handle_webhook_event id db).1)
