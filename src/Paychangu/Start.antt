-- ===== src/Paychangu/Start.antt =====
-- `initiatePayment`, `findBySaleId` and `syncPendingPayments`
-- (backend/src/paychangu/paychangu.service.ts).
use haroti_lpg_management.Common.Enums.{PaymentMethod}
use haroti_lpg_management.Common.Errors.{Reason, bad_request, Result, ok, err}
use haroti_lpg_management.Database.Documents.{
  PaychanguTransactionStatus, PaychanguPaymentMethod, PaychanguTransaction,
}
use haroti_lpg_management.Database.State.{Db, Op, throw, or_throw, ◌>>=◌, ◌>>◌, throw_if}
use haroti_lpg_management.Database.Table.{append, find_where, all_where}
use haroti_lpg_management.Paychangu.{
  GatewayResponse, says_failed, map_payment_method, is_open_payment, has_ref, store_payment,
  query_payment,
}
use haroti_lpg_management.Paychangu.Phone.{PhoneChar, normalize_phone}
use haroti_lpg_management.Prelude.{
  ℤ, last_of, ◌==◌, if◌then◌else◌, ◌+◌, ◌-◌, ℕ, Bool, false, not, ◌||◌, Option, none, some, List,
  [], ◌∷◌,
}

pub record PaymentParams : Type 0 where
  pub amount : ℤ
  pub payment_method : PaymentMethod
  pub customer_phone : Option (List PhoneChar)
  pub has_card : Bool
  pub sale_id : Option ℕ
  pub payc_meter_id : Option ℕ

-- An answer to a charge of a card: `response.ok`, and whether the body says `success: false`.
pub record CardResponse : Type 0 where
  pub is_ok : Bool
  pub is_refused : Bool

-- The row of `txnRepo.create`; `ref` is the charge id that was generated.
abbrev pub new_payment : PaymentParams → ℕ → PaychanguPaymentMethod → PaychanguTransaction
new_payment p ref method = record {
  transaction_ref = ref;
  payment_method = method;
  amount = p.amount;
  status = PaychanguTransactionStatus.pending;
  completed_at = none;
  sale_id = p.sale_id;
  payc_meter_id = p.payc_meter_id;
}

unfoldable pub save_payment_row : PaychanguTransaction → Op ℕ
save_payment_row t db = (
  ok db.paychangu_transactions.next_id,
  record db { paychangu_transactions = append t db.paychangu_transactions },
)

abbrev pub with_payment : PaychanguTransactionStatus → PaychanguTransaction → PaychanguTransaction
with_payment status t = record t { status = status }

-- The save at the end of the `try`, or the one of the `catch`, which throws again.
abbrev pub settle_attempt : ℕ → PaychanguTransaction → Result (Unit {0}) × Db → Result ℕ × Db
settle_attempt id t (ok u, db) =
    (ok id, store_payment id (with_payment PaychanguTransactionStatus.processing t) db)
settle_attempt id t (err e, db) =
    (err e, store_payment id (with_payment PaychanguTransactionStatus.failed t) db)

-- What the gateway answers to a charge of a phone and of a card, none where the request fails.
module _ (charge : ℕ → List ℕ → ℤ → Option GatewayResponse)
    (charge_card : ℕ → ℤ → Option CardResponse) where
  -- `initiateCardCharge` with `callPaychanguCardApi`, up to the save
  unfoldable pub initiate_card_charge : PaymentParams → ℕ → Op (Unit {0})
  initiate_card_charge p ref = do
    throw_if (not p.has_card) (bad_request Reason.card_details_required)
    r ← or_throw (bad_request Reason.gateway_failed) (charge_card ref p.amount)
    throw_if (not r.is_ok || r.is_refused) (bad_request Reason.gateway_failed)

  unfoldable pub initiate_mobile : PaymentParams → ℕ → Op (Unit {0})
  initiate_mobile p ref = do
    phone ← or_throw (bad_request Reason.phone_required) p.customer_phone
    mobile ← or_throw (bad_request Reason.phone_invalid) (normalize_phone phone)
    r ← or_throw (bad_request Reason.gateway_failed) (charge ref mobile p.amount)
    throw_if (not r.is_ok || says_failed r.status) (bad_request Reason.gateway_failed)

  -- The calls in the `try`, by the method.
  abbrev pub attempt : PaymentParams → ℕ → PaychanguPaymentMethod → Op (Unit {0})
  attempt p ref PaychanguPaymentMethod.card = initiate_card_charge p ref
  attempt p ref PaychanguPaymentMethod.airtel_money = initiate_mobile p ref
  attempt p ref PaychanguPaymentMethod.tnm_mpamba = initiate_mobile p ref
  attempt p ref PaychanguPaymentMethod.bank_transfer =
      throw (bad_request Reason.direct_charge_missing)

  -- `initiatePayment`: the id of the row.
  unfoldable pub initiate_payment : Bool → PaymentParams → ℕ → Op ℕ
  initiate_payment has_secret p ref = do
    throw_if (not has_secret) (bad_request Reason.gateway_failed)
    method ← or_throw (bad_request Reason.unsupported_method) (map_payment_method p.payment_method)
    id ← save_payment_row (new_payment p ref method)
    λ db. settle_attempt id (new_payment p ref method) (attempt p ref method db)

-- `findBySaleId`: the last of the payments of the sale.
unfoldable pub is_payment_of : ℕ → PaychanguTransaction → Bool
is_payment_of sale t = elim t.sale_id [ none ↦ false | some s ↦ s == sale ]

unfoldable pub find_by_sale_id : ℕ → Db → Option (ℕ × PaychanguTransaction)
find_by_sale_id sale db = last_of (all_where (is_payment_of sale) db.paychangu_transactions)

abbrev pub payment_status_tag : PaychanguTransactionStatus → ℕ
payment_status_tag PaychanguTransactionStatus.pending = 0
payment_status_tag PaychanguTransactionStatus.processing = 1
payment_status_tag PaychanguTransactionStatus.completed = 2
payment_status_tag PaychanguTransactionStatus.failed = 3
payment_status_tag PaychanguTransactionStatus.cancelled = 4
payment_status_tag PaychanguTransactionStatus.expired = 5

-- `take: n`
abbrev pub take_first : {A : Type 0} → ℕ → List A → List A
take_first n [] = []
take_first n (x ∷ xs) = let rest = take_first (n - 1) xs in if n == 0 then [] else x ∷ rest

-- The counts of `syncPendingPayments`.
pub record SyncCounts : Type 0 where
  pub resolved_count : ℕ
  pub error_count : ℕ

-- Whether the row under the reference has another status now.
unfoldable pub has_changed : PaychanguTransaction → Db → Bool
has_changed t db = elim (find_where (has_ref t.transaction_ref) db.paychangu_transactions) [
  | none ↦ false
  | some r ↦ not (payment_status_tag r.1.status == payment_status_tag t.status)
]

module _ (archive : ℕ → Option ℕ) (push : ℕ → ℤ → Op (Unit {0}))
    (verify : ℕ → PaychanguPaymentMethod → Option GatewayResponse) where
  -- The counts with one payment more, after its query.
  abbrev pub count_one :
      PaychanguTransaction → Result (Unit {0}) × Db → SyncCounts → SyncCounts × Db
  count_one t (ok u, db) c =
      (if has_changed t db then record c { resolved_count = c.resolved_count + 1 } else c, db)
  count_one t (err e, db) c = (record c { error_count = c.error_count + 1 }, db)

  unfoldable pub sync_payments : List (ℕ × PaychanguTransaction) → SyncCounts → Db → SyncCounts × Db
  sync_payments [] c db = (c, db)
  sync_payments (r ∷ rows) c db =
      let (c', db') = count_one r.1 (query_payment archive push verify r.1.transaction_ref db) c in
      sync_payments rows c' db'

  -- `syncPendingPayments`
  unfoldable pub sync_pending_payments : Db → SyncCounts × Db
  sync_pending_payments db =
      sync_payments
        (take_first 100 (all_where (λ t. is_open_payment t.status) db.paychangu_transactions))
        (record { resolved_count = 0; error_count = 0 }) db
