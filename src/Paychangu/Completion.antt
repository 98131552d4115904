-- ===== src/Paychangu/Completion.antt =====
-- A payment that is reported as paid, once and again
-- (backend/src/paychangu/paychangu.service.ts, `queryPayment` and `handlePaymentCompleted`).
use mathlib.Core.Option.{some-injective}
use haroti_lpg_management.Common.Errors.{Reason, bad_request, Result, ok}
use haroti_lpg_management.Database.Documents.{
  PaychanguTransactionStatus, PaychanguPaymentMethod, PaychanguTransaction,
}
use haroti_lpg_management.Database.Keeps.{Keeps, Keeps-pure, Keeps->>=, Keeps->>, Keeps-when}
use haroti_lpg_management.Database.Returns.{>>=_ok}
use haroti_lpg_management.Database.Search.{find-holds, find-replace}
use haroti_lpg_management.Database.State.{Db, Op, find_or_throw, ◌>>=◌, ◌>>◌, modify, when}
use haroti_lpg_management.Database.Table.{Table, find_by_id, find_where, lookup-replace}
use haroti_lpg_management.Payc.{top_up_credit}
use haroti_lpg_management.Paychangu.{
  GatewayResponse, says_failed, first_known, map_status_from_paychangu, has_ref, store_payment,
  completed_payment, verify_charge, top_up_if_metered, complete_sale_of, fulfil,
  handle_payment_completed, apply_transaction_outcome, query_payment,
}
use haroti_lpg_management.Paychangu.Frame.{
  OfPayments, complete_paychangu_sale-kept, top_up_books-kept,
}
use haroti_lpg_management.Prelude.{
  ℤ, Bool-cases, Option-cases, is_some, ℕ, ◌≡◌, refl, sym, ap, ◌∙◌, subst, inl, inr, true, false,
  not, Option, some, arith,
}

-- The payment of a reference, under its identifier.
pub record IsPayment (ref id : ℕ) (t : PaychanguTransaction) (db : Db) : Type 0 where
  pub by_ref : find_where (has_ref ref) db.paychangu_transactions ≡ some (id, t)
  pub by_id : find_by_id id db.paychangu_transactions ≡ some t

-- The gateway answers that the payment is made.
pub record IsPaid (verify : ℕ → PaychanguPaymentMethod → Option GatewayResponse)
    (t : PaychanguTransaction) : Type 0 where
  pub response : GatewayResponse
  pub answered : verify t.transaction_ref t.payment_method ≡ some response
  pub accepted : response.is_ok ≡ true
  pub no_failure : says_failed response.status ≡ false
  pub completed :
      map_status_from_paychangu (first_known response.data_status response.status)
      ≡ PaychanguTransactionStatus.completed

abbrev pub with_payment_status : PaychanguTransaction → PaychanguTransaction
with_payment_status t = record t { status = PaychanguTransactionStatus.completed }

has_ref-same :
    (ref : ℕ) (t new : PaychanguTransaction)
    → new.transaction_ref ≡ t.transaction_ref
    → has_ref ref t ≡ true
    → has_ref ref new ≡ true
unfolding has_ref
has_ref-same ref t new same h = rw same h

store-IsPayment :
    (ref id : ℕ) (t new : PaychanguTransaction) (db : Db)
    → IsPayment ref id t db
    → new.transaction_ref ≡ t.transaction_ref
    → IsPayment ref id new (store_payment id new db)
store-IsPayment ref id t new db h same = record {
  by_ref =
      find-replace PaychanguTransaction (has_ref ref) id t new db.paychangu_transactions.rows
        h.by_ref h.by_id
        (has_ref-same ref t new same (
          find-holds (λ (r : ℕ × PaychanguTransaction). has_ref ref r.1)
            db.paychangu_transactions.rows h.by_ref));
  by_id =
      rw (lookup-replace id id new {old = t} db.paychangu_transactions.rows h.by_id) (ground arith);
}

verify_charge_paid :
    (verify : ℕ → PaychanguPaymentMethod → Option GatewayResponse) (t : PaychanguTransaction)
    (db : Db) (paid : IsPaid verify t)
    → verify_charge verify t db ≡ (ok paid.response, db)
unfolding verify_charge ◌>>=◌ ◌>>◌
verify_charge_paid verify t db paid = rw (paid.answered, paid.accepted, paid.no_failure) refl

module _ (archive : ℕ → Option ℕ) (push : ℕ → ℤ → Op (Unit {0}))
    (verify : ℕ → PaychanguPaymentMethod → Option GatewayResponse) where
  outcome_lem :
      (id : ℕ) (t : PaychanguTransaction) (db : Db) (s : PaychanguTransactionStatus)
      → s ≡ PaychanguTransactionStatus.completed
      → (modify (store_payment id (record t { status = s }))
            >> apply_transaction_outcome archive push id (record t { status = s }))
          db
        ≡ handle_payment_completed archive push id
            (with_payment_status t)
            (store_payment id (with_payment_status t) db)
  unfolding apply_transaction_outcome ◌>>◌
  outcome_lem id t db s h = rw h refl

  -- A query that finds the payment made does no more than `handlePaymentCompleted`.
  query_payment_paid :
      (ref id : ℕ) (t : PaychanguTransaction) (db : Db)
      → IsPayment ref id t db
      → IsPaid verify t
      → query_payment archive push verify ref db
        ≡ handle_payment_completed archive push id
            (with_payment_status t)
            (store_payment id (with_payment_status t) db)
  unfolding query_payment
  query_payment_paid ref id t db h paid =
      let row : ℕ × PaychanguTransaction = (id, t) in
      let stored = store_payment id (with_payment_status t) db in
      let read : find_or_throw (bad_request Reason.payment_not_found)
            (λ db. find_where (has_ref ref) db.paychangu_transactions) db
          ≡ (ok row, db) =
        rw h.by_ref refl in
      >>=_ok
        (find_or_throw (bad_request Reason.payment_not_found)
          (λ db. find_where (has_ref ref) db.paychangu_transactions))
        _ read
      ∙ >>=_ok (verify_charge verify t) _ (verify_charge_paid verify t db paid)
      ∙ outcome_lem id t db _ paid.completed

  top_up-kept :
      (Q : Table PaychanguTransaction → Type 0) (t : PaychanguTransaction)
      → ((meter : ℕ) (amount : ℤ) → Keeps (OfPayments Q) (push meter amount))
      → Keeps (OfPayments Q) (top_up_if_metered archive push t)
  unfolding top_up_if_metered top_up_credit
  top_up-kept Q t pushed = elim (Option-cases t.payc_meter_id) [
    | inl nobody ↦ rw (nobody, top_up_if_metered) (Keeps-pure tt)
    | inr (meter, known) ↦
        rw (known, top_up_if_metered)
          (Keeps->>= (top_up_books-kept Q archive meter t.amount _ _)
            λ m. Keeps-when _ (pushed meter t.amount))
  ]

  sale-kept :
      (Q : Table PaychanguTransaction → Type 0) (t : PaychanguTransaction)
      → Keeps (OfPayments Q) (complete_sale_of archive push t)
  unfolding complete_sale_of
  sale-kept Q t = elim (Option-cases t.sale_id) [
    | inl nobody ↦ rw (nobody, complete_sale_of) (Keeps-pure tt)
    | inr (sale, known) ↦ rw (known, complete_sale_of) (complete_paychangu_sale-kept Q sale)
  ]

  -- A query that finds the payment made and its row completed only saves the row.
  pub query_payment_done :
      (ref id : ℕ) (t : PaychanguTransaction) (db : Db)
      → IsPayment ref id t db
      → IsPaid verify t
      → is_some t.completed_at ≡ true
      → query_payment archive push verify ref db
        ≡ (ok tt, store_payment id (with_payment_status t) db)
  unfolding handle_payment_completed
  query_payment_done ref id t db h paid already =
      query_payment_paid ref id t db h paid ∙ rw already refl

  module _
      (pushed : (Q : Table PaychanguTransaction → Type 0) (meter : ℕ) (amount : ℤ)
        → Keeps (OfPayments Q) (push meter amount)) where
    fulfil-IsPayment :
        (ref id : ℕ) (t : PaychanguTransaction) (db : Db)
        → IsPayment ref id t db
        → IsPayment ref id (completed_payment db.clock t) (fulfil archive push id t db).1
    unfolding fulfil ◌>>◌
    fulfil-IsPayment ref id t db h =
        let new = completed_payment db.clock t in
        let Q = λ (rows : Table PaychanguTransaction).
          (find_where (has_ref ref) rows ≡ some (id, new)) × (find_by_id id rows ≡ some new) in
        let first = store-IsPayment ref id t new db h refl in
        let (a, b) =
          (Keeps->> (top_up-kept Q t (pushed Q)) (sale-kept Q t)).run (store_payment id new db)
            (first.by_ref, first.by_id) in
        record { by_ref = a; by_id = b }

    -- The row that a completion leaves is marked as completed.
    handled_lem :
        (ref id : ℕ) (t : PaychanguTransaction) (db : Db)
        → IsPayment ref id t db
        → (t' : PaychanguTransaction) × IsPayment ref id t'
            (handle_payment_completed archive push id t db).1
          × (is_some t'.completed_at ≡ true)
          × (t'.transaction_ref ≡ t.transaction_ref)
          × (t'.payment_method ≡ t.payment_method)
    unfolding handle_payment_completed
    handled_lem ref id t db h = elim (Bool-cases (is_some t.completed_at)) [
      | inr new ↦ (
        completed_payment db.clock t,
        subst
            (λ b.
              IsPayment ref id (completed_payment db.clock t)
                (when (not b) (fulfil archive push id t) db).1)
            (sym new) (fulfil-IsPayment ref id t db h),
        refl,
        refl,
        refl,
      )
      | inl old ↦ (
        t,
        subst (λ b. IsPayment ref id t (when (not b) (fulfil archive push id t) db).1) (sym old) h,
        old,
        refl,
        refl,
      )
    ]

-- After a query that found the payment made, whether it returned or failed on the way, a query at
-- any later time, in any state in which the row of the payment still has the completion time that
-- the first query left in it, and for which the gateway, whatever else it answers then, says that
-- the payment is made, returns and does no more than save the row. The exchange with the vendor of
-- the meters must leave the payments alone.
pub query_payment-once :
    (archive : ℕ → Option ℕ) (push : ℕ → ℤ → Op (Unit {0}))
    (verify verify' : ℕ → PaychanguPaymentMethod → Option GatewayResponse)
    (pushed : (Q : Table PaychanguTransaction → Type 0) (meter : ℕ) (amount : ℤ)
      → Keeps (OfPayments Q) (push meter amount))
    (ref id : ℕ) (t t1 t2 : PaychanguTransaction) (db db' later_db : Db) {r : Result (Unit {0})}
    → IsPayment ref id t db
    → IsPaid verify t
    → query_payment archive push verify ref db ≡ (r, db')
    → find_by_id id db'.paychangu_transactions ≡ some t1
    → IsPayment ref id t2 later_db
    → t2.completed_at ≡ t1.completed_at
    → IsPaid verify' t2
    → query_payment archive push verify' ref later_db
      ≡ (ok tt, store_payment id (with_payment_status t2) later_db)
query_payment-once archive push verify verify' pushed ref id t t1 t2 db db' later_db h paid run left
      h2 same paid2 =
    let t0 = with_payment_status t in
    let first = store-IsPayment ref id t t0 db h refl in
    let (u, there, already, same_ref, same_method) =
      handled_lem archive push verify pushed ref id t0 (store_payment id t0 db) first in
    let ran =
      ap (λ (x : Result (Unit {0}) × Db). x.1)
        (sym (query_payment_paid archive push verify ref id t db h paid) ∙ run) in
    let there' : IsPayment ref id u db' = subst (IsPayment ref id u) ran there in
    let is_u : u ≡ t1 = some-injective _ _ (sym there'.by_id ∙ left) in
    let marked : is_some t2.completed_at ≡ true =
      ap is_some (same ∙ ap (λ (x : PaychanguTransaction). x.completed_at) (sym is_u)) ∙ already in
    query_payment_done archive push verify' ref id t2 later_db h2 paid2 marked
