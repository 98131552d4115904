-- ===== src/Customers.antt =====
-- backend/src/customers/customers.service.ts: the credit accounts of the customers. The
-- notifications that follow a payment are not modelled.
pub mod Credit
use haroti_lpg_management.Common.Enums.{PaymentMethod}
use haroti_lpg_management.Common.Errors.{Reason, bad_request, not_found, ok}
use haroti_lpg_management.Database.Entities.{TxnId, same_txn, Customer, CustomerPayment}
use haroti_lpg_management.Database.State.{
  Db, Op, pure, find_or_throw, ◌>>=◌, ◌>>◌, throw_if, modify,
}
use haroti_lpg_management.Database.Table.{find_by_id, store, append, find_where}
use haroti_lpg_management.Finance.Posting.{post_customer_payment}
use haroti_lpg_management.Prelude.{
  ℤ, pos, ◌+ℤ◌, ◌-ℤ◌, ltb_ℤ, leb_ℤ, max_zero, ℕ, false, Option, none, some,
}

unfoldable pub find_customer : ℕ → Op Customer
find_customer id =
    find_or_throw (not_found Reason.customer_not_found) (λ db. find_by_id id db.customers)

-- `checkCredit`
unfoldable pub check_credit : ℕ → ℤ → Op Customer
check_credit id amount = do
  c ← find_customer id
  throw_if c.is_suspended (bad_request Reason.customer_suspended)
  throw_if (ltb_ℤ (c.credit_limit -ℤ c.outstanding_balance) amount)
      (bad_request Reason.credit_limit_exceeded)
  pure c

-- A customer with a new balance, saved.
abbrev pub save_balance : ℕ → Customer → ℤ → Db → Db
save_balance id c balance db = record db {
  customers = store id (record c { outstanding_balance = balance }) db.customers;
}

-- `applyCredit`
unfoldable pub apply_credit : ℕ → ℤ → Op (Unit {0})
apply_credit id amount = do
  c ← find_customer id
  modify (save_balance id c (c.outstanding_balance +ℤ amount))

-- `relieveCredit`
unfoldable pub relieve_credit : ℕ → ℤ → Op (Unit {0})
relieve_credit id amount = do
  c ← find_customer id
  modify (save_balance id c (max_zero (c.outstanding_balance -ℤ amount)))

pub record PaymentDto : Type 0 where
  pub amount : ℤ
  pub payment_method : PaymentMethod
  pub client_txn_id : Option TxnId

unfoldable pub existing_payment : Option TxnId → Db → Option (ℕ × CustomerPayment)
existing_payment none db = none
existing_payment (some t) db =
    find_where (λ p. elim p.client_txn_id [ none ↦ false | some u ↦ same_txn u t ])
      db.customer_payments

abbrev pub payment_row : ℕ → PaymentDto → ℕ → ℕ → CustomerPayment
payment_row id dto received_by clock = record {
  customer_id = id;
  amount = dto.amount;
  payment_method = dto.payment_method;
  received_by_id = received_by;
  paid_at = clock;
  client_txn_id = dto.client_txn_id;
}

-- `paymentsRepo.save(...)`: the id of the new payment.
unfoldable pub save_payment : ℕ → PaymentDto → ℕ → Op ℕ
save_payment id dto received_by db = (
  ok db.customer_payments.next_id,
  record db {
    customer_payments = append (payment_row id dto received_by db.clock) db.customer_payments;
  },
)

-- `recordPayment` of a payment that is new.
unfoldable pub record_new_payment : ℕ → PaymentDto → ℕ → Op ℕ
record_new_payment id dto received_by = do
  c ← find_customer id
  throw_if (leb_ℤ dto.amount (pos 0)) (bad_request Reason.payment_not_positive)
  payment ← save_payment id dto received_by
  modify (save_balance id c (max_zero (c.outstanding_balance -ℤ dto.amount)))
  post_customer_payment dto.amount payment
  pure payment

unfoldable pub record_payment : ℕ → PaymentDto → ℕ → Op ℕ
record_payment id dto received_by db = elim (existing_payment dto.client_txn_id db) [
  | some p ↦ (ok p.0, db)
  | none ↦ record_new_payment id dto received_by db
]
