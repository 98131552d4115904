-- ===== src/Customers/Credit.antt =====
-- The credit of the customers: the limit, and what sales and payments do to the balance.
use haroti_lpg_management.Common.Errors.{Reason, bad_request, not_found, Result, ok, err}
use haroti_lpg_management.Customers.{
  find_customer, check_credit, save_balance, apply_credit, relieve_credit, PaymentDto,
  existing_payment, save_payment, record_new_payment, record_payment,
}
use haroti_lpg_management.Database.Entities.{JournalEntry, Customer}
use haroti_lpg_management.Database.Keeps.{
  Keeps, Keeps-pure, Keeps-find_or_throw, Keeps-throw_if, Keeps->>=, Keeps->>,
}
use haroti_lpg_management.Database.State.{Db, ◌>>=◌, ◌>>◌, modify}
use haroti_lpg_management.Database.Table.{find_by_id, Every, lookup-replace, replace-All}
use haroti_lpg_management.Finance.Balance.{assert_open-Keeps}
use haroti_lpg_management.Finance.Journal.{save_entry, post_entry}
use haroti_lpg_management.Finance.Posting.{post_customer_payment}
use haroti_lpg_management.Finance.Saved.{save_entry-Frame}
use haroti_lpg_management.Prelude.{
  ℤ, pos, ◌+ℤ◌, ◌-ℤ◌, ◌≤ℤ◌, ltb_ℤ, max_zero, one_sign, int_laws, if◌then◌else◌, Bool-cases,
  Option-cases, ℕ, ◌≡◌, refl, sym, ap, ◌∙◌, inl, inr, false, none, some, arith,
}

unfoldable pub BalancesAreNonneg : Db → Type 0
BalancesAreNonneg db = Every (λ c. pos 0 ≤ℤ c.outstanding_balance) db.customers

-- What the checks of a customer who was found come to.
credit_checks : ℤ → Customer → Db → Result Customer × Db
credit_checks amount c db =
    if c.is_suspended
    then (err (bad_request Reason.customer_suspended), db)
    else if ltb_ℤ (c.credit_limit -ℤ c.outstanding_balance) amount
    then (err (bad_request Reason.credit_limit_exceeded), db)
    else (ok c, db)

check_credit_lem :
    (id : ℕ) (amount : ℤ) (db : Db) {c : Customer}
    → find_by_id id db.customers ≡ some c
    → check_credit id amount db ≡ credit_checks amount c db
unfolding check_credit find_customer credit_checks ◌>>=◌ ◌>>◌
check_credit_lem id amount db {c} found = rw found (elim (Bool-cases c.is_suspended) [
  | inl bad ↦ rw bad refl
  | inr good ↦ rw good (elim (Bool-cases (ltb_ℤ (c.credit_limit -ℤ c.outstanding_balance) amount)) [
    | inl over ↦ rw over refl
    | inr within ↦ rw within refl
  ])
])

pub ltb_false : (a b : ℤ) → ltb_ℤ a b ≡ false → b ≤ℤ a
ltb_false a b h = ground arith

fits :
    (c : Customer) (amount : ℤ)
    → ltb_ℤ (c.credit_limit -ℤ c.outstanding_balance) amount ≡ false
    → c.outstanding_balance +ℤ amount ≤ℤ c.credit_limit
fits c amount h =
    let within = ltb_false (c.credit_limit -ℤ c.outstanding_balance) amount h in omega int_laws

credit_checks-limit :
    (amount : ℤ) (c d : Customer) (db db' : Db)
    → credit_checks amount c db ≡ (ok d, db')
    → (c ≡ d) × (c.is_suspended ≡ false) × (c.outstanding_balance +ℤ amount ≤ℤ c.credit_limit)
unfolding credit_checks
credit_checks-limit amount c d db db' h = elim (Bool-cases c.is_suspended) [
  | inl bad ↦ cc (rw bad at h)
  | inr good ↦ elim (Bool-cases (ltb_ℤ (c.credit_limit -ℤ c.outstanding_balance) amount)) [
    | inl over ↦ cc (rw (good, over) at h)
    | inr within ↦ (cc (rw (good, within) at h), good, fits c amount within)
  ]
]

unknown_customer :
    (id : ℕ) (amount : ℤ) (db : Db)
    → find_by_id id db.customers ≡ none
    → check_credit id amount db ≡ (err (not_found Reason.customer_not_found), db)
unfolding check_credit find_customer ◌>>=◌
unknown_customer id amount db missing = rw missing refl

-- A credit check that returns found a customer who is not suspended and whose balance plus the
-- amount is within the credit limit.
pub check_credit-limit :
    (id : ℕ) (amount : ℤ) (db : Db) {c : Customer} {db' : Db}
    → check_credit id amount db ≡ (ok c, db')
    → (find_by_id id db.customers ≡ some c)
      × (c.is_suspended ≡ false)
      × (c.outstanding_balance +ℤ amount ≤ℤ c.credit_limit)
check_credit-limit id amount db {c} {db'} h = elim (Option-cases (find_by_id id db.customers)) [
  | inl missing ↦ cc (h, unknown_customer id amount db missing)
  | inr (d, found) ↦
      let (same, active, within) =
        credit_checks-limit amount d c db db' (sym (check_credit_lem id amount db found) ∙ h) in
      (rw same at found, rw same at active, rw same at within)
]

apply_credit_lem :
    (id : ℕ) (amount : ℤ) (db : Db) {c : Customer}
    → find_by_id id db.customers ≡ some c
    → apply_credit id amount db ≡ (ok tt, save_balance id c (c.outstanding_balance +ℤ amount) db)
unfolding apply_credit find_customer ◌>>=◌
apply_credit_lem id amount db found = rw found refl

relieve_credit_lem :
    (id : ℕ) (amount : ℤ) (db : Db) {c : Customer}
    → find_by_id id db.customers ≡ some c
    → relieve_credit id amount db
      ≡ (ok tt, save_balance id c (max_zero (c.outstanding_balance -ℤ amount)) db)
unfolding relieve_credit find_customer ◌>>=◌
relieve_credit_lem id amount db found = rw found refl

save_balance-found :
    (id : ℕ) (c : Customer) (balance : ℤ) (db : Db)
    → find_by_id id db.customers ≡ some c
    → find_by_id id (save_balance id c balance db).customers
      ≡ some (record c { outstanding_balance = balance })
save_balance-found id c balance db found =
    rw (lookup-replace id id (record c { outstanding_balance = balance }) db.customers.rows found)
      (ground arith)

round_trip : (b a : ℤ) → pos 0 ≤ℤ b → max_zero (b +ℤ a -ℤ a) ≡ b
round_trip b a h = elim (one_sign (b +ℤ a -ℤ a)) [
  | inl low ↦ elim (one_sign b) [ inl m ↦ omega int_laws | inr m ↦ omega int_laws ]
  | inr high ↦ elim (one_sign b) [ inl m ↦ omega int_laws | inr m ↦ omega int_laws ]
]

-- For a customer who is there with a balance that is not negative, applying a credit and relieving
-- the same amount restores the customer.
pub relieve_credit-apply_credit :
    (id : ℕ) (amount : ℤ) (db : Db) {c : Customer}
    → find_by_id id db.customers ≡ some c
    → pos 0 ≤ℤ c.outstanding_balance
    → find_by_id id (relieve_credit id amount (apply_credit id amount db).1).1.customers ≡ some c
relieve_credit-apply_credit id amount db {c} found b =
    let owing = c.outstanding_balance +ℤ amount in
    let saved = save_balance-found id c owing db found in
    rw
      (
        apply_credit_lem id amount db found,
        relieve_credit_lem id amount (save_balance id c owing db) saved,
      )
      (save_balance-found id (record c { outstanding_balance = owing }) (max_zero (owing -ℤ amount))
          (save_balance id c owing db) saved
        ∙ ap (λ x. some (record c { outstanding_balance = x }))
            (round_trip c.outstanding_balance amount b))

balance-Keeps :
    (id : ℕ) (c : Customer) (b : ℤ)
    → Keeps BalancesAreNonneg (modify (save_balance id c (max_zero b)))
unfolding BalancesAreNonneg
balance-Keeps id c b = record {
  run = λ db h.
      replace-All (λ (c : Customer). pos 0 ≤ℤ c.outstanding_balance) id _ db.customers.rows h
        (omega int_laws);
}

save_payment-Keeps :
    (id : ℕ) (dto : PaymentDto) (received_by : ℕ)
    → Keeps BalancesAreNonneg (save_payment id dto received_by)
unfolding save_payment BalancesAreNonneg
save_payment-Keeps id dto received_by = record { run = λ db h. h }

save_entry-balances : (make : ℕ → JournalEntry) → Keeps BalancesAreNonneg (save_entry make)
unfolding BalancesAreNonneg
save_entry-balances make = save_entry-Frame BalancesAreNonneg make λ db h. h

post_payment-Keeps :
    (amount : ℤ) (id : ℕ) → Keeps BalancesAreNonneg (post_customer_payment amount id)
unfolding post_customer_payment post_entry
post_payment-Keeps amount id = Keeps->> assert_open-Keeps (save_entry-balances _)

record_new_payment-Keeps :
    (id : ℕ) (dto : PaymentDto) (received_by : ℕ)
    → Keeps BalancesAreNonneg (record_new_payment id dto received_by)
unfolding record_new_payment find_customer
record_new_payment-Keeps id dto received_by = Keeps->>= (Keeps-find_or_throw _ _) λ c.
    Keeps->> (Keeps-throw_if _ _) (
      Keeps->>= (save_payment-Keeps id dto received_by) λ payment.
        Keeps->> (balance-Keeps id c _)
          (Keeps->> (post_payment-Keeps _ payment) (Keeps-pure payment)))

-- Recording a payment, new, repeated or refused, keeps every customer's balance from being
-- negative.
pub record_payment-BalancesAreNonneg :
    (id : ℕ) (dto : PaymentDto) (received_by : ℕ)
    → Keeps BalancesAreNonneg (record_payment id dto received_by)
unfolding record_payment
record_payment-BalancesAreNonneg id dto received_by = record {
  run = λ db h. elim (Option-cases (existing_payment dto.client_txn_id db)) [
    | inl new ↦ rw (new, record_payment) ((record_new_payment-Keeps id dto received_by).run db h)
    | inr (p, old) ↦ rw (old, record_payment) h
  ];
}
