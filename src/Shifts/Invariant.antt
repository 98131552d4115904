-- ===== src/Shifts/Invariant.antt =====
-- The sums of `closeShift` against the payments that they are made from.
use haroti_lpg_management.Common.Enums.{PaymentMethod}
use haroti_lpg_management.Common.Errors.{Reason, not_found, ok}
use haroti_lpg_management.Database.Entities.{Shift, SalePayment, Sale}
use haroti_lpg_management.Database.Returns.{
  find_or_throw_inv, >>=_inv, >>_inv, throw_if_inv, pure_inv,
}
use haroti_lpg_management.Database.State.{Db}
use haroti_lpg_management.Database.Table.{find_by_id}
use haroti_lpg_management.Prelude.{
  ℤ, pos, ◌+ℤ◌, ◌-ℤ◌, int_laws, sum_of, Bool-cases, or_else, ℕ, ◌≡◌, refl, ap, ◌∙◌, inl, inr, List,
  [], ◌∷◌,
}
use haroti_lpg_management.Shifts.Close.{
  CloseShiftDto, expected_cash_of, expected_lpg_of, has_variance, closed_shift, settle_shift,
  close_rest, close_shift,
}
use haroti_lpg_management.Shifts.Reckoning.{
  Totals, no_totals, add_payment, add_payments, sale_totals, cash_expenses_of, shift_sales,
}

abbrev pub sum_totals : Totals → ℤ
sum_totals t = t.cash +ℤ t.mobile_money +ℤ t.bank +ℤ t.credit

add_payment-sum :
    (m : PaymentMethod) (a : ℤ) (t : Totals) → sum_totals (add_payment m a t) ≡ sum_totals t +ℤ a
unfolding add_payment
add_payment-sum PaymentMethod.cash a t = omega int_laws
add_payment-sum PaymentMethod.airtel_money a t = omega int_laws
add_payment-sum PaymentMethod.tnm_mpamba a t = omega int_laws
add_payment-sum PaymentMethod.bank_transfer a t = omega int_laws
add_payment-sum PaymentMethod.card a t = omega int_laws
add_payment-sum PaymentMethod.customer_account a t = omega int_laws
add_payment-sum PaymentMethod.paychangu a t = omega int_laws
add_payment-sum PaymentMethod.mixed a t = omega int_laws

add_ℤ_assoc : (a b c : ℤ) → a +ℤ b +ℤ c ≡ a +ℤ (b +ℤ c)
add_ℤ_assoc a b c = omega int_laws

add_payments-sum :
    (ps : List SalePayment) (t : Totals)
    → sum_totals (add_payments ps t) ≡ sum_totals t +ℤ sum_of (λ p. p.amount) ps
unfolding add_payments sum_of
add_payments-sum [] t = omega int_laws
add_payments-sum (p ∷ ps) t =
    add_payments-sum ps (add_payment p.method p.amount t)
    ∙ ap (λ x. x +ℤ sum_of (λ q. q.amount) ps) (add_payment-sum p.method p.amount t)
    ∙ add_ℤ_assoc (sum_totals t) p.amount (sum_of (λ q. q.amount) ps)

abbrev pub paid_in : ℕ × Sale → ℤ
paid_in s = sum_of (λ p. p.amount) (s.1.payments)

sale_totals-sum :
    (sales : List (ℕ × Sale)) (t : Totals)
    → sum_totals (sale_totals sales t) ≡ sum_totals t +ℤ sum_of paid_in sales
unfolding sale_totals sum_of
sale_totals-sum [] t = omega int_laws
sale_totals-sum (s ∷ ss) t =
    let t' = record t { lpg_sold = t.lpg_sold +ℤ s.1.lpg_quantity_kg } in
    sale_totals-sum ss (add_payments (s.1.payments) t')
    ∙ ap (λ x. x +ℤ sum_of paid_in ss) (add_payments-sum (s.1.payments) t')
    ∙ add_ℤ_assoc (sum_totals t) (paid_in s) (sum_of paid_in ss)

closed_shift-sums :
    (s : Shift) (t : Totals) (expenses : ℤ) (dto : CloseShiftDto) (user clock : ℕ)
    → let c = closed_shift s t expenses dto user clock in
      c.cash_sales +ℤ c.mobile_money_sales +ℤ c.bank_sales +ℤ c.credit_sales ≡ sum_totals t
unfolding closed_shift
closed_shift-sums s t expenses dto user clock =
    elim (Bool-cases (
      has_variance
        (dto.cash_counted -ℤ expected_cash_of s t expenses (or_else dto.cash_deposited (pos 0)))
        (dto.physical_lpg_stock_kg -ℤ expected_lpg_of s t))) [
          | inl differs ↦ rw differs refl
          | inr agrees ↦ rw agrees refl
        ]

settled_payments :
    (id user : ℕ) (s : Shift) (dto : CloseShiftDto) (db db' : Db) (c : Shift)
    → settle_shift id s dto user db ≡ (ok c, db')
    → c.cash_sales +ℤ c.mobile_money_sales +ℤ c.bank_sales +ℤ c.credit_sales
      ≡ sum_of paid_in (shift_sales id db)
unfolding settle_shift
settled_payments id user s dto db db' c h =
    let t = sale_totals (shift_sales id db) no_totals in
    let closed = closed_shift s t (cash_expenses_of id db) dto user db.clock in
    let is_c : closed ≡ c = cc in
    rw⁻¹ is_c (
      closed_shift-sums s t (cash_expenses_of id db) dto user db.clock
      ∙ sale_totals-sum (shift_sales id db) no_totals
      ∙ omega int_laws)

-- The rest of a closing returns the shift that was saved.
returned :
    (id user : ℕ) (dto : CloseShiftDto) (s c1 : Shift) (db : Db) {c : Shift} {db' : Db}
    → close_rest id user dto s c1 db ≡ (ok c, db')
    → c1 ≡ c
unfolding close_rest
returned id user dto s c1 db h =
    let (_, _, _, h4) = >>=_inv _ _ h in
    let (_, _, _, h5) = >>=_inv _ _ h4 in let (_, _, _, h6) = >>_inv _ _ h5 in pure_inv c1 h6

shown_for :
    (id : ℕ) (c1 c : Shift) (db d2 : Db)
    → c1 ≡ c
    → db ≡ d2
    → c1.cash_sales +ℤ c1.mobile_money_sales +ℤ c1.bank_sales +ℤ c1.credit_sales
      ≡ sum_of paid_in (shift_sales id d2)
    → c.cash_sales +ℤ c.mobile_money_sales +ℤ c.bank_sales +ℤ c.credit_sales
      ≡ sum_of paid_in (shift_sales id db)
shown_for id c1 c db d2 is_c same h = rw⁻¹ is_c (rw same h)

-- A closing that returns shows, in the sum of its cash, mobile money, bank and credit columns,
-- exactly the sum of all payments of all sales of the shift.
pub close_shift-payments :
    (id user : ℕ) (dto : CloseShiftDto) (db : Db) {c : Shift} {db' : Db}
    → close_shift id dto user db ≡ (ok c, db')
    → c.cash_sales +ℤ c.mobile_money_sales +ℤ c.bank_sales +ℤ c.credit_sales
      ≡ sum_of paid_in (shift_sales id db)
unfolding close_shift close_rest
close_shift-payments id user dto db {c} h =
    let (s, d1, found, h1) = >>=_inv _ _ h in
    let (_, d2, unclosed, h2) = >>_inv _ _ h1 in
    let (c1, d3, settled, h3) = >>=_inv _ _ h2 in
    let is_c = returned id user dto s c1 d3 h3 in
    let same : db ≡ d2 =
      (find_or_throw_inv (not_found Reason.shift_not_found) (λ db. find_by_id id db.shifts) found).1
      ∙ (throw_if_inv _ _ unclosed).1 in
    shown_for id c1 c db d2 is_c same (settled_payments id user s dto d2 d3 c1 settled)
