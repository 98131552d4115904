-- ===== src/Sales/SafetyOps.antt =====
-- The operations on a sale that is there, against the stocks and the journal.
use haroti_lpg_management.Common.Enums.{UserRole}
use haroti_lpg_management.Database.Entities.{Sale}
use haroti_lpg_management.Database.Keeps.{
  Keeps, Keeps-pure, Keeps-gets, Keeps-find_or_throw, Keeps-throw_if, Keeps->>=, Keeps->>,
  Keeps-when,
}
use haroti_lpg_management.Database.State.{Db}
use haroti_lpg_management.Database.Table.{find_by_id}
use haroti_lpg_management.Prelude.{Option-cases, ℕ, inl, inr, false}
use haroti_lpg_management.Sales.Lifecycle.{
  awaits_payment, find_sale, complete_sale, approve_discount, complete_paychangu_sale,
  fail_paychangu_sale, relieve_sale_credit, undo_sale, void_sale,
}
use haroti_lpg_management.Sales.Safety.{Sound, reverse_all-Sound, apply_movement-Sound}
use haroti_lpg_management.Sales.SafetyCreate.{store_sale-Sound}
use haroti_lpg_management.Sales.SafetyFinal.{relieve_credit-Sound, finalize_sale-Sound}

find_sale-Keeps : {P : Db → Type 0} (id : ℕ) → Keeps P (find_sale id)
unfolding find_sale
find_sale-Keeps id = Keeps-find_or_throw _ _

complete_sale-Sound : (id : ℕ) (s : Sale) → Keeps Sound (complete_sale id s)
unfolding complete_sale
complete_sale-Sound id s =
    Keeps->>= (Keeps-gets _)
      λ price. Keeps->> (store_sale-Sound id _) (finalize_sale-Sound id _ false price)

-- The approval of a discount keeps the books sound.
pub approve_discount-Sound :
    (id approver : ℕ) (role : UserRole) → Keeps Sound (approve_discount id approver role)
unfolding approve_discount
approve_discount-Sound id approver role = Keeps->> (Keeps-throw_if _ _) (
    Keeps->>= (find_sale-Keeps id)
      λ s. Keeps->> (Keeps-throw_if _ _) (Keeps->> (Keeps-throw_if _ _) (complete_sale-Sound id s)))

-- So does the completion of a sale that the gateway reports as paid.
pub complete_paychangu_sale-Sound : (id : ℕ) → Keeps Sound (complete_paychangu_sale id)
unfolding complete_paychangu_sale
complete_paychangu_sale-Sound id =
    Keeps->>= (find_sale-Keeps id)
      λ s. Keeps-when _ (Keeps->> (Keeps-throw_if _ _) (complete_sale-Sound id s))

relieve_sale_credit-Sound : (s : Sale) → Keeps Sound (relieve_sale_credit s)
unfolding relieve_sale_credit
relieve_sale_credit-Sound s = elim (Option-cases s.customer_id) [
  | inl nobody ↦ rw (nobody, relieve_sale_credit) (Keeps-pure tt)
  | inr (c, known) ↦ rw (known, relieve_sale_credit) (Keeps-when _ (relieve_credit-Sound c _))
]

undo_sale-Sound : (id user : ℕ) (s : Sale) → Keeps Sound (undo_sale id user s)
unfolding undo_sale
undo_sale-Sound id user s = Keeps->> (reverse_all-Sound _) (
    Keeps->> (Keeps-when _ (Keeps->> (apply_movement-Sound _) (Keeps-pure tt)))
      (relieve_sale_credit-Sound s))

-- So does the voiding of a sale, also where it stops half-way.
pub void_sale-Sound : (id user : ℕ) → Keeps Sound (void_sale id user)
unfolding void_sale
void_sale-Sound id user = Keeps->>= (find_sale-Keeps id) λ s.
    Keeps->> (Keeps-throw_if _ _) (Keeps->> (undo_sale-Sound id user s) (store_sale-Sound id _))

-- A sale whose payment has failed is voided without a change of the books.
pub fail_paychangu_sale-Sound : (id : ℕ) → Keeps Sound (fail_paychangu_sale id)
unfolding fail_paychangu_sale
fail_paychangu_sale-Sound id = record {
  run = λ db h. elim (Option-cases (find_by_id id db.sales)) [
    | inl missing ↦ rw (missing, fail_paychangu_sale) h
    | inr (s, found) ↦
        rw (found, fail_paychangu_sale)
          ((Keeps-when (awaits_payment s.status) (store_sale-Sound id _)).run db h)
  ];
}
