-- ===== src/Sales/Guards.antt =====
-- The guards of `approveDiscount`.
use haroti_lpg_management.Common.Enums.{UserRole}
use haroti_lpg_management.Common.Errors.{Reason, bad_request, not_found, forbidden, ok}
use haroti_lpg_management.Database.Entities.{Sale}
use haroti_lpg_management.Database.Returns.{find_or_throw_inv, >>=_inv, >>_inv, throw_if_inv}
use haroti_lpg_management.Database.State.{Db}
use haroti_lpg_management.Database.Table.{find_by_id}
use haroti_lpg_management.Prelude.{◌==◌, ℕ, ◌≡◌, sym, subst, true, false, not, some}
use haroti_lpg_management.Sales.Lifecycle.{
  may_approve_discount, awaits_approval, find_sale, approve_discount,
}
use haroti_lpg_management.Shifts.Locks.{not-false}

-- An approval of a discount that returns was made in a role that may approve, of a sale that was
-- waiting for it, by somebody other than its attendant.
pub approve_discount-guards :
    (id approver : ℕ) (role : UserRole) (db db' : Db) {u : Unit {0}}
    → approve_discount id approver role db ≡ (ok u, db')
    → (may_approve_discount role ≡ true)
      × ((s : Sale) × (find_by_id id db.sales ≡ some s)
          × (awaits_approval s.status ≡ true)
          × ((s.attendant_id == approver) ≡ false))
unfolding approve_discount find_sale
approve_discount-guards id approver role db db' h =
    let (_, d1, in_role, h1) = >>_inv _ _ h in
    let (s, d2, found, h2) = >>=_inv _ _ h1 in
    let (_, d3, waiting, h3) = >>_inv _ _ h2 in
    let (_, d4, other, _) = >>_inv _ _ h3 in
    let (allowed, same) =
      throw_if_inv (not (may_approve_discount role)) (forbidden Reason.role_insufficient) in_role in
    let (is_s, _) =
      find_or_throw_inv (not_found Reason.sale_not_found) (λ db. find_by_id id db.sales) found in
    let (awaits, _) =
      throw_if_inv (not (awaits_approval s.status)) (bad_request Reason.sale_not_pending_approval)
        waiting in
    let (apart, _) =
      throw_if_inv (s.attendant_id == approver) (forbidden Reason.sale_own_approval) other in
    (
      not-false _ allowed,
      (s, subst (λ d. find_by_id id d.sales ≡ some s) (sym same) is_s, not-false _ awaits, apart),
    )
