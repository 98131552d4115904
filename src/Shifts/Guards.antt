-- ===== src/Shifts/Guards.antt =====
-- The guards of `approveShift`.
use haroti_lpg_management.Common.Enums.{UserRole}
use haroti_lpg_management.Common.Errors.{Reason, bad_request, not_found, forbidden, ok}
use haroti_lpg_management.Database.Entities.{Shift}
use haroti_lpg_management.Database.Returns.{find_or_throw_inv, >>=_inv, >>_inv, throw_if_inv}
use haroti_lpg_management.Database.State.{Db}
use haroti_lpg_management.Database.Table.{find_by_id}
use haroti_lpg_management.Prelude.{◌==◌, ℕ, ◌≡◌, sym, subst, true, false, not, some}
use haroti_lpg_management.Shifts.{may_approve_shift, shift_is_pending, approve_shift}
use haroti_lpg_management.Shifts.Locks.{not-false}

-- An approval of a shift that returns was made in a role that may approve, of a shift that was
-- pending, by somebody other than its attendant.
pub approve_shift-guards :
    (id approver : ℕ) (role : UserRole) (db db' : Db) {u : Unit {0}}
    → approve_shift id approver role db ≡ (ok u, db')
    → (may_approve_shift role ≡ true)
      × ((s : Shift) × (find_by_id id db.shifts ≡ some s)
          × (shift_is_pending s.status ≡ true)
          × ((s.attendant_id == approver) ≡ false))
unfolding approve_shift
approve_shift-guards id approver role db db' h =
    let (_, d1, in_role, h1) = >>_inv _ _ h in
    let (s, d2, found, h2) = >>=_inv _ _ h1 in
    let (_, d3, waiting, h3) = >>_inv _ _ h2 in
    let (_, d4, other, _) = >>_inv _ _ h3 in
    let (allowed, same) =
      throw_if_inv (not (may_approve_shift role)) (forbidden Reason.role_insufficient) in_role in
    let (is_s, _) =
      find_or_throw_inv (not_found Reason.shift_not_found) (λ db. find_by_id id db.shifts) found in
    let (awaits, _) =
      throw_if_inv (not (shift_is_pending s.status)) (bad_request Reason.shift_not_pending)
        waiting in
    let (apart, _) =
      throw_if_inv (s.attendant_id == approver) (forbidden Reason.shift_own_approval) other in
    (
      not-false _ allowed,
      (s, subst (λ d. find_by_id id d.shifts ≡ some s) (sym same) is_s, not-false _ awaits, apart),
    )
