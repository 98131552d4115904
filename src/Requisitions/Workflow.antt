-- ===== src/Requisitions/Workflow.antt =====
-- The statuses of a requisition, and what each says about who has done what
-- (backend/src/requisitions/requisitions.service.ts).
use haroti_lpg_management.Common.Enums.{UserRole, RequisitionStatus}
use haroti_lpg_management.Database.Entities.{Requisition}
use haroti_lpg_management.Database.Keeps.{
  Keeps, Keeps-throw_if, Keeps->>, Keeps-found, throw_if_then,
}
use haroti_lpg_management.Database.State.{Db}
use haroti_lpg_management.Database.Table.{Every, lookup-All, replace-All, append-Every}
use haroti_lpg_management.Finance.Balance.{assert_open-Keeps}
use haroti_lpg_management.Finance.Journal.{post_entry}
use haroti_lpg_management.Finance.Posting.{post_requisition_payment}
use haroti_lpg_management.Finance.Saved.{save_entry-Frame}
use haroti_lpg_management.Prelude.{ℤ, ◌==◌, ℕ, ◌≡◌, refl, false, not, none, some, List}
use haroti_lpg_management.Requisitions.{
  is_submitted, is_ready_to_pay, new_requisition, save_requisition, create_requisition,
  find_requisition, store_requisition, gm_approved, approve_requisition, gm_rejected,
  reject_requisition, paid_by, pay_requisition,
}

-- Somebody other than the requester has approved it.
unfoldable pub IsApprovedByOther : Requisition → Type 0
IsApprovedByOther r = (a : ℕ) × (r.gm_approved_by_id ≡ some a) × ((r.requested_by_id == a) ≡ false)

-- A requisition that may be paid was approved by somebody other than the requester, one that is
-- paid has its payer too, nobody has approved one that is only submitted, and no other has a payer.
unfoldable pub IsInOrder : Requisition → Type 0
IsInOrder r = elim r.status [
  | RequisitionStatus.submitted ↦ (r.gm_approved_by_id ≡ none) × (r.paid_by_id ≡ none)
  | RequisitionStatus.ready_to_pay ↦ IsApprovedByOther r × (r.paid_by_id ≡ none)
  | RequisitionStatus.paid ↦ IsApprovedByOther r × ((p : ℕ) × (r.paid_by_id ≡ some p))
  | RequisitionStatus.rejected ↦ r.paid_by_id ≡ none
  | _ ↦ r.paid_by_id ≡ none
]

-- Every requisition is in order.
unfoldable pub RequisitionsAreInOrder : Db → Type 0
RequisitionsAreInOrder db = Every IsInOrder db.requisitions

pub create_requisition-Keeps :
    (lines : List (ℕ × ℤ)) (user : ℕ) (role : UserRole)
    → Keeps RequisitionsAreInOrder (create_requisition lines user role)
unfolding create_requisition save_requisition RequisitionsAreInOrder IsInOrder
create_requisition-Keeps lines user role = Keeps->> (Keeps-throw_if _ _) (
    Keeps->> (Keeps-throw_if _ _) (record {
      run = λ db h.
          append-Every IsInOrder (new_requisition lines user) db.requisitions h (refl, refl);
    }))

-- What a requisition that is found says, with the status it has.
submitted_lem :
    (s : RequisitionStatus) → not (is_submitted s) ≡ false → s ≡ RequisitionStatus.submitted
submitted_lem RequisitionStatus.submitted h = refl
submitted_lem RequisitionStatus.draft h = cc
submitted_lem RequisitionStatus.gm_approved h = cc
submitted_lem RequisitionStatus.ready_to_pay h = cc
submitted_lem RequisitionStatus.paid h = cc
submitted_lem RequisitionStatus.rejected h = cc
submitted_lem RequisitionStatus.cancelled h = cc

ready_lem :
    (s : RequisitionStatus) → not (is_ready_to_pay s) ≡ false → s ≡ RequisitionStatus.ready_to_pay
ready_lem RequisitionStatus.ready_to_pay h = refl
ready_lem RequisitionStatus.draft h = cc
ready_lem RequisitionStatus.gm_approved h = cc
ready_lem RequisitionStatus.submitted h = cc
ready_lem RequisitionStatus.paid h = cc
ready_lem RequisitionStatus.rejected h = cc
ready_lem RequisitionStatus.cancelled h = cc

gm_approved-IsInOrder :
    (r : Requisition) (approver clock : ℕ)
    → r.status ≡ RequisitionStatus.submitted
    → IsInOrder r
    → (r.requested_by_id == approver) ≡ false
    → IsInOrder (gm_approved approver clock r)
unfolding IsInOrder IsApprovedByOther
gm_approved-IsInOrder r approver clock e h other =
    let new : (r.gm_approved_by_id ≡ none) × (r.paid_by_id ≡ none) = rw e at h in
    ((approver, refl, other), new.1)

gm_rejected-IsInOrder :
    (r : Requisition) (approver : ℕ)
    → r.status ≡ RequisitionStatus.submitted
    → IsInOrder r
    → IsInOrder (gm_rejected approver r)
unfolding IsInOrder
gm_rejected-IsInOrder r approver e h =
    let new : (r.gm_approved_by_id ≡ none) × (r.paid_by_id ≡ none) = rw e at h in new.1

paid_by-IsInOrder :
    (r : Requisition) (payer clock : ℕ)
    → r.status ≡ RequisitionStatus.ready_to_pay
    → IsInOrder r
    → IsInOrder (paid_by payer clock r)
unfolding IsInOrder IsApprovedByOther
paid_by-IsInOrder r payer clock e h =
    let ready : IsApprovedByOther r × (r.paid_by_id ≡ none) = rw e at h in (ready.0, (payer, refl))

store-Keeps :
    (id : ℕ) (r : Requisition) (db : Db)
    → IsInOrder r
    → RequisitionsAreInOrder db
    → RequisitionsAreInOrder (store_requisition id r db)
unfolding RequisitionsAreInOrder
store-Keeps id r db right h = replace-All IsInOrder id r db.requisitions.rows h right

-- The approval by a general manager keeps the order.
pub approve_requisition-Keeps :
    (id approver : ℕ) (role : UserRole)
    → Keeps RequisitionsAreInOrder (approve_requisition id approver role)
unfolding approve_requisition find_requisition RequisitionsAreInOrder
approve_requisition-Keeps id approver role = Keeps->> (Keeps-throw_if _ _) (
    Keeps-found _ _ _ λ r db found h.
      throw_if_then RequisitionsAreInOrder _ _ _ db
        (λ submitted.
          throw_if_then RequisitionsAreInOrder _ _ _ db
            (λ other.
              store-Keeps id _ db
                (gm_approved-IsInOrder r approver db.clock (submitted_lem r.status submitted)
                  (lookup-All IsInOrder id db.requisitions.rows h found) other)
                h)
            h)
        h)

pub reject_requisition-Keeps :
    (id approver : ℕ) (role : UserRole)
    → Keeps RequisitionsAreInOrder (reject_requisition id approver role)
unfolding reject_requisition find_requisition RequisitionsAreInOrder
reject_requisition-Keeps id approver role = Keeps->> (Keeps-throw_if _ _) (
    Keeps-found _ _ _ λ r db found h.
      throw_if_then RequisitionsAreInOrder _ _ _ db
        (λ submitted.
          store-Keeps id _ db
            (gm_rejected-IsInOrder r approver (submitted_lem r.status submitted)
              (lookup-All IsInOrder id db.requisitions.rows h found))
            h)
        h)

post_payment-requisitions :
    (amount : ℤ) (id : ℕ) → Keeps RequisitionsAreInOrder (post_requisition_payment amount id)
unfolding post_requisition_payment post_entry RequisitionsAreInOrder
post_payment-requisitions amount id =
    Keeps->> assert_open-Keeps (save_entry-Frame RequisitionsAreInOrder _ λ db h. h)

pub pay_requisition-Keeps :
    (id payer : ℕ) (role : UserRole) → Keeps RequisitionsAreInOrder (pay_requisition id payer role)
unfolding pay_requisition find_requisition RequisitionsAreInOrder
pay_requisition-Keeps id payer role = Keeps->> (Keeps-throw_if _ _) (
    Keeps-found _ _ _ λ r db found h.
      throw_if_then RequisitionsAreInOrder _ _ _ db
        (λ ready.
          let right = lookup-All IsInOrder id db.requisitions.rows h found in
          (Keeps->> (post_payment-requisitions r.total_amount id) (record {
            run = λ db h.
                store-Keeps id _ db
                  (paid_by-IsInOrder r payer db.clock (ready_lem r.status ready) right) h;
          })).run
            db h)
        h)
