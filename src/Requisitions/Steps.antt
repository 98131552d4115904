-- ===== src/Requisitions/Steps.antt =====
-- Sequences of requests to backend/src/requisitions/requisitions.service.ts.
use haroti_lpg_management.Common.Enums.{UserRole, RequisitionStatus}
use haroti_lpg_management.Database.Entities.{Requisition}
use haroti_lpg_management.Database.State.{Db}
use haroti_lpg_management.Database.Table.{find_by_id, lookup-All}
use haroti_lpg_management.Prelude.{ℤ, ℕ, ◌≡◌, some, List, [], ◌∷◌}
use haroti_lpg_management.Requisitions.{
  create_requisition, approve_requisition, reject_requisition, pay_requisition,
}
use haroti_lpg_management.Requisitions.Workflow.{
  IsApprovedByOther, IsInOrder, RequisitionsAreInOrder, create_requisition-Keeps,
  approve_requisition-Keeps, reject_requisition-Keeps, pay_requisition-Keeps,
}

pub data Request : Type 0 where
  create : List (ℕ × ℤ) → ℕ → UserRole → Request
  approve reject pay : ℕ → ℕ → UserRole → Request

-- The state that a request leaves, also where it is refused.
unfoldable pub serve : Request → Db → Db
serve (Request.create lines user role) db = (create_requisition lines user role db).1
serve (Request.approve id user role) db = (approve_requisition id user role db).1
serve (Request.reject id user role) db = (reject_requisition id user role db).1
serve (Request.pay id user role) db = (pay_requisition id user role db).1

unfoldable pub serve_all : List Request → Db → Db
serve_all [] db = db
serve_all (r ∷ rs) db = serve_all rs (serve r db)

serve-Keeps :
    (r : Request) (db : Db) → RequisitionsAreInOrder db → RequisitionsAreInOrder (serve r db)
unfolding serve
serve-Keeps (Request.create lines user role) db h =
    (create_requisition-Keeps lines user role).run db h
serve-Keeps (Request.approve id user role) db h = (approve_requisition-Keeps id user role).run db h
serve-Keeps (Request.reject id user role) db h = (reject_requisition-Keeps id user role).run db h
serve-Keeps (Request.pay id user role) db h = (pay_requisition-Keeps id user role).run db h

serve_all-Keeps :
    (rs : List Request) (db : Db)
    → RequisitionsAreInOrder db
    → RequisitionsAreInOrder (serve_all rs db)
unfolding serve_all
serve_all-Keeps [] db h = h
serve_all-Keeps (r ∷ rs) db h = serve_all-Keeps rs (serve r db) (serve-Keeps r db h)

-- Through any sequence of requests from requisitions in order, a requisition that is found paid
-- was approved by a user other than its requester.
pub serve_all-paid :
    (rs : List Request) (db : Db) (id : ℕ) {r : Requisition}
    → RequisitionsAreInOrder db
    → find_by_id id (serve_all rs db).requisitions ≡ some r
    → r.status ≡ RequisitionStatus.paid
    → IsApprovedByOther r
unfolding RequisitionsAreInOrder IsInOrder IsApprovedByOther
serve_all-paid rs db id {r} h found paid =
    let kept = serve_all-Keeps rs db h in
    let right = lookup-All IsInOrder id (serve_all rs db).requisitions.rows kept found in
    let done : IsApprovedByOther r × ((p : ℕ) × (r.paid_by_id ≡ some p)) = rw paid at right in
    done.0
