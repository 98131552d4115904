-- ===== src/Requisitions.antt =====
-- backend/src/requisitions/requisitions.service.ts: purchase requests that a general manager
-- approves and that finance pays.
pub mod Workflow
pub mod Steps
use haroti_lpg_management.Common.Enums.{UserRole, RequisitionStatus}
use haroti_lpg_management.Common.Errors.{Reason, bad_request, not_found, forbidden, ok}
use haroti_lpg_management.Database.Entities.{Requisition}
use haroti_lpg_management.Database.State.{Db, Op, find_or_throw, ◌>>=◌, ◌>>◌, throw_if, modify}
use haroti_lpg_management.Database.Table.{find_by_id, store, append}
use haroti_lpg_management.Finance.Posting.{post_requisition_payment}
use haroti_lpg_management.Prelude.{
  ℤ, pos, ◌*ℤ◌, leb_ℤ, sum_of, ◌==◌, ℕ, Bool, true, false, not, none, some, List, map,
}

-- `GM_ROLES`
abbrev pub is_gm : UserRole → Bool
is_gm UserRole.system_admin = true
is_gm UserRole.director = true
is_gm UserRole.operations_manager = true
is_gm _ = false

-- `FINANCE_ROLES`
abbrev pub is_finance : UserRole → Bool
is_finance UserRole.system_admin = true
is_finance UserRole.director = true
is_finance UserRole.finance_manager = true
is_finance _ = false

-- `REQUESTER_ROLES`
abbrev pub is_requester : UserRole → Bool
is_requester UserRole.station_manager = true
is_requester UserRole.storekeeper = true
is_requester UserRole.attendant = true
is_requester UserRole.operations_manager = true
is_requester UserRole.system_admin = true
is_requester _ = false

abbrev pub is_submitted : RequisitionStatus → Bool
is_submitted RequisitionStatus.submitted = true
is_submitted _ = false

abbrev pub is_ready_to_pay : RequisitionStatus → Bool
is_ready_to_pay RequisitionStatus.ready_to_pay = true
is_ready_to_pay _ = false

-- A line of the request: a quantity and a unit cost; the line that is saved has its total too.
unfoldable pub line_cost : ℕ × ℤ → ℤ
line_cost (quantity, unit_cost) = pos quantity *ℤ unit_cost

abbrev pub requisition_line : ℕ × ℤ → ℕ × ℤ × ℤ
requisition_line (quantity, unit_cost) = (quantity, unit_cost, line_cost (quantity, unit_cost))

abbrev pub new_requisition : List (ℕ × ℤ) → ℕ → Requisition
new_requisition lines user_id = record {
  requested_by_id = user_id;
  status = RequisitionStatus.submitted;
  total_amount = sum_of line_cost lines;
  lines = map requisition_line lines;
  gm_approved_by_id = none;
  gm_approved_at = none;
  paid_by_id = none;
  paid_at = none;
}

unfoldable pub save_requisition : Requisition → Op ℕ
save_requisition r db =
    (ok db.requisitions.next_id, record db { requisitions = append r db.requisitions })

-- `create`
unfoldable pub create_requisition : List (ℕ × ℤ) → ℕ → UserRole → Op ℕ
create_requisition lines user_id role = do
  throw_if (not (is_requester role)) (forbidden Reason.role_insufficient)
  throw_if (leb_ℤ (sum_of line_cost lines) (pos 0))
      (bad_request Reason.requisition_total_not_positive)
  save_requisition (new_requisition lines user_id)

-- `findOne`
unfoldable pub find_requisition : ℕ → Op Requisition
find_requisition id =
    find_or_throw (not_found Reason.requisition_not_found) (λ db. find_by_id id db.requisitions)

abbrev pub store_requisition : ℕ → Requisition → Db → Db
store_requisition id r db = record db { requisitions = store id r db.requisitions }

abbrev pub gm_approved : ℕ → ℕ → Requisition → Requisition
gm_approved approver clock r = record r {
  status = RequisitionStatus.ready_to_pay;
  gm_approved_by_id = some approver;
  gm_approved_at = some clock;
}

-- `approve`
unfoldable pub approve_requisition : ℕ → ℕ → UserRole → Op (Unit {0})
approve_requisition id approver_id role = do
  throw_if (not (is_gm role)) (forbidden Reason.role_insufficient)
  r ← find_requisition id
  throw_if (not (is_submitted r.status)) (bad_request Reason.requisition_not_submitted)
  throw_if (r.requested_by_id == approver_id) (forbidden Reason.requisition_own_approval)
  modify (λ db. store_requisition id (gm_approved approver_id db.clock r) db)

abbrev pub gm_rejected : ℕ → Requisition → Requisition
gm_rejected approver r = record r {
  status = RequisitionStatus.rejected;
  gm_approved_by_id = some approver;
}

-- `reject`
unfoldable pub reject_requisition : ℕ → ℕ → UserRole → Op (Unit {0})
reject_requisition id approver_id role = do
  throw_if (not (is_gm role)) (forbidden Reason.role_insufficient)
  r ← find_requisition id
  throw_if (not (is_submitted r.status)) (bad_request Reason.requisition_not_submitted)
  modify (store_requisition id (gm_rejected approver_id r))

abbrev pub paid_by : ℕ → ℕ → Requisition → Requisition
paid_by payer clock r = record r {
  status = RequisitionStatus.paid;
  paid_by_id = some payer;
  paid_at = some clock;
}

-- `pay`
unfoldable pub pay_requisition : ℕ → ℕ → UserRole → Op (Unit {0})
pay_requisition id payer_id role = do
  throw_if (not (is_finance role)) (forbidden Reason.role_insufficient)
  r ← find_requisition id
  throw_if (not (is_ready_to_pay r.status)) (bad_request Reason.requisition_not_approved)
  post_requisition_payment r.total_amount id
  modify (λ db. store_requisition id (paid_by payer_id db.clock r) db)
