-- ===== src/Workflows/Resolution.antt =====
-- Tasks that are approved or rejected (backend/src/workflows/workflows.service.ts).
use haroti_lpg_management.Common.Enums.{UserRole, ApprovalTaskStatus}
use haroti_lpg_management.Common.Errors.{Reason, bad_request, not_found, Result, ok, err}
use haroti_lpg_management.Database.Documents.{ApprovalTask}
use haroti_lpg_management.Database.Returns.{
  find_or_throw_inv, >>=_inv, >>_inv, throw_if_inv, pure_inv,
}
use haroti_lpg_management.Database.State.{Db, pure, find_or_throw, ◌>>=◌, ◌>>◌, throw_if, modify}
use haroti_lpg_management.Database.Table.{find_by_id, lookup-replace}
use haroti_lpg_management.Prelude.{
  ◌==◌, ℕ, ◌≡◌, refl, ap, ◌∙◌, subst, true, false, not, some, arith,
}
use haroti_lpg_management.Shifts.Locks.{not-false}
use haroti_lpg_management.Workflows.{
  role_tag, is_pending_task, get_pending_task, store_task, resolved, resolve_task,
}

get_pending_inv :
    (id : ℕ) (role : UserRole) {db db' : Db} {t : ApprovalTask}
    → get_pending_task id role db ≡ (ok t, db')
    → (find_by_id id db.approval_tasks ≡ some t)
      × (is_pending_task t.status ≡ true)
      × ((role_tag t.assigned_role == role_tag role) ≡ true)
      × (db ≡ db')
unfolding get_pending_task
get_pending_inv id role {db} {db'} {t} run =
    let tests = λ (t : ApprovalTask).
      throw_if (not (role_tag t.assigned_role == role_tag role))
        (bad_request Reason.task_other_role)
      >> pure t in
    let (t1, db1, read, rest) =
      >>=_inv
        (find_or_throw (not_found Reason.task_not_found) (λ db. find_by_id id db.approval_tasks))
        (λ t.
          throw_if (not (is_pending_task t.status)) (bad_request Reason.task_not_pending)
          >> tests t)
        run in
    let (found, same) =
      find_or_throw_inv (not_found Reason.task_not_found) (λ db. find_by_id id db.approval_tasks)
        {db = db} read in
    let (_, db2, passed, more) =
      >>_inv (throw_if (not (is_pending_task t1.status)) (bad_request Reason.task_not_pending))
        (tests t1) rest in
    let (pending, same2) =
      throw_if_inv (not (is_pending_task t1.status)) (bad_request Reason.task_not_pending) passed in
    let (_, db3, passed2, last) =
      >>_inv
        (throw_if (not (role_tag t1.assigned_role == role_tag role))
          (bad_request Reason.task_other_role))
        (pure t1) more in
    let (own, same3) =
      throw_if_inv (not (role_tag t1.assigned_role == role_tag role))
        (bad_request Reason.task_other_role) passed2 in
    let it : t1 ≡ t = pure_inv t1 last in
    let end : db3 ≡ db' = ap (λ (r : Result ApprovalTask × Db). r.1) last in
    (
      found ∙ ap some it,
      subst (λ (x : ApprovalTask). is_pending_task x.status ≡ true) it
          (not-false (is_pending_task t1.status) pending),
      subst (λ (x : ApprovalTask). (role_tag x.assigned_role == role_tag role) ≡ true) it
          (not-false (role_tag t1.assigned_role == role_tag role) own),
      same ∙ same2 ∙ same3 ∙ end,
    )

-- After an approval or a rejection that returned, any approval or rejection of the task, by
-- anybody in any role, is refused as no longer pending and changes nothing.
pub resolve_task_twice :
    (status status' : ApprovalTaskStatus) (id user user' : ℕ) (role role' : UserRole) (db db' : Db)
    {u : Unit {0}}
    → is_pending_task status ≡ false
    → resolve_task status id user role db ≡ (ok u, db')
    → resolve_task status' id user' role' db' ≡ (err (bad_request Reason.task_not_pending), db')
unfolding resolve_task get_pending_task ◌>>=◌ ◌>>◌
resolve_task_twice status status' id user user' role role' db db' final run =
    let (t, db1, read, rest) =
      >>=_inv (get_pending_task id role)
        (λ t. modify (λ db. store_task id (resolved status user db.clock t) db)) run in
    let (found, _, _, same) = get_pending_inv id role read in
    let new = resolved status user db1.clock t in
    let there : find_by_id id db1.approval_tasks ≡ some t =
      subst (λ (x : Db). find_by_id id x.approval_tasks ≡ some t) same found in
    let stored : find_by_id id (store_task id new db1).approval_tasks ≡ some new =
      rw (lookup-replace id id new {old = t} db1.approval_tasks.rows there) (ground arith) in
    let stands : find_by_id id db'.approval_tasks ≡ some new =
      subst (λ (r : Result (Unit {0}) × Db). find_by_id id r.1.approval_tasks ≡ some new) rest
        stored in
    rw (stands, final) refl
