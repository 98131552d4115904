-- ===== src/Expenses/Approval.antt =====
-- The approval of an expense and its posting (backend/src/expenses/expenses.service.ts).
use haroti_lpg_management.Common.Enums.{UserRole, ExpenseStatus}
use haroti_lpg_management.Common.Errors.{Reason, bad_request, ok, err}
use haroti_lpg_management.Database.Entities.{Expense}
use haroti_lpg_management.Database.State.{Db, ◌>>=◌, ◌>>◌}
use haroti_lpg_management.Database.Table.{find_by_id, lookup-replace}
use haroti_lpg_management.Expenses.{
  may_approve_expense, is_approved_expense, is_rejected_expense, find_expense, store_expense,
  approve_waiting, approve_expense,
}
use haroti_lpg_management.Finance.Journal.{posting_closed, assert_open_for_posting, post_entry}
use haroti_lpg_management.Finance.Posting.{post_station_expense}
use haroti_lpg_management.Prelude.{◌==◌, ℕ, ◌≡◌, refl, true, false, some, arith}

stored_lem :
    (id : ℕ) (old new : Expense) (db : Db)
    → find_by_id id db.expenses ≡ some old
    → find_by_id id (store_expense id new db).expenses ≡ some new
stored_lem id old new db found =
    rw (lookup-replace id id new {old = old} db.expenses.rows found) (ground arith)

abbrev approved_by : ℕ → Expense → Expense
approved_by approver e = record e {
  status = ExpenseStatus.approved;
  approved_by_id = some approver;
}

-- An expense that is approved is not approved, and not posted, again.
pub approve_expense_done :
    (id approver : ℕ) (role : UserRole) (db : Db) {e : Expense}
    → may_approve_expense role ≡ true
    → find_by_id id db.expenses ≡ some e
    → is_approved_expense e.status ≡ true
    → approve_expense id approver role db ≡ (ok tt, db)
unfolding approve_expense find_expense ◌>>=◌ ◌>>◌
approve_expense_done id approver role db may found already = rw (may, found, already) refl

still_closed :
    (id : ℕ) (new : Expense) (db : Db)
    → posting_closed db ≡ true
    → posting_closed (store_expense id new db) ≡ true
unfolding posting_closed
still_closed id new db h = h

approve_closed :
    (id approver : ℕ) (role : UserRole) (db : Db) (e : Expense)
    → may_approve_expense role ≡ true
    → find_by_id id db.expenses ≡ some e
    → is_approved_expense e.status ≡ false
    → is_rejected_expense e.status ≡ false
    → (e.created_by_id == approver) ≡ false
    → posting_closed (store_expense id (approved_by approver e) db) ≡ true
    → approve_expense id approver role db
      ≡ (err (bad_request Reason.period_hard_closed), store_expense id (approved_by approver e) db)
unfolding approve_expense approve_waiting find_expense post_station_expense post_entry
    assert_open_for_posting ◌>>=◌ ◌>>◌
approve_closed id approver role db e may found waiting alive other closed =
    rw (may, found, waiting, alive, other, closed) refl

-- On a day that is closed for postings the approval of an expense that waits, in a role that may
-- approve and by somebody other than its creator, fails, and yet leaves it approved without an
-- entry; at any time after, another approval returns and posts nothing.
pub approve_expense-unposted :
    (id approver approver' clock : ℕ) (role role' : UserRole) (db : Db) (e : Expense)
    → may_approve_expense role ≡ true
    → may_approve_expense role' ≡ true
    → find_by_id id db.expenses ≡ some e
    → is_approved_expense e.status ≡ false
    → is_rejected_expense e.status ≡ false
    → (e.created_by_id == approver) ≡ false
    → posting_closed db ≡ true
    → (db' : Db) × (approve_expense id approver role db
        ≡ (err (bad_request Reason.period_hard_closed), db'))
      × (db'.entries ≡ db.entries)
      × (approve_expense id approver' role' (record db' { clock = clock })
          ≡ (ok tt, record db' { clock = clock }))
approve_expense-unposted id approver approver' clock role role' db e may may' found waiting alive
      other closed =
    let new = approved_by approver e in
    (
      store_expense id new db,
      approve_closed id approver role db e may found waiting alive other
          (still_closed id new db closed),
      refl,
      approve_expense_done id approver' role' (record (store_expense id new db) { clock = clock })
          may' (stored_lem id e new db found) refl,
    )
