-- ===== src/Shifts.antt =====
-- backend/src/shifts/shifts.service.ts, with `recordReading` and `ensureTanksForStation` of
-- backend/src/tanks/tanks.service.ts: the shifts of the attendants and their reckoning.
pub mod Tank
pub mod Reckoning
pub mod Close
pub mod Invariant
pub mod Locks
pub mod Guards
use haroti_lpg_management.Common.Enums.{UserRole, ShiftStatus, TankReadingContext}
use haroti_lpg_management.Common.Errors.{Reason, bad_request, not_found, forbidden, ok}
use haroti_lpg_management.Database.Entities.{Shift}
use haroti_lpg_management.Database.State.{
  Op, pure, gets, find_or_throw, ◌>>=◌, ◌>>◌, throw_if, modify,
}
use haroti_lpg_management.Database.Table.{find_by_id, store, append, find_where}
use haroti_lpg_management.Prelude.{
  ℤ, pos, ◌==◌, is_some, ℕ, Bool, true, false, not, ◌&&◌, ◌||◌, none, some,
}
use haroti_lpg_management.Shifts.Tank.{ensure_tanks_for_station, record_reading}
use haroti_lpg_management.Stations.{find_station}

-- `SHIFT_APPROVER_ROLES`
abbrev pub may_approve_shift : UserRole → Bool
may_approve_shift UserRole.system_admin = true
may_approve_shift UserRole.director = true
may_approve_shift UserRole.operations_manager = true
may_approve_shift UserRole.station_manager = true
may_approve_shift _ = false

abbrev pub shift_is_open : ShiftStatus → Bool
shift_is_open ShiftStatus.is_open = true
shift_is_open _ = false

abbrev pub shift_is_pending : ShiftStatus → Bool
shift_is_pending ShiftStatus.pending_approval = true
shift_is_pending _ = false

unfoldable pub is_shift_locked : Shift → Bool
is_shift_locked s = not (shift_is_open s.status) || is_some s.locked_at

-- `requireOpenShiftForSale`
unfoldable pub require_open_shift_for_sale : ℕ → ℕ → ℕ → Op Shift
require_open_shift_for_sale shift_id station_id attendant_id = do
  shift ← find_or_throw (bad_request Reason.shift_not_found) (λ db. find_by_id shift_id db.shifts)
  throw_if (not (shift_is_open shift.status)) (bad_request Reason.shift_not_open)
  throw_if (not (shift.station_id == station_id)) (bad_request Reason.shift_of_other_station)
  throw_if (not (shift.attendant_id == attendant_id)) (bad_request Reason.shift_of_other_attendant)
  pure shift

-- `where: { attendantId, stationId, status: OPEN }`
unfoldable pub is_open_shift_of : ℕ → ℕ → Shift → Bool
is_open_shift_of attendant_id station_id s =
    s.attendant_id == attendant_id && s.station_id == station_id && shift_is_open s.status

abbrev pub new_shift : ℕ → ℕ → ℤ → ℤ → ℕ → Shift
new_shift station_id attendant_id float stock clock = record {
  station_id = station_id;
  attendant_id = attendant_id;
  status = ShiftStatus.is_open;
  opened_at = clock;
  closed_at = none;
  opening_cash_float = float;
  opening_lpg_stock_kg = stock;
  cash_sales = pos 0;
  mobile_money_sales = pos 0;
  bank_sales = pos 0;
  credit_sales = pos 0;
  cash_expenses = pos 0;
  cash_deposited = pos 0;
  expected_cash = pos 0;
  cash_counted = none;
  cash_variance = none;
  lpg_sold_kg = pos 0;
  expected_lpg_stock_kg = none;
  physical_lpg_stock_kg = none;
  stock_variance_kg = none;
  approved_by_id = none;
  locked_at = none;
}

-- `shiftsRepo.save(...)` of a new shift: its id.
unfoldable pub save_new_shift : ℕ → ℕ → ℤ → ℤ → Op ℕ
save_new_shift station_id attendant_id float stock db = (
  ok db.shifts.next_id,
  record db { shifts = append (new_shift station_id attendant_id float stock db.clock) db.shifts },
)

-- `openShift`; the cylinder count is not modelled.
unfoldable pub open_shift : ℕ → ℤ → ℕ → Op ℕ
open_shift station_id float attendant_id = do
  open_shifts ← gets (λ db. find_where (is_open_shift_of attendant_id station_id) db.shifts)
  throw_if (is_some open_shifts) (bad_request Reason.shift_already_open)
  station ← find_station station_id
  tank ← ensure_tanks_for_station station_id station
  saved ← save_new_shift station_id attendant_id float station.current_stock_kg
  record_reading tank station.current_stock_kg TankReadingContext.shift_open saved attendant_id
  pure saved

-- The shift once a manager has approved it.
abbrev pub approved_shift : ℕ → ℕ → Shift → Shift
approved_shift approver clock s = record s {
  status = ShiftStatus.is_closed;
  approved_by_id = some approver;
  locked_at = some clock;
}

-- `approveShift`
unfoldable pub approve_shift : ℕ → ℕ → UserRole → Op (Unit {0})
approve_shift id approver_id role = do
  throw_if (not (may_approve_shift role)) (forbidden Reason.role_insufficient)
  shift ← find_or_throw (not_found Reason.shift_not_found) (λ db. find_by_id id db.shifts)
  throw_if (not (shift_is_pending shift.status)) (bad_request Reason.shift_not_pending)
  throw_if (shift.attendant_id == approver_id) (forbidden Reason.shift_own_approval)
  modify
      (λ db. record db { shifts = store id (approved_shift approver_id db.clock shift) db.shifts })
