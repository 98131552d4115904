-- ===== src/Shifts/Close.antt =====
-- `closeShift`.
use haroti_lpg_management.Common.Enums.{ShiftStatus, TankReadingContext}
use haroti_lpg_management.Common.Errors.{Reason, bad_request, not_found, ok}
use haroti_lpg_management.Database.Entities.{Shift}
use haroti_lpg_management.Database.State.{Op, pure, find_or_throw, ◌>>=◌, ◌>>◌, throw_if}
use haroti_lpg_management.Database.Table.{find_by_id, store}
use haroti_lpg_management.Prelude.{
  ℤ, pos, ◌+ℤ◌, ◌-ℤ◌, ltb_ℤ, abs, or_else, ℕ, Bool, true, false, not, ◌||◌, Option, some,
}
use haroti_lpg_management.Shifts.{shift_is_open}
use haroti_lpg_management.Shifts.Reckoning.{
  Totals, no_totals, sale_totals, cash_expenses_of, shift_sales,
}
use haroti_lpg_management.Shifts.Tank.{ensure_tanks_for_station, record_reading}
use haroti_lpg_management.Stations.{find_station}

pub record CloseShiftDto : Type 0 where
  pub cash_counted : ℤ
  pub physical_lpg_stock_kg : ℤ
  pub cash_deposited : Option ℤ

unfoldable pub expected_cash_of : Shift → Totals → ℤ → ℤ → ℤ
expected_cash_of s t expenses deposited = s.opening_cash_float +ℤ t.cash -ℤ expenses -ℤ deposited

unfoldable pub expected_lpg_of : Shift → Totals → ℤ
expected_lpg_of s t = s.opening_lpg_stock_kg -ℤ t.lpg_sold

-- More than a cent, or more than ten grams.
unfoldable pub has_variance : ℤ → ℤ → Bool
has_variance cash stock = ltb_ℤ (pos 1) (abs cash) || ltb_ℤ (pos 10) (abs stock)

-- The status, the approver and the lock.
abbrev pub settle : Bool → ℕ → ℕ → Shift → Shift
settle true user_id clock s = record s { status = ShiftStatus.pending_approval }
settle false user_id clock s = record s {
  status = ShiftStatus.is_closed;
  approved_by_id = some user_id;
  locked_at = some clock;
}

-- The shift with all that `closeShift` writes.
unfoldable pub closed_shift : Shift → Totals → ℤ → CloseShiftDto → ℕ → ℕ → Shift
closed_shift s t expenses dto user_id clock =
    let deposited = or_else dto.cash_deposited (pos 0) in
    let expected_cash = expected_cash_of s t expenses deposited in
    let cash_variance = dto.cash_counted -ℤ expected_cash in
    let expected_lpg = expected_lpg_of s t in
    let stock_variance = dto.physical_lpg_stock_kg -ℤ expected_lpg in
    settle (has_variance cash_variance stock_variance) user_id clock (record s {
      closed_at = some clock;
      cash_sales = t.cash;
      mobile_money_sales = t.mobile_money;
      bank_sales = t.bank;
      credit_sales = t.credit;
      cash_expenses = expenses;
      cash_deposited = deposited;
      expected_cash = expected_cash;
      cash_counted = some dto.cash_counted;
      cash_variance = some cash_variance;
      lpg_sold_kg = t.lpg_sold;
      expected_lpg_stock_kg = some expected_lpg;
      physical_lpg_stock_kg = some dto.physical_lpg_stock_kg;
      stock_variance_kg = some stock_variance;
    })

-- `shiftsRepo.save(shift)` after the reckoning; the result is the shift.
unfoldable pub settle_shift : ℕ → Shift → CloseShiftDto → ℕ → Op Shift
settle_shift id s dto user_id db =
    let t = sale_totals (shift_sales id db) no_totals in
    let closed = closed_shift s t (cash_expenses_of id db) dto user_id db.clock in
    (ok closed, record db { shifts = store id closed db.shifts })

-- The closing reading of the tank.
unfoldable pub close_rest : ℕ → ℕ → CloseShiftDto → Shift → Shift → Op Shift
close_rest id user_id dto shift saved = do
  station ← find_station shift.station_id
  tank ← ensure_tanks_for_station shift.station_id station
  record_reading tank dto.physical_lpg_stock_kg TankReadingContext.shift_close id user_id
  pure saved

unfoldable pub close_shift : ℕ → CloseShiftDto → ℕ → Op Shift
close_shift id dto user_id = do
  shift ← find_or_throw (not_found Reason.shift_not_found) (λ db. find_by_id id db.shifts)
  throw_if (not (shift_is_open shift.status)) (bad_request Reason.shift_already_closed)
  saved ← settle_shift id shift dto user_id
  close_rest id user_id dto shift saved
