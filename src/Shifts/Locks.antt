-- ===== src/Shifts/Locks.antt =====
-- The lock and the approver of a shift, under the operations of
-- backend/src/shifts/shifts.service.ts.
use haroti_lpg_management.Common.Enums.{UserRole, ShiftStatus, TankReadingContext}
use haroti_lpg_management.Database.Entities.{Station, Shift}
use haroti_lpg_management.Database.Keeps.{
  Keeps, Keeps-pure, Keeps-gets, Keeps-find_or_throw, Keeps-throw_if, Keeps->>=, Keeps->>,
  Keeps-found, throw_if_then,
}
use haroti_lpg_management.Database.State.{Db, ◌>>=◌}
use haroti_lpg_management.Database.Table.{find_where, Every, lookup-All, replace-All, append-Every}
use haroti_lpg_management.Prelude.{
  ℤ, pos, ◌-ℤ◌, ◌==◌, Bool-cases, Option-cases, or_else, is_some, ℕ, ◌≡◌, refl, ◌∙◌, inl, inr, Bool,
  true, false, not,
}
use haroti_lpg_management.Shifts.{
  shift_is_open, save_new_shift, open_shift, approved_shift, approve_shift,
}
use haroti_lpg_management.Shifts.Close.{
  CloseShiftDto, expected_cash_of, expected_lpg_of, has_variance, closed_shift, settle_shift,
  close_rest, close_shift,
}
use haroti_lpg_management.Shifts.Reckoning.{Totals}
use haroti_lpg_management.Shifts.Tank.{ensure_tanks_for_station, record_reading}
use haroti_lpg_management.Stations.{find_station}

abbrev pub shift_is_closed : ShiftStatus → Bool
shift_is_closed ShiftStatus.is_closed = true
shift_is_closed _ = false

-- A shift is locked, and has an approver, exactly when it is closed.
unfoldable pub LockIsRight : Shift → Type 0
LockIsRight s =
    (is_some s.locked_at ≡ shift_is_closed s.status)
    × (is_some s.approved_by_id ≡ shift_is_closed s.status)

unfoldable pub LocksAreRight : Db → Type 0
LocksAreRight db = Every LockIsRight db.shifts

open_is_not_closed : (s : ShiftStatus) → shift_is_open s ≡ true → shift_is_closed s ≡ false
open_is_not_closed ShiftStatus.is_open h = refl
open_is_not_closed ShiftStatus.is_closed h = cc
open_is_not_closed ShiftStatus.pending_approval h = refl

closed_shift-LockIsRight :
    (s : Shift) (t : Totals) (expenses : ℤ) (dto : CloseShiftDto) (user clock : ℕ)
    → shift_is_open s.status ≡ true
    → LockIsRight s
    → LockIsRight (closed_shift s t expenses dto user clock)
unfolding closed_shift LockIsRight
closed_shift-LockIsRight s t expenses dto user clock opened h =
    elim (Bool-cases (
      has_variance
        (dto.cash_counted -ℤ expected_cash_of s t expenses (or_else dto.cash_deposited (pos 0)))
        (dto.physical_lpg_stock_kg -ℤ expected_lpg_of s t))) [
          | inl differs ↦
              let still = open_is_not_closed s.status opened in
              rw differs (h.0 ∙ still, h.1 ∙ still)
          | inr agrees ↦ rw agrees (refl, refl)
        ]

ensure_tanks-Keeps : (id : ℕ) (s : Station) → Keeps LocksAreRight (ensure_tanks_for_station id s)
unfolding ensure_tanks_for_station LocksAreRight
ensure_tanks-Keeps id s = record {
  run = λ db h. elim (Option-cases (find_where (λ t. t.station_id == id) db.tanks)) [
    | inl new ↦ rw (new, ensure_tanks_for_station) h
    | inr (t, old) ↦ rw (old, ensure_tanks_for_station) h
  ];
}

record_reading-Keeps :
    (tank : ℕ) (kg : ℤ) (context : TankReadingContext) (shift user : ℕ)
    → Keeps LocksAreRight (record_reading tank kg context shift user)
unfolding record_reading LocksAreRight
record_reading-Keeps tank kg context shift user =
    Keeps->>= (Keeps-find_or_throw _ _) λ t. record { run = λ db h. h }

save_new_shift-Keeps :
    (station attendant : ℕ) (float stock : ℤ)
    → Keeps LocksAreRight (save_new_shift station attendant float stock)
unfolding save_new_shift LocksAreRight LockIsRight
save_new_shift-Keeps station attendant float stock = record {
  run = λ db h. append-Every LockIsRight _ db.shifts h (refl, refl);
}

-- Opening a shift keeps the locks right.
pub open_shift-LocksAreRight :
    (station : ℕ) (float : ℤ) (attendant : ℕ)
    → Keeps LocksAreRight (open_shift station float attendant)
unfolding open_shift find_station
open_shift-LocksAreRight station float attendant = Keeps->>= (Keeps-gets _) λ shifts.
    Keeps->> (Keeps-throw_if _ _) (
      Keeps->>= (Keeps-find_or_throw _ _) λ s. Keeps->>= (ensure_tanks-Keeps station s) λ tank.
        Keeps->>= (save_new_shift-Keeps station attendant float _)
          λ saved. Keeps->> (record_reading-Keeps tank _ _ saved attendant) (Keeps-pure saved))

settle_shift-Keeps :
    (id : ℕ) (s : Shift) (dto : CloseShiftDto) (user : ℕ) (db : Db)
    → shift_is_open s.status ≡ true
    → LockIsRight s
    → LocksAreRight db
    → LocksAreRight (settle_shift id s dto user db).1
unfolding settle_shift LocksAreRight
settle_shift-Keeps id s dto user db opened right h =
    replace-All LockIsRight id _ db.shifts.rows h
      (closed_shift-LockIsRight s _ _ dto user db.clock opened right)

pub not-false : (b : Bool) → not b ≡ false → b ≡ true
not-false true h = refl
not-false false h = cc

close_rest-Keeps :
    (id user : ℕ) (dto : CloseShiftDto) (s c : Shift)
    → Keeps LocksAreRight (close_rest id user dto s c)
unfolding close_rest find_station
close_rest-Keeps id user dto s c = Keeps->>= (Keeps-find_or_throw _ _) λ station.
    Keeps->>= (ensure_tanks-Keeps _ station)
      λ tank. Keeps->> (record_reading-Keeps tank _ _ id user) (Keeps-pure c)

settled-Keeps :
    (id : ℕ) (s : Shift) (dto : CloseShiftDto) (user : ℕ) (db : Db)
    → shift_is_open s.status ≡ true
    → LockIsRight s
    → LocksAreRight db
    → LocksAreRight ((settle_shift id s dto user >>= close_rest id user dto s) db).1
unfolding ◌>>=◌ settle_shift
settled-Keeps id s dto user db opened right h =
    (close_rest-Keeps id user dto s _).run _ (settle_shift-Keeps id s dto user db opened right h)

-- Closing a shift, with a variance or without, keeps it so that a shift is locked, and has an
-- approver, exactly when it is closed.
pub close_shift-LocksAreRight :
    (id : ℕ) (dto : CloseShiftDto) (user : ℕ) → Keeps LocksAreRight (close_shift id dto user)
unfolding close_shift LocksAreRight
close_shift-LocksAreRight id dto user = Keeps-found _ _ _ λ s db found h.
    throw_if_then LocksAreRight _ _ _ db
      (λ opened.
        settled-Keeps id s dto user db (not-false _ opened)
          (lookup-All LockIsRight id db.shifts.rows h found) h)
      h

-- A manager's approval keeps the locks right.
pub approve_shift-LocksAreRight :
    (id approver : ℕ) (role : UserRole) → Keeps LocksAreRight (approve_shift id approver role)
unfolding approve_shift LocksAreRight LockIsRight
approve_shift-LocksAreRight id approver role = Keeps->> (Keeps-throw_if _ _) (
    Keeps->>= (Keeps-find_or_throw _ _) λ s. Keeps->> (Keeps-throw_if _ _) (
      Keeps->> (Keeps-throw_if _ _) (record {
        run = λ db h.
            replace-All LockIsRight id (approved_shift approver db.clock s) db.shifts.rows h
              (refl, refl);
      })))
