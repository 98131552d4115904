-- ===== src/Deliveries/Arrival.antt =====
-- What a delivery needs so that its next advance returns
-- (backend/src/deliveries/deliveries.service.ts).
use mathlib.Core.Path.{ap₂}
use mathlib.Core.Option.{some-injective}
use haroti_lpg_management.Common.Enums.{DeliveryStatus, JournalEventType}
use haroti_lpg_management.Common.Errors.{Reason, bad_request, ok}
use haroti_lpg_management.Database.Documents.{Delivery}
use haroti_lpg_management.Database.Entities.{ReferenceType, Station}
use haroti_lpg_management.Database.Returns.{>>=_ok, >>_ok}
use haroti_lpg_management.Database.State.{Db, pure, or_throw, ◌>>◌, when}
use haroti_lpg_management.Database.Table.{find_by_id}
use haroti_lpg_management.Deliveries.{
  next_status, is_inventory_updated, find_delivery, store_delivery, landed_amount, post_delivery,
  take_in, advanced, advance_to, advance_found, advance_status,
}
use haroti_lpg_management.Deliveries.Taken.{stocked, taken, take_in-taken, taken-station}
use haroti_lpg_management.Deliveries.Workflow.{
  steps_left, Stands, store_delivery-Stands, status-advanced, advance_all,
}
use haroti_lpg_management.Finance.Accounts.{inventory_bulk_lpg, accounts_payable}
use haroti_lpg_management.Finance.Journal.{
  posting_closed, assert_open_for_posting, EntryParams, new_entry, number_taken, posting_time,
  add_entry, save_entry, post_entry,
}
use haroti_lpg_management.Finance.Posting.{entry_of}
use haroti_lpg_management.Inventory.{stock_after}
use haroti_lpg_management.Inventory.Stock.{stock_after_nonneg}
use haroti_lpg_management.Prelude.{
  ℤ, pos, ◌+ℤ◌, ◌≤ℤ◌, ltb_ℤ, max_zero, int_laws, length, Bool-cases, suc, ℕ, ◌≡◌, refl, sym, ap,
  ◌∙◌, subst, ◌≢◌, inl, inr, Bool, true, false, ◌&&◌, some, List, [], ◌∷◌, arith,
}

-- The delivery is there, its station too and with no negative stock, and the day is open for
-- postings.
pub record CanAdvance (id : ℕ) (d : Delivery) (db : Db) : Type 0 where
  pub stands : find_by_id id db.deliveries ≡ some d
  pub is_open : posting_closed db ≡ false
  pub station : Station
  pub station_found : find_by_id d.station_id db.stations ≡ some station
  pub is_nonneg : pos 0 ≤ℤ station.current_stock_kg

stock_after_adds :
    (before quantity : ℤ)
    → pos 0 ≤ℤ before
    → ltb_ℤ (pos 0) quantity ≡ true
    → stock_after before quantity ≡ some (max_zero (before +ℤ quantity))
unfolding stock_after
stock_after_adds before quantity h k = grind int_laws

post_entry_open :
    (p : EntryParams) (db : Db)
    → posting_closed db ≡ false
    → number_taken (new_entry p (posting_time db)) db ≡ false
    → post_entry p db ≡ (ok db.entries.next_id, add_entry (new_entry p (posting_time db)) db)
unfolding post_entry assert_open_for_posting save_entry ◌>>◌
post_entry_open p db h free = rw (h, free) refl

abbrev delivery_entry : ℕ → ℤ → EntryParams
delivery_entry id amount =
    entry_of JournalEventType.lpg_delivery ReferenceType.delivery id inventory_bulk_lpg
      accounts_payable amount

-- The number that the entry of the delivery would get is taken.
unfoldable pub is_number_taken : ℕ → Delivery → Db → Bool
is_number_taken id d db =
    number_taken (new_entry (delivery_entry id (landed_amount d)) (posting_time db)) db

-- The entry of the delivery is still to be posted.
abbrev pub is_ahead : DeliveryStatus → Bool
is_ahead DeliveryStatus.inventory_updated = false
is_ahead DeliveryStatus.accounts_payable = false
is_ahead _ = true

-- The entry is still to be posted and its number is taken.
abbrev pub is_blocked_by_number : ℕ → Delivery → Db → Bool
is_blocked_by_number id d db = is_ahead d.status && is_number_taken id d db

abbrev posted : ℕ → ℤ → Db → Db
posted id amount db = add_entry (new_entry (delivery_entry id amount) (posting_time db)) db

take_in_open :
    (id user : ℕ) (d : Delivery) (db : Db) {s : Station} {after : ℤ}
    → find_by_id d.station_id db.stations ≡ some s
    → stock_after s.current_stock_kg d.quantity_received_kg ≡ some after
    → posting_closed db ≡ false
    → is_number_taken id d db ≡ false
    → take_in id user d db ≡ (ok tt, posted id (landed_amount d) (taken id user d s after db))
unfolding post_delivery posting_closed is_number_taken
take_in_open id user d db {s} {after} found fits is_open free =
    take_in-taken id user d db found fits
    ∙ >>_ok (post_delivery id (landed_amount d)) (pure tt)
        (post_entry_open _ (taken id user d s after db) is_open free)

station_id-advanced :
    (next : DeliveryStatus) (user : ℕ) (d : Delivery)
    → (advanced next user d).station_id ≡ d.station_id
station_id-advanced next user d = elim (Bool-cases (is_inventory_updated next)) [
  | inl last ↦ rw last refl
  | inr other ↦ rw other refl
]

-- The end of an advance leaves what the next one needs.
stored_lem :
    (id user : ℕ) (d : Delivery) (next : DeliveryStatus) (db : Db)
    → CanAdvance id d db
    → CanAdvance id (advanced next user d) (store_delivery id (advanced next user d) db)
unfolding posting_closed Stands
stored_lem id user d next db can = record {
  stands = store_delivery-Stands id d (advanced next user d) db can.stands;
  is_open = can.is_open;
  station = can.station;
  station_found = rw (station_id-advanced next user d) can.station_found;
  is_nonneg = can.is_nonneg;
}

taken_lem :
    (id user : ℕ) (d : Delivery) (db : Db) {s : Station} {after : ℤ}
    → find_by_id d.station_id db.stations ≡ some s
    → stock_after s.current_stock_kg d.quantity_received_kg ≡ some after
    → CanAdvance id d db
    → CanAdvance id d (posted id (landed_amount d) (taken id user d s after db))
unfolding posting_closed
taken_lem id user d db {s} {after} found fits can = record {
  stands = can.stands;
  is_open = can.is_open;
  station = stocked d s after;
  station_found = taken-station id user d db found;
  is_nonneg = stock_after_nonneg s.current_stock_kg d.quantity_received_kg fits;
}

booked_lem :
    (s : DeliveryStatus) {next : DeliveryStatus}
    → next_status s ≡ some next
    → is_inventory_updated next ≡ true
    → is_ahead s ≡ true
booked_lem DeliveryStatus.inventory_updated e last = cc (rw (sym (some-injective _ _ e)) at last)
booked_lem DeliveryStatus.accounts_payable e last = cc
booked_lem _ e last = refl

updated_lem : (s : DeliveryStatus) → is_inventory_updated s ≡ true → is_ahead s ≡ false
updated_lem DeliveryStatus.inventory_updated h = refl
updated_lem _ h = cc

and_false : (b t : Bool) → t ≡ false → (b && t) ≡ false
and_false b t h = ground arith

ahead_lem :
    (s : DeliveryStatus) (taken_too : Bool) {next : DeliveryStatus}
    → next_status s ≡ some next
    → (is_ahead s && taken_too) ≡ false
    → (is_ahead next && taken_too) ≡ false
ahead_lem DeliveryStatus.inventory_updated taken_too e free =
    subst (λ x. (is_ahead x && taken_too) ≡ false) (some-injective _ _ e) refl
ahead_lem DeliveryStatus.accounts_payable taken_too e free = cc
ahead_lem _ taken_too {next} e free = and_false (is_ahead next) taken_too free

-- The gas is taken in where it has to be.
when_taken :
    (id user : ℕ) (d : Delivery) (next : DeliveryStatus) (db : Db)
    → CanAdvance id d db
    → next_status d.status ≡ some next
    → is_blocked_by_number id d db ≡ false
    → (db1 : Db) × (when
          (is_inventory_updated next && ltb_ℤ (pos 0) d.quantity_received_kg)
          (take_in id user d)
          db
        ≡ (ok tt, db1))
      × CanAdvance id d db1
      × ((is_ahead next && is_number_taken id d db1) ≡ false)
when_taken id user d next db can known free = elim (Bool-cases (is_inventory_updated next)) [
  | inr other ↦ (db, rw other refl, can, ahead_lem d.status (is_number_taken id d db) known free)
  | inl last ↦ elim (Bool-cases (ltb_ℤ (pos 0) d.quantity_received_kg)) [
    | inr nothing ↦
        (db, rw (last, nothing) refl, can, ahead_lem d.status (is_number_taken id d db) known free)
    | inl some_gas ↦
        let fits =
          stock_after_adds can.station.current_stock_kg d.quantity_received_kg can.is_nonneg
            some_gas in
        let unused : is_number_taken id d db ≡ false =
          rw (booked_lem d.status known last) at free in
        (
          _,
          rw (last, some_gas) (take_in_open id user d db can.station_found fits can.is_open unused),
          taken_lem id user d db can.station_found fits can,
          rw (updated_lem next last) refl,
        )
  ]
]

same_number_lem :
    (id user : ℕ) (d : Delivery) (next : DeliveryStatus) (db : Db)
    → is_number_taken id d db
      ≡ is_number_taken id (advanced next user d) (store_delivery id (advanced next user d) db)
unfolding is_number_taken
same_number_lem id user d next db = refl

advance_status_returns :
    (id user : ℕ) (d : Delivery) (db : Db) {next : DeliveryStatus}
    → CanAdvance id d db
    → is_blocked_by_number id d db ≡ false
    → next_status d.status ≡ some next
    → (db' : Db) × (advance_status id user db ≡ (ok tt, db'))
      × CanAdvance id (advanced next user d) db'
      × (is_blocked_by_number id (advanced next user d) db' ≡ false)
unfolding advance_status advance_found advance_to find_delivery
advance_status_returns id user d db {next} can free known =
    let (db1, done, can1, free1) = when_taken id user d next db can known free in
    let found : find_delivery id db ≡ (ok d, db) = rw can.stands refl in
    let read : or_throw (bad_request Reason.delivery_cannot_advance) (next_status d.status) db
        ≡ (ok next, db) =
      rw known refl in
    (
      store_delivery id (advanced next user d) db1,
      >>=_ok (find_delivery id) (advance_found id user) found
          ∙ >>=_ok (or_throw (bad_request Reason.delivery_cannot_advance) (next_status d.status))
              (advance_to id user d) read
          ∙ >>_ok (when _ (take_in id user d)) _ done,
      stored_lem id user d next db1 can1,
      ap₂ (λ x y. is_ahead x && y) (status-advanced next user d)
            (sym (same_number_lem id user d next db1))
          ∙ free1,
    )

next_status-left :
    (s : DeliveryStatus) (n : ℕ)
    → suc n ≡ steps_left s
    → (t : DeliveryStatus) × (next_status s ≡ some t)
      × (steps_left t ≡ n)
      × (t ≢ DeliveryStatus.cancelled)
next_status-left DeliveryStatus.purchase_order n h =
    (DeliveryStatus.supplier_dispatch, refl, omega (arith, h), λ e. cc)
next_status-left DeliveryStatus.supplier_dispatch n h =
    (DeliveryStatus.station_receipt, refl, omega (arith, h), λ e. cc)
next_status-left DeliveryStatus.station_receipt n h =
    (DeliveryStatus.quantity_verification, refl, omega (arith, h), λ e. cc)
next_status-left DeliveryStatus.quantity_verification n h =
    (DeliveryStatus.manager_approval, refl, omega (arith, h), λ e. cc)
next_status-left DeliveryStatus.manager_approval n h =
    (DeliveryStatus.inventory_updated, refl, omega (arith, h), λ e. cc)
next_status-left DeliveryStatus.inventory_updated n h =
    (DeliveryStatus.accounts_payable, refl, omega (arith, h), λ e. cc)
next_status-left DeliveryStatus.accounts_payable n h = cc
next_status-left DeliveryStatus.cancelled n h = cc

last_status :
    (s : DeliveryStatus)
    → s ≢ DeliveryStatus.cancelled
    → 0 ≡ steps_left s
    → s ≡ DeliveryStatus.accounts_payable
last_status DeliveryStatus.purchase_order h k = cc
last_status DeliveryStatus.supplier_dispatch h k = cc
last_status DeliveryStatus.station_receipt h k = cc
last_status DeliveryStatus.quantity_verification h k = cc
last_status DeliveryStatus.manager_approval h k = cc
last_status DeliveryStatus.inventory_updated h k = cc
last_status DeliveryStatus.accounts_payable h k = refl
last_status DeliveryStatus.cancelled h k = absurd (h refl)

-- A delivery that is there and not cancelled, of a station that is there and has no negative
-- stock, on a day that is open for postings, whose entry is posted already or will get a number
-- that no entry has, arrives in the accounts: as many advances as it has steps left, by any users
-- and all at that time, return and leave it payable.
pub advance_all-arrives :
    (id : ℕ) (users : List ℕ) (db : Db) (d : Delivery)
    → CanAdvance id d db
    → is_blocked_by_number id d db ≡ false
    → d.status ≢ DeliveryStatus.cancelled
    → length users ≡ steps_left d.status
    → (db' : Db) × (d' : Delivery) × (advance_all id users db ≡ (ok tt, db'))
      × (find_by_id id db'.deliveries ≡ some d')
      × (d'.status ≡ DeliveryStatus.accounts_payable)
unfolding advance_all
advance_all-arrives id [] db d can free alive h =
    (db, d, refl, can.stands, last_status d.status alive h)
advance_all-arrives id (user ∷ users) db d can free alive h =
    let (t, known, left, alive') = next_status-left d.status (length users) h in
    let (db1, first, can1, free1) = advance_status_returns id user d db can free known in
    let e = status-advanced t user d in
    let (db', d', rest, found, payable) =
      advance_all-arrives id users db1 (advanced t user d) can1 free1 (rw e alive')
        (sym (ap steps_left e ∙ left)) in
    (db', d', >>_ok (advance_status id user) (advance_all id users) first ∙ rest, found, payable)
