-- ===== src/Finance/Journal.antt =====
-- `FinanceService.postEntry`, `reverseEntry` and `reverseAllForReference`, with
-- `FiscalPeriodService.assertOpenForPosting`. Times are in milliseconds, as `Date` counts them.
use haroti_lpg_management.Common.Enums.{JournalEventType, JournalPostingStatus, FiscalPeriodStatus}
use haroti_lpg_management.Common.Errors.{Reason, bad_request, internal_error, ok, err}
use haroti_lpg_management.Database.Entities.{
  Reference, same_reference, JournalLine, JournalEntry, FiscalPeriod,
}
use haroti_lpg_management.Database.State.{
  Db, Op, pure, gets, find_or_throw, ◌>>=◌, ◌>>◌, throw_if, modify, for_each,
}
use haroti_lpg_management.Database.Table.{find_by_id, store, append, find_where, all_where}
use haroti_lpg_management.Prelude.{
  ℤ, pos, any, leb, ◌==◌, if◌then◌else◌, or_else, is_some, ◌+◌, ◌/◌, ◌%◌, ℕ, Bool, true, false, not,
  ◌&&◌, Option, none, some, List, map,
}

-- `date.toISOString().slice(0, 10)`, as the number of the day.
unfoldable pub day_of : ℕ → ℕ
day_of t = t / 86_400_000

unfoldable pub covers : ℕ → FiscalPeriod → Bool
covers day p = leb p.start_date day && leb day p.end_date

abbrev pub is_hard_closed : FiscalPeriodStatus → Bool
is_hard_closed FiscalPeriodStatus.hard_closed = true
is_hard_closed _ = false

-- The current day lies in a period that is hard-closed.
unfoldable pub posting_closed : Db → Bool
posting_closed db = elim (find_where (covers (day_of db.clock)) db.periods) [
  | none ↦ false
  | some p ↦ is_hard_closed p.1.status
]

unfoldable pub assert_open_for_posting : Op (Unit {0})
assert_open_for_posting db = throw_if (posting_closed db) (bad_request Reason.period_hard_closed) db

-- One of the `lines` of `postEntry`, with its optional sides.
pub record PostLine : Type 0 where
  pub account : ℕ
  pub debit : Option ℤ
  pub credit : Option ℤ

unfoldable pub journal_line : PostLine → JournalLine
journal_line l = record {
  account_code = l.account;
  debit_amount = or_else l.debit (pos 0);
  credit_amount = or_else l.credit (pos 0);
}

abbrev pub debit_line : ℕ → ℤ → PostLine
debit_line account amount = record { account = account; debit = some amount; credit = none }

abbrev pub credit_line : ℕ → ℤ → PostLine
credit_line account amount = record { account = account; debit = none; credit = some amount }

pub record EntryParams : Type 0 where
  pub event_type : JournalEventType
  pub reference : Reference
  pub lines : List PostLine

abbrev pub new_entry : EntryParams → ℕ → JournalEntry
new_entry p clock = record {
  event_type = p.event_type;
  posting_status = JournalPostingStatus.posted;
  reference = some p.reference;
  reverses_entry_id = none;
  reversed_by_entry_id = none;
  posted_at = clock;
  lines = map journal_line p.lines;
}

-- `event.slice(0, 4)`
abbrev pub number_prefix : JournalEventType → ℕ
number_prefix JournalEventType.accessory_grn = 0
number_prefix JournalEventType.accessory_transfer = 0
number_prefix JournalEventType.accessory_consignment = 0
number_prefix JournalEventType.accessory_retail_sale = 0
number_prefix JournalEventType.accessory_cogs = 0
number_prefix JournalEventType.franchise_settlement = 1
number_prefix JournalEventType.franchise_consignment = 1
number_prefix JournalEventType.bundle_sale = 2
number_prefix JournalEventType.lpg_delivery = 3
number_prefix JournalEventType.lpg_refill_sale = 3
number_prefix JournalEventType.lpg_cogs = 3
number_prefix JournalEventType.payc_burn_revenue = 4
number_prefix JournalEventType.payc_credit_topup = 4
number_prefix JournalEventType.capital_expenditure = 5
number_prefix JournalEventType.agent_commission = 6
number_prefix JournalEventType.station_expense = 7
number_prefix JournalEventType.requisition_payment = 8
number_prefix JournalEventType.customer_credit_sale = 9
number_prefix JournalEventType.customer_payment = 9
number_prefix JournalEventType.supplier_payment = 10
number_prefix JournalEventType.sale_reversal = 11

-- The same `entryNumber`: the prefix of the event and the last eight digits of `Date.now()`.
abbrev pub same_number : JournalEntry → JournalEntry → Bool
same_number e f =
    number_prefix e.event_type == number_prefix f.event_type
    && e.posted_at % 100_000_000 == f.posted_at % 100_000_000

-- The column is unique: another entry has the number.
abbrev pub number_taken : JournalEntry → Db → Bool
number_taken e db = any (λ r. same_number e r.1) db.entries.rows

-- `Date.now()` when the next entry is made.
abbrev pub posting_time : Db → ℕ
posting_time db = db.clock + db.elapsed db.entries.next_id

abbrev pub add_entry : JournalEntry → Db → Db
add_entry e db = record db { entries = append e db.entries }

-- `entriesRepo.save(entry)` of a new entry; the result is its id.
unfoldable pub save_entry : (ℕ → JournalEntry) → Op ℕ
save_entry make db =
    let e = make (posting_time db) in
    if number_taken e db
    then (err (internal_error Reason.entry_number_taken), db)
    else (ok db.entries.next_id, add_entry e db)

unfoldable pub post_entry : EntryParams → Op ℕ
post_entry p = do assert_open_for_posting; save_entry (new_entry p)

abbrev pub is_reversed : JournalPostingStatus → Bool
is_reversed JournalPostingStatus.posted = false
is_reversed JournalPostingStatus.reversed = true

-- A line of the reversal: the sides change places.
unfoldable pub swap_sides : JournalLine → JournalLine
swap_sides l = record l { debit_amount = l.credit_amount; credit_amount = l.debit_amount }

abbrev pub reversal_of : ℕ → JournalEntry → ℕ → JournalEntry
reversal_of id original clock = record {
  event_type = JournalEventType.sale_reversal;
  posting_status = JournalPostingStatus.posted;
  reference = original.reference;
  reverses_entry_id = some id;
  reversed_by_entry_id = none;
  posted_at = clock;
  lines = map swap_sides original.lines;
}

-- The original once it is reversed.
abbrev pub mark_reversed : ℕ → JournalEntry → JournalEntry
mark_reversed by original = record original {
  posting_status = JournalPostingStatus.reversed;
  reversed_by_entry_id = some by;
}

-- `reverseEntry` once the original is read.
unfoldable pub reverse_found : ℕ → JournalEntry → Op ℕ
reverse_found id original = do
  throw_if (is_reversed original.posting_status) (bad_request Reason.entry_already_reversed)
  throw_if (is_some original.reversed_by_entry_id) (bad_request Reason.entry_has_reversal)
  assert_open_for_posting
  saved ← save_entry (reversal_of id original)
  modify (λ db. record db { entries = store id (mark_reversed saved original) db.entries })
  pure saved

unfoldable pub reverse_entry : ℕ → Op ℕ
unfolding reverse_found
reverse_entry id = do
  original ← find_or_throw (bad_request Reason.entry_not_found) (λ db. find_by_id id db.entries)
  reverse_found id original

-- `referenceType`, `referenceId` and `postingStatus: POSTED`
unfoldable pub is_posted_for : Reference → JournalEntry → Bool
is_posted_for r e =
    elim e.reference [ none ↦ false | some q ↦ same_reference q r ]
    && not (is_reversed e.posting_status)

unfoldable pub reverse_all_for_reference : Reference → Op (Unit {0})
reverse_all_for_reference r = do
  entries ← gets (λ db. all_where (is_posted_for r) db.entries)
  for_each (λ e. reverse_entry e.0 >> pure tt) entries
