-- ===== src/Finance/Reversal.antt =====
-- A reversal against the statements: `aggregateAccountBalances` skips an entry that is marked
-- REVERSED and counts the entry that reverses it.
use mathlib.Core.Option.{some-injective}
use mathlib.Core.Path.{ap₂}
use haroti_lpg_management.Common.Errors.{ok}
use haroti_lpg_management.Database.Entities.{JournalLine, JournalEntry}
use haroti_lpg_management.Database.State.{Db, ◌>>=◌, ◌>>◌}
use haroti_lpg_management.Database.Table.{find_by_id, store, append, sum_of-replace, lookup-append}
use haroti_lpg_management.Finance.Journal.{
  posting_closed, assert_open_for_posting, number_taken, posting_time, save_entry, is_reversed,
  swap_sides, reversal_of, mark_reversed, reverse_found, reverse_entry,
}
use haroti_lpg_management.Finance.Reports.{
  line_net, entry_net, rows_net, contribution, journal_net, aggregate-net,
}
use haroti_lpg_management.Finance.Statements.{counts, aggregate_account_balances}
use haroti_lpg_management.Prelude.{
  ℤ, pos, pos_part, neg_part, ◌+ℤ◌, negate, int_laws, sum_of, sum_of-append, Bool-cases,
  Option-cases, is_some, ◌≤◌, ℕ, ◌≡◌, refl, sym, ap, ◌∙◌, inl, inr, Bool, true, false, some, List,
  [], ◌∷◌, ◌++◌, map, arith,
}

-- The state after a reversal.
abbrev pub reversed_db : ℕ → JournalEntry → Db → Db
reversed_db id original db = record db {
  entries =
      store id (mark_reversed db.entries.next_id original)
        (append (reversal_of id original (posting_time db)) db.entries);
}

reverse_found-ok :
    (id saved : ℕ) (original : JournalEntry) (db db' : Db)
    → reverse_found id original db ≡ (ok saved, db')
    → (is_reversed original.posting_status ≡ false) × (db' ≡ reversed_db id original db)
unfolding reverse_found ◌>>=◌ ◌>>◌ assert_open_for_posting save_entry
reverse_found-ok id saved original db db' h =
    elim (Bool-cases (is_reversed original.posting_status)) [
      | inl old ↦ cc (rw old at h)
      | inr fresh ↦ elim (Bool-cases (is_some original.reversed_by_entry_id)) [
        | inl old ↦ cc (rw (fresh, old) at h)
        | inr first ↦ elim (Bool-cases (posting_closed db)) [
          | inl closed ↦ cc (rw (fresh, first, closed) at h)
          | inr is_open ↦
              elim (Bool-cases (number_taken (reversal_of id original (posting_time db)) db)) [
                | inl used ↦ cc (rw (fresh, first, is_open, used) at h)
                | inr free ↦ (fresh, cc (rw (fresh, first, is_open, free) at h))
              ]
        ]
      ]
    ]

-- A reversal that returns has found an entry that was posted and not yet reversed.
pub reverse_entry-ok :
    (id saved : ℕ) (db db' : Db)
    → reverse_entry id db ≡ (ok saved, db')
    → (original : JournalEntry) × (find_by_id id db.entries ≡ some original)
      × (is_reversed original.posting_status ≡ false)
      × (db' ≡ reversed_db id original db)
unfolding reverse_entry ◌>>=◌
reverse_entry-ok id saved db db' h = elim (Option-cases (find_by_id id db.entries)) [
  | inl missing ↦ cc (rw missing at h)
  | inr (original, found) ↦
      let (fresh, made) = reverse_found-ok id saved original db db' (rw found at h) in
      (original, found, fresh, made)
]

mark_reversed-skipped :
    (p : ℕ → Bool) (start end saved : ℕ) (original : JournalEntry)
    → contribution p start end (mark_reversed saved original) ≡ pos 0
unfolding counts
mark_reversed-skipped p start end saved original = refl

net-swapped :
    (p : ℕ → Bool) (ls : List JournalLine)
    → sum_of (line_net p) (map swap_sides ls) ≡ negate (sum_of (line_net p) ls)
unfolding sum_of negate swap_sides
net-swapped p [] = refl
net-swapped p (l ∷ ls) = elim (Bool-cases (p l.account_code)) [
  | inl hit ↦ rw (hit, net-swapped p ls) (omega int_laws)
  | inr miss ↦ rw (miss, net-swapped p ls) (omega int_laws)
]

entry_net-reversal :
    (p : ℕ → Bool) (id clock : ℕ) (original : JournalEntry)
    → entry_net p (reversal_of id original clock) ≡ negate (entry_net p original)
entry_net-reversal p id clock original = net-swapped p original.lines

counts-reversal :
    (start end id clock : ℕ) (original : JournalEntry)
    → start ≤ clock
    → clock ≤ end
    → counts start end (reversal_of id original clock) ≡ true
unfolding counts
counts-reversal start end id clock original from to = ground arith

twice : (x y e : ℤ) → x +ℤ e ≡ y +ℤ negate e → x +ℤ (e +ℤ e) ≡ y
twice x y e h = omega (int_laws, ap pos_part h, ap neg_part h)

-- The contribution of the entries after the reversal.
zeros : (a b : ℤ) → a +ℤ (b +ℤ pos 0) +ℤ pos 0 ≡ a +ℤ b
zeros a b = omega int_laws

journal_net-reversed :
    (p : ℕ → Bool) (start end id : ℕ) (db : Db) (original : JournalEntry)
    → find_by_id id db.entries ≡ some original
    → journal_net p start end (reversed_db id original db).entries.rows
        +ℤ contribution p start end original
      ≡ journal_net p start end db.entries.rows
        +ℤ contribution p start end (reversal_of id original (posting_time db))
unfolding sum_of
journal_net-reversed p start end id db original found =
    let f = contribution p start end in
    let more = (db.entries.next_id, reversal_of id original (posting_time db)) ∷ [] in
    let marked =
      sum_of-replace f id (mark_reversed db.entries.next_id original) {old = original}
        (db.entries.rows ++ more) (lookup-append id db.entries.rows more found) in
    marked
    ∙ ap₂ ◌+ℤ◌ (sum_of-append (λ e. f e.1) db.entries.rows more)
        (mark_reversed-skipped p start end db.entries.next_id original)
    ∙ zeros (journal_net p start end db.entries.rows)
        (f (reversal_of id original (posting_time db)))

-- A reversal that returns takes the net amount of its entry out of the aggregated balances of any
-- set of accounts twice, over a range that counts the entry and the time of the reversal.
pub reverse_entry_twice :
    (p : ℕ → Bool) (start end id saved : ℕ) (db db' : Db) (original : JournalEntry)
    → reverse_entry id db ≡ (ok saved, db')
    → find_by_id id db.entries ≡ some original
    → counts start end original ≡ true
    → start ≤ posting_time db
    → posting_time db ≤ end
    → rows_net p (aggregate_account_balances start end db')
        +ℤ (entry_net p original +ℤ entry_net p original)
      ≡ rows_net p (aggregate_account_balances start end db)
reverse_entry_twice p start end id saved db db' original h found counted from to =
    let (o, found', fresh, made) = reverse_entry-ok id saved db db' h in
    let same : o ≡ original = some-injective _ _ (sym found' ∙ found) in
    let net = journal_net-reversed p start end id db original found in
    let sum_then =
      rw
        (
          counted,
          counts-reversal start end id (posting_time db) original from to,
          entry_net-reversal p id (posting_time db) original,
        )
        at net in
    rw
      (
        made,
        same,
        aggregate-net p start end (reversed_db id original db),
        aggregate-net p start end db,
      )
      (twice _ _ _ sum_then)
