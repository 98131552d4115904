-- ===== src/Finance/Balance.antt =====
-- Double entry under the postings and the reversals of `FinanceService`.
use haroti_lpg_management.Common.Enums.{JournalEventType}
use haroti_lpg_management.Common.Errors.{Reason, bad_request}
use haroti_lpg_management.Database.Entities.{ReferenceType, Reference, JournalLine, JournalEntry}
use haroti_lpg_management.Database.Keeps.{
  Keeps, throw_if-Keeps, Keeps-pure, Keeps-gets, Keeps-throw_if, Keeps->>=, Keeps->>, Keeps-found,
  Keeps-when, Keeps-for_each,
}
use haroti_lpg_management.Database.State.{Db, modify}
use haroti_lpg_management.Database.Table.{
  store, find_where, Every, lookup-All, replace-All, append-Every,
}
use haroti_lpg_management.Finance.Journal.{
  posting_closed, assert_open_for_posting, journal_line, EntryParams, new_entry, posting_time,
  save_entry, post_entry, swap_sides, reversal_of, mark_reversed, reverse_found, reverse_entry,
  reverse_all_for_reference,
}
use haroti_lpg_management.Finance.Posting.{
  reference_to, entry_of, post_accessory_retail_sale, post_lpg_cogs, post_lpg_refill_sale,
  post_credit_sale, event_tag, is_entry_for, post_once,
}
use haroti_lpg_management.Finance.Saved.{save_entry-Frame}
use haroti_lpg_management.Prelude.{
  ℤ, int_laws, sum_of, Option-cases, ℕ, ◌≡◌, refl, sym, ◌∙◌, inl, inr, Option, List, [], ◌∷◌, map,
}

abbrev pub debits : List JournalLine → ℤ
debits = sum_of (λ l. l.debit_amount)

abbrev pub credits : List JournalLine → ℤ
credits = sum_of (λ l. l.credit_amount)

abbrev pub IsBalanced : JournalEntry → Type 0
IsBalanced e = debits e.lines ≡ credits e.lines

abbrev pub JournalIsBalanced : Db → Type 0
JournalIsBalanced db = Every IsBalanced db.entries

debits-swap_sides : (ls : List JournalLine) → debits (map swap_sides ls) ≡ credits ls
unfolding sum_of swap_sides
debits-swap_sides [] = refl
debits-swap_sides (l ∷ ls) = rw (debits-swap_sides ls) refl

credits-swap_sides : (ls : List JournalLine) → credits (map swap_sides ls) ≡ debits ls
unfolding sum_of swap_sides
credits-swap_sides [] = refl
credits-swap_sides (l ∷ ls) = rw (credits-swap_sides ls) refl

entry_of-IsBalanced :
    (event : JournalEventType) (kind : ReferenceType) (id debit credit clock : ℕ) (amount : ℤ)
    → IsBalanced (new_entry (entry_of event kind id debit credit amount) clock)
unfolding sum_of journal_line
entry_of-IsBalanced event kind id debit credit clock amount = omega int_laws

-- A property of the state that depends on the entries and the clock alone is kept by what saves
-- balanced entries; the statements below are for the journal's own balance.
save_entry-Keeps :
    (make : ℕ → JournalEntry)
    → ((clock : ℕ) → IsBalanced (make clock))
    → Keeps JournalIsBalanced (save_entry make)
save_entry-Keeps make balanced = save_entry-Frame JournalIsBalanced make λ db h.
    append-Every IsBalanced (make (posting_time db)) db.entries h (balanced (posting_time db))

pub assert_open-Keeps : {P : Db → Type 0} → Keeps P assert_open_for_posting
unfolding assert_open_for_posting
assert_open-Keeps {P} = record {
  run = λ db h. throw_if-Keeps P (posting_closed db) (bad_request Reason.period_hard_closed) db h;
}

post_entry-Keeps :
    (p : EntryParams)
    → ((clock : ℕ) → IsBalanced (new_entry p clock))
    → Keeps JournalIsBalanced (post_entry p)
unfolding post_entry
post_entry-Keeps p balanced = Keeps->> assert_open-Keeps (save_entry-Keeps (new_entry p) balanced)

-- A posting of one amount from one account to another keeps the journal balanced.
pub post_entry_of-Keeps :
    (event : JournalEventType) (kind : ReferenceType) (id debit credit : ℕ) (amount : ℤ)
    → Keeps JournalIsBalanced (post_entry (entry_of event kind id debit credit amount))
post_entry_of-Keeps event kind id debit credit amount =
    post_entry-Keeps (entry_of event kind id debit credit amount)
      (λ clock. entry_of-IsBalanced event kind id debit credit clock amount)

mark_reversed-Keeps :
    (id saved : ℕ) (original : JournalEntry)
    → IsBalanced original
    → Keeps JournalIsBalanced
        (modify (λ db. record db { entries = store id (mark_reversed saved original) db.entries }))
mark_reversed-Keeps id saved original b = record {
  run = λ db h. replace-All IsBalanced id _ db.entries.rows h b;
}

reverse_found-Keeps :
    (id : ℕ) (original : JournalEntry)
    → IsBalanced original
    → Keeps JournalIsBalanced (reverse_found id original)
unfolding reverse_found
reverse_found-Keeps id original b =
    let swapped =
      debits-swap_sides original.lines ∙ sym b ∙ sym (credits-swap_sides original.lines) in
    Keeps->> (Keeps-throw_if _ _) (
      Keeps->> (Keeps-throw_if _ _) (
        Keeps->> assert_open-Keeps (
          Keeps->>= (save_entry-Keeps (reversal_of id original) (λ clock. swapped))
            λ saved. Keeps->> (mark_reversed-Keeps id saved original b) (Keeps-pure saved))))

-- Reversing an entry keeps the journal balanced.
pub reverse_entry-Keeps : (id : ℕ) → Keeps JournalIsBalanced (reverse_entry id)
unfolding reverse_entry
reverse_entry-Keeps id = Keeps-found _ _ _ λ original db found h.
    (reverse_found-Keeps id original (lookup-All IsBalanced id db.entries.rows h found)).run db h

-- So does the reversal of all that was posted for a document.
pub reverse_all-Keeps : (r : Reference) → Keeps JournalIsBalanced (reverse_all_for_reference r)
unfolding reverse_all_for_reference
reverse_all-Keeps r =
    Keeps->>= (Keeps-gets _)
      λ entries. Keeps-for_each entries λ e. Keeps->> (reverse_entry-Keeps e.0) (Keeps-pure tt)

-- A posting that is made once keeps it too, made or found.
pub post_once-Keeps :
    (event : JournalEventType) (kind : ReferenceType) (id debit credit : ℕ) (amount : ℤ)
    → Keeps JournalIsBalanced (post_once (entry_of event kind id debit credit amount))
unfolding post_once
post_once-Keeps event kind id debit credit amount =
    let same = is_entry_for (reference_to kind id) (event_tag event) in
    record {
      run = λ db h. elim (Option-cases (find_where same db.entries)) [
        | inl new ↦
            rw (new, post_once) ((post_entry_of-Keeps event kind id debit credit amount).run db h)
        | inr (e, old) ↦ rw (old, post_once) h
      ];
    }

post_lpg_cogs-Keeps :
    (ref_id : ℕ) (kg cost : ℤ) → Keeps JournalIsBalanced (post_lpg_cogs ref_id kg cost)
unfolding post_lpg_cogs
post_lpg_cogs-Keeps ref_id kg cost =
    Keeps-when _ (Keeps->> (post_entry_of-Keeps _ _ _ _ _ _) (Keeps-pure tt))

pub post_lpg_refill_sale-Keeps :
    (amount : ℤ) (ref_id : ℕ) (kg : ℤ) (cost : Option ℤ)
    → Keeps JournalIsBalanced (post_lpg_refill_sale amount ref_id kg cost)
unfolding post_lpg_refill_sale
post_lpg_refill_sale-Keeps amount ref_id kg cost =
    Keeps->> (post_entry_of-Keeps _ _ _ _ _ _) (post_lpg_cogs-Keeps ref_id kg _)

pub post_credit_sale-Keeps :
    (amount : ℤ) (ref_id : ℕ) (kg : ℤ) (cost : Option ℤ)
    → Keeps JournalIsBalanced (post_credit_sale amount ref_id kg cost)
unfolding post_credit_sale
post_credit_sale-Keeps amount ref_id kg cost =
    Keeps->> (post_entry_of-Keeps _ _ _ _ _ _) (post_lpg_cogs-Keeps ref_id kg _)

pub post_accessory_retail_sale-Keeps :
    (amount cogs : ℤ) (ref_id : ℕ)
    → Keeps JournalIsBalanced (post_accessory_retail_sale amount cogs ref_id)
unfolding post_accessory_retail_sale
post_accessory_retail_sale-Keeps amount cogs ref_id =
    Keeps->> (post_entry_of-Keeps _ _ _ _ _ _)
      (Keeps-when _ (Keeps->> (post_entry_of-Keeps _ _ _ _ _ _) (Keeps-pure tt)))
