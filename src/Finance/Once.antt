-- ===== src/Finance/Once.antt =====
-- `reverseEntry`, and the postings that look for their entry, called twice.
use haroti_lpg_management.Common.Errors.{Reason, bad_request, Result, ok, err}
use haroti_lpg_management.Database.Entities.{Reference, same_reference, JournalEntry}
use haroti_lpg_management.Database.State.{Db, ◌>>=◌, ◌>>◌}
use haroti_lpg_management.Database.Table.{
  find_by_id, append, find_where, lookup-replace, lookup-append, find-append,
}
use haroti_lpg_management.Finance.Journal.{
  posting_closed, assert_open_for_posting, EntryParams, new_entry, posting_time, post_entry,
  reversal_of, mark_reversed, reverse_found, reverse_entry,
}
use haroti_lpg_management.Finance.Posting.{event_tag, is_entry_for, post_once}
use haroti_lpg_management.Finance.Reversal.{reversed_db, reverse_entry-ok}
use haroti_lpg_management.Finance.Saved.{save_entry_inv}
use haroti_lpg_management.Prelude.{
  Bool-cases, Option-cases, ℕ, ◌≡◌, refl, sym, ap, ◌∙◌, subst, inl, inr, true, Option, none, some,
  [], ◌∷◌, ◌++◌, arith,
}

marked_lem :
    (id : ℕ) (original : JournalEntry) (db : Db)
    → find_by_id id db.entries ≡ some original
    → find_by_id id (reversed_db id original db).entries
      ≡ some (mark_reversed db.entries.next_id original)
marked_lem id original db found =
    rw
      (lookup-replace id id (mark_reversed db.entries.next_id original) {old = original}
        (db.entries.rows ++ (db.entries.next_id, reversal_of id original (posting_time db)) ∷ [])
        (lookup-append id db.entries.rows
          ((db.entries.next_id, reversal_of id original (posting_time db)) ∷ []) found))
      (ground arith)

-- After a reversal that returned, another reversal of the same entry is refused as already
-- reversed and changes nothing.
pub reverse_entry_again :
    (id saved : ℕ) (db db' : Db)
    → reverse_entry id db ≡ (ok saved, db')
    → reverse_entry id db' ≡ (err (bad_request Reason.entry_already_reversed), db')
unfolding reverse_entry reverse_found ◌>>=◌ ◌>>◌
reverse_entry_again id saved db db' h =
    let (original, found, fresh, made) = reverse_entry-ok id saved db db' h in
    let marked : find_by_id id db'.entries ≡ some (mark_reversed db.entries.next_id original) =
      rw made (marked_lem id original db found) in
    rw marked refl

same_reference_refl : (r : Reference) → same_reference r r ≡ true
unfolding same_reference
same_reference_refl r = ground arith

is_entry_for_refl :
    (p : EntryParams) (clock : ℕ)
    → is_entry_for p.reference (event_tag p.event_type) (new_entry p clock) ≡ true
unfolding is_entry_for
is_entry_for_refl p clock = rw (same_reference_refl p.reference) (ground arith)

posted_lem :
    (p : EntryParams) (db db' : Db) {e : ℕ}
    → post_entry p db ≡ (ok e, db')
    → (e ≡ db.entries.next_id) × (db'.entries ≡ append (new_entry p (posting_time db)) db.entries)
unfolding post_entry assert_open_for_posting ◌>>◌
posted_lem p db db' h = elim (Bool-cases (posting_closed db)) [
  | inl closed ↦ cc (rw closed at h)
  | inr is_open ↦
      let (free, is_next, made) = save_entry_inv (new_entry p) db (rw is_open at h) in
      (is_next, ap (λ (d : Db). d.entries) made)
]

abbrev pub sought : EntryParams → Db → Option (ℕ × JournalEntry)
sought p db = find_where (is_entry_for p.reference (event_tag p.event_type)) db.entries

pub post_once_old :
    (p : EntryParams) (db : Db) {r : ℕ × JournalEntry}
    → sought p db ≡ some r
    → post_once p db ≡ (ok r.0, db)
unfolding post_once
post_once_old p db old = rw (old, post_once) refl

pub post_once_new :
    (p : EntryParams) (db : Db) → sought p db ≡ none → post_once p db ≡ post_entry p db
unfolding post_once
post_once_new p db new = rw (new, post_once) refl

-- The entry that was posted is the one that is found.
found_after :
    (p : EntryParams) (db db' : Db) {e : ℕ}
    → sought p db ≡ none
    → post_entry p db ≡ (ok e, db')
    → sought p db' ≡ some (e, new_entry p (posting_time db))
found_after p db db' {e} new h =
    let (is_next, entries) = posted_lem p db db' h in
    rw (entries, is_next)
      (find-append (is_entry_for p.reference (event_tag p.event_type))
        (db.entries.next_id, new_entry p (posting_time db)) db.entries.rows new
        (is_entry_for_refl p (posting_time db)))

same_search :
    (p q : EntryParams) (db : Db)
    → q.reference ≡ p.reference
    → event_tag q.event_type ≡ event_tag p.event_type
    → sought q db ≡ sought p db
same_search p q db hr he = rw (hr, he) refl

returned_there :
    (q : EntryParams) {e e' : ℕ} {db db' : Db}
    → ◌≡◌ {A = Result ℕ × Db} (ok e', db) (ok e, db')
    → post_once q db ≡ (ok e', db)
    → post_once q db' ≡ (ok e, db')
returned_there q same old = subst (λ (r : Result ℕ × Db). post_once q r.1 ≡ r) same old

-- A posting that looks for its entry, repeated with the same reference and event after one that
-- returned, returns the same entry and changes nothing, whatever its lines.
pub post_once_again :
    (p q : EntryParams) (db db' : Db) {e : ℕ}
    → q.reference ≡ p.reference
    → event_tag q.event_type ≡ event_tag p.event_type
    → post_once p db ≡ (ok e, db')
    → post_once q db' ≡ (ok e, db')
post_once_again p q db db' {e} hr he h = elim (Option-cases (sought p db)) [
  | inl new ↦
      let found = found_after p db db' new (sym (post_once_new p db new) ∙ h) in
      post_once_old q db' (same_search p q db' hr he ∙ found)
  | inr (r, old) ↦
      let same = sym (post_once_old p db old) ∙ h in
      returned_there q same (post_once_old q db (same_search p q db hr he ∙ old))
]
