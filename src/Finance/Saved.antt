-- ===== src/Finance/Saved.antt =====
-- What `entriesRepo.save` of a new entry leaves, with its number free or taken.
use haroti_lpg_management.Common.Errors.{Result, ok}
use haroti_lpg_management.Database.Entities.{JournalEntry}
use haroti_lpg_management.Database.Keeps.{Keeps}
use haroti_lpg_management.Database.State.{Db}
use haroti_lpg_management.Finance.Journal.{number_taken, posting_time, add_entry, save_entry}
use haroti_lpg_management.Prelude.{Bool-cases, ℕ, ◌≡◌, sym, ap, inl, inr, false}

pub save_entry-Frame :
    (P : Db → Type 0) (make : ℕ → JournalEntry)
    → ((db : Db) → P db → P (add_entry (make (posting_time db)) db))
    → Keeps P (save_entry make)
unfolding save_entry
save_entry-Frame P make frame = record {
  run = λ db h. elim (Bool-cases (number_taken (make (posting_time db)) db)) [
    | inl used ↦ rw used h
    | inr free ↦ rw free (frame db h)
  ];
}

pub save_entry_inv :
    (make : ℕ → JournalEntry) (db : Db) {db' : Db} {id : ℕ}
    → save_entry make db ≡ (ok id, db')
    → (number_taken (make (posting_time db)) db ≡ false)
      × (id ≡ db.entries.next_id)
      × (db' ≡ add_entry (make (posting_time db)) db)
unfolding save_entry
save_entry_inv make db h = elim (Bool-cases (number_taken (make (posting_time db)) db)) [
  | inl used ↦ cc (rw used at h)
  | inr free ↦ (free, cc (rw free at h), sym (ap (λ (r : Result ℕ × Db). r.1) (rw free at h)))
]
