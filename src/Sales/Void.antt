-- ===== src/Sales/Void.antt =====
-- `voidSale`, called twice.
use haroti_lpg_management.Common.Enums.{SaleStatus}
use haroti_lpg_management.Common.Errors.{Reason, bad_request, not_found, ok, err}
use haroti_lpg_management.Customers.{find_customer, relieve_credit}
use haroti_lpg_management.Database.Entities.{Reference, JournalEntry, Sale}
use haroti_lpg_management.Database.Keeps.{
  Keeps, Keeps-pure, Keeps-gets, Keeps-find_or_throw, Keeps-throw_if, Keeps->>=, Keeps->>,
  Keeps-when, Keeps-for_each,
}
use haroti_lpg_management.Database.Returns.{find_or_throw_inv, >>=_inv, >>_inv, throw_if_inv}
use haroti_lpg_management.Database.State.{Db, Op, ◌>>=◌, ◌>>◌, modify}
use haroti_lpg_management.Database.Table.{find_by_id, lookup-replace}
use haroti_lpg_management.Finance.Balance.{assert_open-Keeps}
use haroti_lpg_management.Finance.Journal.{
  save_entry, reverse_found, reverse_entry, reverse_all_for_reference,
}
use haroti_lpg_management.Finance.Saved.{save_entry-Frame}
use haroti_lpg_management.Inventory.{MovementParams, apply_movement}
use haroti_lpg_management.Inventory.Stock.{apply_movement-Keeps}
use haroti_lpg_management.Prelude.{
  Option-cases, ℕ, ◌≡◌, refl, ◌∙◌, subst, inl, inr, true, not, some, arith,
}
use haroti_lpg_management.Sales.Create.{store_sale}
use haroti_lpg_management.Sales.Lifecycle.{
  is_completed, find_sale, with_status, relieve_sale_credit, undo_sale, void_sale,
}
use haroti_lpg_management.Shifts.Locks.{not-false}

-- The sale with that id is `s`.
abbrev SaleIs : ℕ → Sale → Db → Type 0
SaleIs id s db = find_by_id id db.sales ≡ some s

module _ (id : ℕ) (s : Sale) where
  save_entry-sale : (make : ℕ → JournalEntry) → Keeps (SaleIs id s) (save_entry make)
  save_entry-sale make = save_entry-Frame (SaleIs id s) make λ db h. h

  reverse_found-sale : (e : ℕ) (o : JournalEntry) → Keeps (SaleIs id s) (reverse_found e o)
  unfolding reverse_found
  reverse_found-sale e o = Keeps->> (Keeps-throw_if _ _) (
      Keeps->> (Keeps-throw_if _ _) (
        Keeps->> assert_open-Keeps (
          Keeps->>= (save_entry-sale _)
            λ saved. Keeps->> (record { run = λ db h. h }) (Keeps-pure saved))))

  reverse_all-sale : (r : Reference) → Keeps (SaleIs id s) (reverse_all_for_reference r)
  unfolding reverse_all_for_reference reverse_entry
  reverse_all-sale r = Keeps->>= (Keeps-gets _) λ entries. Keeps-for_each entries λ e.
      Keeps->> (Keeps->>= (Keeps-find_or_throw _ _) λ o. reverse_found-sale e.0 o) (Keeps-pure tt)

  apply_movement-sale : (p : MovementParams) → Keeps (SaleIs id s) (apply_movement p)
  apply_movement-sale p = apply_movement-Keeps (SaleIs id s) p λ db st after found moved h. h

  relieve-sale : (t : Sale) → Keeps (SaleIs id s) (relieve_sale_credit t)
  unfolding relieve_sale_credit relieve_credit find_customer
  relieve-sale t = elim (Option-cases t.customer_id) [
    | inl nobody ↦ rw (nobody, relieve_sale_credit) (Keeps-pure tt)
    | inr (c, known) ↦
        rw (known, relieve_sale_credit)
          (Keeps-when _ (Keeps->>= (Keeps-find_or_throw _ _) λ c. record { run = λ db h. h }))
  ]

  before_save-sale : (user : ℕ) → Keeps (SaleIs id s) (undo_sale id user s)
  unfolding undo_sale
  before_save-sale user =
      Keeps->> (reverse_all-sale _) (
        Keeps->> (Keeps-when _ (Keeps->> (apply_movement-sale _) (Keeps-pure tt))) (relieve-sale s))

returned_state :
    (P : Db → Type 0) {A : Type 0} (m : Op A) {db db1 : Db} {a : A}
    → m db ≡ (ok a, db1)
    → P (m db).1
    → P db1
returned_state P m h p = subst (λ r. P (r.1)) h p

saved_sale :
    (id : ℕ) (s : Sale) (db : Db)
    → SaleIs id s db
    → SaleIs id
        (with_status SaleStatus.voided s)
        (store_sale id (with_status SaleStatus.voided s) db)
saved_sale id s db h =
    rw (lookup-replace id id (with_status SaleStatus.voided s) db.sales.rows h) (ground arith)

modify_inv :
    (f : Db → Db) (db : Db) {db' : Db} {u : Unit {0}} → modify f db ≡ (ok u, db') → f db ≡ db'
modify_inv f db h = cc

voided_after :
    (id user : ℕ) (s : Sale) (db d2 d3 db' : Db) {u : Unit {0}}
    → db ≡ d2
    → SaleIs id s db
    → undo_sale id user s d2 ≡ (ok u, d3)
    → store_sale id (with_status SaleStatus.voided s) d3 ≡ db'
    → SaleIs id (with_status SaleStatus.voided s) db'
voided_after id user s db d2 d3 db' same was undone saved =
    let at_d2 : SaleIs id s d2 = subst (SaleIs id s) same was in
    let at_d3 : SaleIs id s d3 =
      returned_state (SaleIs id s) (undo_sale id user s) undone
        ((before_save-sale id s user).run d2 at_d2) in
    subst (SaleIs id (with_status SaleStatus.voided s)) saved (saved_sale id s d3 at_d3)

void_sale-voids :
    (id user : ℕ) (db db' : Db) {u : Unit {0}}
    → void_sale id user db ≡ (ok u, db')
    → (s : Sale) × SaleIs id s db
      × (is_completed s.status ≡ true)
      × SaleIs id (with_status SaleStatus.voided s) db'
unfolding void_sale find_sale
void_sale-voids id user db db' h =
    let (s, d1, found, h1) = >>=_inv _ _ h in
    let (_, d2, tested, h2) = >>_inv _ _ h1 in
    let (_, d3, undone, h3) = >>_inv _ _ h2 in
    let (was, same) =
      find_or_throw_inv (not_found Reason.sale_not_found) (λ db. find_by_id id db.sales) found in
    let (completed, same') =
      throw_if_inv (not (is_completed s.status)) (bad_request Reason.sale_not_completed) tested in
    (
      s,
      was,
      not-false _ completed,
      voided_after id user s db d2 d3 db' (same ∙ same') was undone
          (modify_inv (store_sale id (with_status SaleStatus.voided s)) d3 h3),
    )

-- After a void that returned, a second void of the sale, by anybody, is refused with the error
-- that the sale is not completed, and changes nothing.
pub void_sale_twice :
    (id user user' : ℕ) (db db' : Db) {u : Unit {0}}
    → void_sale id user db ≡ (ok u, db')
    → void_sale id user' db' ≡ (err (bad_request Reason.sale_not_completed), db')
unfolding void_sale find_sale ◌>>=◌ ◌>>◌
void_sale_twice id user user' db db' h =
    let (s, was, completed, after) = void_sale-voids id user db db' h in rw after refl
