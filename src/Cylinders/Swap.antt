-- ===== src/Cylinders/Swap.antt =====
-- Where the two cylinders of a swap end (backend/src/cylinders/cylinders.service.ts).
use haroti_lpg_management.Common.Errors.{Result, ok}
use haroti_lpg_management.Cylinders.{
  find_serial, SwapParams, swapped_in, swapped_out, save_swapped, log_swap, swap,
}
use haroti_lpg_management.Database.Entities.{Customer, Cylinder}
use haroti_lpg_management.Database.Returns.{>>_inv, throw_if_inv}
use haroti_lpg_management.Database.State.{Db, ◌>>=◌, ◌>>◌, modify}
use haroti_lpg_management.Database.Table.{replace, find_by_id, lookup-replace}
use haroti_lpg_management.Prelude.{
  ◌==◌, if◌then◌else◌, Option-cases, ℕ, ◌≡◌, refl, sym, ap, ◌∙◌, subst, inl, inr, false, none, some,
  arith,
}
use haroti_lpg_management.Sales.Pricing.{is_blocked, assert_eligible}

-- A row that a serial number finds stands under its identifier.
abbrev pub IsFound : ℕ → ℕ → Cylinder → Db → Type 0
IsFound serial id c db =
    (find_serial serial db ≡ some (id, c)) × (find_by_id id db.cylinders ≡ some c)

swapped_lem :
    (p : SwapParams) (i o : ℕ) (c d : Cylinder) (db : Db)
    → find_by_id i db.cylinders ≡ some c
    → find_by_id o db.cylinders ≡ some d
    → (i == o) ≡ false
    → (j : ℕ)
    → find_by_id j (save_swapped p (i, c) (o, d) db).cylinders ≡ (
        if o == j
        then some (swapped_out p d)
        else if i == j
        then some (swapped_in p c)
        else find_by_id j db.cylinders)
unfolding save_swapped
swapped_lem p i o c d db hc hd apart j =
    rw
      (
        lookup-replace j o (swapped_out p d) {old = d}
            (replace i (swapped_in p c) db.cylinders.rows)
            (rw (lookup-replace o i (swapped_in p c) {old = c} db.cylinders.rows hc, apart) hd),
        lookup-replace j i (swapped_in p c) {old = c} db.cylinders.rows hc,
      )
      refl

eligible_inv :
    (c : Cylinder) {db db' : Db} {u : Unit {0}}
    → assert_eligible c db ≡ (ok u, db')
    → (is_blocked c.status ≡ false) × (db ≡ db')
unfolding assert_eligible ◌>>=◌
eligible_inv c {db} h =
    let (u, db1, e, h1) = >>_inv _ _ h in
    let (free, same) = throw_if_inv _ _ e in (free, same ∙ (throw_if_inv _ _ h1).1)

-- Where the cylinders stand after a swap.
pub record IsSwapped (p : SwapParams) (i o : ℕ) (c d : Cylinder) (db db' : Db) : Type 0 where
  pub incoming : find_by_id i db'.cylinders ≡ some (swapped_in p c)
  pub outgoing : find_by_id o db'.cylinders ≡ some (swapped_out p d)
  pub others :
      (j : ℕ)
      → (i == j) ≡ false
      → (o == j) ≡ false
      → find_by_id j db'.cylinders ≡ find_by_id j db.cylinders

placed_lem :
    (p : SwapParams) (i o : ℕ) (c d : Cylinder) (db : Db)
    → find_by_id i db.cylinders ≡ some c
    → find_by_id o db.cylinders ≡ some d
    → (i == o) ≡ false
    → IsSwapped p i o c d db (log_swap p i o (save_swapped p (i, c) (o, d) db))
unfolding log_swap
placed_lem p i o c d db hc hd apart =
    let placed = swapped_lem p i o c d db hc hd apart in
    record {
      incoming = placed i ∙ ground arith;
      outgoing = placed o ∙ ground arith;
      others = λ j hi ho. placed j ∙ rw (hi, ho) refl;
    }

found_lem :
    (p : SwapParams) (r t : ℕ × Cylinder) (customer : Customer) (db : Db)
    → find_by_id p.customer_id db.customers ≡ some customer
    → find_serial p.incoming_serial db ≡ some r
    → find_serial p.outgoing_serial db ≡ some t
    → swap p db
      ≡ (assert_eligible t.1 >> (modify (save_swapped p r t) >> modify (log_swap p r.0 t.0))) db
unfolding swap ◌>>=◌ ◌>>◌
found_lem p r t customer db known fc fd = rw (known, fc, fd) refl

swap_unknown :
    (p : SwapParams) (db db' : Db)
    → find_by_id p.customer_id db.customers ≡ none
    → ¬ (swap p db ≡ (ok tt, db'))
unfolding swap ◌>>◌
swap_unknown p db db' unknown h = cc (rw unknown at h)

saved_end :
    (p : SwapParams) (r t : ℕ × Cylinder) (db db' : Db)
    → (modify (save_swapped p r t) >> modify (log_swap p r.0 t.0)) db ≡ (ok tt, db')
    → log_swap p r.0 t.0 (save_swapped p r t db) ≡ db'
unfolding ◌>>◌
saved_end p r t db db' h = ap (λ (x : Result (Unit {0}) × Db). x.1) h

-- A swap that returns, of two cylinders with different identifiers, had an outgoing cylinder that
-- is not condemned, damaged or under inspection. It leaves the incoming one, which the page for
-- swaps calls the empty one that is returned, with the customer, whatever its status was, the
-- outgoing one, which it calls the filled one that is issued, empty at the station, and every
-- other as it was.
pub swap-IsSwapped :
    (p : SwapParams) (i o : ℕ) (c d : Cylinder) (db db' : Db)
    → IsFound p.incoming_serial i c db
    → IsFound p.outgoing_serial o d db
    → (i == o) ≡ false
    → swap p db ≡ (ok tt, db')
    → (is_blocked d.status ≡ false) × IsSwapped p i o c d db db'
swap-IsSwapped p i o c d db db' (fc, hc) (fd, hd) apart h =
    elim (Option-cases (find_by_id p.customer_id db.customers)) [
      | inl unknown ↦ elim (swap_unknown p db db' unknown h) [ ]
      | inr (customer, known) ↦
          let (u, db1, e, h1) =
            >>_inv (assert_eligible d) _
              (sym (found_lem p (i, c) (o, d) customer db known fc fd) ∙ h) in
          let (free, same) = eligible_inv d e in
          (
            free,
            subst (IsSwapped p i o c d db) (saved_end p (i, c) (o, d) db db' (rw (sym same) at h1))
                (placed_lem p i o c d db hc hd apart),
          )
    ]
