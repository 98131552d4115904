-- ===== src/Procurement/Numbers.antt =====
-- The numbers of the invoices of a supplier (backend/src/procurement/three-way-match.service.ts).
use mathlib.Core.Option.{some-injective}
use haroti_lpg_management.Common.Errors.{Reason, bad_request, Result}
use haroti_lpg_management.Database.Documents.{SupplierInvoice}
use haroti_lpg_management.Database.Keeps.{
  Keeps, Keeps-pure, Keeps-gets, Keeps->>, Keeps-found, Keeps-when, throw_if_then, Keeps-after,
}
use haroti_lpg_management.Database.Returns.{pure_inv}
use haroti_lpg_management.Database.State.{Db, pure, gets, find_or_throw, ◌>>=◌, ◌>>◌, modify, when}
use haroti_lpg_management.Database.Table.{
  lookup, replace, find_by_id, append, find_where, lookup-All, replace-All,
}
use haroti_lpg_management.Prelude.{
  All, find, All-append, ◌==◌, Bool-cases, Option-cases, is_some, ℕ, ◌≡◌, refl, sym, ap, ◌∙◌, subst,
  inl, inr, false, Option, none, some, List, [], ◌∷◌, ◌++◌, arith,
}
use haroti_lpg_management.Procurement.Match.{
  RegisterInvoiceDto, is_invoice, new_invoice, save_invoice, find_invoice, store_invoice,
  matched_invoice, order_of, run_match, register_invoice,
}

-- No two invoices of a supplier have the same number.
abbrev pub IsUnlike : SupplierInvoice → List (ℕ × SupplierInvoice) → Type 0
IsUnlike i rows = All (λ r. is_invoice i.invoice_number i.supplier_id r.1 ≡ false) rows

abbrev pub AreDistinct : List (ℕ × SupplierInvoice) → Type 0
AreDistinct [] = Unit
AreDistinct (r ∷ rows) = IsUnlike r.1 rows × AreDistinct rows

unfoldable pub InvoicesAreDistinct : Db → Type 0
InvoicesAreDistinct db = AreDistinct db.supplier_invoices.rows

is_invoice_sym :
    (i j : SupplierInvoice)
    → is_invoice i.invoice_number i.supplier_id j ≡ false
    → is_invoice j.invoice_number j.supplier_id i ≡ false
unfolding is_invoice
is_invoice_sym i j h = ground arith

-- None of the rows found is an invoice of that number.
none_found :
    (i : SupplierInvoice) (rows : List (ℕ × SupplierInvoice))
    → find (λ r. is_invoice i.invoice_number i.supplier_id r.1) rows ≡ none
    → IsUnlike i rows
none_found i [] h = tt
none_found i (r ∷ rows) h = elim (Bool-cases (is_invoice i.invoice_number i.supplier_id r.1)) [
  | inl hit ↦ cc (rw hit at h)
  | inr miss ↦ (miss, none_found i rows (rw miss at h))
]

AreDistinct-append :
    (id : ℕ) (i : SupplierInvoice) (rows : List (ℕ × SupplierInvoice))
    → AreDistinct rows
    → IsUnlike i rows
    → AreDistinct (rows ++ (id, i) ∷ [])
AreDistinct-append id i [] h new = (tt, tt)
AreDistinct-append id i (r ∷ rows) h new = (
  All-append (λ x. is_invoice r.1.invoice_number r.1.supplier_id x.1 ≡ false) rows _ h.0
      (is_invoice_sym i r.1 new.0, tt),
  AreDistinct-append id i rows h.1 new.1,
)

-- The row keeps its number and its supplier.
SameNumber : SupplierInvoice → SupplierInvoice → Type 0
SameNumber i j = (i.invoice_number ≡ j.invoice_number) × (i.supplier_id ≡ j.supplier_id)

is_invoice-same :
    (i j k : SupplierInvoice)
    → SameNumber i j
    → is_invoice k.invoice_number k.supplier_id i ≡ false
    → is_invoice k.invoice_number k.supplier_id j ≡ false
unfolding is_invoice SameNumber
is_invoice-same i j k (n, s) h = rw (sym n, sym s) h

IsUnlike-same :
    (i j : SupplierInvoice) (rows : List (ℕ × SupplierInvoice))
    → SameNumber i j
    → IsUnlike i rows
    → IsUnlike j rows
unfolding SameNumber
IsUnlike-same i j rows (n, s) h = rw (sym n, sym s) h

AreDistinct-replace :
    (id : ℕ) (old new : SupplierInvoice) (rows : List (ℕ × SupplierInvoice))
    → lookup id rows ≡ some old
    → SameNumber old new
    → AreDistinct rows
    → AreDistinct (replace id new rows)
unfolding lookup replace
AreDistinct-replace id old new [] found same h = tt
AreDistinct-replace id old new ((j, i) ∷ rows) found same h = elim (Bool-cases (j == id)) [
  | inl hit ↦
      let is_old : i ≡ old = some-injective _ _ (rw hit at found) in
      rw hit (IsUnlike-same old new rows same (subst (λ x. IsUnlike x rows) is_old h.0), h.1)
  | inr miss ↦
      let there : lookup id rows ≡ some old = rw miss at found in
      let unlike = λ (x : SupplierInvoice). is_invoice i.invoice_number i.supplier_id x ≡ false in
      rw miss (
        replace-All unlike id new rows h.0
            (is_invoice-same old new i same (lookup-All unlike id rows h.0 there)),
        AreDistinct-replace id old new rows there same h.1,
      )
]

store-AreDistinct :
    (id : ℕ) (old new : SupplierInvoice) (db : Db)
    → find_by_id id db.supplier_invoices ≡ some old
    → SameNumber old new
    → InvoicesAreDistinct db
    → InvoicesAreDistinct (store_invoice id new db)
unfolding InvoicesAreDistinct
store-AreDistinct id old new db found same h =
    AreDistinct-replace id old new db.supplier_invoices.rows found same h

matched_lem :
    (id : ℕ) (i : SupplierInvoice) (db : Db)
    → find_by_id id db.supplier_invoices ≡ some i
    → InvoicesAreDistinct db
    → InvoicesAreDistinct
        ((find_or_throw (bad_request Reason.invoice_not_linked) (order_of i) >>= λ po.
            modify (store_invoice id (matched_invoice i po)))
          db).1
unfolding SameNumber matched_invoice ◌>>=◌
matched_lem id i db found h = elim (Option-cases (order_of i db)) [
  | inl missing ↦ rw missing h
  | inr (po, linked) ↦
      rw linked (store-AreDistinct id i (matched_invoice i po) db found (refl, refl) h)
]

run_match-Keeps : (id : ℕ) → Keeps InvoicesAreDistinct (run_match id)
unfolding run_match find_invoice
run_match-Keeps id = Keeps-found _ _ _ λ i db found h. matched_lem id i db found h

-- The steps of `register` behind the search for a duplicate.
saved_lem :
    (dto : RegisterInvoiceDto) (db : Db)
    → find_where (is_invoice dto.invoice_number dto.supplier_id) db.supplier_invoices ≡ none
    → InvoicesAreDistinct db
    → InvoicesAreDistinct
        ((save_invoice (new_invoice dto) >>= λ id.
            when (is_some dto.purchase_order_id) (run_match id) >> pure id)
          db).1
unfolding save_invoice InvoicesAreDistinct ◌>>=◌
saved_lem dto db fresh h =
    let i = new_invoice dto in
    (Keeps->>
        (Keeps-when (is_some dto.purchase_order_id) (run_match-Keeps db.supplier_invoices.next_id))
        (Keeps-pure db.supplier_invoices.next_id)).run
      (record db { supplier_invoices = append i db.supplier_invoices })
      (AreDistinct-append db.supplier_invoices.next_id i db.supplier_invoices.rows h
        (none_found i db.supplier_invoices.rows fresh))

no_duplicate : {A : Type 0} (o : Option A) → is_some o ≡ false → o ≡ none
no_duplicate none h = refl
no_duplicate (some a) h = cc

-- Registering an invoice, done or refused, leaves no supplier with two invoices of one number.
pub register_invoice-Keeps :
    (dto : RegisterInvoiceDto) → Keeps InvoicesAreDistinct (register_invoice dto)
unfolding register_invoice
register_invoice-Keeps dto =
    let search = λ (db : Db).
      find_where (is_invoice dto.invoice_number dto.supplier_id) db.supplier_invoices in
    Keeps-after InvoicesAreDistinct (gets search) _ (Keeps-gets search) λ duplicate db db1 e h.
      throw_if_then InvoicesAreDistinct _ _ _ db1
        (λ fresh.
          let same : db ≡ db1 = ap (λ (r : Result (Option (ℕ × SupplierInvoice)) × Db). r.1) e in
          let nothing : search db ≡ none = pure_inv (search db) e ∙ no_duplicate duplicate fresh in
          saved_lem dto db1 (subst (λ x. search x ≡ none) same nothing) h)
        h
