-- ===== src/Paychangu/Frame.antt =====
-- A property of the table of payments, against the completion of a sale and the top-up of a meter.
use haroti_lpg_management.Common.Enums.{PaymentMethod}
use haroti_lpg_management.Database.Documents.{PaychanguTransaction}
use haroti_lpg_management.Database.Frame.{post_entry-Blind}
use haroti_lpg_management.Database.Keeps.{
  Keeps, Keeps-pure, Keeps-gets, Keeps-find_or_throw, Keeps-throw_if, Keeps->>=, Keeps->>,
  Keeps-when,
}
use haroti_lpg_management.Database.State.{Db}
use haroti_lpg_management.Database.Table.{Table}
use haroti_lpg_management.Finance.Journal.{EntryParams, post_entry}
use haroti_lpg_management.Payc.{find_meter, save_credit, top_up_books}
use haroti_lpg_management.Prelude.{ℤ, ℕ, false, Option}
use haroti_lpg_management.Sales.Frame.{finalize-kept}
use haroti_lpg_management.Sales.Lifecycle.{find_sale, complete_sale, complete_paychangu_sale}

module _ (Q : Table PaychanguTransaction → Type 0) where
  abbrev pub OfPayments : Db → Type 0
  OfPayments db = Q db.paychangu_transactions

  pub entry-kept : (p : EntryParams) → Keeps OfPayments (post_entry p)
  entry-kept = post_entry-Blind OfPayments (λ db _ _ _ _ h. h)

  pub complete_paychangu_sale-kept : (id : ℕ) → Keeps OfPayments (complete_paychangu_sale id)
  unfolding complete_paychangu_sale find_sale complete_sale
  complete_paychangu_sale-kept id = Keeps->>= (Keeps-find_or_throw _ _) λ s. Keeps-when _ (
      Keeps->> (Keeps-throw_if _ _) (
        Keeps->>= (Keeps-gets _) λ price.
          Keeps->> (record { run = λ db h. h })
            (finalize-kept (λ sales payments. Q payments) id _ false price)))

  pub top_up_books-kept :
      (archive : ℕ → Option ℕ) (id : ℕ) (amount : ℤ) (method : PaymentMethod) (reference : Option ℕ)
      → Keeps OfPayments (top_up_books archive id amount method reference)
  unfolding top_up_books find_meter save_credit
  top_up_books-kept archive id amount method reference = Keeps->>= (Keeps-find_or_throw _ _) λ m.
      Keeps->> (record { run = λ db h. h })
        (Keeps->> (record { run = λ db h. h }) (Keeps->> (entry-kept _) (Keeps-pure _)))
