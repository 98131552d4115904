-- ===== src/Franchise/Settlement.antt =====
-- The settlements that are generated, and what an invoice posts of them later
-- (backend/src/franchise/franchise.service.ts).
use haroti_lpg_management.Common.Errors.{ok}
use haroti_lpg_management.Database.Documents.{FranchiseAgreement, FranchiseSettlement}
use haroti_lpg_management.Database.Frame.{post_once-Blind}
use haroti_lpg_management.Database.Keeps.{Keeps, Keeps-pure, Keeps->>, Keeps-when}
use haroti_lpg_management.Database.State.{Db, Op, pure, ◌>>=◌, ◌>>◌}
use haroti_lpg_management.Database.Table.{find_by_id, append, lookup-added}
use haroti_lpg_management.Finance.Posting.{
  post_franchise_settlement, post_franchise_consignment_settlement,
}
use haroti_lpg_management.Franchise.{
  sales_of_period, new_settlement, save_settlement, post_royalty, post_consignment,
  generate_settlement, is_invoiced, find_settlement, invoice_settlement,
}
use haroti_lpg_management.Prelude.{ℤ, ℕ, ◌≡◌, refl, true, none, some}

-- A settlement under its identifier, invoiced.
abbrev pub IsInvoiced : ℕ → FranchiseSettlement → Db → Type 0
IsInvoiced id s db = (find_by_id id db.settlements ≡ some s) × (is_invoiced s.status ≡ true)

-- An invoice of a settlement that is invoiced does nothing.
pub invoice_settlement_done :
    (id : ℕ) (s : FranchiseSettlement) (db : Db)
    → IsInvoiced id s db
    → invoice_settlement id db ≡ (ok tt, db)
unfolding invoice_settlement find_settlement ◌>>=◌
invoice_settlement_done id s db (found, done) = rw (found, done) refl

post_royalty-Keeps :
    (id k : ℕ) (s : FranchiseSettlement) (amount : ℤ)
    → Keeps (IsInvoiced k s) (post_royalty id amount)
unfolding post_royalty post_franchise_settlement
post_royalty-Keeps id k s amount =
    Keeps-when _ (Keeps->> (post_once-Blind (IsInvoiced k s) (λ db a b c d h. h) _) (Keeps-pure tt))

post_consignment-Keeps :
    (id k : ℕ) (s : FranchiseSettlement) (amount : ℤ)
    → Keeps (IsInvoiced k s) (post_consignment id amount)
unfolding post_consignment post_franchise_consignment_settlement
post_consignment-Keeps id k s amount =
    Keeps-when _ (Keeps->> (post_once-Blind (IsInvoiced k s) (λ db a b c d h. h) _) (Keeps-pure tt))

-- The postings of a settlement that was saved.
unfoldable posted_settlement : ℕ → FranchiseSettlement → Op ℕ
posted_settlement id s =
    post_royalty id s.royalty_due >> (post_consignment id s.consignment_due >> pure id)

posted_settlement-Keeps :
    (id : ℕ) (s : FranchiseSettlement) → Keeps (IsInvoiced id s) (posted_settlement id s)
unfolding posted_settlement
posted_settlement-Keeps id s =
    Keeps->> (post_royalty-Keeps id id s s.royalty_due)
      (Keeps->> (post_consignment-Keeps id id s s.consignment_due) (Keeps-pure id))

-- The settlement that is generated.
abbrev settlement_for : ℕ → ℕ → ℕ → FranchiseAgreement → Db → FranchiseSettlement
settlement_for agreement_id start end a db =
    new_settlement agreement_id start end a (sales_of_period a.station_id start end db) db

abbrev with_settlement : FranchiseSettlement → Db → Db
with_settlement s db = record db { settlements = append s db.settlements }

generated_lem :
    (agreement_id start end : ℕ) (a : FranchiseAgreement) (db : Db)
    → find_by_id agreement_id db.agreements ≡ some a
    → generate_settlement agreement_id start end db
      ≡ posted_settlement db.settlements.next_id
          (settlement_for agreement_id start end a db)
          (with_settlement (settlement_for agreement_id start end a db) db)
unfolding generate_settlement save_settlement posted_settlement ◌>>=◌ ◌>>◌
generated_lem agreement_id start end a db found = rw found refl

saved_lem :
    (agreement_id start end : ℕ) (a : FranchiseAgreement) (db : Db)
    → find_by_id db.settlements.next_id db.settlements ≡ none
    → IsInvoiced db.settlements.next_id
        (settlement_for agreement_id start end a db)
        (with_settlement (settlement_for agreement_id start end a db) db)
unfolding new_settlement
saved_lem agreement_id start end a db fresh =
    (lookup-added db.settlements.next_id _ db.settlements.rows fresh, refl)

-- A settlement that was generated, completely or up to a posting that failed, is invoiced under
-- the new identifier: an invoice of it at any later time returns and changes nothing, so that it
-- posts no royalty a second time, and none that is missing.
pub generate_settlement-invoiced :
    (agreement_id start end clock : ℕ) (a : FranchiseAgreement) (db : Db)
    → find_by_id agreement_id db.agreements ≡ some a
    → find_by_id db.settlements.next_id db.settlements ≡ none
    → let after = record (generate_settlement agreement_id start end db).1 { clock = clock } in
      invoice_settlement db.settlements.next_id after ≡ (ok tt, after)
generate_settlement-invoiced agreement_id start end clock a db found fresh =
    let s = settlement_for agreement_id start end a db in
    let kept : IsInvoiced db.settlements.next_id s
        (generate_settlement agreement_id start end db).1 =
      rw (generated_lem agreement_id start end a db found) (
        (posted_settlement-Keeps db.settlements.next_id s).run (with_settlement s db)
          (saved_lem agreement_id start end a db fresh)) in
    invoice_settlement_done db.settlements.next_id s
      (record (generate_settlement agreement_id start end db).1 { clock = clock }) kept
