-- ===== src/Sales/Safety.antt =====
-- The soundness of the books: the stocks and the journal that the sales change, with the operations
-- of the other services that they call.
use haroti_lpg_management.Accessories.{save_stock, adjust_accessory, deduct_for_sale}
use haroti_lpg_management.Accessories.Stock.{
  AccessoriesAreNonneg, on_hand, save_stock-AccessoriesAreNonneg, adjust_accessory_refuses,
  adjust_accessory_lem, ltb_ℤ-cases,
}
use haroti_lpg_management.Common.Enums.{StockOwnership, JournalEventType}
use haroti_lpg_management.Database.Entities.{
  ReferenceType, Reference, Station, JournalEntry, AccessoryStock,
}
use haroti_lpg_management.Database.Keeps.{
  Keeps, Keeps-pure, Keeps-gets, Keeps-find_or_throw, Keeps-throw_if, Keeps->>=, Keeps->>,
  Keeps-for_each,
}
use haroti_lpg_management.Database.State.{Db, Op, modify}
use haroti_lpg_management.Database.Table.{store, replace-All}
use haroti_lpg_management.Finance.Balance.{
  JournalIsBalanced, assert_open-Keeps, post_entry_of-Keeps, reverse_all-Keeps,
}
use haroti_lpg_management.Finance.Journal.{
  EntryParams, save_entry, post_entry, reverse_found, reverse_entry, reverse_all_for_reference,
}
use haroti_lpg_management.Finance.Posting.{entry_of}
use haroti_lpg_management.Finance.Saved.{save_entry-Frame}
use haroti_lpg_management.Inventory.{MovementParams, apply_movement}
use haroti_lpg_management.Inventory.Stock.{StockIsNonneg, stock_after_nonneg, apply_movement-Keeps}
use haroti_lpg_management.Prelude.{
  ℤ, pos, ◌+ℤ◌, ◌≤ℤ◌, ℕ, ◌≡◌, inl, inr, Option, none, some, List, [], ◌∷◌,
}

pub record Sound (db : Db) : Type 0 where
  pub stock : StockIsNonneg db
  pub accessories : AccessoriesAreNonneg db
  pub journal : JournalIsBalanced db

-- The parts of `Sound` that the journal does not touch.
Goods : Db → Type 0
Goods db = StockIsNonneg db × AccessoriesAreNonneg db

Sound-of : {A : Type 0} {m : Op A} → Keeps Goods m → Keeps JournalIsBalanced m → Keeps Sound m
unfolding Goods
Sound-of g j = record {
  run = λ db h.
      let (s, a) = g.run db (h.stock, h.accessories) in
      record { stock = s; accessories = a; journal = j.run db h.journal };
}

save_entry-Goods : (make : ℕ → JournalEntry) → Keeps Goods (save_entry make)
unfolding Goods AccessoriesAreNonneg
save_entry-Goods make = save_entry-Frame Goods make λ db h. h

post_entry-Goods : (p : EntryParams) → Keeps Goods (post_entry p)
unfolding post_entry
post_entry-Goods p = Keeps->> assert_open-Keeps (save_entry-Goods _)

mark_reversed-Goods :
    (id : ℕ) (e : JournalEntry)
    → Keeps Goods (modify (λ db. record db { entries = store id e db.entries }))
unfolding Goods AccessoriesAreNonneg
mark_reversed-Goods id e = record { run = λ db h. h }

reverse_found-Goods : (id : ℕ) (e : JournalEntry) → Keeps Goods (reverse_found id e)
unfolding reverse_found
reverse_found-Goods id e = Keeps->> (Keeps-throw_if _ _) (
    Keeps->> (Keeps-throw_if _ _) (
      Keeps->> assert_open-Keeps (
        Keeps->>= (save_entry-Goods _)
          λ saved. Keeps->> (mark_reversed-Goods id _) (Keeps-pure saved))))

reverse_entry-Goods : (id : ℕ) → Keeps Goods (reverse_entry id)
unfolding reverse_entry
reverse_entry-Goods id = Keeps->>= (Keeps-find_or_throw _ _) λ e. reverse_found-Goods id e

reverse_all-Goods : (r : Reference) → Keeps Goods (reverse_all_for_reference r)
unfolding reverse_all_for_reference
reverse_all-Goods r =
    Keeps->>= (Keeps-gets _)
      λ entries. Keeps-for_each entries λ e. Keeps->> (reverse_entry-Goods e.0) (Keeps-pure tt)

pub reverse_all-Sound : (r : Reference) → Keeps Sound (reverse_all_for_reference r)
reverse_all-Sound r = Sound-of (reverse_all-Goods r) (reverse_all-Keeps r)

pub post_entry_of-Sound :
    (event : JournalEventType) (kind : ReferenceType) (id debit credit : ℕ) (amount : ℤ)
    → Keeps Sound (post_entry (entry_of event kind id debit credit amount))
post_entry_of-Sound event kind id debit credit amount =
    Sound-of (post_entry-Goods _) (post_entry_of-Keeps event kind id debit credit amount)

pub apply_movement-Sound : (p : MovementParams) → Keeps Sound (apply_movement p)
unfolding AccessoriesAreNonneg
apply_movement-Sound p = apply_movement-Keeps Sound p λ db s after found moved h. record {
  stock =
      replace-All (λ (s : Station). pos 0 ≤ℤ s.current_stock_kg) p.station_id _ db.stations.rows
        h.stock (stock_after_nonneg s.current_stock_kg p.quantity_kg moved);
  accessories = h.accessories;
  journal = h.journal;
}

-- A change of the stocks of accessories leaves the stations and the journal alone.
save_stock-Sound :
    (row : Option (ℕ × AccessoryStock)) (station_id product_id : ℕ) (ownership : StockOwnership)
    (quantity : ℤ) (db : Db)
    → pos 0 ≤ℤ quantity
    → Sound db
    → Sound (save_stock row station_id product_id ownership quantity db).1
save_stock-Sound none station_id product_id ownership quantity db q h = record {
  stock = h.stock;
  accessories =
      save_stock-AccessoriesAreNonneg none station_id product_id ownership quantity db q
        h.accessories;
  journal = h.journal;
}
save_stock-Sound (some r) station_id product_id ownership quantity db q h = record {
  stock = h.stock;
  accessories =
      save_stock-AccessoriesAreNonneg (some r) station_id product_id ownership quantity db q
        h.accessories;
  journal = h.journal;
}

pub adjust_accessory-Sound :
    (station_id product_id : ℕ) (delta : ℤ) (ownership : StockOwnership)
    → Keeps Sound (adjust_accessory station_id product_id delta ownership)
adjust_accessory-Sound station_id product_id delta ownership = record {
  run = λ db h. elim (ltb_ℤ-cases (on_hand station_id product_id ownership db +ℤ delta) (pos 0)) [
    | inl less ↦ rw (adjust_accessory_refuses station_id product_id delta ownership db less) h
    | inr enough ↦
        rw (adjust_accessory_lem station_id product_id delta ownership db enough)
          (save_stock-Sound _ station_id product_id ownership _ db enough h)
  ];
}

pub deduct_for_sale-Sound :
    (station_id : ℕ) (items : List (ℕ × ℕ)) → Keeps Sound (deduct_for_sale station_id items)
unfolding deduct_for_sale
deduct_for_sale-Sound station_id [] = Keeps-pure _
deduct_for_sale-Sound station_id (i ∷ items) = Keeps->> (adjust_accessory-Sound station_id _ _ _) (
    Keeps->>= (Keeps-gets _)
      λ cost. Keeps->>= (deduct_for_sale-Sound station_id items) λ rest. Keeps-pure _)

-- A write to the other tables changes none of the three parts.
unfoldable pub SameBooks : Db → Db → Type 0
SameBooks db db' =
    (db'.stations ≡ db.stations)
    × (db'.accessory_stocks ≡ db.accessory_stocks)
    × (db'.entries ≡ db.entries)

pub modify-Sound : (f : Db → Db) → ((db : Db) → SameBooks db (f db)) → Keeps Sound (modify f)
unfolding SameBooks AccessoriesAreNonneg
modify-Sound f same = record {
  run = λ db h.
      let (a, b, c) = same db in
      record { stock = rw a h.stock; accessories = rw b h.accessories; journal = rw c h.journal };
}
