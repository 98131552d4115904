-- ===== src/Accessories/Stock.antt =====
-- The stock of accessories under `adjustStock` and `deductForSale`.
use haroti_lpg_management.Accessories.{
  is_stock_of, save_stock, quantity_at, adjust_accessory, deduct_for_sale,
}
use haroti_lpg_management.Common.Enums.{StockOwnership}
use haroti_lpg_management.Common.Errors.{Reason, bad_request, ok, err}
use haroti_lpg_management.Database.Entities.{AccessoryStock}
use haroti_lpg_management.Database.Keeps.{Keeps, Keeps-pure, Keeps-gets, Keeps->>=, Keeps->>}
use haroti_lpg_management.Database.State.{Db}
use haroti_lpg_management.Database.Table.{find_where, Every, replace-All, append-Every}
use haroti_lpg_management.Prelude.{
  ℤ, pos, ◌+ℤ◌, ◌≤ℤ◌, ◌<ℤ◌, ℕ, ◌≡◌, ◌⊎◌, inl, inr, Option, none, some, List, [], ◌∷◌, arith,
}

unfoldable pub AccessoriesAreNonneg : Db → Type 0
AccessoriesAreNonneg db = Every (λ s. pos 0 ≤ℤ s.quantity) db.accessory_stocks

-- The quantity on hand of a product.
unfoldable pub on_hand : ℕ → ℕ → StockOwnership → Db → ℤ
on_hand station_id product_id ownership db =
    quantity_at (find_where (is_stock_of station_id product_id ownership) db.accessory_stocks)

pub save_stock-AccessoriesAreNonneg :
    (row : Option (ℕ × AccessoryStock)) (station_id product_id : ℕ) (ownership : StockOwnership)
    (quantity : ℤ) (db : Db)
    → pos 0 ≤ℤ quantity
    → AccessoriesAreNonneg db
    → AccessoriesAreNonneg (save_stock row station_id product_id ownership quantity db).1
unfolding AccessoriesAreNonneg
save_stock-AccessoriesAreNonneg none station_id product_id ownership quantity db q h =
    append-Every (λ s. pos 0 ≤ℤ s.quantity) _ db.accessory_stocks h q
save_stock-AccessoriesAreNonneg (some (id, s)) station_id product_id ownership quantity db q h =
    replace-All (λ (s : AccessoryStock). pos 0 ≤ℤ s.quantity) id _ db.accessory_stocks.rows h q

-- An adjustment that would leave less than nothing is refused, and nothing is written; any other
-- is made.
pub adjust_accessory_refuses :
    (station_id product_id : ℕ) (delta : ℤ) (ownership : StockOwnership) (db : Db)
    → on_hand station_id product_id ownership db +ℤ delta <ℤ pos 0
    → adjust_accessory station_id product_id delta ownership db
      ≡ (err (bad_request Reason.insufficient_accessory_stock), db)
unfolding adjust_accessory on_hand
adjust_accessory_refuses station_id product_id delta ownership db h = ground arith

pub adjust_accessory_lem :
    (station_id product_id : ℕ) (delta : ℤ) (ownership : StockOwnership) (db : Db)
    → pos 0 ≤ℤ on_hand station_id product_id ownership db +ℤ delta
    → adjust_accessory station_id product_id delta ownership db ≡ (
        let (id, db') =
          save_stock
            (find_where (is_stock_of station_id product_id ownership) db.accessory_stocks)
            station_id
            product_id
            ownership
            (on_hand station_id product_id ownership db +ℤ delta)
            db in
        (ok id, db'))
unfolding adjust_accessory on_hand
adjust_accessory_lem station_id product_id delta ownership db h = ground arith

pub ltb_ℤ-cases : (a b : ℤ) → (a <ℤ b) ⊎ (b ≤ℤ a)
ltb_ℤ-cases a b = ground arith

-- No adjustment, made or refused, leaves a negative quantity.
pub adjust_accessory-Keeps :
    (station_id product_id : ℕ) (delta : ℤ) (ownership : StockOwnership)
    → Keeps AccessoriesAreNonneg (adjust_accessory station_id product_id delta ownership)
adjust_accessory-Keeps station_id product_id delta ownership = record {
  run = λ db h. elim (ltb_ℤ-cases (on_hand station_id product_id ownership db +ℤ delta) (pos 0)) [
    | inl less ↦ rw (adjust_accessory_refuses station_id product_id delta ownership db less) h
    | inr enough ↦
        rw (adjust_accessory_lem station_id product_id delta ownership db enough)
          (save_stock-AccessoriesAreNonneg _ station_id product_id ownership _ db enough h)
  ];
}

-- Deducting the goods of a sale, also where one of them is refused after others, keeps every
-- quantity on a shelf from being negative.
pub deduct_for_sale-Keeps :
    (station_id : ℕ) (items : List (ℕ × ℕ))
    → Keeps AccessoriesAreNonneg (deduct_for_sale station_id items)
unfolding deduct_for_sale
deduct_for_sale-Keeps station_id [] = Keeps-pure _
deduct_for_sale-Keeps station_id (i ∷ items) = Keeps->> (adjust_accessory-Keeps station_id _ _ _) (
    Keeps->>= (Keeps-gets _)
      λ cost. Keeps->>= (deduct_for_sale-Keeps station_id items) λ rest. Keeps-pure _)
