-- ===== src/Inventory/Total.antt =====
-- The gas of all stations together, under `applyMovement`.
use haroti_lpg_management.Common.Errors.{Result, ok}
use haroti_lpg_management.Database.Entities.{Station, StockMovement}
use haroti_lpg_management.Database.State.{Db}
use haroti_lpg_management.Database.Table.{find_by_id, total, sum_of-replace}
use haroti_lpg_management.Inventory.{
  MovementParams, existing_movement, write_movement, apply_movement,
}
use haroti_lpg_management.Inventory.Stock.{
  stock_after_nonneg, stock_after_lem, move_stock-cases, apply_movement_new,
}
use haroti_lpg_management.Prelude.{
  ℤ, pos, negsuc, pos_part, neg_part, ◌+ℤ◌, ◌≤ℤ◌, int_laws, ℕ, ◌≡◌, sym, ap, ◌∙◌, subst, ◌⊎◌, inl,
  inr, none, some,
}

unfoldable pub total_stock : Db → ℤ
total_stock db = total (λ s. s.current_stock_kg) db.stations

exact_lem :
    (t t' before after q : ℤ) → t' +ℤ before ≡ t +ℤ after → after ≡ before +ℤ q → t' ≡ t +ℤ q
exact_lem t t' before after q h e =
    omega (int_laws, ap pos_part h, ap neg_part h, ap pos_part e, ap neg_part e)

tolerated_lem :
    (t t' before after q : ℤ)
    → t' +ℤ before ≡ t +ℤ after
    → before +ℤ q ≡ negsuc 0
    → after ≡ pos 0
    → t' ≡ t +ℤ q +ℤ pos 1
tolerated_lem t t' before after q h d e = omega (
  int_laws,
  ap pos_part h,
  ap neg_part h,
  ap pos_part d,
  ap neg_part d,
  ap pos_part e,
  ap neg_part e,
)

-- What the writes of a movement do to the sum.
write_movement-total :
    (p : MovementParams) (s : Station) (after : ℤ) (db : Db)
    → find_by_id p.station_id db.stations ≡ some s
    → total_stock (write_movement p s after db) +ℤ s.current_stock_kg ≡ total_stock db +ℤ after
unfolding total_stock
write_movement-total p s after db found =
    sum_of-replace (λ (s : Station). s.current_stock_kg) p.station_id
      (record s { current_stock_kg = after }) {old = s} db.stations.rows found

-- An accepted movement that is new changes the gas of all stations together by its quantity where
-- its station has that much, and by one gram more where it is one gram short; there is no other
-- case.
pub apply_movement-total_stock :
    (p : MovementParams) (db db' : Db) {m : ℕ × StockMovement}
    → existing_movement p.client_txn_id db ≡ none
    → apply_movement p db ≡ (ok m, db')
    → (s : Station) × (find_by_id p.station_id db.stations ≡ some s)
      × (((pos 0 ≤ℤ s.current_stock_kg +ℤ p.quantity_kg)
            × (total_stock db' ≡ total_stock db +ℤ p.quantity_kg))
          ⊎ ((s.current_stock_kg +ℤ p.quantity_kg ≡ negsuc 0)
              × (total_stock db' ≡ total_stock db +ℤ p.quantity_kg +ℤ pos 1)))
apply_movement-total_stock p db db' {m} new h = elim (move_stock-cases p db) [
  | inl (e, refused) ↦ cc (h, apply_movement_new p db new, refused)
  | inr (s, after, found, moved, made) ↦
      let ends : write_movement p s after db ≡ db' =
        ap (λ (r : Result (ℕ × StockMovement) × Db). r.1)
          (sym made ∙ sym (apply_movement_new p db new) ∙ h) in
      let sum =
        subst (λ d. total_stock d +ℤ s.current_stock_kg ≡ total_stock db +ℤ after) ends
          (write_movement-total p s after db found) in
      (
        s,
        found,
        elim (stock_after_lem s.current_stock_kg p.quantity_kg moved) [
          | inl exact ↦ inl (
            subst (λ x. pos 0 ≤ℤ x) exact
                (stock_after_nonneg s.current_stock_kg p.quantity_kg moved),
            exact_lem (total_stock db) (total_stock db') s.current_stock_kg after p.quantity_kg sum
                exact,
          )
          | inr (short, zero_left) ↦ inr (
            short,
            tolerated_lem (total_stock db) (total_stock db') s.current_stock_kg after p.quantity_kg
                sum short zero_left,
          )
        ],
      )
]
