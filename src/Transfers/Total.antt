-- ===== src/Transfers/Total.antt =====
-- The gas that `create` of backend/src/transfers/transfers.service.ts takes out of the stations.
use haroti_lpg_management.Common.Enums.{StockMovementType, TransferStatus, TransferItemType}
use haroti_lpg_management.Common.Errors.{Reason, not_found, Result, ok}
use haroti_lpg_management.Database.Entities.{StockMovement, TransferItem, Transfer}
use haroti_lpg_management.Database.Returns.{find_or_throw_inv, >>_inv, throw_if_inv}
use haroti_lpg_management.Database.State.{Db, pure, ◌>>=◌, ◌>>◌, throw_if, modify, for_each}
use haroti_lpg_management.Database.Table.{find_by_id, append}
use haroti_lpg_management.Deliveries.Taken.{taken}
use haroti_lpg_management.Inventory.{existing_movement, apply_movement}
use haroti_lpg_management.Inventory.Total.{total_stock, apply_movement-total_stock}
use haroti_lpg_management.Prelude.{
  ℤ, pos, pos_part, neg_part, ◌+ℤ◌, ◌≤ℤ◌, negate, int_laws, length, sum_of, if◌then◌else◌,
  Bool-cases, suc, ◌+◌, ℕ, ◌≡◌, refl, sym, ap, ◌∙◌, subst, inl, inr, List, [], ◌∷◌,
}
use haroti_lpg_management.Stations.{find_station}
use haroti_lpg_management.Transfers.{
  is_lpg, CreateTransferDto, new_items, new_transfer, save_new_transfer, transfer_movement,
  dispatch_item, store_transfer, create_transfer,
}

-- The gas of one item of a request, and of one that was saved.
abbrev pub gas_of : TransferItemType → ℤ → ℤ
gas_of kind quantity = if is_lpg kind then quantity else pos 0

abbrev pub requested_gas : List (TransferItemType × ℤ) → ℤ
requested_gas items = sum_of (λ i. gas_of i.0 i.1) items

abbrev dispatched_gas : List TransferItem → ℤ
dispatched_gas items = sum_of (λ i. gas_of i.item_type i.quantity_dispatched) items

new_items-gas :
    (n : ℕ) (items : List (TransferItemType × ℤ))
    → dispatched_gas (new_items n items) ≡ requested_gas items
unfolding sum_of new_items
new_items-gas n [] = refl
new_items-gas n ((kind, quantity) ∷ items) =
    ap (λ rest. gas_of kind quantity +ℤ rest) (new_items-gas (n + 1) items)

new_items-length :
    (n : ℕ) (items : List (TransferItemType × ℤ)) → length (new_items n items) ≡ length items
unfolding new_items
new_items-length n [] = refl
new_items-length n (i ∷ items) = ap suc (new_items-length (n + 1) items)

-- The gas left and the gas taken are what there was, or at most so many grams more.
abbrev pub IsTaken : ℕ → ℤ → Db → Db → Type 0
IsTaken grams taken db db' =
    (total_stock db ≤ℤ total_stock db' +ℤ taken)
    × (total_stock db' +ℤ taken ≤ℤ total_stock db +ℤ pos grams)

taken_exact : (a b q : ℤ) → b ≡ a +ℤ negate q → (a ≤ℤ b +ℤ q) × (b +ℤ q ≤ℤ a +ℤ pos 1)
taken_exact a b q h =
    (omega (int_laws, ap pos_part h, ap neg_part h), omega (int_laws, ap pos_part h, ap neg_part h))

taken_more : (a b q : ℤ) → b ≡ a +ℤ negate q +ℤ pos 1 → (a ≤ℤ b +ℤ q) × (b +ℤ q ≤ℤ a +ℤ pos 1)
taken_more a b q h =
    (omega (int_laws, ap pos_part h, ap neg_part h), omega (int_laws, ap pos_part h, ap neg_part h))

movement-IsTaken :
    (source id user : ℕ) (q : ℤ) (db db' : Db) {m : ℕ × StockMovement}
    → apply_movement (transfer_movement StockMovementType.transfer_out source (negate q) id user) db
      ≡ (ok m, db')
    → IsTaken 1 q db db'
unfolding existing_movement
movement-IsTaken source id user q db db' h =
    let (s, found, sum) =
      apply_movement-total_stock
        (transfer_movement StockMovementType.transfer_out source (negate q) id user) db db' refl
        h in
    elim sum [
      | inl (covered, exact) ↦ taken_exact (total_stock db) (total_stock db') q exact
      | inr (short, more) ↦ taken_more (total_stock db) (total_stock db') q more
    ]

dispatch_item-IsTaken :
    (source id user : ℕ) (i : TransferItem) (db db' : Db) {u : Unit {0}}
    → dispatch_item source id user i db ≡ (ok u, db')
    → IsTaken 1 (gas_of i.item_type i.quantity_dispatched) db db'
unfolding dispatch_item
dispatch_item-IsTaken source id user i db db' h = elim (Bool-cases (is_lpg i.item_type)) [
  | inl gas ↦
      let (m, db1, moved, h1) = >>_inv _ _ (rw gas at h) in
      rw gas (
        subst (IsTaken 1 i.quantity_dispatched db) (ap (λ (r : Result (Unit {0}) × Db). r.1) h1)
          (movement-IsTaken source id user i.quantity_dispatched db db1 moved))
  | inr other ↦ rw other (
      subst (IsTaken 1 (pos 0) db) (ap (λ (r : Result (Unit {0}) × Db). r.1) (rw other at h))
        (omega int_laws, omega int_laws))
]

add_taken :
    (a b c q r : ℤ) (n : ℕ)
    → (a ≤ℤ b +ℤ q) × (b +ℤ q ≤ℤ a +ℤ pos 1)
    → (b ≤ℤ c +ℤ r) × (c +ℤ r ≤ℤ b +ℤ pos n)
    → (a ≤ℤ c +ℤ (q +ℤ r)) × (c +ℤ (q +ℤ r) ≤ℤ a +ℤ pos (suc n))
add_taken a b c q r n (h, h') (k, k') = (omega (int_laws, h, k), omega (int_laws, h', k'))

items-IsTaken :
    (source id user : ℕ) (items : List TransferItem) (db db' : Db) {u : Unit {0}}
    → for_each (dispatch_item source id user) items db ≡ (ok u, db')
    → IsTaken (length items) (dispatched_gas items) db db'
unfolding for_each sum_of
items-IsTaken source id user [] db db' h =
    subst (IsTaken 0 (pos 0) db) (ap (λ (r : Result (Unit {0}) × Db). r.1) h)
      (omega int_laws, omega int_laws)
items-IsTaken source id user (i ∷ items) db db' h =
    let (u, db1, first, h1) =
      >>_inv (dispatch_item source id user i) (for_each (dispatch_item source id user) items) h in
    add_taken (total_stock db) (total_stock db1) (total_stock db')
      (gas_of i.item_type i.quantity_dispatched) (dispatched_gas items) (length items)
      (dispatch_item-IsTaken source id user i db db1 first)
      (items-IsTaken source id user items db1 db' h1)

written_lem :
    (id : ℕ) (db db' : Db) (t : Transfer) {k : ℕ}
    → (modify (store_transfer id t) >> pure id) db ≡ (ok k, db')
    → total_stock db ≡ total_stock db'
unfolding total_stock ◌>>◌
written_lem id db db' t h = ap (λ (r : Result ℕ × Db). total_stock r.1) h

-- The end of `create`, from the save of the new row on.
saved-IsTaken :
    (dto : CreateTransferDto) (user : ℕ) (db db' : Db) {id : ℕ}
    → (save_new_transfer dto user >>= λ saved.
          for_each (dispatch_item dto.source_station_id saved.0 user) saved.1.items
          >> (modify
                (store_transfer saved.0 (record (saved.1) { status = TransferStatus.in_transit }))
              >> pure saved.0))
        db
      ≡ (ok id, db')
    → IsTaken (length dto.items) (requested_gas dto.items) db db'
unfolding save_new_transfer total_stock ◌>>=◌
saved-IsTaken dto user db db' h =
    let t = new_transfer dto user db.clock in
    let there = record db { transfers = append t db.transfers } in
    let (_, d1, sent, h1) =
      >>_inv (for_each (dispatch_item dto.source_station_id db.transfers.next_id user) t.items) _
        h in
    let taken =
      items-IsTaken dto.source_station_id db.transfers.next_id user t.items there d1 sent in
    rw
      (
        sym (written_lem db.transfers.next_id d1 db' _ h1),
        sym (new_items-gas 0 dto.items),
        sym (new_items-length 0 dto.items),
      )
      taken

-- A transfer that is created takes the gas of its LPG items out of the stations together, and for
-- each item at most one gram less, which is the deficit that a movement may leave.
pub create_transfer-total_stock :
    (dto : CreateTransferDto) (user : ℕ) (db db' : Db) {id : ℕ}
    → create_transfer dto user db ≡ (ok id, db')
    → (total_stock db ≤ℤ total_stock db' +ℤ requested_gas dto.items)
      × (total_stock db' +ℤ requested_gas dto.items ≤ℤ total_stock db +ℤ pos (length dto.items))
unfolding create_transfer find_station
create_transfer-total_stock dto user db db' h =
    let (_, d1, apart, h1) = >>_inv (throw_if _ _) _ h in
    let same1 = (throw_if_inv _ _ {db = db} apart).1 in
    let (s, d2, found, h2) = >>_inv (find_station dto.source_station_id) _ h1 in
    let same2 =
      (find_or_throw_inv (not_found Reason.station_not_found)
        (λ db. find_by_id dto.source_station_id db.stations) {db = d1} found).1 in
    subst (λ d. IsTaken (length dto.items) (requested_gas dto.items) d db') (sym (same1 ∙ same2))
      (saved-IsTaken dto user d2 db' h2)
