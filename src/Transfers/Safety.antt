-- ===== src/Transfers/Safety.antt =====
-- `create` and `receive` of backend/src/transfers/transfers.service.ts against the stocks and the
-- journal.
use haroti_lpg_management.Accessories.Stock.{AccessoriesAreNonneg}
use haroti_lpg_management.Common.Enums.{TransferStatus}
use haroti_lpg_management.Database.Entities.{TransferItem, Transfer}
use haroti_lpg_management.Database.Keeps.{
  Keeps, Keeps-pure, Keeps-find_or_throw, Keeps-throw_if, Keeps->>=, Keeps->>, Keeps-when,
  Keeps-for_each,
}
use haroti_lpg_management.Database.State.{modify}
use haroti_lpg_management.Prelude.{ℤ, ℕ, refl, some, List, [], ◌∷◌}
use haroti_lpg_management.Sales.Safety.{Sound, apply_movement-Sound, SameBooks, modify-Sound}
use haroti_lpg_management.Stations.{find_station}
use haroti_lpg_management.Transfers.{
  CreateTransferDto, save_new_transfer, dispatch_item, store_transfer, create_transfer,
  set_received, receive_items, receive_transfer,
}

dispatch_item-Sound :
    (source id user : ℕ) (i : TransferItem) → Keeps Sound (dispatch_item source id user i)
unfolding dispatch_item
dispatch_item-Sound source id user i =
    Keeps-when _ (Keeps->> (apply_movement-Sound _) (Keeps-pure tt))

save_new_transfer-Sound :
    (dto : CreateTransferDto) (user : ℕ) → Keeps Sound (save_new_transfer dto user)
unfolding save_new_transfer AccessoriesAreNonneg
save_new_transfer-Sound dto user = record {
  run = λ db h. record { stock = h.stock; accessories = h.accessories; journal = h.journal };
}

store_transfer-Sound :
    (make : ℕ → Transfer) (id : ℕ)
    → Keeps Sound (modify (λ db. store_transfer id (make db.clock) db))
unfolding SameBooks
store_transfer-Sound make id = modify-Sound _ λ db. (refl, refl, refl)

-- A dispatch keeps the books sound, also one that fails for want of gas after some of its items.
pub create_transfer-Sound :
    (dto : CreateTransferDto) (user : ℕ) → Keeps Sound (create_transfer dto user)
unfolding create_transfer find_station
create_transfer-Sound dto user = Keeps->> (Keeps-throw_if _ _) (
    Keeps->> (Keeps-find_or_throw _ _) (
      Keeps->>= (save_new_transfer-Sound dto user) λ saved.
        Keeps->> (Keeps-for_each _ (dispatch_item-Sound _ _ _)) (
          Keeps->>
            (store_transfer-Sound (λ _. record (saved.1) { status = TransferStatus.in_transit })
              saved.0)
            (Keeps-pure _))))

receive_items-Sound :
    (destination id user : ℕ) (received : List (ℕ × ℤ)) (items : List TransferItem)
    → Keeps Sound (receive_items destination id user received items)
unfolding receive_items
receive_items-Sound destination id user [] items = Keeps-pure _
receive_items-Sound destination id user ((k, q) ∷ received) items =
    Keeps->>= (Keeps-find_or_throw _ _) λ item.
      Keeps->> (Keeps-when _ (Keeps->> (apply_movement-Sound _) (Keeps-pure tt)))
        (receive_items-Sound destination id user received (set_received k q items))

-- So does a receipt.
pub receive_transfer-Sound :
    (id : ℕ) (received : List (ℕ × ℤ)) (user : ℕ) → Keeps Sound (receive_transfer id received user)
unfolding receive_transfer
receive_transfer-Sound id received user = Keeps->>= (Keeps-find_or_throw _ _) λ t.
    Keeps->> (Keeps-throw_if _ _) (
      Keeps->>= (receive_items-Sound _ id user received t.items) λ items.
        store_transfer-Sound
          (λ now. record t {
            items = items;
            status = TransferStatus.confirmed;
            received_at = some now;
          })
          id)
