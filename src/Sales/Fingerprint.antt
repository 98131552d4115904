-- ===== src/Sales/Fingerprint.antt =====
-- What a sale is asked for, and the comparison of a repeated request with the sale that is there:
-- `offlinePayloadConflict`. Two JSON texts are equal when the fields they list are.
use haroti_lpg_management.Common.Enums.{PaymentMethod, SalesChannel}
use haroti_lpg_management.Database.Entities.{TxnId, same_txn, SaleItem, SalePayment, Sale}
use haroti_lpg_management.Database.State.{Db}
use haroti_lpg_management.Database.Table.{find_where}
use haroti_lpg_management.Prelude.{
  ℤ, pos, eqb_ℤ, ◌==◌, or_else, is_some, ℕ, Bool, true, false, not, ◌&&◌, Option, none, some, List,
  [], ◌∷◌,
}
use haroti_lpg_management.Sales.Pricing.{SaleItemDto}

pub record CreateSaleDto : Type 0 where
  pub station_id : ℕ
  pub customer_id : Option ℕ
  pub shift_id : ℕ
  pub items : List SaleItemDto
  pub payments : List SalePayment
  pub discount_amount : Option ℤ
  pub client_txn_id : Option TxnId
  pub bundle_id : Option ℕ
  pub sales_channel : Option SalesChannel
  pub has_card_number_and_expiry : Bool
  pub has_card_cvv_and_name : Bool
  pub has_customer_phone : Bool

abbrev pub payment_tag : PaymentMethod → ℕ
payment_tag PaymentMethod.cash = 0
payment_tag PaymentMethod.airtel_money = 1
payment_tag PaymentMethod.tnm_mpamba = 2
payment_tag PaymentMethod.bank_transfer = 3
payment_tag PaymentMethod.card = 4
payment_tag PaymentMethod.customer_account = 5
payment_tag PaymentMethod.paychangu = 6
payment_tag PaymentMethod.mixed = 7

abbrev pub same_option : Option ℕ → Option ℕ → Bool
same_option none b = not (is_some b)
same_option (some a) b = elim b [ none ↦ false | some c ↦ a == c ]

-- The fields `itemName`, `quantity`, `unitPrice` and `lpgQuantityKg`.
unfoldable pub same_item : SaleItemDto → SaleItem → Bool
same_item i s =
    i.item_name == s.item_name
    && i.quantity == s.quantity
    && eqb_ℤ i.unit_price s.unit_price
    && eqb_ℤ (or_else i.lpg_quantity_kg (pos 0)) s.lpg_quantity_kg

unfoldable pub same_items : List SaleItemDto → List SaleItem → Bool
same_items [] [] = true
same_items (i ∷ is) (s ∷ ss) = same_item i s && same_items is ss
same_items [] (s ∷ ss) = false
same_items (i ∷ is) [] = false

unfoldable pub same_payments : List SalePayment → List SalePayment → Bool
same_payments [] [] = true
same_payments (p ∷ ps) (q ∷ qs) =
    payment_tag p.method == payment_tag q.method && eqb_ℤ p.amount q.amount && same_payments ps qs
same_payments [] (q ∷ qs) = false
same_payments (p ∷ ps) [] = false

-- `offlinePayloadFingerprint(dto) === saleOfflineFingerprint(sale)`
unfoldable pub same_fingerprint : CreateSaleDto → Sale → Bool
same_fingerprint dto s =
    dto.station_id == s.station_id
    && dto.shift_id == s.shift_id
    && same_option dto.customer_id s.customer_id
    && same_items dto.items s.items
    && same_payments dto.payments s.payments

-- `salesRepo.findOne({ where: { clientTxnId } })`, if the client gave one
unfoldable pub existing_sale : Option TxnId → Db → Option (ℕ × Sale)
existing_sale none db = none
existing_sale (some t) db =
    find_where (λ s. elim s.client_txn_id [ none ↦ false | some u ↦ same_txn u t ]) db.sales
