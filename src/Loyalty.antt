-- ===== src/Loyalty.antt =====
-- backend/src/loyalty/loyalty.service.ts: points earned by sales and redeemed.
pub mod Points
use haroti_lpg_management.Common.Enums.{LoyaltyTxnType}
use haroti_lpg_management.Common.Errors.{Reason, bad_request, not_found, ok}
use haroti_lpg_management.Database.Entities.{LoyaltyAccount}
use haroti_lpg_management.Database.State.{
  Db, Op, find_or_throw, ◌>>=◌, ◌>>◌, throw_if, modify, when,
}
use haroti_lpg_management.Database.Table.{find_by_id, store, append, find_where}
use haroti_lpg_management.Prelude.{
  ℤ, pos, ◌+ℤ◌, ltb_ℤ, leb_ℤ, abs, negate, div_floor, ◌==◌, if◌then◌else◌, ℕ, Option, none, some,
}

unfoldable pub account_of : ℕ → Db → Option (ℕ × LoyaltyAccount)
account_of customer_id db = find_where (λ a. a.customer_id == customer_id) db.loyalty_accounts

abbrev pub new_account : ℕ → LoyaltyAccount
new_account customer_id = record {
  customer_id = customer_id;
  points_balance = pos 0;
  lifetime_earned = pos 0;
}

-- `getOrCreate`
unfoldable pub get_or_create : ℕ → Op (ℕ × LoyaltyAccount)
get_or_create customer_id db = elim (account_of customer_id db) [
  | some a ↦ (ok a, db)
  | none ↦ (
    ok (db.loyalty_accounts.next_id, new_account customer_id),
    record db { loyalty_accounts = append (new_account customer_id) db.loyalty_accounts },
  )
]

-- The account after a change of its points.
abbrev pub change_points : ℤ → LoyaltyAccount → LoyaltyAccount
change_points delta a = record a {
  points_balance = a.points_balance +ℤ delta;
  lifetime_earned = if ltb_ℤ (pos 0) delta then a.lifetime_earned +ℤ delta else a.lifetime_earned;
}

-- The account and the transaction, saved.
abbrev pub write_points : ℕ → ℤ → LoyaltyTxnType → LoyaltyAccount → Db → Db
write_points id delta kind a db = record db {
  loyalty_accounts = store id (change_points delta a) db.loyalty_accounts;
  loyalty_transactions =
      append
        (record {
          account_id = id;
          kind = kind;
          points = abs delta;
          balance_after = a.points_balance +ℤ delta;
        })
        db.loyalty_transactions;
}

-- `applyPoints`
unfoldable pub apply_points : ℕ → ℤ → LoyaltyTxnType → Op (Unit {0})
apply_points customer_id delta kind = do
  find_or_throw (not_found Reason.customer_not_found) (λ db. find_by_id customer_id db.customers)
  account ← get_or_create customer_id
  modify (write_points account.0 delta kind account.1)

-- `Math.floor(amountMwk / 1000)`, of an amount in cents
unfoldable pub points_for : ℤ → ℤ
points_for amount = div_floor amount 100_000

-- `earnFromSale`
unfoldable pub earn_from_sale : ℕ → ℤ → Op (Unit {0})
earn_from_sale customer_id amount =
    when (ltb_ℤ (pos 0) (points_for amount))
      (apply_points customer_id (points_for amount) LoyaltyTxnType.earn)

-- `redeem`
unfoldable pub redeem : ℕ → ℤ → Op (Unit {0})
redeem customer_id points = do
  account ← get_or_create customer_id
  throw_if (leb_ℤ points (pos 0)) (bad_request Reason.points_not_positive)
  throw_if (ltb_ℤ account.1.points_balance points) (bad_request Reason.insufficient_points)
  apply_points customer_id (negate points) LoyaltyTxnType.redeem
