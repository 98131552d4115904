-- ===== src/Loyalty/Points.antt =====
-- The balances of points under `redeem`.
use haroti_lpg_management.Common.Enums.{LoyaltyTxnType}
use haroti_lpg_management.Common.Errors.{Result, ok}
use haroti_lpg_management.Customers.Credit.{ltb_false}
use haroti_lpg_management.Database.Entities.{LoyaltyAccount}
use haroti_lpg_management.Database.Keeps.{Keeps, throw_if_then, Keeps-after}
use haroti_lpg_management.Database.State.{Db, ◌>>=◌, ◌>>◌, modify}
use haroti_lpg_management.Database.Table.{
  find_by_id, append, Every, replace-All, append-Every, find-append,
}
use haroti_lpg_management.Loyalty.{
  account_of, new_account, get_or_create, write_points, apply_points, redeem,
}
use haroti_lpg_management.Prelude.{
  ℤ, pos, ◌+ℤ◌, ◌≤ℤ◌, negate, int_laws, ◌==◌, Option-cases, ℕ, ◌≡◌, refl, sym, ◌∙◌, subst, inl, inr,
  none, some, arith,
}

unfoldable pub PointsAreNonneg : Db → Type 0
PointsAreNonneg db = Every (λ a. pos 0 ≤ℤ a.points_balance) db.loyalty_accounts

get_or_create_old :
    (customer : ℕ) (db : Db) {a : ℕ × LoyaltyAccount}
    → account_of customer db ≡ some a
    → get_or_create customer db ≡ (ok a, db)
unfolding get_or_create
get_or_create_old customer db old = rw (old, get_or_create) refl

made : ℕ → Db → Db
made customer db = record db {
  loyalty_accounts = append (new_account customer) db.loyalty_accounts;
}

get_or_create_new :
    (customer : ℕ) (db : Db)
    → account_of customer db ≡ none
    → get_or_create customer db
      ≡ (ok (db.loyalty_accounts.next_id, new_account customer), made customer db)
unfolding get_or_create made
get_or_create_new customer db new = rw (new, get_or_create) refl

found_made :
    (customer : ℕ) (db : Db)
    → account_of customer db ≡ none
    → account_of customer (made customer db)
      ≡ some (db.loyalty_accounts.next_id, new_account customer)
unfolding account_of made
found_made customer db new =
    find-append (λ a. a.customer_id == customer) _ db.loyalty_accounts.rows new (ground arith)

-- The account, found or made, is found again after that.
get_or_create_again :
    (customer : ℕ) (db : Db) (a : ℕ × LoyaltyAccount) (db1 : Db)
    → get_or_create customer db ≡ (ok a, db1)
    → get_or_create customer db1 ≡ (ok a, db1)
get_or_create_again customer db a db1 h = elim (Option-cases (account_of customer db)) [
  | inl new ↦
      let same = sym (get_or_create_new customer db new) ∙ h in
      let again = get_or_create_old customer (made customer db) (found_made customer db new) in
      subst (λ (r : Result (ℕ × LoyaltyAccount) × Db). get_or_create customer r.1 ≡ r) same again
  | inr (b, old) ↦
      let same = sym (get_or_create_old customer db old) ∙ h in
      subst (λ (r : Result (ℕ × LoyaltyAccount) × Db). get_or_create customer r.1 ≡ r) same
        (get_or_create_old customer db old)
]

get_or_create-Keeps : (customer : ℕ) → Keeps PointsAreNonneg (get_or_create customer)
unfolding get_or_create PointsAreNonneg
get_or_create-Keeps customer = record {
  run = λ db h. elim (Option-cases (account_of customer db)) [
    | inl new ↦
        rw (new, get_or_create)
          (append-Every (λ (a : LoyaltyAccount). pos 0 ≤ℤ a.points_balance) _ db.loyalty_accounts h
            (omega arith))
    | inr (a, old) ↦ rw (old, get_or_create) h
  ];
}

write_points-Keeps :
    (id : ℕ) (delta : ℤ) (kind : LoyaltyTxnType) (a : LoyaltyAccount)
    → pos 0 ≤ℤ a.points_balance +ℤ delta
    → Keeps PointsAreNonneg (modify (write_points id delta kind a))
unfolding PointsAreNonneg
write_points-Keeps id delta kind a enough = record {
  run = λ db h.
      replace-All (λ (a : LoyaltyAccount). pos 0 ≤ℤ a.points_balance) id _ db.loyalty_accounts.rows
        h enough;
}

apply_points-Keeps :
    (customer : ℕ) (delta : ℤ) (kind : LoyaltyTxnType) (a : ℕ × LoyaltyAccount) (db : Db)
    → get_or_create customer db ≡ (ok a, db)
    → pos 0 ≤ℤ a.1.points_balance +ℤ delta
    → PointsAreNonneg db
    → PointsAreNonneg (apply_points customer delta kind db).1
unfolding apply_points ◌>>=◌ ◌>>◌
apply_points-Keeps customer delta kind a db again enough h =
    elim (Option-cases (find_by_id customer db.customers)) [
      | inl missing ↦ rw missing h
      | inr (c, found) ↦
          rw found (rw again ((write_points-Keeps a.0 delta kind (a.1) enough).run db h))
    ]

enough_left : (b p : ℤ) → p ≤ℤ b → pos 0 ≤ℤ b +ℤ negate p
enough_left b p h = omega int_laws

-- Redeeming points, allowed or refused, keeps every balance of points from being negative.
pub redeem-PointsAreNonneg :
    (customer : ℕ) (points : ℤ) → Keeps PointsAreNonneg (redeem customer points)
unfolding redeem
redeem-PointsAreNonneg customer points =
    Keeps-after PointsAreNonneg _ _ (get_or_create-Keeps customer) λ a db db1 e h.
      throw_if_then PointsAreNonneg _ _ _ db1
        (λ _.
          throw_if_then PointsAreNonneg _ _ _ db1
            (λ covered.
              apply_points-Keeps customer (negate points) LoyaltyTxnType.redeem a db1
                (get_or_create_again customer db a db1 e)
                (enough_left a.1.points_balance points
                  (ltb_false a.1.points_balance points covered))
                h)
            h)
        h
