-- ===== src/Sales/Reachable.antt =====
-- The operations on the stock, the sales and the transfers as the steps of one system, in any
-- order and by whomever, with a gateway that leaves the books alone.
use haroti_lpg_management.Common.Enums.{UserRole}
use haroti_lpg_management.Database.Keeps.{Keeps}
use haroti_lpg_management.Database.State.{Db, Op}
use haroti_lpg_management.Inventory.{MovementParams, apply_movement}
use haroti_lpg_management.Prelude.{ℤ, ℕ, List}
use haroti_lpg_management.Sales.Create.{create_sale}
use haroti_lpg_management.Sales.Fingerprint.{CreateSaleDto}
use haroti_lpg_management.Sales.Lifecycle.{
  approve_discount, complete_paychangu_sale, fail_paychangu_sale, void_sale,
}
use haroti_lpg_management.Sales.Safety.{Sound, apply_movement-Sound}
use haroti_lpg_management.Sales.SafetyCreate.{create_sale-Sound}
use haroti_lpg_management.Sales.SafetyOps.{
  approve_discount-Sound, complete_paychangu_sale-Sound, void_sale-Sound, fail_paychangu_sale-Sound,
}
use haroti_lpg_management.Transfers.{CreateTransferDto, create_transfer, receive_transfer}
use haroti_lpg_management.Transfers.Safety.{create_transfer-Sound, receive_transfer-Sound}

module _ (initiate : ℕ → ℤ → Op (Unit {0})) where
  pub data Step : Db → Db → Type 0 where
    move : (p : MovementParams) (db : Db) → Step db (apply_movement p db).1
    sell :
        (dto : CreateSaleDto) (attendant : ℕ) (db : Db)
        → Step db (create_sale initiate dto attendant db).1
    approve :
        (id approver : ℕ) (role : UserRole) (db : Db)
        → Step db (approve_discount id approver role db).1
    complete : (id : ℕ) (db : Db) → Step db (complete_paychangu_sale id db).1
    fail : (id : ℕ) (db : Db) → Step db (fail_paychangu_sale id db).1
    undo : (id user : ℕ) (db : Db) → Step db (void_sale id user db).1
    dispatch :
        (dto : CreateTransferDto) (user : ℕ) (db : Db) → Step db (create_transfer dto user db).1
    receive :
        (id : ℕ) (received : List (ℕ × ℤ)) (user : ℕ) (db : Db)
        → Step db (receive_transfer id received user db).1

  pub data Reaches : Db → Db → Type 0 where
    here : (db : Db) → Reaches db db
    then_step : (a b c : Db) → Reaches a b → Step b c → Reaches a c

module _ (initiate : ℕ → ℤ → Op (Unit {0}))
    (initiate-Sound : (id : ℕ) (amount : ℤ) → Keeps Sound (initiate id amount)) where
  Step-Sound : (a b : Db) → Step initiate a b → Sound a → Sound b
  Step-Sound a b (Step.move p db) h = (apply_movement-Sound p).run db h
  Step-Sound a b (Step.sell dto attendant db) h =
      (create_sale-Sound initiate initiate-Sound dto attendant).run db h
  Step-Sound a b (Step.approve id approver role db) h =
      (approve_discount-Sound id approver role).run db h
  Step-Sound a b (Step.complete id db) h = (complete_paychangu_sale-Sound id).run db h
  Step-Sound a b (Step.fail id db) h = (fail_paychangu_sale-Sound id).run db h
  Step-Sound a b (Step.undo id user db) h = (void_sale-Sound id user).run db h
  Step-Sound a b (Step.dispatch dto user db) h = (create_transfer-Sound dto user).run db h
  Step-Sound a b (Step.receive id received user db) h =
      (receive_transfer-Sound id received user).run db h

  -- From sound books every state that stock movements, sales, discount approvals, gateway
  -- completions and failures, voids, dispatches and receipts reach, in any order and whether each
  -- is made, refused or stopped half-way, has no negative stock at a station or on a shelf and
  -- only balanced journal entries, if the gateway leaves the books alone.
  pub Reaches-Sound : (a b : Db) → Reaches initiate a b → Sound a → Sound b
  Reaches-Sound a b (Reaches.here db) h = h
  Reaches-Sound a b (Reaches.then_step x y z r s) h = Step-Sound y z s (Reaches-Sound x y r h)
