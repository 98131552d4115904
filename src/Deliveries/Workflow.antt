-- ===== src/Deliveries/Workflow.antt =====
-- The statuses of a delivery as a diagram, and the runs of `advanceStatus` along it
-- (backend/src/deliveries/deliveries.service.ts).
use mathlib.Core.Option.{some-injective}
use haroti_lpg_management.Common.Enums.{DeliveryStatus}
use haroti_lpg_management.Common.Errors.{Reason, not_found, Result, ok}
use haroti_lpg_management.Database.Documents.{Delivery}
use haroti_lpg_management.Database.Frame.{apply_movement-Blind, post_entry-Blind, update_cost-Blind}
use haroti_lpg_management.Database.Keeps.{Keeps, Keeps-pure, Keeps->>, Keeps-when, kept_by}
use haroti_lpg_management.Database.Returns.{or_throw_inv, find_or_throw_inv, >>=_inv, >>_inv}
use haroti_lpg_management.Database.State.{Db, Op, pure, or_throw, ◌>>◌, when}
use haroti_lpg_management.Database.Table.{find_by_id, lookup-replace}
use haroti_lpg_management.Deliveries.{
  next_status, is_inventory_updated, find_delivery, store_delivery, post_delivery, take_in,
  advanced, advance_to, advance_found, advance_status,
}
use haroti_lpg_management.Prelude.{
  length, Bool-cases, suc, ◌+◌, ℕ, ◌≡◌, refl, sym, ap, ◌∙◌, subst, inl, inr, some, List, [], ◌∷◌,
  arith,
}

-- The edges of the list `WORKFLOW`.
infix 40 ◌⟶◌
pub data ◌⟶◌ : DeliveryStatus → DeliveryStatus → Type 0 where
  dispatch : DeliveryStatus.purchase_order ⟶ DeliveryStatus.supplier_dispatch
  arrive : DeliveryStatus.supplier_dispatch ⟶ DeliveryStatus.station_receipt
  verify : DeliveryStatus.station_receipt ⟶ DeliveryStatus.quantity_verification
  hand_over : DeliveryStatus.quantity_verification ⟶ DeliveryStatus.manager_approval
  approve : DeliveryStatus.manager_approval ⟶ DeliveryStatus.inventory_updated
  owe : DeliveryStatus.inventory_updated ⟶ DeliveryStatus.accounts_payable

-- The steps that are left to the end of the list.
abbrev pub steps_left : DeliveryStatus → ℕ
steps_left DeliveryStatus.purchase_order = 6
steps_left DeliveryStatus.supplier_dispatch = 5
steps_left DeliveryStatus.station_receipt = 4
steps_left DeliveryStatus.quantity_verification = 3
steps_left DeliveryStatus.manager_approval = 2
steps_left DeliveryStatus.inventory_updated = 1
steps_left DeliveryStatus.accounts_payable = 0
steps_left DeliveryStatus.cancelled = 0

next_status-⟶ : (s : DeliveryStatus) {t : DeliveryStatus} → next_status s ≡ some t → s ⟶ t
next_status-⟶ DeliveryStatus.purchase_order h =
    subst (λ t. DeliveryStatus.purchase_order ⟶ t) (some-injective _ _ h) dispatch
next_status-⟶ DeliveryStatus.supplier_dispatch h =
    subst (λ t. DeliveryStatus.supplier_dispatch ⟶ t) (some-injective _ _ h) arrive
next_status-⟶ DeliveryStatus.station_receipt h =
    subst (λ t. DeliveryStatus.station_receipt ⟶ t) (some-injective _ _ h) verify
next_status-⟶ DeliveryStatus.quantity_verification h =
    subst (λ t. DeliveryStatus.quantity_verification ⟶ t) (some-injective _ _ h) hand_over
next_status-⟶ DeliveryStatus.manager_approval h =
    subst (λ t. DeliveryStatus.manager_approval ⟶ t) (some-injective _ _ h) approve
next_status-⟶ DeliveryStatus.inventory_updated h =
    subst (λ t. DeliveryStatus.inventory_updated ⟶ t) (some-injective _ _ h) owe
next_status-⟶ DeliveryStatus.accounts_payable h = cc
next_status-⟶ DeliveryStatus.cancelled h = cc

-- The delivery stands under its identifier.
unfoldable pub Stands : ℕ → Delivery → Db → Type 0
Stands id d db = find_by_id id db.deliveries ≡ some d

pub take_in-Stands : (id user : ℕ) (d : Delivery) → Keeps (Stands id d) (take_in id user d)
unfolding take_in post_delivery Stands
take_in-Stands id user d = Keeps->> (apply_movement-Blind _ (λ db _ _ _ _ h. h) _) (
    Keeps->> (update_cost-Blind _ (λ db _ _ _ _ h. h) _ _ _)
      (Keeps->> (post_entry-Blind _ (λ db _ _ _ _ h. h) _) (Keeps-pure tt)))

pub store_delivery-Stands :
    (id : ℕ) (old new : Delivery) (db : Db)
    → Stands id old db
    → Stands id new (store_delivery id new db)
unfolding Stands
store_delivery-Stands id old new db h =
    rw (lookup-replace id id new {old = old} db.deliveries.rows h) (ground arith)

pub status-advanced :
    (next : DeliveryStatus) (user : ℕ) (d : Delivery) → (advanced next user d).status ≡ next
status-advanced next user d = elim (Bool-cases (is_inventory_updated next)) [
  | inl last ↦ rw last refl
  | inr other ↦ rw other refl
]

pub advance_to-Stands :
    (id user : ℕ) (d : Delivery) (next : DeliveryStatus) (db db' : Db) {u : Unit {0}}
    → Stands id d db
    → advance_to id user d next db ≡ (ok u, db')
    → Stands id (advanced next user d) db'
unfolding advance_to
advance_to-Stands id user d next db db' h run =
    let (_, db1, done, rest) = >>_inv (when _ (take_in id user d)) _ run in
    let there : Stands id d db1 = kept_by (Keeps-when _ (take_in-Stands id user d)) done h in
    subst (λ (r : Result (Unit {0}) × Db). Stands id (advanced next user d) r.1) rest
      (store_delivery-Stands id d (advanced next user d) db1 there)

find_delivery_inv :
    (id : ℕ) {db db' : Db} {d : Delivery}
    → find_delivery id db ≡ (ok d, db')
    → (find_by_id id db.deliveries ≡ some d) × (db ≡ db')
unfolding find_delivery
find_delivery_inv id {db} h =
    find_or_throw_inv (not_found Reason.delivery_not_found) (λ db. find_by_id id db.deliveries)
      {db = db} h

-- An advance that returns has taken the delivery along an edge of the diagram.
pub advance_status-⟶ :
    (id user : ℕ) (db db' : Db) {u : Unit {0}}
    → advance_status id user db ≡ (ok u, db')
    → (d : Delivery) × (d' : Delivery) × (find_by_id id db.deliveries ≡ some d)
      × (find_by_id id db'.deliveries ≡ some d')
      × (d.status ⟶ d'.status)
unfolding advance_status advance_found Stands
advance_status-⟶ id user db db' run =
    let (d, db1, read, rest) = >>=_inv (find_delivery id) (advance_found id user) run in
    let (found, same) = find_delivery_inv id read in
    let (next, db2, known, last) =
      >>=_inv (or_throw _ (next_status d.status)) (advance_to id user d) rest in
    let (edge, same2) = or_throw_inv _ (next_status d.status) known in
    let there : Stands id d db2 = subst (Stands id d) (same ∙ same2) found in
    (
      d,
      advanced next user d,
      found,
      advance_to-Stands id user d next db2 db' there last,
      subst (λ s. d.status ⟶ s) (sym (status-advanced next user d)) (next_status-⟶ d.status edge),
    )

steps_left-⟶ : {s t : DeliveryStatus} → s ⟶ t → steps_left s ≡ suc (steps_left t)
steps_left-⟶ dispatch = refl
steps_left-⟶ arrive = refl
steps_left-⟶ verify = refl
steps_left-⟶ hand_over = refl
steps_left-⟶ approve = refl
steps_left-⟶ owe = refl

-- `advanceStatus` called by one user after another; the run ends with the first refusal.
unfoldable pub advance_all : ℕ → List ℕ → Op (Unit {0})
advance_all id [] = pure tt
advance_all id (user ∷ users) = advance_status id user >> advance_all id users

-- A run of advances that all return is as long as the way that the delivery has come, and so has
-- at most as many steps as were left.
pub advance_all-length :
    (id : ℕ) (users : List ℕ) (db db' : Db) {d d' : Delivery} {u : Unit {0}}
    → find_by_id id db.deliveries ≡ some d
    → find_by_id id db'.deliveries ≡ some d'
    → advance_all id users db ≡ (ok u, db')
    → length users + steps_left d'.status ≡ steps_left d.status
unfolding advance_all
advance_all-length id [] db db' {d} {d'} found found' run =
    let same : db ≡ db' = ap (λ (r : Result (Unit {0}) × Db). r.1) run in
    let both : d ≡ d' =
      some-injective _ _
        (sym (subst (λ x. find_by_id id x.deliveries ≡ some d) same found) ∙ found') in
    rw both (omega arith)
advance_all-length id (user ∷ users) db db' {d} {d'} found found' run =
    let (_, db1, first, rest) = >>_inv (advance_status id user) (advance_all id users) run in
    let (e, e', there, there', edge) = advance_status-⟶ id user db db1 first in
    let same : e ≡ d = some-injective _ _ (sym there ∙ found) in
    let ih = advance_all-length id users db1 db' there' found' rest in
    let step : steps_left d.status ≡ suc (steps_left e'.status) =
      rw (sym same) (steps_left-⟶ edge) in
    omega (arith, ih, step)
