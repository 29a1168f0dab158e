-- ===== src/Kitchen/Orders/Rows.antt =====
-- What the change of one order's row does to the table.
use mathlib.Core.Path.{subst}
use axzy_ptnv_api.Base.{
  Bool-cases, List, [], ap, arith, inl, inr, some, true, ℕ, ◌==◌, ◌∙◌, ◌∷◌, ◌≡◌,
}
use axzy_ptnv_api.Base.Lists.{All, find, find_sound}
use axzy_ptnv_api.Kitchen.Orders.Tables.{PurchaseOrder, find_order, update_order}

pub find_order-update_order :
    (id : ℕ) (change : PurchaseOrder → PurchaseOrder) (orders : List PurchaseOrder)
    {o : PurchaseOrder}
    → ((x : PurchaseOrder) → (change x).id ≡ x.id)
    → find_order id orders ≡ some o
    → find_order id (update_order id change orders) ≡ some (change o)
unfolding find_order update_order
find_order-update_order id change [] keeps f = cc
find_order-update_order id change (x ∷ xs) {o} keeps f = elim (Bool-cases (x.id == id)) [
  | inl hit ↦
      let first : some x ≡ some o = rw hit at f in
      let same : x ≡ o = cc in
      let still : ((change x).id == id) ≡ true = ap (λ i. i == id) (keeps x) ∙ hit in
      rw (hit, still) (ap (λ y. some (change y)) same)
  | inr miss ↦ rw (miss, find, miss) (find_order-update_order id change xs keeps (rw miss at f))
]

pub find_order-id :
    (id : ℕ) (orders : List PurchaseOrder) {o : PurchaseOrder}
    → find_order id orders ≡ some o
    → o.id ≡ id
unfolding find_order
find_order-id id orders f =
    let hit = (find_sound (λ (o : PurchaseOrder). o.id == id) orders f).1 in ground arith

-- A property of all orders stays one when the order that is found keeps it.
pub All-update_order {κ} :
    (P : PurchaseOrder → Type κ) (id : ℕ) (change : PurchaseOrder → PurchaseOrder)
    (orders : List PurchaseOrder) {o : PurchaseOrder}
    → find_order id orders ≡ some o
    → (P o → P (change o))
    → All P orders
    → All P (update_order id change orders)
unfolding find_order update_order
All-update_order P id change [] f keeps h = tt
All-update_order P id change (x ∷ xs) {o} f keeps h = elim (Bool-cases (x.id == id)) [
  | inl hit ↦
      let first : some x ≡ some o = rw hit at f in
      let same : o ≡ x = cc in rw hit (subst (λ y. P y → P (change y)) same keeps h.0, h.1)
  | inr miss ↦ rw miss (h.0, All-update_order P id change xs (rw miss at f) keeps h.1)
]
