-- ===== src/Kitchen/Orders/Tables.antt =====
-- The tables of the purchase orders (prisma/schema.prisma). Quantities and factors are counted in
-- thousandths, unit costs and tax rates in ten-thousandths; days, times and texts are numbers.
use axzy_ptnv_api.Base.{Bool, List, Option, [], false, if◌then◌else◌, true, ℕ, ◌==◌, ◌∷◌}
use axzy_ptnv_api.Base.Lists.{find}
use axzy_ptnv_api.Kitchen.Store.Tables.{KitchenDb, TaxRate}

pub data OrderStatus : Type 0 where
  draft approved sent partially_received received cancelled : OrderStatus

pub record OrderLine : Type 0 where
  pub id : ℕ
  pub item : ℕ
  pub quantity : ℕ
  pub unit_cost : Option ℕ
  pub received_quantity : ℕ
  pub notes : Option ℕ
  pub purchase_unit : Option ℕ
  pub purchase_factor : Option ℕ
  pub purchase_quantity : Option ℕ
  pub tax_rate_id : Option ℕ
  pub tax_rate : ℕ

-- `number` is the year and the sequence that `formatPurchaseOrderNumber` prints.
pub record PurchaseOrder : Type 0 where
  pub id : ℕ
  pub number : ℕ × ℕ
  pub supplier : ℕ
  pub cost_center : Option ℕ
  pub status : OrderStatus
  pub expected_at : Option ℕ
  pub notes : Option ℕ
  pub created_by : ℕ
  pub approved_by : Option ℕ
  pub approved_at : Option ℕ
  pub sent_at : Option ℕ
  pub lines : List OrderLine

pub record CostCenter : Type 0 where
  pub id : ℕ
  pub active : Bool

-- The presentation in which a supplier sells an item.
pub record SupplierItem : Type 0 where
  pub supplier : ℕ
  pub item : ℕ
  pub purchase_unit : ℕ
  pub factor : ℕ

-- `sequence` is the last number that was given of the year.
pub record OrdersDb : Type 0 where
  pub kitchen : KitchenDb
  pub orders : List PurchaseOrder
  pub cost_centers : List CostCenter
  pub supplier_items : List SupplierItem
  pub tax_rates : List TaxRate
  pub sequence : ℕ → ℕ

unfoldable pub find_order : ℕ → List PurchaseOrder → Option PurchaseOrder
find_order id orders = find (λ (o : PurchaseOrder). o.id == id) orders

-- `update({ where: { id }, data })`
unfoldable pub update_order :
    ℕ → (PurchaseOrder → PurchaseOrder) → List PurchaseOrder → List PurchaseOrder
update_order id change [] = []
update_order id change (o ∷ orders) =
    if o.id == id then change o ∷ orders else o ∷ update_order id change orders

abbrev pub is_draft : OrderStatus → Bool
is_draft draft = true
is_draft _ = false

abbrev pub is_approved : OrderStatus → Bool
is_approved approved = true
is_approved _ = false

abbrev pub is_sendable : OrderStatus → Bool
is_sendable approved = true
is_sendable sent = true
is_sendable _ = false

abbrev pub is_cancelled_order : OrderStatus → Bool
is_cancelled_order cancelled = true
is_cancelled_order _ = false

abbrev pub is_received : OrderStatus → Bool
is_received received = true
is_received _ = false

-- `RECEIVABLE`
abbrev pub is_receivable : OrderStatus → Bool
is_receivable approved = true
is_receivable sent = true
is_receivable partially_received = true
is_receivable _ = false
