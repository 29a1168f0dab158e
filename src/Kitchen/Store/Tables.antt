-- ===== src/Kitchen/Store/Tables.antt =====
-- The tables of the kitchen store (prisma/schema.prisma). Quantities are counted in thousandths; the
-- quantity of a line is never negative, and what a lot holds may be, in the table. The
-- dates, references, notes and reasons of movements are left out, and of a lot what it came in with,
-- its supplier and its cost; a lot code is the number of its upper-case text.
use axzy_ptnv_api.Base.{Bool, List, Option, ℕ}
use axzy_ptnv_api.Base.Int.{ℤ}
use axzy_ptnv_api.Kitchen.Rules.{KitchenType}

pub record Supplier : Type 0 where
  pub id : ℕ
  pub active : Bool

-- The rates count in ten-thousandths.
pub record TaxRate : Type 0 where
  pub id : ℕ
  pub rate : ℕ
  pub active : Bool

pub record Item : Type 0 where
  pub id : ℕ
  pub active : Bool
  pub is_durable : Bool
  pub tracks_expiry : Bool
  pub default_tax_rate : Option TaxRate

pub record Lot : Type 0 where
  pub id : ℕ
  pub item : ℕ
  pub lot_code : ℕ
  pub expires_on : Option ℕ
  pub received_at : ℕ
  pub on_hand : ℤ

pub record KitchenLine : Type 0 where
  pub item : ℕ
  pub lot : ℕ
  pub quantity : ℕ
  pub unit_cost : Option ℕ

-- The row that a reversal points to, with its type, which never changes.
pub record ReversalOf : Type 0 where
  pub id : ℕ
  pub type : KitchenType

pub record KitchenMovement : Type 0 where
  pub id : ℕ
  pub type : KitchenType
  pub reversal_of : Option ReversalOf
  pub is_cancelled : Bool
  pub created_by : ℕ
  pub request : Option ℕ
  pub purchase_order : Option ℕ
  pub lines : List KitchenLine

pub record KitchenDb : Type 0 where
  pub items : List Item
  pub suppliers : List Supplier
  pub lots : List Lot
  pub movements : List KitchenMovement
