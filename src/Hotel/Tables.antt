-- ===== src/Hotel/Tables.antt =====
-- The tables of the hotel store that movements read and write (prisma/schema.prisma), and the
-- requests (modules/hotel-store/services/movement.service.ts).
use axzy_ptnv_api.Base.{ℕ, Bool, Option, List}
use axzy_ptnv_api.Base.Int.{ℤ}
use axzy_ptnv_api.Hotel.Kardex.{MovementType}
use axzy_ptnv_api.Hotel.Positions.{Stock}

pub data ProductKind : Type 0 where
  consumable linen chemical equipment : ProductKind

pub record Product : Type 0 where
  pub id : ℕ
  pub active : Bool
  pub whole : Bool
  pub kind : ProductKind
  pub last_cost : Option ℤ

pub record Location : Type 0 where
  pub id : ℕ
  pub warehouse : ℕ
  pub is_default : Bool
  pub active : Bool

pub data Status : Type 0 where
  pending_approval active cancelled : Status

pub record Line : Type 0 where
  pub product : ℕ
  pub quantity : ℤ
  pub unit_cost : Option ℤ
  pub from_location : Option ℕ
  pub to_location : Option ℕ

-- A line of a request. Its quantity is that of `line`, in thousandths, and `finer` thousandths of a
-- thousandth (fewer than 1000): requests are not held to the three decimals of the columns.
pub record RequestLine : Type 0 where
  pub line : Line
  pub finer : ℕ

-- A line that the code has made of stored quantities.
abbrev pub exact_line : Line → RequestLine
exact_line l = record { line = l; finer = 0 }

-- A request, and its lines; `skip_approval` is set by stocktakes.
pub record MovementInput : Type 0 where
  pub type : MovementType
  pub from_warehouse : Option ℕ
  pub warehouse : Option ℕ
  pub room : Option ℕ
  pub reason : Option ℕ
  pub stocktake : Option ℕ
  pub skip_approval : Bool
  pub lines : List RequestLine

pub record Movement : Type 0 where
  pub id : ℕ
  pub folio : ℕ
  pub type : MovementType
  pub status : Status
  pub from_warehouse : Option ℕ
  pub warehouse : Option ℕ
  pub room : Option ℕ
  pub reason : Option ℕ
  pub created_by : ℕ
  pub created_at : ℕ
  pub approved_by : Option ℕ
  pub request : Option ℕ
  pub stocktake : Option ℕ
  pub lines : List Line

pub record Db : Type 0 where
  pub products : List Product
  pub locations : List Location
  pub stock : Stock
  pub movements : List Movement

pub record Stamp : Type 0 where
  pub id : ℕ
  pub now : ℕ
