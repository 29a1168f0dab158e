-- ===== src/Hotel/Housekeeping/Tables.antt =====
-- The tables of rooms and housekeeping tasks (prisma/schema.prisma), beside those of the store.
use axzy_ptnv_api.Base.{Bool, List, Option, ℕ}
use axzy_ptnv_api.Base.Int.{ℤ}
use axzy_ptnv_api.Hotel.Tables.{Db}
use axzy_ptnv_api.Hotel.Housekeeping.Rules.{CleaningType, KitLineRule, RoomStatus, TaskStatus}

pub data Source : Type 0 where
  kit_source extra_source : Source

pub record TaskLine : Type 0 where
  pub task : ℕ
  pub product : ℕ
  pub quantity : ℤ
  pub source : Source

pub record Task : Type 0 where
  pub id : ℕ
  pub room : ℕ
  pub cleaning_type : CleaningType
  pub status : TaskStatus
  pub requires_inspection : Bool
  pub is_rework : Bool
  pub rework_of : Option ℕ
  pub kit : Option ℕ
  pub kit_alert : Bool
  pub assigned_to : Option ℕ
  pub cart : Option ℕ
  pub finished_at : Option ℕ
  pub movement : Option ℕ
  pub linen_movement : Option ℕ

pub record Room : Type 0 where
  pub id : ℕ
  pub type : ℕ
  pub zone : ℕ
  pub active : Bool
  pub status : RoomStatus

pub record Kit : Type 0 where
  pub id : ℕ
  pub active : Bool
  pub lines : List KitLineRule

pub record RoomType : Type 0 where
  pub id : ℕ
  pub kit : Option Kit

pub data WarehouseKind : Type 0 where
  cart laundry store : WarehouseKind

pub record HouseWarehouse : Type 0 where
  pub id : ℕ
  pub kind : WarehouseKind
  pub owner : Option ℕ
  pub active : Bool

pub record Inspection : Type 0 where
  pub task : ℕ
  pub is_rejected : Bool
  pub inspector : ℕ
  pub reason : Option ℕ

pub record StatusChange : Type 0 where
  pub room : ℕ
  pub from : RoomStatus
  pub to : RoomStatus
  pub user : ℕ
  pub reason : Option ℕ

pub record House : Type 0 where
  pub db : Db
  pub rooms : List Room
  pub types : List RoomType
  pub warehouses : List HouseWarehouse
  pub tasks : List Task
  pub lines : List TaskLine
  pub inspections : List Inspection
  pub changes : List StatusChange
