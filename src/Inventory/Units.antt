-- ===== src/Inventory/Units.antt =====
-- Device units and how a movement picks and changes them (transitionUnits, requireUnits, selectUnits
-- and resolveTargetUnits in modules/inventory/services/inventory.service.ts).
-- Asset tags are numbers in their order; notes, the department of a movement, the audit log and
-- broadcasts are left out.
pub mod Movements
pub mod Targets
pub mod Moved
pub mod Laws
pub mod Counted
pub mod Repaired
pub mod Disposed
pub mod Reach
use axzy_ptnv_api.Base.{
  Bool, List, Option, [], false, given, if◌then◌else◌, leb, ltb, none, not, or_else, some, suc,
  true, zero, ℕ, ◌&&◌, ◌==◌, ◌∷◌,
}
use axzy_ptnv_api.Access.Policy.{items, map_list}
use axzy_ptnv_api.Base.Lists.{find, includes, keep, length}
use axzy_ptnv_api.Base.Outcome.{Result, http, ok, required, throw_if, ◌>>=◌, ◌>>◌}
use axzy_ptnv_api.Base.Sort.{sort}
use axzy_ptnv_api.Inventory.Ledger.{Condition, DeviceMovement, broken, fair, good, poor}

-- The message keys that these operations throw.
pub data InventoryCode : Type 0 where
  device_not_found_by_id device_unit_not_found unit_device_mismatch : InventoryCode
  unit_unexpected_status single_unit_selection not_enough_units units_changed : InventoryCode
  not_enough_units_for_device not_enough_units_in_maintenance items_required : InventoryCode
  retirement_reason_required department_required user_id_required : InventoryCode

pub data UnitStatus : Type 0 where
  available on_loan damaged in_maintenance retired : UnitStatus

abbrev pub eqb_status : UnitStatus → UnitStatus → Bool
eqb_status available available = true
eqb_status on_loan on_loan = true
eqb_status damaged damaged = true
eqb_status in_maintenance in_maintenance = true
eqb_status retired retired = true
eqb_status _ _ = false

pub record DeviceUnit : Type 0 where
  pub id : ℕ
  pub device : ℕ
  pub asset_tag : ℕ
  pub status : UnitStatus
  pub department : Option ℕ

pub record MovementItemInput : Type 0 where
  pub device : ℕ
  pub quantity : ℕ
  pub condition : Option Condition
  pub unit_id : Option ℕ
  pub unit_ids : Option (List ℕ)

pub record MovementItem : Type 0 where
  pub device : ℕ
  pub quantity : ℕ
  pub condition : Option Condition
  pub units : List ℕ

-- `source` is the type of the movement that a reversal reverts.
pub record UnitMovement : Type 0 where
  pub type : DeviceMovement
  pub source : Option DeviceMovement
  pub created_by : ℕ
  pub reason : Option ℕ
  pub items : List MovementItem

pub record InventoryDb : Type 0 where
  pub devices : List ℕ
  pub units : List DeviceUnit
  pub movements : List UnitMovement

-- `conditionToStatus`
abbrev pub condition_to_status : Option Condition → UnitStatus
condition_to_status none = available
condition_to_status (some good) = available
condition_to_status (some fair) = available
condition_to_status (some broken) = retired
condition_to_status (some poor) = damaged

abbrev pub unit_ids_of : List DeviceUnit → List ℕ
unit_ids_of [] = []
unit_ids_of (u ∷ us) = u.id ∷ unit_ids_of us

abbrev pub is_moved : List ℕ → UnitStatus → DeviceUnit → Bool
is_moved ids from u = includes ids u.id && eqb_status u.status from

abbrev pub changed_unit : List ℕ → UnitStatus → (DeviceUnit → DeviceUnit) → DeviceUnit → DeviceUnit
changed_unit ids from change u = if is_moved ids from u then change u else u

-- `transitionUnits`: all the units, or none.
unfoldable pub transition_units :
    List ℕ
    → UnitStatus
    → (DeviceUnit → DeviceUnit)
    → List DeviceUnit
    → Result InventoryCode (List DeviceUnit)
transition_units ids from change units = elim (length ids == 0) [
  | true ↦ ok units
  | false ↦ do
    throw_if (not (length (keep (is_moved ids from) units) == length ids)) 409 units_changed
    ok (map_list (changed_unit ids from change) units)
]

abbrev pub by_tag : DeviceUnit → DeviceUnit → Bool
by_tag a b = leb a.asset_tag b.asset_tag

unfoldable pub check_units : ℕ → UnitStatus → List DeviceUnit → Result InventoryCode (Unit {0})
check_units device status [] = ok tt
check_units device status (u ∷ us) = do
  throw_if (not (u.device == device)) 400 unit_device_mismatch
  throw_if (not (eqb_status u.status status)) 409 unit_unexpected_status
  check_units device status us

unfoldable pub require_units :
    ℕ → List ℕ → UnitStatus → List DeviceUnit → Result InventoryCode (List DeviceUnit)
require_units device ids status units = do
  throw_if (not (length (keep (λ (u : DeviceUnit). includes ids u.id) units) == length ids)) 404
      device_unit_not_found
  check_units device status (keep (λ (u : DeviceUnit). includes ids u.id) units)
  ok (sort by_tag (keep (λ (u : DeviceUnit). includes ids u.id) units))

unfoldable pub first_units : ℕ → List DeviceUnit → List DeviceUnit
first_units zero units = []
first_units (suc n) [] = []
first_units (suc n) (u ∷ us) = u ∷ first_units n us

abbrev pub is_unit_of : ℕ → UnitStatus → DeviceUnit → Bool
is_unit_of device status u = u.device == device && eqb_status u.status status

unfoldable pub select_units : ℕ → UnitStatus → ℕ → List DeviceUnit → List DeviceUnit
select_units device status quantity units =
    first_units quantity (sort by_tag (keep (is_unit_of device status) units))

abbrev pub find_unit : ℕ → List DeviceUnit → Option DeviceUnit
find_unit id units = find (λ (u : DeviceUnit). u.id == id) units

-- The one unit that an item names.
unfoldable pub single_unit :
    MovementItemInput → ℕ → UnitStatus → List DeviceUnit → Result InventoryCode (List DeviceUnit)
single_unit item id status units = do
  throw_if (ltb 1 item.quantity) 400 single_unit_selection
  u ← required (find_unit id units) (http 404 device_unit_not_found)
  throw_if (not (u.device == item.device)) 400 unit_device_mismatch
  throw_if (not (eqb_status u.status status)) 409 unit_unexpected_status
  ok (u ∷ [])

unfoldable pub enough_units :
    MovementItemInput
    → UnitStatus
    → InventoryCode
    → List DeviceUnit
    → Result InventoryCode (List DeviceUnit)
enough_units item status missing units = do
  throw_if (ltb (length (select_units item.device status item.quantity units)) item.quantity) 409
      missing
  ok (select_units item.device status item.quantity units)

unfoldable pub resolve_target_units :
    MovementItemInput
    → UnitStatus
    → InventoryCode
    → List DeviceUnit
    → Result InventoryCode (List DeviceUnit)
resolve_target_units item status missing units = elim item.unit_ids [
  | some ids ↦ require_units item.device ids status units
  | none ↦
      if given item.unit_id
      then single_unit item (or_else item.unit_id 0) status units
      else enough_units item status missing units
]
