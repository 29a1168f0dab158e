-- ===== src/Inventory/Units/Movements.antt =====
-- The movements that change the state of device units (movementRetirement, movementTransfer,
-- movementMaintenanceIn, movementMaintenanceOut and createAutomaticRetirement in
-- modules/inventory/services/inventory.service.ts).
use axzy_ptnv_api.Base.{
  Bool, List, Option, [], false, given, if◌then◌else◌, none, not, some, true, ℕ, ◌++◌, ◌∷◌,
}
use axzy_ptnv_api.Access.Policy.{items, map_list}
use axzy_ptnv_api.Base.Lists.{includes, length}
use axzy_ptnv_api.Base.Outcome.{Result, ok, throw_if, ◌>>=◌, ◌>>◌}
use axzy_ptnv_api.Inventory.Ledger.{
  Condition, adjustment_out, broken, fair, good, maintenance_in, maintenance_out, poor, retirement,
  transfer,
}
use axzy_ptnv_api.Inventory.Units.{
  DeviceUnit, InventoryCode, InventoryDb, MovementItem, MovementItemInput, UnitMovement, UnitStatus,
  available, condition_to_status, department_required, device_not_found_by_id, in_maintenance,
  items_required, not_enough_units, not_enough_units_for_device, not_enough_units_in_maintenance,
  resolve_target_units, retired, retirement_reason_required, transition_units, unit_ids_of,
}

-- `itemData` with the units that were resolved.
abbrev pub item_data : MovementItemInput → List ℕ → MovementItem
item_data d ids = record {
  device = d.device;
  quantity = length ids;
  condition = d.condition;
  units = ids;
}

-- The loop that the four operations share: the units of each item, all in the state `from`, are
-- changed as `change` says for the item.
unfoldable pub move_items :
    UnitStatus
    → InventoryCode
    → (MovementItemInput → DeviceUnit → DeviceUnit)
    → List ℕ
    → List MovementItemInput
    → List DeviceUnit
    → Result InventoryCode (List MovementItem × List DeviceUnit)
move_items from missing change devices [] units = ok ([], units)
move_items from missing change devices (item ∷ items) units = do
  throw_if (not (includes devices item.device)) 404 device_not_found_by_id
  targets ← resolve_target_units item from missing units
  moved ← transition_units (unit_ids_of targets) from (change item) units
  rest ← move_items from missing change devices items moved
  ok (item_data item (unit_ids_of targets) ∷ rest.0, rest.1)

abbrev pub with_status : UnitStatus → DeviceUnit → DeviceUnit
with_status status u = record u { status = status }

abbrev pub without_condition : MovementItemInput → MovementItemInput
without_condition item = record item { condition = none }

abbrev pub is_empty_list : List MovementItemInput → Bool
is_empty_list [] = true
is_empty_list (x ∷ xs) = false

-- `movementRetirement`, of the types RETIREMENT (true) and ADJUSTMENT_OUT (false).
unfoldable pub movement_retirement :
    Bool → List MovementItemInput → Option ℕ → ℕ → InventoryDb → Result InventoryCode InventoryDb
movement_retirement is_retirement items reason author db = do
  throw_if (is_empty_list items) 400 items_required
  throw_if (not (given reason)) 400 retirement_reason_required
  r ←
      move_items available not_enough_units (λ item. with_status retired) db.devices
        (map_list without_condition items) db.units
  ok (record db {
    units = r.1;
    movements =
        record {
          type = if is_retirement then retirement else adjustment_out;
          source = none;
          created_by = author;
          reason = reason;
          items = r.0;
        }
        ∷ db.movements;
  })

unfoldable pub movement_transfer :
    List MovementItemInput
    → Option ℕ
    → Option ℕ
    → ℕ
    → InventoryDb
    → Result InventoryCode InventoryDb
movement_transfer items department reason author db = do
  throw_if (not (given department)) 400 department_required
  throw_if (is_empty_list items) 400 items_required
  r ←
      move_items available not_enough_units_for_device
        (λ item u. record u { department = department }) db.devices items db.units
  ok (record db {
    units = r.1;
    movements =
        record { type = transfer; source = none; created_by = author; reason = reason; items = r.0 }
        ∷ db.movements;
  })

unfoldable pub movement_maintenance_in :
    List MovementItemInput → Option ℕ → ℕ → InventoryDb → Result InventoryCode InventoryDb
movement_maintenance_in items reason author db = do
  r ←
      move_items available not_enough_units (λ item. with_status in_maintenance) db.devices items
        db.units
  ok (record db {
    units = r.1;
    movements =
        record {
          type = maintenance_in;
          source = none;
          created_by = author;
          reason = reason;
          items = r.0;
        }
        ∷ db.movements;
  })

abbrev pub is_broken : Option Condition → Bool
is_broken (some broken) = true
is_broken (some good) = false
is_broken (some fair) = false
is_broken (some poor) = false
is_broken none = false

-- The items of an automatic retirement: one for each unit.
unfoldable pub broken_units : ℕ → List ℕ → List MovementItem
broken_units device [] = []
broken_units device (id ∷ ids) =
    record { device = device; quantity = 1; condition = some broken; units = id ∷ [] }
    ∷ broken_units device ids

unfoldable pub retired_items : List MovementItem → List MovementItem
retired_items [] = []
retired_items (i ∷ is) =
    if is_broken i.condition
    then broken_units i.device i.units ++ retired_items is
    else retired_items is

-- `createAutomaticRetirement`, at the reason `automatic`.
unfoldable pub automatic_retirement :
    ℕ → ℕ → List MovementItem → List UnitMovement → List UnitMovement
automatic_retirement automatic author [] movements = movements
automatic_retirement automatic author (i ∷ is) movements =
    record {
      type = retirement;
      source = none;
      created_by = author;
      reason = some automatic;
      items = i ∷ is;
    }
    ∷ movements

unfoldable pub movement_maintenance_out :
    ℕ → List MovementItemInput → Option ℕ → ℕ → InventoryDb → Result InventoryCode InventoryDb
movement_maintenance_out automatic items reason author db = do
  r ←
      move_items in_maintenance not_enough_units_in_maintenance
        (λ item. with_status (condition_to_status item.condition)) db.devices items db.units
  ok (record db {
    units = r.1;
    movements = automatic_retirement automatic author (retired_items r.0) (
        record {
          type = maintenance_out;
          source = none;
          created_by = author;
          reason = reason;
          items = r.0;
        }
        ∷ db.movements);
  })
