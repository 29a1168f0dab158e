-- ===== src/Inventory/Tests/Units.antt =====
-- Units of devices that go to maintenance, come back, and are moved to a department.
use axzy_ptnv_api.Base.{
  Bool-cases, List, Option, [], inl, inr, none, refl, some, ℕ, ◌+◌, ◌==◌, ◌∷◌, ◌≡◌,
}
use axzy_ptnv_api.Base.Int.{int_laws, pos}
use axzy_ptnv_api.Base.Outcome.{Result, err, ok}
use axzy_ptnv_api.Base.Sort.{sort}
use axzy_ptnv_api.Inventory.Ledger.{Condition, broken, ledger_delta, plain_delta, stock_in}
use axzy_ptnv_api.Inventory.Units.{
  DeviceUnit, InventoryCode, InventoryDb, MovementItemInput, UnitMovement, UnitStatus, available,
  enough_units, first_units, resolve_target_units, select_units, transition_units,
}
use axzy_ptnv_api.Inventory.Units.Laws.{IsCounted, unit_ledger}
use axzy_ptnv_api.Inventory.Units.Movements.{
  automatic_retirement, broken_units, move_items, movement_maintenance_in, movement_maintenance_out,
  retired_items,
}
use axzy_ptnv_api.Inventory.Units.Reach.{
  UnitReach-IsCounted, unmoved, with_maintenance_in, with_maintenance_out,
}
use axzy_ptnv_api.Inventory.Units.Targets.{available_of}

abbrev one_unit : ℕ → UnitStatus → DeviceUnit
one_unit k s = record { id = k; device = 7; asset_tag = 10 + k; status = s; department = none }

abbrev bought : UnitMovement
bought = record {
  type = stock_in;
  source = none;
  created_by = 1;
  reason = none;
  items = record { device = 7; quantity = 3; condition = none; units = 1 ∷ 2 ∷ 3 ∷ [] } ∷ [];
}

abbrev three_units : InventoryDb
three_units = record {
  devices = 7 ∷ [];
  units = one_unit 1 available ∷ one_unit 2 available ∷ one_unit 3 available ∷ [];
  movements = bought ∷ [];
}

abbrev some_of_seven : ℕ → Option Condition → List MovementItemInput
some_of_seven n c =
    record { device = 7; quantity = n; condition = c; unit_id = none; unit_ids = none } ∷ []

abbrev result_or : InventoryDb → Result InventoryCode InventoryDb → InventoryDb
result_or old (ok r) = r
result_or old (err e) = old

abbrev repairing : InventoryDb
repairing =
    result_or three_units (movement_maintenance_in (some_of_seven 2 none) none 1 three_units)

abbrev repaired_broken : InventoryDb
repaired_broken =
    result_or repairing
      (movement_maintenance_out 99 (some_of_seven 1 (some broken)) none 1 repairing)

three_units-IsCounted : IsCounted three_units
unfolding ledger_delta plain_delta
three_units-IsCounted = record { counts = by_device; keyed_rows = (refl, (refl, (refl, tt))) }
  where
    by_device :
        (d : ℕ) → pos (available_of d three_units.units) ≡ unit_ledger d three_units.movements
    by_device d = elim (Bool-cases (7 == d)) [
      | inl mine ↦ rw mine (omega int_laws)
      | inr other ↦ rw other (omega int_laws)
    ]

two_to_maintenance :
    movement_maintenance_in (some_of_seven 2 none) none 1 three_units ≡ ok repairing
unfolding movement_maintenance_in move_items resolve_target_units enough_units select_units
    first_units transition_units sort
two_to_maintenance = refl

one_back :
    movement_maintenance_out 99 (some_of_seven 1 (some broken)) none 1 repairing
    ≡ ok repaired_broken
unfolding movement_maintenance_in movement_maintenance_out move_items resolve_target_units
    enough_units select_units first_units transition_units sort automatic_retirement retired_items
    broken_units
one_back = refl

UnitReach-IsCounted_example : IsCounted repaired_broken
UnitReach-IsCounted_example =
    UnitReach-IsCounted
      (with_maintenance_out 99 (some_of_seven 1 (some broken)) none 1
        (with_maintenance_in (some_of_seven 2 none) none 1 unmoved two_to_maintenance) one_back)
      three_units-IsCounted
