-- ===== src/Inventory/Units/Reach.antt =====
-- The stores of device units that the movements lead to.
use axzy_ptnv_api.Base.{Bool, List, Option, ℕ, ◌≡◌}
use axzy_ptnv_api.Base.Outcome.{ok}
use axzy_ptnv_api.Inventory.Units.{InventoryDb, MovementItemInput}
use axzy_ptnv_api.Inventory.Units.Counted.{
  movement_maintenance_in-IsCounted, movement_retirement-IsCounted, movement_transfer-IsCounted,
}
use axzy_ptnv_api.Inventory.Units.Disposed.{
  retire_unit_for_material_output, retire_unit_for_material_output-IsCounted,
}
use axzy_ptnv_api.Inventory.Units.Laws.{IsCounted}
use axzy_ptnv_api.Inventory.Units.Movements.{
  movement_maintenance_in, movement_maintenance_out, movement_retirement, movement_transfer,
}
use axzy_ptnv_api.Inventory.Units.Repaired.{movement_maintenance_out-IsCounted}

-- A store that movements that go through lead to from the store `start`.
pub data UnitReach (start : InventoryDb) : InventoryDb → Type 0 where
  unmoved : UnitReach start start
  with_retirement :
      (b : Bool) (inputs : List MovementItemInput) (reason : Option ℕ) (author : ℕ)
      {db r : InventoryDb}
      → UnitReach start db
      → movement_retirement b inputs reason author db ≡ ok r
      → UnitReach start r
  with_transfer :
      (inputs : List MovementItemInput) (department reason : Option ℕ) (author : ℕ)
      {db r : InventoryDb}
      → UnitReach start db
      → movement_transfer inputs department reason author db ≡ ok r
      → UnitReach start r
  with_maintenance_in :
      (inputs : List MovementItemInput) (reason : Option ℕ) (author : ℕ) {db r : InventoryDb}
      → UnitReach start db
      → movement_maintenance_in inputs reason author db ≡ ok r
      → UnitReach start r
  with_maintenance_out :
      (automatic : ℕ) (inputs : List MovementItemInput) (reason : Option ℕ) (author : ℕ)
      {db r : InventoryDb}
      → UnitReach start db
      → movement_maintenance_out automatic inputs reason author db ≡ ok r
      → UnitReach start r
  with_disposal :
      (id : ℕ) (author : Option ℕ) (reason : ℕ) {db r : InventoryDb}
      → UnitReach start db
      → retire_unit_for_material_output id author reason db ≡ ok r
      → UnitReach start r

-- In every store that retirements, downward adjustments, transfers, entries to maintenance,
-- exits from it and outputs of material that go through lead to, from one in which the ledger of
-- every device, by the ledger rule, is the number of its available units and every unit is the
-- one its identifier finds, the same is true: a poor unit that comes back adds nothing, a broken
-- one is taken off again by its automatic retirement, and a damaged one that leaves takes
-- nothing off.
pub UnitReach-IsCounted :
    {start db : InventoryDb} → UnitReach start db → IsCounted start → IsCounted db
UnitReach-IsCounted unmoved h = h
UnitReach-IsCounted (with_retirement b inputs reason author {db} so_far ran) h =
    movement_retirement-IsCounted b inputs reason author db (UnitReach-IsCounted so_far h) ran
UnitReach-IsCounted (with_transfer inputs department reason author {db} so_far ran) h =
    movement_transfer-IsCounted inputs department reason author db (UnitReach-IsCounted so_far h)
      ran
UnitReach-IsCounted (with_maintenance_in inputs reason author {db} so_far ran) h =
    movement_maintenance_in-IsCounted inputs reason author db (UnitReach-IsCounted so_far h) ran
UnitReach-IsCounted (with_maintenance_out automatic inputs reason author {db} so_far ran) h =
    movement_maintenance_out-IsCounted automatic inputs reason author db
      (UnitReach-IsCounted so_far h) ran
UnitReach-IsCounted (with_disposal id author reason {db} so_far ran) h =
    retire_unit_for_material_output-IsCounted id author reason db (UnitReach-IsCounted so_far h) ran
