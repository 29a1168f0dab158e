-- ===== src/Inventory/Units/Counted.antt =====
-- The operations on units keep the ledger of every device equal to its available units.
use mathlib.Core.Path.{ap₂}
use axzy_ptnv_api.Base.{
  Bool, List, Option, [], false, given, if◌then◌else◌, none, not, refl, sym, true, ℕ, ◌∙◌, ◌∷◌, ◌≡◌,
}
use axzy_ptnv_api.Access.Policy.{map_list}
use axzy_ptnv_api.Base.Int.{int_laws, negate, pos, ℤ, ◌+ℤ◌, ◌-ℤ◌}
use axzy_ptnv_api.Base.Lists.{All, includes, length}
use axzy_ptnv_api.Base.Outcome.{>>=-eq-ok, ok, throw_if}
use axzy_ptnv_api.Inventory.Ledger.{
  Condition, DeviceMovement, adjustment_out, ledger_delta, maintenance_in, plain_delta, retirement,
  transfer,
}
use axzy_ptnv_api.Inventory.Units.{
  DeviceUnit, InventoryCode, InventoryDb, MovementItem, MovementItemInput, UnitStatus, available,
  department_required, device_not_found_by_id, in_maintenance, items_required, not_enough_units,
  not_enough_units_for_device, resolve_target_units, retired, retirement_reason_required,
  transition_units, unit_ids_of,
}
use axzy_ptnv_api.Inventory.Units.Laws.{
  IsCounted, effect, effects, items_delta, move_items-effects, unit_ledger,
}
use axzy_ptnv_api.Inventory.Units.Movements.{
  is_empty_list, item_data, move_items, movement_maintenance_in, movement_retirement,
  movement_transfer, with_status, without_condition,
}

-- What holds of every item that the loop can build holds of the items it returns.
pub move_items-All :
    (P : MovementItem → Type 0) (from : UnitStatus) (missing : InventoryCode)
    (change : MovementItemInput → DeviceUnit → DeviceUnit) (devices : List ℕ)
    (inputs : List MovementItemInput) (units : List DeviceUnit)
    {r : List MovementItem × List DeviceUnit}
    → All (λ (i : MovementItemInput). (ids : List ℕ) → P (item_data i ids)) inputs
    → move_items from missing change devices inputs units ≡ ok r
    → All P r.0
unfolding move_items
move_items-All P from missing change devices [] units {r} p h =
    let same : ◌≡◌ {A = List MovementItem × List DeviceUnit} ([], units) r = cc in rw (← same) tt
move_items-All P from missing change devices (item ∷ inputs) units {r} p h =
    let (u1, known, h1) =
      >>=-eq-ok (throw_if (not (includes devices item.device)) 404 device_not_found_by_id) _ h in
    let (targets, found, h2) = >>=-eq-ok (resolve_target_units item from missing units) _ h1 in
    let (mid, went, h3) =
      >>=-eq-ok (transition_units (unit_ids_of targets) from (change item) units) _ h2 in
    let (q, rest, h4) = >>=-eq-ok (move_items from missing change devices inputs mid) _ h3 in
    let same : ◌≡◌ {A = List MovementItem × List DeviceUnit}
        (item_data item (unit_ids_of targets) ∷ q.0, q.1) r =
      cc in
    rw (← same)
      (p.0 (unit_ids_of targets), move_items-All P from missing change devices inputs mid p.1 rest)

pub any_item :
    (P : MovementItem → Type 0) (inputs : List MovementItemInput)
    → ((i : MovementItemInput) (ids : List ℕ) → P (item_data i ids))
    → All (λ (i : MovementItemInput). (ids : List ℕ) → P (item_data i ids)) inputs
any_item P [] p = tt
any_item P (i ∷ is) p = (p i, any_item P is p)

-- The ledger rule says of a type what its change of states does, item by item.
IsRule : DeviceMovement → UnitStatus → (Option Condition → UnitStatus) → MovementItem → Type 0
IsRule type from to i = effect from to i ≡ ledger_delta type (pos i.quantity) i.condition none

effects-items_delta :
    (type : DeviceMovement) (from : UnitStatus) (to : Option Condition → UnitStatus) (d : ℕ)
    (is : List MovementItem)
    → All (IsRule type from to) is
    → effects from to d is ≡ items_delta type none d is
unfolding IsRule
effects-items_delta type from to d [] h = refl
effects-items_delta type from to d (i ∷ is) h =
    rw (h.0, effects-items_delta type from to d is h.1) refl

swapped : (a b : ℤ) → a +ℤ b ≡ b +ℤ a
swapped a b = omega int_laws

-- A movement of one type, from a store whose ledger counts its units.
recorded :
    (type : DeviceMovement) (from : UnitStatus) (to : Option Condition → UnitStatus)
    (missing : InventoryCode) (change : MovementItemInput → DeviceUnit → DeviceUnit) (author : ℕ)
    (reason : Option ℕ) (inputs : List MovementItemInput) (db : InventoryDb)
    {r : List MovementItem × List DeviceUnit}
    → ((i : MovementItemInput) (u : DeviceUnit)
        → u.status ≡ from
        → (change i u).status ≡ to i.condition)
    → ((i : MovementItemInput) (u : DeviceUnit) → (change i u).device ≡ u.device)
    → ((i : MovementItemInput) (u : DeviceUnit) → (change i u).id ≡ u.id)
    → All (λ (i : MovementItemInput). (ids : List ℕ) → IsRule type from to (item_data i ids)) inputs
    → IsCounted db
    → move_items from missing change db.devices inputs db.units ≡ ok r
    → IsCounted (record db {
      units = r.1;
      movements =
          record { type = type; source = none; created_by = author; reason = reason; items = r.0 }
          ∷ db.movements;
    })
recorded type from to missing change author reason inputs db {r} b c i rule was h =
    let (sums, k) =
      move_items-effects from to missing change db.devices inputs db.units b c i was.keyed_rows h in
    let same =
      move_items-All (IsRule type from to) from missing change db.devices inputs db.units rule h in
    record {
      counts = (λ d.
          sums d
          ∙ ap₂ ◌+ℤ◌ (was.counts d) (effects-items_delta type from to d r.0 same)
          ∙ swapped (unit_ledger d db.movements) (items_delta type none d r.0));
      keyed_rows = k;
    }

minus : (n : ℕ) → pos 0 -ℤ pos n ≡ negate (pos n)
minus n = omega int_laws

without_conditions :
    (type : DeviceMovement) (inputs : List MovementItemInput)
    → ((q : ℕ) → ledger_delta type (pos q) none none ≡ negate (pos q))
    → All
        (λ (i : MovementItemInput).
          (ids : List ℕ) → IsRule type available (λ k. retired) (item_data i ids))
        (map_list without_condition inputs)
unfolding IsRule
without_conditions type [] h = tt
without_conditions type (i ∷ is) h =
    ((λ ids. minus (length ids) ∙ sym (h (length ids))), without_conditions type is h)

pub movement_retirement-IsCounted :
    (b : Bool) (inputs : List MovementItemInput) (reason : Option ℕ) (author : ℕ) (db : InventoryDb)
    {r : InventoryDb}
    → IsCounted db
    → movement_retirement b inputs reason author db ≡ ok r
    → IsCounted r
unfolding movement_retirement plain_delta ledger_delta
movement_retirement-IsCounted b inputs reason author db {r} was h =
    let (u1, some_items, h1) = >>=-eq-ok (throw_if (is_empty_list inputs) 400 items_required) _ h in
    let (u2, has_reason, h2) =
      >>=-eq-ok (throw_if (not (given reason)) 400 retirement_reason_required) _ h1 in
    let (q, ran, h3) =
      >>=-eq-ok
        (move_items available not_enough_units (λ item. with_status retired) db.devices
          (map_list without_condition inputs) db.units)
        _ h2 in
    let end : ◌≡◌ {A = InventoryDb}
        (record db {
          units = q.1;
          movements =
              record {
                type = if b then retirement else adjustment_out;
                source = none;
                created_by = author;
                reason = reason;
                items = q.0;
              }
              ∷ db.movements;
        })
        r =
      cc in
    rw (← end) (
      recorded (if b then retirement else adjustment_out) available (λ k. retired) not_enough_units
        (λ item. with_status retired) author reason (map_list without_condition inputs) db
        (λ i u s. refl) (λ i u. refl) (λ i u. refl)
        (without_conditions (if b then retirement else adjustment_out) inputs (drawn b)) was ran)
  where
    drawn :
        (p : Bool) (q : ℕ)
        → ledger_delta (if p then retirement else adjustment_out) (pos q) none none ≡ negate (pos q)
    drawn true q = refl
    drawn false q = refl

pub movement_transfer-IsCounted :
    (inputs : List MovementItemInput) (department reason : Option ℕ) (author : ℕ) (db : InventoryDb)
    {r : InventoryDb}
    → IsCounted db
    → movement_transfer inputs department reason author db ≡ ok r
    → IsCounted r
unfolding movement_transfer plain_delta ledger_delta IsRule
movement_transfer-IsCounted inputs department reason author db {r} was h =
    let (u1, has_department, h1) =
      >>=-eq-ok (throw_if (not (given department)) 400 department_required) _ h in
    let (u2, some_items, h2) =
      >>=-eq-ok (throw_if (is_empty_list inputs) 400 items_required) _ h1 in
    let (q, ran, h3) =
      >>=-eq-ok
        (move_items available not_enough_units_for_device
          (λ item u. record u { department = department }) db.devices inputs db.units)
        _ h2 in
    let end : ◌≡◌ {A = InventoryDb}
        (record db {
          units = q.1;
          movements =
              record {
                type = transfer;
                source = none;
                created_by = author;
                reason = reason;
                items = q.0;
              }
              ∷ db.movements;
        })
        r =
      cc in
    rw (← end) (
      recorded transfer available (λ k. available) not_enough_units_for_device
        (λ item u. record u { department = department }) author reason inputs db (λ i u s. s)
        (λ i u. refl) (λ i u. refl)
        (any_item (IsRule transfer available (λ k. available)) inputs (λ i ids. omega int_laws)) was
        ran)

pub movement_maintenance_in-IsCounted :
    (inputs : List MovementItemInput) (reason : Option ℕ) (author : ℕ) (db : InventoryDb)
    {r : InventoryDb}
    → IsCounted db
    → movement_maintenance_in inputs reason author db ≡ ok r
    → IsCounted r
unfolding movement_maintenance_in plain_delta ledger_delta IsRule
movement_maintenance_in-IsCounted inputs reason author db {r} was h =
    let (q, ran, h3) =
      >>=-eq-ok
        (move_items available not_enough_units (λ item. with_status in_maintenance) db.devices
          inputs db.units)
        _ h in
    let end : ◌≡◌ {A = InventoryDb}
        (record db {
          units = q.1;
          movements =
              record {
                type = maintenance_in;
                source = none;
                created_by = author;
                reason = reason;
                items = q.0;
              }
              ∷ db.movements;
        })
        r =
      cc in
    rw (← end) (
      recorded maintenance_in available (λ k. in_maintenance) not_enough_units
        (λ item. with_status in_maintenance) author reason inputs db (λ i u s. refl) (λ i u. refl)
        (λ i u. refl)
        (any_item (IsRule maintenance_in available (λ k. in_maintenance)) inputs
          (λ i ids. omega int_laws))
        was ran)
