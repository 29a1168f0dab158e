-- ===== src/Inventory/Units/Laws.antt =====
-- The movements change the available units of every device by what the ledger says of them.
use axzy_ptnv_api.Base.{
  Bool, List, Option, [], ap, false, if◌then◌else◌, not, sym, true, ℕ, ◌+◌, ◌==◌, ◌∙◌, ◌∷◌, ◌≡◌,
}
use axzy_ptnv_api.Base.Int.{+ℤ_assoc, +ℤ_zero, int_laws, pos, ℤ, ◌+ℤ◌, ◌-ℤ◌}
use axzy_ptnv_api.Base.Lists.{includes, length}
use axzy_ptnv_api.Base.Outcome.{>>=-eq-ok, ok, throw_if}
use axzy_ptnv_api.Inventory.Ledger.{Condition, DeviceMovement, ledger_delta}
use axzy_ptnv_api.Inventory.Units.{
  DeviceUnit, InventoryCode, InventoryDb, MovementItem, MovementItemInput, UnitMovement, UnitStatus,
  device_not_found_by_id, resolve_target_units, transition_units, unit_ids_of,
}
use axzy_ptnv_api.Inventory.Units.Moved.{transition_units-Moved}
use axzy_ptnv_api.Inventory.Units.Movements.{item_data, move_items}
use axzy_ptnv_api.Inventory.Units.Targets.{
  IsKeyedUnits, available_of, count_if, is_status_available, resolve_target_units-IsTarget,
}

-- What the items of a movement change, by the ledger rule.
abbrev pub items_delta : DeviceMovement → Option DeviceMovement → ℕ → List MovementItem → ℤ
items_delta type source d [] = pos 0
items_delta type source d (i ∷ is) =
    (if i.device == d then ledger_delta type (pos i.quantity) i.condition source else pos 0)
    +ℤ items_delta type source d is

-- The ledger of a device.
abbrev pub unit_ledger : ℕ → List UnitMovement → ℤ
unit_ledger d [] = pos 0
unit_ledger d (m ∷ ms) = items_delta m.type m.source d m.items +ℤ unit_ledger d ms

-- A store of units whose ledger gives, for every device, how many of its units are available.
pub record IsCounted (db : InventoryDb) : Type 0 where
  pub counts : (d : ℕ) → pos (available_of d db.units) ≡ unit_ledger d db.movements
  pub keyed_rows : IsKeyedUnits db.units

-- What one item changes, by the states of its units.
abbrev pub effect : UnitStatus → (Option Condition → UnitStatus) → MovementItem → ℤ
effect from to i =
    pos (count_if (is_status_available (to i.condition)) i.quantity)
    -ℤ pos (count_if (is_status_available from) i.quantity)

abbrev pub effects : UnitStatus → (Option Condition → UnitStatus) → ℕ → List MovementItem → ℤ
effects from to d [] = pos 0
effects from to d (i ∷ is) =
    (if i.device == d then effect from to i else pos 0) +ℤ effects from to d is

pub one_effect :
    (b f t : Bool) (x y n : ℕ)
    → y + count_if f (count_if b n) ≡ x + count_if t (count_if b n)
    → pos y ≡ pos x +ℤ (if b then pos (count_if t n) -ℤ pos (count_if f n) else pos 0)
one_effect false false false x y n e = omega (int_laws, e)
one_effect false false true x y n e = omega (int_laws, e)
one_effect false true false x y n e = omega (int_laws, e)
one_effect false true true x y n e = omega (int_laws, e)
one_effect true false false x y n e = omega (int_laws, e)
one_effect true false true x y n e = omega (int_laws, e)
one_effect true true false x y n e = omega (int_laws, e)
one_effect true true true x y n e = omega (int_laws, e)

-- The loop changes the available units by the effects of its items.
pub move_items-effects :
    (from : UnitStatus) (to : Option Condition → UnitStatus) (missing : InventoryCode)
    (change : MovementItemInput → DeviceUnit → DeviceUnit) (devices : List ℕ)
    (inputs : List MovementItemInput) (units : List DeviceUnit)
    {r : List MovementItem × List DeviceUnit}
    → ((i : MovementItemInput) (u : DeviceUnit)
        → u.status ≡ from
        → (change i u).status ≡ to i.condition)
    → ((i : MovementItemInput) (u : DeviceUnit) → (change i u).device ≡ u.device)
    → ((i : MovementItemInput) (u : DeviceUnit) → (change i u).id ≡ u.id)
    → IsKeyedUnits units
    → move_items from missing change devices inputs units ≡ ok r
    → ((d : ℕ) → pos (available_of d r.1) ≡ pos (available_of d units) +ℤ effects from to d r.0)
      × IsKeyedUnits r.1
unfolding move_items
move_items-effects from to missing change devices [] units {r} b c i k h =
    let same : ◌≡◌ {A = List MovementItem × List DeviceUnit} ([], units) r = cc in
    rw (← same) ((λ d. sym (+ℤ_zero (pos (available_of d units)))), k)
move_items-effects from to missing change devices (item ∷ inputs) units {r} b c i k h =
    let (u1, known, h1) =
      >>=-eq-ok (throw_if (not (includes devices item.device)) 404 device_not_found_by_id) _ h in
    let (targets, found, h2) = >>=-eq-ok (resolve_target_units item from missing units) _ h1 in
    let (mid, went, h3) =
      >>=-eq-ok (transition_units (unit_ids_of targets) from (change item) units) _ h2 in
    let (q, rest, h4) = >>=-eq-ok (move_items from missing change devices inputs mid) _ h3 in
    let m =
      transition_units-Moved item.device targets from (to item.condition) (change item) units
        (resolve_target_units-IsTarget item from missing units found) (b item) (c item) (i item) k
        went in
    let (sums, k') =
      move_items-effects from to missing change devices inputs mid b c i m.keyed_units rest in
    let same : ◌≡◌ {A = List MovementItem × List DeviceUnit}
        (item_data item (unit_ids_of targets) ∷ q.0, q.1) r =
      cc in
    rw (← same) (
      (λ d.
          sums d
          ∙ ap (λ x. x +ℤ effects from to d q.0)
              (one_effect (item.device == d) (is_status_available from)
                (is_status_available (to item.condition)) (available_of d units)
                (available_of d mid) (length (unit_ids_of targets)) (m.counted d))
          ∙ +ℤ_assoc (pos (available_of d units))
              (if item.device == d
                then effect from to (item_data item (unit_ids_of targets))
                else pos 0)
              (effects from to d q.0)),
      k',
    )
