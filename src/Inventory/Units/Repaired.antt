-- ===== src/Inventory/Units/Repaired.antt =====
-- Units that come back from maintenance, with the automatic retirement of the broken ones.
use axzy_ptnv_api.Base.{
  Bool, Bool-cases, List, Option, [], ap, false, if◌then◌else◌, inl, inr, none, refl, some, suc,
  sym, true, ℕ, ◌++◌, ◌==◌, ◌∙◌, ◌∷◌, ◌≡◌,
}
use axzy_ptnv_api.Base.Int.{+ℤ_assoc, +ℤ_zero, int_laws, negate, pos, ℤ, ◌+ℤ◌, ◌-ℤ◌}
use axzy_ptnv_api.Base.Lists.{All, length}
use axzy_ptnv_api.Base.Outcome.{>>=-eq-ok, ok}
use axzy_ptnv_api.Inventory.Ledger.{
  Condition, DeviceMovement, broken, fair, good, ledger_delta, maintenance_out, plain_delta, poor,
  retirement,
}
use axzy_ptnv_api.Inventory.Units.{
  DeviceUnit, InventoryDb, MovementItem, MovementItemInput, UnitMovement, condition_to_status,
  in_maintenance, not_enough_units_in_maintenance,
}
use axzy_ptnv_api.Inventory.Units.Counted.{any_item, move_items-All}
use axzy_ptnv_api.Inventory.Units.Laws.{
  IsCounted, effect, effects, items_delta, move_items-effects, unit_ledger,
}
use axzy_ptnv_api.Inventory.Units.Movements.{
  automatic_retirement, broken_units, is_broken, move_items, movement_maintenance_out,
  retired_items, with_status,
}
use axzy_ptnv_api.Inventory.Units.Targets.{available_of, count_if, is_status_available}

items_delta-broken :
    (d device : ℕ) (ids : List ℕ)
    → items_delta retirement none d (broken_units device ids)
      ≡ (if device == d then negate (pos (length ids)) else pos 0)
unfolding broken_units ledger_delta plain_delta
items_delta-broken d device [] = elim (Bool-cases (device == d)) [
  | inl mine ↦ rw mine (omega int_laws)
  | inr other ↦ rw other refl
]
items_delta-broken d device (id ∷ ids) = elim (Bool-cases (device == d)) [
  | inl mine ↦
      let ih : items_delta retirement none d (broken_units device ids) ≡ negate (pos (length ids)) =
        items_delta-broken d device ids ∙ rw mine refl in
      rw (mine, ih) (next_one (length ids))
  | inr other ↦
      let ih : items_delta retirement none d (broken_units device ids) ≡ pos 0 =
        items_delta-broken d device ids ∙ rw other refl in
      rw (other, ih) (+ℤ_zero (pos 0))
]
  where
    next_one : (n : ℕ) → negate (pos 1) +ℤ negate (pos n) ≡ negate (pos (suc n))
    next_one n = omega int_laws

items_delta-++ :
    (type : DeviceMovement) (source : Option DeviceMovement) (d : ℕ) (xs ys : List MovementItem)
    → items_delta type source d (xs ++ ys)
      ≡ items_delta type source d xs +ℤ items_delta type source d ys
items_delta-++ type source d [] ys = omega int_laws
items_delta-++ type source d (x ∷ xs) ys = rw (items_delta-++ type source d xs ys) (
    sym (
      +ℤ_assoc
        (if x.device == d then ledger_delta type (pos x.quantity) x.condition source else pos 0)
        (items_delta type source d xs) (items_delta type source d ys)))

-- An item that records how many units it has.
abbrev IsWhole : MovementItem → Type 0
IsWhole i = length i.units ≡ i.quantity

abbrev item_effect : ℕ → MovementItem → ℤ
item_effect d i = if i.device == d then effect in_maintenance condition_to_status i else pos 0

abbrev item_out : ℕ → MovementItem → ℤ
item_out d i =
    if i.device == d then ledger_delta maintenance_out (pos i.quantity) i.condition none else pos 0

one_repaired :
    (d : ℕ) (i : MovementItem)
    → IsWhole i
    → item_effect d i
      ≡ item_out d i
        +ℤ (if is_broken i.condition
            then items_delta retirement none d (broken_units i.device i.units)
            else pos 0)
unfolding ledger_delta plain_delta
one_repaired d i h = elim (Bool-cases (i.device == d)) [
  | inl mine ↦
      let gone : items_delta retirement none d (broken_units i.device i.units)
          ≡ negate (pos i.quantity) =
        items_delta-broken d i.device i.units ∙ rw (mine, h) refl in
      rw (mine, gone) (by_condition i.condition i.quantity)
  | inr other ↦
      let gone : items_delta retirement none d (broken_units i.device i.units) ≡ pos 0 =
        items_delta-broken d i.device i.units ∙ rw other refl in
      rw (other, gone) (nothing (is_broken i.condition))
]
  where
    nothing : (b : Bool) → pos 0 ≡ pos 0 +ℤ (if b then pos 0 else pos 0)
    nothing true = omega int_laws
    nothing false = omega int_laws

    by_condition :
        (c : Option Condition) (n : ℕ)
        → pos (count_if (is_status_available (condition_to_status c)) n) -ℤ pos 0
          ≡ ledger_delta maintenance_out (pos n) c none
            +ℤ (if is_broken c then negate (pos n) else pos 0)
    by_condition none n = omega int_laws
    by_condition (some good) n = omega int_laws
    by_condition (some fair) n = omega int_laws
    by_condition (some poor) n = omega int_laws
    by_condition (some broken) n = omega int_laws

sums : (a b x y p q : ℤ) → a ≡ x +ℤ y → b ≡ p +ℤ q → a +ℤ b ≡ (x +ℤ p) +ℤ (y +ℤ q)
sums a b x y p q h k = rw (h, k) (omega int_laws)

effects-repaired :
    (d : ℕ) (is : List MovementItem)
    → All IsWhole is
    → effects in_maintenance condition_to_status d is
      ≡ items_delta maintenance_out none d is +ℤ items_delta retirement none d (retired_items is)
unfolding retired_items
effects-repaired d [] h = omega int_laws
effects-repaired d (i ∷ is) h =
    sums (item_effect d i) (effects in_maintenance condition_to_status d is) (item_out d i) _ _ _
      (one_repaired d i h.0) (effects-repaired d is h.1)
    ∙ ap (λ x. (item_out d i +ℤ items_delta maintenance_out none d is) +ℤ x)
        (split (is_broken i.condition))
  where
    split :
        (b : Bool)
        → (if b then items_delta retirement none d (broken_units i.device i.units) else pos 0)
            +ℤ items_delta retirement none d (retired_items is)
          ≡ items_delta retirement none d
              (if b then broken_units i.device i.units ++ retired_items is else retired_items is)
    split true =
        sym (items_delta-++ retirement none d (broken_units i.device i.units) (retired_items is))
    split false = omega int_laws

unit_ledger-automatic :
    (automatic author d : ℕ) (is : List MovementItem) (ms : List UnitMovement)
    → unit_ledger d (automatic_retirement automatic author is ms)
      ≡ items_delta retirement none d is +ℤ unit_ledger d ms
unfolding automatic_retirement
unit_ledger-automatic automatic author d [] ms = omega int_laws
unit_ledger-automatic automatic author d (i ∷ is) ms = refl

joined : (u w e x y : ℤ) → u ≡ w +ℤ e → e ≡ x +ℤ y → u ≡ y +ℤ (x +ℤ w)
joined u w e x y h k = rw (h, k) (omega int_laws)

pub movement_maintenance_out-IsCounted :
    (automatic : ℕ) (inputs : List MovementItemInput) (reason : Option ℕ) (author : ℕ)
    (db : InventoryDb) {r : InventoryDb}
    → IsCounted db
    → movement_maintenance_out automatic inputs reason author db ≡ ok r
    → IsCounted r
unfolding movement_maintenance_out
movement_maintenance_out-IsCounted automatic inputs reason author db {r} was h =
    let change : MovementItemInput → DeviceUnit → DeviceUnit =
      λ item. with_status (condition_to_status item.condition) in
    let (q, ran, h3) =
      >>=-eq-ok
        (move_items in_maintenance not_enough_units_in_maintenance change db.devices inputs
          db.units)
        _ h in
    let (sum, k) =
      move_items-effects in_maintenance condition_to_status not_enough_units_in_maintenance change
        db.devices inputs db.units (λ i u s. refl) (λ i u. refl) (λ i u. refl) was.keyed_rows ran in
    let whole =
      move_items-All IsWhole in_maintenance not_enough_units_in_maintenance change db.devices inputs
        db.units (any_item IsWhole inputs (λ i ids. refl)) ran in
    let back : UnitMovement = record {
      type = maintenance_out;
      source = none;
      created_by = author;
      reason = reason;
      items = q.0;
    } in
    let end : ◌≡◌ {A = InventoryDb}
        (record db {
          units = q.1;
          movements =
              automatic_retirement automatic author (retired_items q.0) (back ∷ db.movements);
        })
        r =
      cc in
    rw (← end) (record {
      counts = (λ d.
          joined (pos (available_of d q.1)) (unit_ledger d db.movements) _ _ _
            (sum d ∙ ap (λ x. x +ℤ effects in_maintenance condition_to_status d q.0) (was.counts d))
            (effects-repaired d q.0 whole)
          ∙ sym
              (unit_ledger-automatic automatic author d (retired_items q.0) (back ∷ db.movements)));
      keyed_rows = k;
    })
