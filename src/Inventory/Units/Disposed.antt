-- ===== src/Inventory/Units/Disposed.antt =====
-- Units that leave with an output of material (retireUnitForMaterialOutput in
-- modules/inventory/services/inventory.service.ts).
use mathlib.Core.Path.{ap₂}
use axzy_ptnv_api.Base.{
  Bool, Bool-cases, Option, [], arith, false, given, if◌then◌else◌, inl, inr, none, not, or_else,
  refl, some, true, ℕ, ◌==◌, ◌∙◌, ◌∷◌, ◌≡◌,
}
use axzy_ptnv_api.Base.Int.{int_laws, pos, ℤ, ◌+ℤ◌, ◌-ℤ◌}
use axzy_ptnv_api.Base.Lists.{In, find_sound}
use axzy_ptnv_api.Base.Outcome.{>>=-eq-ok, Result, http, ok, required, throw_if, ◌>>=◌, ◌>>◌}
use axzy_ptnv_api.Inventory.Ledger.{Condition, ledger_delta, plain_delta, poor, retirement}
use axzy_ptnv_api.Inventory.Units.{
  DeviceUnit, InventoryCode, InventoryDb, UnitMovement, UnitStatus, available, damaged,
  device_unit_not_found, eqb_status, find_unit, in_maintenance, on_loan, retired, transition_units,
  unit_unexpected_status, user_id_required,
}
use axzy_ptnv_api.Hotel.Stocktake.Rules.{allowed}
use axzy_ptnv_api.Inventory.Units.Laws.{IsCounted, one_effect, unit_ledger}
use axzy_ptnv_api.Inventory.Units.Moved.{transition_units-Moved}
use axzy_ptnv_api.Inventory.Units.Movements.{with_status}
use axzy_ptnv_api.Inventory.Units.Targets.{available_of, count_if, is_status_available}

abbrev pub is_disposable : UnitStatus → Bool
is_disposable available = true
is_disposable damaged = true
is_disposable on_loan = false
is_disposable in_maintenance = false
is_disposable retired = false

abbrev pub disposal_condition : UnitStatus → Option Condition
disposal_condition s = if eqb_status s damaged then some poor else none

abbrev pub disposal : DeviceUnit → ℕ → ℕ → UnitMovement
disposal u author reason = record {
  type = retirement;
  source = none;
  created_by = author;
  reason = some reason;
  items =
      record {
        device = u.device;
        quantity = 1;
        condition = disposal_condition u.status;
        units = u.id ∷ [];
      }
      ∷ [];
}

unfoldable pub retire_unit : DeviceUnit → ℕ → ℕ → InventoryDb → Result InventoryCode InventoryDb
retire_unit u author reason db = do
  throw_if (not (is_disposable u.status)) 409 unit_unexpected_status
  moved ← transition_units (u.id ∷ []) u.status (with_status retired) db.units
  ok (record db { units = moved; movements = disposal u author reason ∷ db.movements })

-- `retireUnitForMaterialOutput`: a unit that has been retired stays as it is.
unfoldable pub retire_unit_for_material_output :
    ℕ → Option ℕ → ℕ → InventoryDb → Result InventoryCode InventoryDb
retire_unit_for_material_output id author reason db = do
  throw_if (not (given author)) 400 user_id_required
  u ← required (find_unit id db.units) (http 404 device_unit_not_found)
  if eqb_status u.status retired then ok db else retire_unit u (or_else author 0) reason db

disposal_delta :
    (s : UnitStatus) (b : Bool)
    → is_disposable s ≡ true
    → (if b then pos (count_if false 1) -ℤ pos (count_if (is_status_available s) 1) else pos 0)
      ≡ (if b then ledger_delta retirement (pos 1) (disposal_condition s) none else pos 0) +ℤ pos 0
unfolding ledger_delta plain_delta
disposal_delta available true h = omega int_laws
disposal_delta available false h = omega int_laws
disposal_delta damaged true h = omega int_laws
disposal_delta damaged false h = omega int_laws
disposal_delta on_loan b h = cc
disposal_delta in_maintenance b h = cc
disposal_delta retired b h = cc

swapped : (a b : ℤ) → a +ℤ b ≡ b +ℤ a
swapped a b = omega int_laws

retire_unit-IsCounted :
    (u : DeviceUnit) (author reason : ℕ) (db : InventoryDb) {r : InventoryDb}
    → In u db.units
    → IsCounted db
    → retire_unit u author reason db ≡ ok r
    → IsCounted r
unfolding retire_unit
retire_unit-IsCounted u author reason db {r} there was h =
    let (u1, allowed, h1) =
      >>=-eq-ok (throw_if (not (is_disposable u.status)) 409 unit_unexpected_status) _ h in
    let (mid, went, h2) =
      >>=-eq-ok (transition_units (u.id ∷ []) u.status (with_status retired) db.units) _ h1 in
    let end : ◌≡◌ {A = InventoryDb}
        (record db { units = mid; movements = disposal u author reason ∷ db.movements }) r =
      cc in
    let m =
      transition_units-Moved u.device (u ∷ []) u.status retired (with_status retired) db.units
        ((there, refl), tt) (λ x s. refl) (λ x. refl) (λ x. refl) was.keyed_rows went in
    let fine : is_disposable u.status ≡ true = ground arith in
    rw (← end) (record {
      counts = (λ d.
          one_effect (u.device == d) (is_status_available u.status) false (available_of d db.units)
            (available_of d mid) 1 (m.counted d)
          ∙ ap₂ ◌+ℤ◌ (was.counts d) (disposal_delta u.status (u.device == d) fine)
          ∙ swapped (unit_ledger d db.movements) _);
      keyed_rows = m.keyed_units;
    })

pub retire_unit_for_material_output-IsCounted :
    (id : ℕ) (author : Option ℕ) (reason : ℕ) (db : InventoryDb) {r : InventoryDb}
    → IsCounted db
    → retire_unit_for_material_output id author reason db ≡ ok r
    → IsCounted r
unfolding retire_unit_for_material_output
retire_unit_for_material_output-IsCounted id author reason db {r} was h =
    let (u1, signed_in, h1) = >>=-eq-ok (throw_if (not (given author)) 400 user_id_required) _ h in
    let (u, known, h2) =
      >>=-eq-ok (required (find_unit id db.units) (http 404 device_unit_not_found)) _ h1 in
    let is_there : find_unit id db.units ≡ some u = ground arith in
    elim (Bool-cases (eqb_status u.status retired)) [
      | inl gone ↦ let same : db ≡ r = ok_same (rw gone at h2) in rw (← same) was
      | inr still ↦
          retire_unit-IsCounted u (or_else author 0) reason db
            (find_sound (λ (x : DeviceUnit). x.id == id) db.units is_there).0 was (rw still at h2)
    ]
  where
    ok_same : {a b : InventoryDb} → ◌≡◌ {A = Result InventoryCode InventoryDb} (ok a) (ok b) → a ≡ b
    ok_same e = cc
