-- ===== src/Inventory/Units/Targets.antt =====
-- The units that a movement takes, and how changes of units count.
use axzy_ptnv_api.Base.{
  Bool, Bool-cases, List, Option-cases, [], ap, arith, false, given, if◌then◌else◌, inl, inr, ltb,
  not, or_else, some, suc, true, zero, ℕ, ◌&&◌, ◌+◌, ◌==◌, ◌∙◌, ◌∷◌, ◌≡◌,
}
use axzy_ptnv_api.Access.Policy.{map_list}
use axzy_ptnv_api.Base.Lists.{
  All, All-of_In, In, In-All, In-keep, find_sound, includes, keep, length,
}
use axzy_ptnv_api.Base.Outcome.{>>=-eq-ok, http, ok, required, throw_if}
use axzy_ptnv_api.Base.Sort.{sort}
use axzy_ptnv_api.Inventory.Units.{
  DeviceUnit, InventoryCode, MovementItemInput, UnitStatus, available, by_tag, check_units,
  device_unit_not_found, enough_units, eqb_status, find_unit, first_units, is_unit_of,
  require_units, resolve_target_units, select_units, single_unit, single_unit_selection,
  unit_device_mismatch, unit_unexpected_status,
}
use axzy_ptnv_api.Base.Sort.Laws.{sort-All}

-- How many units of the device `d` are available.
abbrev pub available_of : ℕ → List DeviceUnit → ℕ
available_of d units = length (keep (is_unit_of d available) units)

-- Every unit is the one that its identifier finds.
abbrev pub IsKeyedUnits : List DeviceUnit → Type 0
IsKeyedUnits units = All (λ (u : DeviceUnit). find_unit u.id units ≡ some u) units

abbrev pub is_status_available : UnitStatus → Bool
is_status_available s = eqb_status s available

abbrev pub count_if : Bool → ℕ → ℕ
count_if b n = if b then n else 0

pub status_of : (s t : UnitStatus) → eqb_status s t ≡ true → s ≡ t
status_of s t h = ground arith

-- Units of the device `d` that match, among those that do.
abbrev pub matched_of : ℕ → (DeviceUnit → Bool) → List DeviceUnit → ℕ
matched_of d p units = length (keep (λ (u : DeviceUnit). p u && u.device == d) units)

pub matched_of-one_device :
    (d device : ℕ) (p : DeviceUnit → Bool) (units : List DeviceUnit)
    → All (λ (u : DeviceUnit). p u ≡ true → u.device ≡ device) units
    → matched_of d p units ≡ count_if (device == d) (length (keep p units))
matched_of-one_device d device p [] h = ground arith
matched_of-one_device d device p (u ∷ us) h = elim (Bool-cases (p u)) [
  | inr miss ↦ rw miss (matched_of-one_device d device p us h.1)
  | inl hit ↦
      let same : u.device ≡ device = h.0 hit in
      let ih = matched_of-one_device d device p us h.1 in
      elim (Bool-cases (device == d)) [
        | inl mine ↦
            rw (hit, same, mine) (ap suc (ih ∙ ap (λ b. count_if b (length (keep p us))) mine))
        | inr other ↦ rw (hit, same, other) (ih ∙ ap (λ b. count_if b (length (keep p us))) other)
      ]
]

-- A change of the matching units, from one state to another.
pub available_of-changed :
    (d : ℕ) (p : DeviceUnit → Bool) (from to : UnitStatus) (change : DeviceUnit → DeviceUnit)
    (units : List DeviceUnit)
    → ((u : DeviceUnit) → p u ≡ true → u.status ≡ from)
    → ((u : DeviceUnit) → p u ≡ true → (change u).status ≡ to)
    → ((u : DeviceUnit) → (change u).device ≡ u.device)
    → available_of d (map_list (λ u. if p u then change u else u) units)
        + count_if (is_status_available from) (matched_of d p units)
      ≡ available_of d units + count_if (is_status_available to) (matched_of d p units)
available_of-changed d p from to change [] a b c =
    nothing (is_status_available from) (is_status_available to)
  where
    nothing : (f t : Bool) → 0 + count_if f 0 ≡ 0 + count_if t 0
    nothing f t = ground arith
available_of-changed d p from to change (u ∷ us) a b c =
    let ih = available_of-changed d p from to change us a b c in
    elim (Bool-cases (p u)) [
      | inr miss ↦ rw miss (skip (is_unit_of d available u) _ _ _ ih)
      | inl hit ↦
          let after : is_unit_of d available (change u)
              ≡ (u.device == d && is_status_available to) =
            ap (λ x. x == d && eqb_status (change u).status available) (c u)
            ∙ ap (λ s. u.device == d && eqb_status s available) (b u hit) in
          let before : is_unit_of d available u ≡ (u.device == d && is_status_available from) =
            ap (λ s. u.device == d && eqb_status s available) (a u hit) in
          rw (hit, after, before)
            (step (u.device == d) (is_status_available from) (is_status_available to) _ _ _ ih)
    ]
  where
    count : Bool → List DeviceUnit → ℕ
    count b xs = if b then suc (length xs) else length xs

    skip :
        (b : Bool) (xs ys : List DeviceUnit) (m : ℕ)
        → length xs + count_if (is_status_available from) m
          ≡ length ys + count_if (is_status_available to) m
        → length (if b then u ∷ xs else xs) + count_if (is_status_available from) m
          ≡ length (if b then u ∷ ys else ys) + count_if (is_status_available to) m
    skip true xs ys m e = omega arith
    skip false xs ys m e = e

    step :
        (d' f t : Bool) (xs ys zs : List DeviceUnit)
        → length xs + count_if f (length zs) ≡ length ys + count_if t (length zs)
        → length (if d' && t then change u ∷ xs else xs)
            + count_if f (length (if d' then u ∷ zs else zs))
          ≡ length (if d' && f then u ∷ ys else ys)
            + count_if t (length (if d' then u ∷ zs else zs))
    step false f t xs ys zs e = e
    step true false false xs ys zs e = e
    step true false true xs ys zs e = omega arith
    step true true false xs ys zs e = omega arith
    step true true true xs ys zs e = omega arith

pub find_unit-map :
    (k : ℕ) (g : DeviceUnit → DeviceUnit) (units : List DeviceUnit) {u : DeviceUnit}
    → ((x : DeviceUnit) → (g x).id ≡ x.id)
    → find_unit k units ≡ some u
    → find_unit k (map_list g units) ≡ some (g u)
find_unit-map k g [] keeps f = cc
find_unit-map k g (x ∷ xs) {u} keeps f = elim (Bool-cases (x.id == k)) [
  | inl hit ↦
      let first : some x ≡ some u = rw hit at f in
      let same : x ≡ u = cc in
      let still : ((g x).id == k) ≡ true = ap (λ i. i == k) (keeps x) ∙ hit in
      rw still (ap (λ y. some (g y)) same)
  | inr miss ↦
      let still : ((g x).id == k) ≡ false = ap (λ i. i == k) (keeps x) ∙ miss in
      rw still (find_unit-map k g xs keeps (rw miss at f))
]

pub IsKeyedUnits-map :
    (g : DeviceUnit → DeviceUnit) (units : List DeviceUnit)
    → ((x : DeviceUnit) → (g x).id ≡ x.id)
    → IsKeyedUnits units
    → IsKeyedUnits (map_list g units)
IsKeyedUnits-map g units keeps h = kept units h
  where
    kept :
        (xs : List DeviceUnit)
        → All (λ (u : DeviceUnit). find_unit u.id units ≡ some u) xs
        → All (λ (u : DeviceUnit). find_unit u.id (map_list g units) ≡ some u) (map_list g xs)
    kept [] h' = tt
    kept (x ∷ xs) h' = (
      ap (λ i. find_unit i (map_list g units)) (keeps x) ∙ find_unit-map x.id g units keeps h'.0,
      kept xs h'.1,
    )

-- The units that an item names or selects: they are in the table, of the item's device.
abbrev pub IsTarget : ℕ → List DeviceUnit → DeviceUnit → Type 0
IsTarget device units u = In u units × (u.device ≡ device)

first_units-All :
    (P : DeviceUnit → Type 0) (n : ℕ) (units : List DeviceUnit)
    → All P units
    → All P (first_units n units)
unfolding first_units
first_units-All P zero units h = tt
first_units-All P (suc n) [] h = tt
first_units-All P (suc n) (u ∷ us) h = (h.0, first_units-All P n us h.1)

check_units-device :
    (device : ℕ) (status : UnitStatus) (units : List DeviceUnit) {r : Unit {0}}
    → check_units device status units ≡ ok r
    → All (λ (u : DeviceUnit). u.device ≡ device) units
unfolding check_units
check_units-device device status [] h = tt
check_units-device device status (u ∷ us) h =
    let (a, own_device, h1) =
      >>=-eq-ok (throw_if (not (u.device == device)) 400 unit_device_mismatch) _ h in
    let (b, own_status, h2) =
      >>=-eq-ok (throw_if (not (eqb_status u.status status)) 409 unit_unexpected_status) _ h1 in
    ((ground arith), check_units-device device status us h2)

require_units-IsTarget :
    (device : ℕ) (ids : List ℕ) (status : UnitStatus) (units : List DeviceUnit)
    {us : List DeviceUnit}
    → require_units device ids status units ≡ ok us
    → All (IsTarget device units) us
unfolding require_units
require_units-IsTarget device ids status units {us} h =
    let named = keep (λ (u : DeviceUnit). includes ids u.id) units in
    let (a, all_there, h1) =
      >>=-eq-ok (throw_if (not (length named == length ids)) 404 device_unit_not_found) _ h in
    let (b, checked, h2) = >>=-eq-ok (check_units device status named) _ h1 in
    let end : sort by_tag named ≡ us = cc in
    rw (← end) (
      sort-All by_tag (IsTarget device units) named (
        All-of_In named (λ u m. (
          (In-keep (λ (x : DeviceUnit). includes ids x.id) u units m).0,
          In-All (λ (x : DeviceUnit). x.device ≡ device) u named m
              (check_units-device device status named checked),
        ))))

select_units-IsTarget :
    (device : ℕ) (status : UnitStatus) (quantity : ℕ) (units : List DeviceUnit)
    → All (IsTarget device units) (select_units device status quantity units)
unfolding select_units
select_units-IsTarget device status quantity units =
    first_units-All (IsTarget device units) quantity _ (
      sort-All by_tag (IsTarget device units) (keep (is_unit_of device status) units) (
        All-of_In (keep (is_unit_of device status) units) (λ u m.
          let (there, mine) = In-keep (is_unit_of device status) u units m in
          (there, of_device u mine))))
  where
    of_device : (u : DeviceUnit) → is_unit_of device status u ≡ true → u.device ≡ device
    of_device u h = ground arith

pub resolve_target_units-IsTarget :
    (item : MovementItemInput) (status : UnitStatus) (missing : InventoryCode)
    (units : List DeviceUnit) {us : List DeviceUnit}
    → resolve_target_units item status missing units ≡ ok us
    → All (IsTarget item.device units) us
unfolding resolve_target_units single_unit enough_units
resolve_target_units-IsTarget item status missing units {us} h = elim (Option-cases item.unit_ids) [
  | inr (ids, named) ↦
      require_units-IsTarget item.device ids status units (rw (resolve_target_units, named) at h)
  | inl unnamed ↦ elim (Bool-cases (given item.unit_id)) [
    | inl one ↦
        let h0 = rw (resolve_target_units, unnamed, one) at h in
        let (a, single, h1) =
          >>=-eq-ok (throw_if (ltb 1 item.quantity) 400 single_unit_selection) _ h0 in
        let (u, there, h2) =
          >>=-eq-ok
            (required (find_unit (or_else item.unit_id 0) units) (http 404 device_unit_not_found)) _
            h1 in
        let (b, own_device, h3) =
          >>=-eq-ok (throw_if (not (u.device == item.device)) 400 unit_device_mismatch) _ h2 in
        let (d, own_status, h4) =
          >>=-eq-ok (throw_if (not (eqb_status u.status status)) 409 unit_unexpected_status) _ h3 in
        let end : u ∷ [] ≡ us = cc in
        let found : find_unit (or_else item.unit_id 0) units ≡ some u = ground arith in
        rw (← end) (
          (
            (find_sound (λ (x : DeviceUnit). x.id == or_else item.unit_id 0) units found).0,
            same_device u own_device,
          ),
          tt,
        )
    | inr none_named ↦
        let h0 = rw (resolve_target_units, unnamed, none_named) at h in
        let (a, covered, h1) =
          >>=-eq-ok
            (throw_if
              (ltb (length (select_units item.device status item.quantity units)) item.quantity) 409
              missing)
            _ h0 in
        let end : select_units item.device status item.quantity units ≡ us = cc in
        rw (← end) (select_units-IsTarget item.device status item.quantity units)
  ]
]
  where
    same_device :
        (u : DeviceUnit) {v : Unit {0}}
        → throw_if (not (u.device == item.device)) 400 unit_device_mismatch ≡ ok v
        → u.device ≡ item.device
    same_device u q = ground arith
