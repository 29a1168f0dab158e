-- ===== src/Inventory/Units/Moved.antt =====
-- What `transitionUnits` does to the available units of every device.
use mathlib.Core.Path.{subst}
use axzy_ptnv_api.Base.{
  Bool, Bool-cases, List, [], ap, arith, inl, inr, not, refl, same_id, some, sym, true, ℕ, ◌&&◌,
  ◌+◌, ◌==◌, ◌∙◌, ◌∷◌, ◌≡◌,
}
use axzy_ptnv_api.Access.Policy.{map_list}
use axzy_ptnv_api.Base.Lists.{All, In, In-All, includes, keep, length}
use axzy_ptnv_api.Base.Outcome.{>>=-eq-ok, ok, throw_if}
use axzy_ptnv_api.Inventory.Units.{
  DeviceUnit, UnitStatus, changed_unit, find_unit, is_moved, transition_units, unit_ids_of,
  units_changed,
}
use axzy_ptnv_api.Inventory.Units.Targets.{
  IsKeyedUnits, IsKeyedUnits-map, IsTarget, available_of, available_of-changed, count_if,
  is_status_available, matched_of-one_device, status_of,
}
use axzy_ptnv_api.Kitchen.Store.Register.{keyed}

-- What one transition of units of a device does to the available ones.
pub record Moved (from to : UnitStatus) (device n : ℕ) (units units' : List DeviceUnit)
    : Type 0 where
  pub counted :
      (d : ℕ)
      → available_of d units' + count_if (is_status_available from) (count_if (device == d) n)
        ≡ available_of d units + count_if (is_status_available to) (count_if (device == d) n)
  pub keyed_units : IsKeyedUnits units'

includes-In :
    (ids : List DeviceUnit) (k : ℕ)
    → includes (unit_ids_of ids) k ≡ true
    → (u : DeviceUnit) × In u ids × (u.id ≡ k)
includes-In [] k h = cc
includes-In (u ∷ us) k h = elim (Bool-cases (u.id == k)) [
  | inl hit ↦ (u, inl refl, (ground arith))
  | inr miss ↦ let (x, there, same) = includes-In us k (rw miss at h) in (x, inr there, same)
]

pub transition_units-Moved :
    (device : ℕ) (targets : List DeviceUnit) (from to : UnitStatus)
    (change : DeviceUnit → DeviceUnit) (units : List DeviceUnit) {units' : List DeviceUnit}
    → All (IsTarget device units) targets
    → ((u : DeviceUnit) → u.status ≡ from → (change u).status ≡ to)
    → ((u : DeviceUnit) → (change u).device ≡ u.device)
    → ((u : DeviceUnit) → (change u).id ≡ u.id)
    → IsKeyedUnits units
    → transition_units (unit_ids_of targets) from change units ≡ ok units'
    → Moved from to device (length (unit_ids_of targets)) units units'
unfolding transition_units
transition_units-Moved device targets from to change units {units'} mine b c i keyed h =
    elim (Bool-cases (length (unit_ids_of targets) == 0)) [
      | inl nobody ↦
          let same : ok units ≡ ok units' = rw (transition_units, nobody) at h in
          let end : units ≡ units' = cc in
          let none_at_all : length (unit_ids_of targets) ≡ 0 = ground arith in
          rw (← end, none_at_all)
            (record {
              counted = (λ d.
                  nothing (is_status_available from) (is_status_available to) (device == d) _);
              keyed_units = keyed;
            })
      | inr some_there ↦
          let h0 = rw (transition_units, some_there) at h in
          let (u, all_matched, h1) =
            >>=-eq-ok
              (throw_if (not (length (keep (is_moved ids from) units) == length ids)) 409
                units_changed)
              _ h0 in
          let end : map_list (changed_unit ids from change) units ≡ units' = cc in
          let full : length (keep (is_moved ids from) units) ≡ length ids = ground arith in
          rw (← end) (record {
            counted = (λ d.
                let m =
                  matched_of-one_device d device (is_moved ids from) units
                    (owned units keyed (λ x y. y))
                  ∙ ap (count_if (device == d)) full in
                subst
                  (λ n.
                    available_of d (map_list (changed_unit ids from change) units)
                      + count_if (is_status_available from) n
                    ≡ available_of d units + count_if (is_status_available to) n)
                  m
                  (available_of-changed d (is_moved ids from) from to change units
                    (λ x hit. from_status x hit) (λ x hit. b x (from_status x hit)) c));
            keyed_units = IsKeyedUnits-map (changed_unit ids from change) units same_ids keyed;
          })
    ]
  where
    ids : List ℕ
    ids = unit_ids_of targets

    nothing : (f t d : Bool) (x : ℕ) → x + count_if f (count_if d 0) ≡ x + count_if t (count_if d 0)
    nothing f t d x = ground arith

    from_status : (x : DeviceUnit) → is_moved ids from x ≡ true → x.status ≡ from
    from_status x hit = status_of x.status from (second (includes ids x.id) _ hit)
      where
        second : (p q : Bool) → (p && q) ≡ true → q ≡ true
        second p q e = ground arith

    same_ids : (x : DeviceUnit) → (changed_unit ids from change x).id ≡ x.id
    same_ids x = elim (Bool-cases (is_moved ids from x)) [
      | inl hit ↦ rw hit (i x)
      | inr miss ↦ rw miss refl
    ]

    owned :
        (xs : List DeviceUnit)
        → All (λ (x : DeviceUnit). find_unit x.id units ≡ some x) xs
        → ((x : DeviceUnit) → In x xs → In x xs)
        → All (λ (x : DeviceUnit). is_moved ids from x ≡ true → x.device ≡ device) xs
    owned [] k l = tt
    owned (x ∷ xs) k l = ((λ hit. of_target x k.0 hit), owned xs k.1 (λ y m. m))
      where
        first : (p q : Bool) → (p && q) ≡ true → p ≡ true
        first p q e = ground arith

        of_target :
            (y : DeviceUnit)
            → find_unit y.id units ≡ some y
            → is_moved ids from y ≡ true
            → y.device ≡ device
        of_target y found hit =
            let (t, among, same_id) = includes-In targets y.id (first (includes ids y.id) _ hit) in
            let (there, own_device) = In-All (IsTarget device units) t targets among mine in
            let t_found =
              In-All (λ (z : DeviceUnit). find_unit z.id units ≡ some z) t units there keyed in
            let same : some y ≡ some t =
              sym found ∙ ap (λ j. find_unit j units) (sym same_id) ∙ t_found in
            let y_is : y ≡ t = cc in ap (λ (z : DeviceUnit). z.device) y_is ∙ own_device
