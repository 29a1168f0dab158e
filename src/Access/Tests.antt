-- ===== src/Access/Tests.antt =====
-- A catalog, a matrix, users and policies, and the theorems at them.
use axzy_ptnv_api.Base.{
  Bool, List, Option, [], false, leb, ltb, none, or_else, refl, same_id, some, true, ℕ, ◌==◌, ◌↔◌,
  ◌∷◌, ◌≡◌, ◌≢◌, ◌≤◌, ◌⊎◌,
}
use axzy_ptnv_api.Access.Catalog.{
  Caches, area, cell, distinct, everything, is_permission, nothing, own, without,
}
use axzy_ptnv_api.Access.Policy.{
  PolicyRule, PolicyUser, Text, Values, after, allow, allow_effect, applies_to_user, as_string,
  condition_matches, deny, deny_effect, evaluate_rules, explain_rules, holds, is_in, items, listed,
  resolve_right, rule_matches, split_comma, trim, trim_end, trim_start, verdict,
}
use axzy_ptnv_api.Access.Resolver.{
  PermissionException, UserPermissions, add_roles, exception_of, insufficient_permissions,
  is_current, max_scope, pass, requires_permission, role_scope, roles_of, scope_of, scope_rank,
}
use axzy_ptnv_api.Access.Scope.{
  Reachable, TicketTest, TicketWhere, assigned_to_is, created_by_is, department_is, one_of,
  some_assignment_of, tickets_in_scope_where, unrestricted, within_scope,
}
use axzy_ptnv_api.Base.Lists.{All, In, any, length}
use axzy_ptnv_api.Base.Sort.{insert, sort}
use axzy_ptnv_api.Access.Policy.Laws.{evaluate_rules-deny, explain_rules-decision}
use axzy_ptnv_api.Access.Resolver.Laws.{granted, requires_permission-pass_iff, scope_of-roles}
use axzy_ptnv_api.Access.Scope.Laws.{FilterLaws, tickets_in_scope_where-within_scope}

-- Permission 1 is in use and 2 is not; role 10 sees its own with 1, role 11 its area, role 12
-- everything with both.
abbrev caches : Caches
caches = record {
  catalog =
      record { key = 1; scopes = own ∷ area ∷ everything ∷ []; sensitive = false; active = true }
      ∷ record { key = 2; scopes = everything ∷ []; sensitive = true; active = false }
      ∷ [];
  roles = [];
  matrix =
      record { role = 10; permission = 1; scope = own }
      ∷ record { role = 11; permission = 1; scope = area }
      ∷ record { role = 12; permission = 1; scope = everything }
      ∷ record { role = 12; permission = 2; scope = everything }
      ∷ [];
}

abbrev employee : UserPermissions
employee = record { id = 77; role = 10; roles = 11 ∷ []; department = some 5; exceptions = [] }

-- An exception until the time 500 that lowers permission 1 to NONE, and one that opens 2.
abbrev barred : PermissionException
barred = record { permission = 1; scope = nothing; expires_at = some 500 }

abbrev opened : PermissionException
opened = record { permission = 2; scope = everything; expires_at = none }

abbrev excepted : UserPermissions
excepted = record employee { exceptions = barred ∷ opened ∷ [] }

the_larger_role_counts : scope_of caches 100 employee 1 ≡ area
unfolding scope_of exception_of is_current role_scope roles_of add_roles max_scope cell distinct
    without is_permission
the_larger_role_counts = refl

unused_permission_is_refused :
    requires_permission caches 100 2 (some excepted) ≡ insufficient_permissions
unfolding requires_permission is_permission
unused_permission_is_refused = refl

scope_of-roles_example :
    ((role : ℕ)
      → In role (10 ∷ 11 ∷ [])
      → scope_rank (granted caches.matrix 1 role) ≤ scope_rank (scope_of caches 100 employee 1))
    × ((scope_of caches 100 employee 1 ≡ nothing)
        ⊎ ((role : ℕ) × In role (10 ∷ 11 ∷ [])
            × (granted caches.matrix 1 role ≡ scope_of caches 100 employee 1)))
unfolding exception_of is_permission
scope_of-roles_example = scope_of-roles caches 100 employee 1 refl refl

requires_permission-pass_iff_example : (requires_permission caches 100 2 (some excepted) ≡ pass) ↔ (
    (is_permission caches 2 ≡ true)
    × ((u : UserPermissions) × (some excepted ≡ some u) × (scope_of caches 100 u 2 ≢ nothing)))
requires_permission-pass_iff_example = requires_permission-pass_iff caches 100 2 (some excepted)

abbrev ticket : Reachable
ticket = record { created_by = some 3; assigned_to = none; department = some 5; assignments = none }

-- A database that gives filters the meaning that is documented.
abbrev test_of : TicketTest → Reachable → Bool
test_of (created_by_is i) r = same_id r.created_by (some i)
test_of (assigned_to_is i) r = same_id r.assigned_to (some i)
test_of (some_assignment_of i) r = any (λ a. a == i) (or_else r.assignments [])
test_of (department_is d) r = same_id r.department d

abbrev selects_of : TicketWhere → Reachable → Bool
selects_of unrestricted r = true
selects_of (one_of ts) r = any (λ t. test_of t r) ts

documented : FilterLaws selects_of test_of
documented = record {
  selects_all = (λ r. refl);
  selects_or = (λ ts r. refl);
  test_created = (λ i r. refl);
  test_assigned = (λ i r. refl);
  test_department = (λ d r. refl);
  test_assignment = (λ i r. refl);
}

tickets_in_scope_where-within_scope_example :
    selects_of (tickets_in_scope_where employee area) ticket ≡ within_scope employee area ticket
tickets_in_scope_where-within_scope_example =
    tickets_in_scope_where-within_scope selects_of test_of documented employee area ticket

-- Values that are texts, compared by their lengths as numbers.
abbrev texts : Values
texts = record {
  V = Option Text;
  null = none;
  text = (λ t. some t);
  is_nullish = (λ x. elim x [ none ↦ true | some t ↦ false ]);
  string_of = (λ x. or_else x []);
  above = (λ x y. ltb (length (or_else y [])) (length (or_else x [])));
  at_least = (λ x y. leb (length (or_else y [])) (length (or_else x [])));
}

abbrev actor : PolicyUser texts
actor = record { permissions = employee; property = (λ field. none) }

-- Whoever has role 11 is denied what is marked "b"; else it is allowed.
abbrev denial : PolicyRule
denial = record {
  id = 1;
  name = 40;
  action = 1;
  effect = deny_effect;
  priority = 5;
  active = true;
  roles = 11 ∷ [];
  conditions =
      record { field = 1 ∷ []; operator = some is_in; value = some (97 ∷ 44 ∷ 32 ∷ 98 ∷ []) } ∷ [];
}

abbrev permission_rule : PolicyRule
permission_rule = record {
  id = 2;
  name = 41;
  action = 1;
  effect = allow_effect;
  priority = 9;
  active = true;
  roles = [];
  conditions = [];
}

abbrev policies : List PolicyRule
policies = permission_rule ∷ denial ∷ []

abbrev marked : Text → Option Text
marked field = some (98 ∷ [])

it_is_denied : evaluate_rules texts policies actor marked ≡ deny 40
unfolding evaluate_rules rule_matches applies_to_user condition_matches holds listed as_string items
    split_comma trim trim_start trim_end resolve_right after roles_of distinct without sort insert
it_is_denied = refl

evaluate_rules-deny_example :
    (rule : PolicyRule) × In rule policies
    × (rule.effect ≡ deny_effect)
    × (rule.name ≡ 40)
    × (rule_matches texts rule actor marked ≡ true)
    × All
        (λ other. rule_matches texts other actor marked ≡ true → rule.priority ≤ other.priority)
        policies
evaluate_rules-deny_example = evaluate_rules-deny texts policies actor marked 40 it_is_denied

explain_rules-decision_example :
    (explain_rules texts policies actor marked).decision
    ≡ elim (explain_rules texts policies actor marked).decided_by [
      | none ↦ allow
      | some t ↦ verdict texts t.effect t.name
    ]
explain_rules-decision_example = explain_rules-decision texts policies actor marked
