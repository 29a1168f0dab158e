-- ===== src/Access/Scope/Laws.antt =====
-- The database filter of a scope selects the records that lie within it, and a larger scope
-- reaches no less.
use axzy_ptnv_api.Base.{
  Bool, Bool-cases, List, Option, [], arith, false, given, inl, inr, or_else, same_id, some, true,
  ℕ, ◌==◌, ◌||◌, ◌≡◌, ◌≤◌,
}
use axzy_ptnv_api.Access.Catalog.{PermissionScope, area, everything, nothing, own}
use axzy_ptnv_api.Access.Resolver.{UserPermissions, scope_rank}
use axzy_ptnv_api.Access.Scope.{
  Reachable, TicketTest, TicketWhere, assigned_to_is, created_by_is, department_is, is_own, one_of,
  some_assignment_of, tickets_in_scope_where, unrestricted, within_scope,
}
use axzy_ptnv_api.Base.Lists.{any}

-- What the database documents of its filters on tickets: `{}` selects every ticket, `OR` the
-- tickets that one of its conditions selects (none when it is empty), equality compares the field,
-- and `some` asks for one task that fits.
pub record FilterLaws (selects : TicketWhere → Reachable → Bool)
    (test : TicketTest → Reachable → Bool) : Type 0 where
  pub selects_all : (r : Reachable) → selects unrestricted r ≡ true
  pub selects_or :
      (ts : List TicketTest) (r : Reachable) → selects (one_of ts) r ≡ any (λ t. test t r) ts
  pub test_created :
      (i : ℕ) (r : Reachable) → test (created_by_is i) r ≡ same_id r.created_by (some i)
  pub test_assigned :
      (i : ℕ) (r : Reachable) → test (assigned_to_is i) r ≡ same_id r.assigned_to (some i)
  pub test_department :
      (d : Option ℕ) (r : Reachable) → test (department_is d) r ≡ same_id r.department d
  pub test_assignment :
      (i : ℕ) (r : Reachable)
      → test (some_assignment_of i) r ≡ any (λ a. a == i) (or_else r.assignments [])

or_own : (a b c : Bool) → (a || (b || (c || false))) ≡ ((a || b) || c)
or_own a b c = ground arith

or_own' : (a b c : Bool) → (a || (b || (c || false))) ≡ (((a || b) || c) || false)
or_own' a b c = ground arith

or_area : (a b c d : Bool) → (a || (b || (c || (d || false)))) ≡ (((a || b) || c) || d)
or_area a b c d = ground arith

-- For a database that gives ticket filters their documented meaning, the filter of a scope
-- selects exactly the tickets that the check of one ticket accepts.
pub tickets_in_scope_where-within_scope :
    (selects : TicketWhere → Reachable → Bool) (test : TicketTest → Reachable → Bool)
    → FilterLaws selects test
    → (u : UserPermissions) (s : PermissionScope) (r : Reachable)
    → selects (tickets_in_scope_where u s) r ≡ within_scope u s r
unfolding tickets_in_scope_where within_scope is_own
tickets_in_scope_where-within_scope selects test laws u nothing r = laws.selects_or [] r
tickets_in_scope_where-within_scope selects test laws u everything r = laws.selects_all r
tickets_in_scope_where-within_scope selects test laws u own r =
    rw (laws.selects_or, any, laws.test_created, laws.test_assigned, laws.test_assignment)
      (or_own (same_id r.created_by (some u.id)) (same_id r.assigned_to (some u.id))
        (any (λ a. a == u.id) (or_else r.assignments [])))
tickets_in_scope_where-within_scope selects test laws u area r =
    elim (Bool-cases (given u.department)) [
      | inl has ↦
          rw
            (
              is_own, has, laws.selects_or, any, laws.test_created, laws.test_assigned,
              laws.test_assignment, laws.test_department,
            )
            (or_area (same_id r.created_by (some u.id)) (same_id r.assigned_to (some u.id))
              (any (λ a. a == u.id) (or_else r.assignments [])) (same_id r.department u.department))
      | inr lacks ↦
          rw
            (
              is_own, lacks, laws.selects_or, any, laws.test_created, laws.test_assigned,
              laws.test_assignment,
            )
            (or_own' (same_id r.created_by (some u.id)) (same_id r.assigned_to (some u.id))
              (any (λ a. a == u.id) (or_else r.assignments [])))
    ]

-- A scope of a rank at least as high reaches every record that the lower one reaches.
pub within_scope_monotone :
    (u : UserPermissions) (s t : PermissionScope) (r : Reachable)
    → scope_rank s ≤ scope_rank t
    → within_scope u s r ≡ true
    → within_scope u t r ≡ true
unfolding within_scope
within_scope_monotone u s t r le h = ground arith

-- A user without a department sees with AREA what OWN shows.
pub within_scope_area :
    (u : UserPermissions) (r : Reachable)
    → given u.department ≡ false
    → within_scope u area r ≡ within_scope u own r
unfolding within_scope
within_scope_area u r h = ground arith
