-- ===== src/Access/Scope.antt =====
-- Whether a record lies within a scope, and the same scope as a database filter
-- (core/permissions/scope.ts). The filter is a value; the meaning of filters is the database's.
pub mod Laws
use axzy_ptnv_api.Base.{
  Bool, List, Option, [], false, given, if◌then◌else◌, or_else, same_id, some, true, ℕ, ◌&&◌, ◌==◌,
  ◌||◌, ◌∷◌,
}
use axzy_ptnv_api.Access.Catalog.{Caches, PermissionScope, area, everything, nothing, own}
use axzy_ptnv_api.Access.Resolver.{UserPermissions, scope_of}
use axzy_ptnv_api.Base.Lists.{any}

pub record Reachable : Type 0 where
  pub created_by : Option ℕ
  pub assigned_to : Option ℕ
  pub department : Option ℕ
  pub assignments : Option (List ℕ)

unfoldable pub is_own : UserPermissions → Reachable → Bool
is_own u r =
    same_id r.created_by (some u.id)
    || same_id r.assigned_to (some u.id)
    || any (λ a. a == u.id) (or_else r.assignments [])

unfoldable pub within_scope : UserPermissions → PermissionScope → Reachable → Bool
within_scope u nothing r = false
within_scope u everything r = true
within_scope u own r = is_own u r
within_scope u area r = is_own u r || given u.department && same_id r.department u.department

-- A condition on one field of a ticket: equality, or `some` on its tasks.
pub data TicketTest : Type 0 where
  created_by_is : ℕ → TicketTest
  assigned_to_is : ℕ → TicketTest
  some_assignment_of : ℕ → TicketTest
  department_is : Option ℕ → TicketTest

-- `{}`, and `{ OR: [...] }`.
pub data TicketWhere : Type 0 where
  unrestricted : TicketWhere
  one_of : List TicketTest → TicketWhere

unfoldable pub tickets_in_scope_where : UserPermissions → PermissionScope → TicketWhere
tickets_in_scope_where u everything = unrestricted
tickets_in_scope_where u nothing = one_of []
tickets_in_scope_where u own =
    one_of (created_by_is u.id ∷ assigned_to_is u.id ∷ some_assignment_of u.id ∷ [])
tickets_in_scope_where u area =
    if given u.department
    then one_of (
        created_by_is u.id
        ∷ assigned_to_is u.id
        ∷ some_assignment_of u.id
        ∷ department_is u.department
        ∷ [])
    else one_of (created_by_is u.id ∷ assigned_to_is u.id ∷ some_assignment_of u.id ∷ [])

unfoldable pub visible_tickets : Caches → ℕ → UserPermissions → ℕ → TicketWhere
visible_tickets c now u permission = tickets_in_scope_where u (scope_of c now u permission)

unfoldable pub can_view_ticket : Caches → ℕ → UserPermissions → ℕ → Reachable → Bool
can_view_ticket c now u tickets_view r = within_scope u (scope_of c now u tickets_view) r
