-- ===== src/Access/Resolver.antt =====
-- The effective permission of a user (core/permissions/resolver.ts), and the guards of the routes
-- (core/middlewares/auth.middleware.ts). The caches and the clock are arguments.
pub mod Laws
use axzy_ptnv_api.Base.{
  Bool, List, Option, [], false, if◌then◌else◌, ltb, none, not, or_else, some, true, ℕ, ◌&&◌, ◌==◌,
  ◌∷◌,
}
use axzy_ptnv_api.Access.Catalog.{
  Caches, PermissionScope, RoleMatrix, area, catalog_keys, cell, distinct, everything,
  is_permission, nothing, own,
}
use axzy_ptnv_api.Base.Lists.{any, find}

pub record PermissionException : Type 0 where
  pub permission : ℕ
  pub scope : PermissionScope
  pub expires_at : Option ℕ

pub record UserPermissions : Type 0 where
  pub id : ℕ
  pub role : ℕ
  pub roles : List ℕ
  pub department : Option ℕ
  pub exceptions : List PermissionException

-- `SCOPE_RANK`
abbrev pub scope_rank : PermissionScope → ℕ
scope_rank nothing = 0
scope_rank own = 1
scope_rank area = 2
scope_rank everything = 3

unfoldable pub max_scope : PermissionScope → PermissionScope → PermissionScope
max_scope a b = if ltb (scope_rank a) (scope_rank b) then b else a

unfoldable pub roles_of : UserPermissions → List ℕ
roles_of u = distinct (u.role ∷ u.roles)

unfoldable pub is_current : ℕ → PermissionException → Bool
is_current now e = elim e.expires_at [ none ↦ true | some expiry ↦ ltb now expiry ]

unfoldable pub exception_of : ℕ → UserPermissions → ℕ → Option PermissionException
exception_of now u permission =
    find (λ e. e.permission == permission && is_current now e) u.exceptions

-- The loop of `scopeOf` over the roles.
unfoldable pub add_roles : RoleMatrix → ℕ → List ℕ → PermissionScope → PermissionScope
add_roles matrix permission [] scope = scope
add_roles matrix permission (r ∷ rs) scope =
    add_roles matrix permission rs (max_scope scope (or_else (cell matrix r permission) nothing))

unfoldable pub role_scope : Caches → UserPermissions → ℕ → PermissionScope
role_scope c u permission = add_roles c.matrix permission (roles_of u) nothing

unfoldable pub scope_of : Caches → ℕ → UserPermissions → ℕ → PermissionScope
scope_of c now u permission = elim (exception_of now u permission) [
  | some e ↦ e.scope
  | none ↦ if not (is_permission c permission) then nothing else role_scope c u permission
]

abbrev pub is_nothing : PermissionScope → Bool
is_nothing nothing = true
is_nothing _ = false

unfoldable pub can_any_scope : Caches → ℕ → UserPermissions → ℕ → Bool
can_any_scope c now u permission = not (is_nothing (scope_of c now u permission))

-- The effective permissions of a user, without those of scope NONE.
unfoldable pub collect : Caches → ℕ → UserPermissions → List ℕ → List (ℕ × PermissionScope)
collect c now u [] = []
collect c now u (p ∷ ps) =
    let scope = scope_of c now u p in
    let rest = collect c now u ps in if not (is_nothing scope) then (p, scope) ∷ rest else rest

unfoldable pub permissions_of : Caches → ℕ → UserPermissions → List (ℕ × PermissionScope)
permissions_of c now u = collect c now u (catalog_keys c)

-- What a guard does with a request: pass it on, or answer with a status.
pub data Answer : Type 0 where
  pass : Answer
  unauthenticated insufficient_permissions : Answer

unfoldable pub requires_permission : Caches → ℕ → ℕ → Option UserPermissions → Answer
requires_permission c now permission none = unauthenticated
requires_permission c now permission (some u) =
    if not (is_permission c permission)
    then insufficient_permissions
    else if is_nothing (scope_of c now u permission)
    then insufficient_permissions
    else pass

unfoldable pub requires_any_permission : Caches → ℕ → List ℕ → Option UserPermissions → Answer
requires_any_permission c now permissions none = unauthenticated
requires_any_permission c now permissions (some u) =
    if not (any (λ p. is_permission c p && not (is_nothing (scope_of c now u p))) permissions)
    then insufficient_permissions
    else pass
