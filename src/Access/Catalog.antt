-- ===== src/Access/Catalog.antt =====
-- The catalogs of permissions and roles, and the matrix of roles, as caches
-- (core/permissions/catalog.ts, roles.ts and matrix.ts). Keys are numbers.
use axzy_ptnv_api.Base.{
  Bool, List, Option, [], false, if◌then◌else◌, map, none, or_else, some, true, ℕ, ◌&&◌, ◌==◌, ◌∷◌,
}
use axzy_ptnv_api.Base.Lists.{all, any, keep}

-- NONE, OWN, AREA and ALL.
pub data PermissionScope : Type 0 where
  nothing own area everything : PermissionScope

pub record PermissionDefinition : Type 0 where
  pub key : ℕ
  pub scopes : List PermissionScope
  pub sensitive : Bool
  pub active : Bool

-- A row of the table or of a fixture: null where the text is missing, empty or of another type,
-- and a scope that is null where the text is none of the four. A row may be missing itself.
pub record CatalogRow : Type 0 where
  pub key : Option ℕ
  pub module_name : Option ℕ
  pub name : Option ℕ
  pub scopes : Option (List (Option PermissionScope))
  pub sensitive : Option Bool
  pub active : Option Bool

abbrev is_scope : Option PermissionScope → Bool
is_scope none = false
is_scope (some s) = true

-- The scopes of a row, where there is one and all are scopes.
unfoldable pub scopes_of : List (Option PermissionScope) → List PermissionScope
scopes_of [] = []
scopes_of (none ∷ ss) = scopes_of ss
scopes_of (some s ∷ ss) = s ∷ scopes_of ss

unfoldable pub has_scopes : Option (List (Option PermissionScope)) → Bool
has_scopes none = false
has_scopes (some []) = false
has_scopes (some (s ∷ ss)) = all is_scope (s ∷ ss)

abbrev is_there : Option ℕ → Bool
is_there none = false
is_there (some k) = true

unfoldable pub accepted_row : CatalogRow → Bool
unfolding has_scopes
accepted_row r =
    is_there r.key && (is_there r.module_name && (is_there r.name && has_scopes r.scopes))

unfoldable pub catalog_from_rows : List (Option CatalogRow) → List PermissionDefinition
catalog_from_rows [] = []
catalog_from_rows (none ∷ rows) = catalog_from_rows rows
catalog_from_rows (some r ∷ rows) =
    let rest = catalog_from_rows rows in
    if accepted_row r
    then record {
      key = or_else r.key 0;
      scopes = scopes_of (or_else r.scopes []);
      sensitive = or_else r.sensitive false;
      active = or_else r.active true;
    }
      ∷ rest
    else rest

pub record RoleDefinition : Type 0 where
  pub key : ℕ
  pub staff : Bool
  pub system : Bool
  pub active : Bool

-- A row of the matrix: role, permission, and the scope, null where the text is none of the four.
pub record MatrixRow : Type 0 where
  pub role : ℕ
  pub permission : ℕ
  pub scope : Option PermissionScope

pub record Cell : Type 0 where
  pub role : ℕ
  pub permission : ℕ
  pub scope : PermissionScope

abbrev pub RoleMatrix : Type 0
RoleMatrix = List Cell

-- `matrix[role]?.[permission]`; a later row stands in front, and hides an earlier one.
unfoldable pub cell : RoleMatrix → ℕ → ℕ → Option PermissionScope
cell [] role permission = none
cell (c ∷ cs) role permission =
    if c.role == role && c.permission == permission then some c.scope else cell cs role permission

-- The module caches of the three files.
pub record Caches : Type 0 where
  pub catalog : List PermissionDefinition
  pub roles : List RoleDefinition
  pub matrix : RoleMatrix

abbrev pub empty_caches : Caches
empty_caches = record { catalog = []; roles = []; matrix = [] }

unfoldable pub is_permission : Caches → ℕ → Bool
is_permission c key = any (λ p. p.active && p.key == key) c.catalog

unfoldable pub is_role : Caches → ℕ → Bool
is_role c key = any (λ r. r.active && r.key == key) c.roles

-- `definitions.get(key)`: the last definition of the key.
unfoldable pub definition_of : List PermissionDefinition → ℕ → Option PermissionDefinition
definition_of [] key = none
definition_of (p ∷ ps) key = elim (definition_of ps key) [
  | some later ↦ some later
  | none ↦ if p.key == key then some p else none
]

-- The keys of the active permissions, each once.
unfoldable pub without : ℕ → List ℕ → List ℕ
without k [] = []
without k (x ∷ xs) = if x == k then without k xs else x ∷ without k xs

-- `[...new Set(keys)]`
unfoldable pub distinct : List ℕ → List ℕ
unfolding without
distinct [] = []
distinct (x ∷ xs) = x ∷ without x (distinct xs)

unfoldable pub catalog_keys : Caches → List ℕ
catalog_keys c =
    distinct (map (λ (p : PermissionDefinition). p.key) (keep (λ p. p.active) c.catalog))

-- Whether a row is kept, and its scope: a permission of the active catalog, and a scope other than none.
unfoldable pub kept_scope : Option PermissionScope → Option PermissionScope
kept_scope none = none
kept_scope (some nothing) = none
kept_scope (some own) = some own
kept_scope (some area) = some area
kept_scope (some everything) = some everything

unfoldable pub kept_row : (ℕ → Bool) → MatrixRow → Option PermissionScope
unfolding kept_scope
kept_row active_key row = if active_key row.permission then kept_scope row.scope else none

unfoldable pub add_rows : (ℕ → Bool) → List MatrixRow → RoleMatrix → RoleMatrix
add_rows active_key [] matrix = matrix
add_rows active_key (row ∷ rows) matrix = elim (kept_row active_key row) [
  | none ↦ add_rows active_key rows matrix
  | some s ↦
      add_rows active_key rows
        (record { role = row.role; permission = row.permission; scope = s } ∷ matrix)
]

unfoldable pub matrix_from_rows : Caches → List MatrixRow → RoleMatrix
matrix_from_rows c rows = add_rows (is_permission c) rows []

-- The roles with a personnel file; `defaults` are the built-in ones, for an empty cache.
unfoldable pub staff_role_keys : List ℕ → Caches → List ℕ
staff_role_keys defaults c = elim c.roles [
  | [] ↦ defaults
  | first ∷ rest ↦
      map (λ (r : RoleDefinition). r.key) (keep (λ r. r.active && r.staff) (first ∷ rest))
]
