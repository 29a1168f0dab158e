-- ===== src/Access/Resolver/Laws.antt =====
-- Roles add up, exceptions replace them while they last, and what is unknown stays closed.
use axzy_ptnv_api.Base.{
  Bool-cases, List, Option, [], arith, false, inl, inr, none, or_else, refl, some, sym, true, ℕ,
  ◌&&◌, ◌==◌, ◌↔◌, ◌∙◌, ◌∷◌, ◌≡◌, ◌≢◌, ◌≤◌, ◌⊎◌,
}
use axzy_ptnv_api.Access.Catalog.{
  Caches, PermissionScope, RoleMatrix, area, cell, distinct, empty_caches, everything,
  is_permission, nothing, own, without,
}
use axzy_ptnv_api.Access.Resolver.{
  PermissionException, UserPermissions, add_roles, exception_of, is_current, is_nothing, max_scope,
  pass, requires_permission, role_scope, roles_of, scope_of, scope_rank,
}
use axzy_ptnv_api.Base.Lists.{All, In, In-All, find_sound}

abbrev pub granted : RoleMatrix → ℕ → ℕ → PermissionScope
granted matrix permission role = or_else (cell matrix role permission) nothing

max_scope-rank :
    (a b : PermissionScope)
    → (scope_rank a ≤ scope_rank (max_scope a b)) × (scope_rank b ≤ scope_rank (max_scope a b))
unfolding max_scope
max_scope-rank a b = ground arith

max_scope-cases : (a b : PermissionScope) → (max_scope a b ≡ a) ⊎ (max_scope a b ≡ b)
unfolding max_scope
max_scope-cases a b = ground arith

module _ (matrix : RoleMatrix) (permission : ℕ) where
  add_roles-le :
      (rs : List ℕ) (s : PermissionScope)
      → scope_rank s ≤ scope_rank (add_roles matrix permission rs s)
  unfolding add_roles
  add_roles-le [] s = omega arith
  add_roles-le (r ∷ rs) s = omega (
    arith,
    add_roles-le rs (max_scope s (granted matrix permission r)),
    (max_scope-rank s (granted matrix permission r)).0,
  )

  add_roles_bound :
      (rs : List ℕ) (s : PermissionScope)
      → All
          (λ r.
            scope_rank (granted matrix permission r)
            ≤ scope_rank (add_roles matrix permission rs s))
          rs
  unfolding add_roles
  add_roles_bound [] s = tt
  add_roles_bound (r ∷ rs) s = (
    omega (
      arith,
      add_roles-le rs (max_scope s (granted matrix permission r)),
      (max_scope-rank s (granted matrix permission r)).1,
    ),
    add_roles_bound rs (max_scope s (granted matrix permission r)),
  )

  add_roles_attained :
      (rs : List ℕ) (s : PermissionScope)
      → (add_roles matrix permission rs s ≡ s)
        ⊎ ((r : ℕ) × In r rs × (granted matrix permission r ≡ add_roles matrix permission rs s))
  unfolding add_roles
  add_roles_attained [] s = inl refl
  add_roles_attained (r ∷ rs) s =
      elim (add_roles_attained rs (max_scope s (granted matrix permission r))) [
        | inr (q, m, e) ↦ inr (q, inr m, e)
        | inl e ↦ elim (max_scope-cases s (granted matrix permission r)) [
          | inl first ↦ inl (e ∙ first)
          | inr second ↦ inr (r, inl refl, sym (e ∙ second))
        ]
      ]

without-In : (k x : ℕ) (xs : List ℕ) → In x xs → x ≢ k → In x (without k xs)
unfolding without
without-In k x [] m ne = elim m [ ]
without-In k x (y ∷ ys) (inl e) ne = let other : (y == k) ≡ false = ground arith in rw other (inl e)
without-In k x (y ∷ ys) (inr m) ne = elim (Bool-cases (y == k)) [
  | inl same ↦ rw same (without-In k x ys m ne)
  | inr other ↦ rw other (inr (without-In k x ys m ne))
]

In-without : (k x : ℕ) (xs : List ℕ) → In x (without k xs) → In x xs
unfolding without
In-without k x [] m = elim m [ ]
In-without k x (y ∷ ys) m = elim (Bool-cases (y == k)) [
  | inl same ↦ inr (In-without k x ys (rw same at m))
  | inr other ↦ elim (rw other at m) as (λ _. In x (y ∷ ys)) [
    | inl e ↦ inl e
    | inr m' ↦ inr (In-without k x ys m')
  ]
]

-- A set made from a list has the list's members.
pub In-distinct : (x : ℕ) (xs : List ℕ) → In x xs → In x (distinct xs)
unfolding distinct
In-distinct x [] m = m
In-distinct x (y ∷ ys) (inl e) = inl e
In-distinct x (y ∷ ys) (inr m) = elim (Bool-cases (x == y)) [
  | inl same ↦ inl (ground arith)
  | inr other ↦ inr (without-In y x (distinct ys) (In-distinct x ys m) (ground arith))
]

pub distinct-In : (x : ℕ) (xs : List ℕ) → In x (distinct xs) → In x xs
unfolding distinct
distinct-In x [] m = m
distinct-In x (y ∷ ys) (inl e) = inl e
distinct-In x (y ∷ ys) (inr m) = inr (distinct-In x ys (In-without y x (distinct ys) m))

-- For a permission of the active catalog and a user without a live exception for it, no role of
-- the user grants a scope of a higher rank than the effective one, and one grants it unless it
-- is NONE.
pub scope_of-roles :
    (c : Caches) (now : ℕ) (u : UserPermissions) (permission : ℕ)
    → exception_of now u permission ≡ none
    → is_permission c permission ≡ true
    → ((role : ℕ)
        → In role (u.role ∷ u.roles)
        → scope_rank (granted c.matrix permission role) ≤ scope_rank (scope_of c now u permission))
      × ((scope_of c now u permission ≡ nothing)
          ⊎ ((role : ℕ) × In role (u.role ∷ u.roles)
              × (granted c.matrix permission role ≡ scope_of c now u permission)))
unfolding scope_of role_scope roles_of
scope_of-roles c now u permission absent known =
    rw (scope_of, absent, known)
      (
        λ role m.
            In-All
              (λ r.
                scope_rank (granted c.matrix permission r) ≤ scope_rank (role_scope c u permission))
              role (roles_of u) (In-distinct role (u.role ∷ u.roles) m)
              (add_roles_bound c.matrix permission (roles_of u) nothing),
        elim (add_roles_attained c.matrix permission (roles_of u) nothing) [
          | inl e ↦ inl e
          | inr (r, m, e) ↦ inr (r, distinct-In r (u.role ∷ u.roles) m, e)
        ],
      )

-- A live exception for a permission is the effective scope whatever the roles say; the one found
-- is among the user's exceptions, names the permission and has not expired.
pub scope_of-exception :
    (c : Caches) (now : ℕ) (u : UserPermissions) (permission : ℕ) (e : PermissionException)
    → exception_of now u permission ≡ some e
    → (scope_of c now u permission ≡ e.scope)
      × (e.permission ≡ permission)
      × (is_current now e ≡ true)
      × In e u.exceptions
unfolding scope_of exception_of
scope_of-exception c now u permission e h =
    let (m, t) = find_sound (λ x. x.permission == permission && is_current now x) u.exceptions h in
    (rw (scope_of, h) refl, ground arith, ground arith, m)

-- An exception whose end has come, put in front of a user's exceptions, changes no effective
-- scope.
pub scope_of-expired :
    (c : Caches) (now : ℕ) (u : UserPermissions) (permission : ℕ) (e : PermissionException)
    (expiry : ℕ)
    → e.expires_at ≡ some expiry
    → expiry ≤ now
    → scope_of c now (record u { exceptions = e ∷ u.exceptions }) permission
      ≡ scope_of c now u permission
unfolding scope_of exception_of is_current role_scope roles_of
scope_of-expired c now u permission e expiry expires past = ground arith

-- A request passes the guard of a permission exactly when it has a user, the permission is in
-- the active catalog and the user's scope is not NONE.
pub requires_permission-pass_iff :
    (c : Caches) (now permission : ℕ) (user : Option UserPermissions)
    → (requires_permission c now permission user ≡ pass) ↔ (
        (is_permission c permission ≡ true)
        × ((u : UserPermissions) × (user ≡ some u) × (scope_of c now u permission ≢ nothing)))
unfolding requires_permission
requires_permission-pass_iff c now permission none = (λ h. cc, λ h. cc h.1.1)
requires_permission-pass_iff c now permission (some u) = (
  λ h. (ground arith, (u, refl, λ z. ground arith)),
  λ (known, (v, e, open_scope)).
      let same : u ≡ v = cc in
      let is_open : is_nothing (scope_of c now u permission) ≡ false =
        not_nothing _ (λ z. open_scope (rw (← same) z)) in
      rw (known, is_open),
)
  where
    not_nothing : (s : PermissionScope) → s ≢ nothing → is_nothing s ≡ false
    not_nothing nothing h = absurd (h refl)
    not_nothing own h = refl
    not_nothing area h = refl
    not_nothing everything h = refl

-- With empty caches a user without exceptions has no permission, and no request passes a guard.
pub empty_caches-closed :
    (now permission : ℕ) (u : UserPermissions) (user : Option UserPermissions)
    → u.exceptions ≡ []
    → (scope_of empty_caches now u permission ≡ nothing)
      × (requires_permission empty_caches now permission user ≢ pass)
unfolding scope_of requires_permission is_permission exception_of
empty_caches-closed now permission u none e = (rw e, λ h. cc)
empty_caches-closed now permission u (some v) e = (rw e, λ h. cc)
