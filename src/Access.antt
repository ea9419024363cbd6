-- ===== src/Access.antt =====
-- Who may do what: src/auth/authorization.ts, src/auth/permissions.ts, src/auth/feature-access.ts and
-- the rules of src/admin/policy.ts. The tables rolePermissions and userPermissionOverrides are lists
-- of rows.
pub mod Permissions
pub mod Policy
pub mod Features
pub mod Guards
pub mod Defaults
pub mod Overrides
pub mod Granted
mod Tests
use Prim.Native.Nat.{Ordering}
use Prim.Native.String.{compare}
use openers_performance_dash.Prelude.{
  ℕ, String, Bool, true, false, not, ◌&&◌, ◌||◌, Option, none, some, List, [], ◌∷◌, ◌==◌, any,
  is_some, or_else, if◌then◌else◌,
}
use openers_performance_dash.Prelude.Table.{find}
use openers_performance_dash.Accounts.{Role, Actor, is_admin}
use openers_performance_dash.Access.Permissions.{
  admin_only_permissions, overridable_permission_keys,
}

abbrev pub same_key : String → String → Bool
same_key a b = elim (compare a b) [ Ordering.eq ↦ true | _ ↦ false ]

pub listed : String → List String → Bool
listed key keys = any (same_key key) keys

abbrev pub same_role : Role → Role → Bool
same_role Role.admin Role.admin = true
same_role Role.manager Role.manager = true
same_role Role.agent Role.agent = true
same_role other another = false

pub record RolePermission : Type 0 where
  pub role : Role
  pub permission_key : String

pub record UserPermissionOverride : Type 0 where
  pub profile_id : ℕ
  pub permission_key : String
  pub allowed : Bool

pub record Grants : Type 0 where
  pub role_permissions : List RolePermission
  pub overrides : List UserPermissionOverride

-- `resolvePermission`.
abbrev pub resolve_permission : (role_permission : Bool) → (user_override : Option Bool) → Bool
resolve_permission r o = or_else o r

abbrev pub is_admin_only : String → Bool
is_admin_only key = listed key admin_only_permissions

abbrev pub is_overridable : String → Bool
is_overridable key = listed key overridable_permission_keys

-- The first row of the user for the key, if the key may be overridden at all.
unfoldable pub override_of : Actor → String → List UserPermissionOverride → Option Bool
override_of a key rows = elim (is_overridable key) [
  | false ↦ none
  | true ↦
      elim (find
        (λ (r : UserPermissionOverride). r.profile_id == a.id && same_key r.permission_key key)
        rows) [ none ↦ none | some r ↦ some r.allowed ]
]

abbrev pub has_role_permission : Role → String → List RolePermission → Bool
has_role_permission role key rows =
    is_some
      (find (λ (r : RolePermission). same_role r.role role && same_key r.permission_key key) rows)

-- `hasPermission`.
unfoldable pub has_permission : Actor → String → Grants → Bool
has_permission a key g =
    if not (is_admin a.role) && is_admin_only key
    then false
    else resolve_permission (has_role_permission a.role key g.role_permissions)
        (override_of a key g.overrides)

-- `canAccessProfile`, `canImportForProfile` and `resolveProfileScope`; of the last, `none` stands for
-- no restriction.
pub record ScopedProfile : Type 0 where
  pub id : ℕ
  pub team_ids : List ℕ

abbrev pub mem : ℕ → List ℕ → Bool
mem a xs = any (λ x. x == a) xs

unfoldable pub can_access_profile : Actor → ScopedProfile → Bool
can_access_profile a p = elim a.role [
  | Role.admin ↦ true
  | Role.manager ↦ any (λ t. mem t a.team_ids) p.team_ids
  | Role.agent ↦ a.id == p.id
]

unfoldable pub can_import_for_profile : Actor → ScopedProfile → Bool
can_import_for_profile a p = is_admin a.role && can_access_profile a p

abbrev is_empty : List ℕ → Bool
is_empty [] = true
is_empty (x ∷ xs) = false

unfoldable pub resolve_profile_scope : Actor → List ℕ → Option (List ℕ)
resolve_profile_scope a managed = elim a.role [
  | Role.admin ↦ none
  | Role.manager ↦ some (if is_empty a.team_ids then [] else managed)
  | Role.agent ↦ some (a.id ∷ [])
]
