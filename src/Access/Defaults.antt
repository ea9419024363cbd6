-- ===== src/Access/Defaults.antt =====
-- The reference data of scripts/db-reference-data.ts: the rows of rolePermissions that a new
-- database gets.
use openers_performance_dash.Prelude.{ℕ, ◌≡◌, refl, List, [], ◌++◌, map}
use openers_performance_dash.Accounts.{Role, Actor}
use openers_performance_dash.Access.{RolePermission, Grants, has_permission, listed, override_of}
use openers_performance_dash.Access.Permissions.{
  all_permission_keys, overridable_team_permissions, overridable_import_permissions,
  overridable_permission_keys, admin_only_permissions, manager_permissions, agent_permissions,
  role_default_permissions,
}
use openers_performance_dash.Access.Features.{
  Feature, coaching_view, coaching_create, coaching_leaderboard, flags_view, commissions_view,
  commissions_export, role_dashboard_view, dashboard_export, admits, can_use,
}

abbrev rows_of : Role → List RolePermission
rows_of role =
    map (λ key. record { role = role; permission_key = key }) (role_default_permissions role)

unfoldable pub reference_grants : Grants
reference_grants = record {
  role_permissions = rows_of Role.admin ++ rows_of Role.manager ++ rows_of Role.agent;
  overrides = [];
}

abbrev actor : ℕ → Role → List ℕ → ℕ → Actor
actor id role team_ids organization_id = record {
  id = id;
  role = role;
  team_ids = team_ids;
  organization_id = organization_id;
}

by_role :
    (f : Feature) (role : Role) (id : ℕ) (team_ids : List ℕ) (organization_id : ℕ)
    → can_use f (actor id role team_ids organization_id) reference_grants ≡ admits f role
unfolding can_use has_permission override_of listed reference_grants role_default_permissions
    all_permission_keys manager_permissions agent_permissions admin_only_permissions
    overridable_permission_keys overridable_team_permissions overridable_import_permissions
by_role coaching_view Role.admin id ts o = refl
by_role coaching_view Role.manager id ts o = refl
by_role coaching_view Role.agent id ts o = refl
by_role coaching_create Role.admin id ts o = refl
by_role coaching_create Role.manager id ts o = refl
by_role coaching_create Role.agent id ts o = refl
by_role coaching_leaderboard Role.admin id ts o = refl
by_role coaching_leaderboard Role.manager id ts o = refl
by_role coaching_leaderboard Role.agent id ts o = refl
by_role flags_view Role.admin id ts o = refl
by_role flags_view Role.manager id ts o = refl
by_role flags_view Role.agent id ts o = refl
by_role commissions_view Role.admin id ts o = refl
by_role commissions_view Role.manager id ts o = refl
by_role commissions_view Role.agent id ts o = refl
by_role commissions_export Role.admin id ts o = refl
by_role commissions_export Role.manager id ts o = refl
by_role commissions_export Role.agent id ts o = refl
by_role role_dashboard_view Role.admin id ts o = refl
by_role role_dashboard_view Role.manager id ts o = refl
by_role role_dashboard_view Role.agent id ts o = refl
by_role dashboard_export Role.admin id ts o = refl
by_role dashboard_export Role.manager id ts o = refl
by_role dashboard_export Role.agent id ts o = refl

-- With the rows of the reference data and no overrides, each guard lets in exactly the roles that its
-- own test of the role admits.
pub reference_grants-admits :
    (f : Feature) (a : Actor) → can_use f a reference_grants ≡ admits f a.role
reference_grants-admits f a = by_role f a.role a.id a.team_ids a.organization_id
