-- ===== src/Access/Permissions.antt =====
-- The tables of permissions of src/admin/policy.ts. A permission is known by its key.
use openers_performance_dash.Prelude.{String, List, [], ◌∷◌, ◌++◌}
use openers_performance_dash.Accounts.{Role}

-- The keys of `PERMISSION_DESCRIPTIONS`.
unfoldable pub all_permission_keys : List String
all_permission_keys =
    "users.view" ∷ "users.create" ∷ "users.update" ∷ "users.activate" ∷ "users.deactivate"
    ∷ "users.revoke" ∷ "users.assign_role" ∷ "users.assign_team" ∷ "users.manage_permissions"
    ∷ "users.revoke_sessions" ∷ "teams.view" ∷ "teams.create" ∷ "teams.update" ∷ "teams.deactivate"
    ∷ "teams.assign_manager" ∷ "teams.assign_agents" ∷ "imports.preview" ∷ "imports.confirm"
    ∷ "imports.view_history" ∷ "imports.view_errors" ∷ "imports.deactivate" ∷ "imports.delete"
    ∷ "imports.restore" ∷ "imports.company" ∷ "imports.team" ∷ "metrics.view_own"
    ∷ "metrics.view_team" ∷ "metrics.view_company" ∷ "metrics.self" ∷ "metrics.team"
    ∷ "metrics.company" ∷ "coaching.view_team" ∷ "coaching.create_team" ∷ "coaching.view_company"
    ∷ "coaching.create_company" ∷ "flags.view_own" ∷ "flags.view_team" ∷ "flags.view_company"
    ∷ "commissions.view_own" ∷ "commissions.view_team" ∷ "commissions.view_company"
    ∷ "commissions.export_team" ∷ "commissions.export_company" ∷ "dashboard.view_own"
    ∷ "dashboard.view_team" ∷ "dashboard.view_company" ∷ "dashboard.export_team"
    ∷ "dashboard.export_company" ∷ "targets.manage" ∷ "rubrics.manage"
    ∷ "coaching.submit_rubric_team" ∷ "coaching.publish_team" ∷ "shadowing.manage_team"
    ∷ "flags.raise_team_case" ∷ "flags.update_team_case" ∷ "users.create_team_agent"
    ∷ "users.deactivate_team_agent" ∷ "users.terminate_team_agent" ∷ "leaderboard.view"
    ∷ "leaderboards.view" ∷ "audit.view" ∷ "audit.view_company" ∷ "integrations.manage"
    ∷ "commissions.manage" ∷ "flags.manage" ∷ []

-- `OVERRIDABLE_PERMISSION_GROUPS`.
unfoldable pub overridable_team_permissions : List String
overridable_team_permissions =
    "teams.view" ∷ "teams.create" ∷ "teams.update" ∷ "teams.deactivate" ∷ "teams.assign_manager"
    ∷ "teams.assign_agents" ∷ []

-- Its second group.
unfoldable pub overridable_import_permissions : List String
overridable_import_permissions =
    "imports.preview" ∷ "imports.confirm" ∷ "imports.view_history" ∷ "imports.view_errors"
    ∷ "imports.deactivate" ∷ "imports.delete" ∷ "imports.restore" ∷ "imports.company"
    ∷ "imports.team" ∷ []

unfoldable pub overridable_permission_keys : List String
overridable_permission_keys = overridable_team_permissions ++ overridable_import_permissions

-- `ADMIN_ONLY_PERMISSIONS`.
unfoldable pub admin_only_permissions : List String
admin_only_permissions =
    "users.manage_permissions" ∷ "users.assign_role" ∷ "users.create_team_agent"
    ∷ "users.deactivate_team_agent" ∷ "users.terminate_team_agent" ∷ "integrations.manage"
    ∷ "audit.view" ∷ "audit.view_company" ∷ "metrics.view_company" ∷ "metrics.company"
    ∷ "coaching.view_company" ∷ "coaching.create_company" ∷ "flags.view_company"
    ∷ "commissions.view_company" ∷ "commissions.export_company" ∷ "dashboard.view_company"
    ∷ "dashboard.export_company" ∷ "targets.manage" ∷ "rubrics.manage" ∷ "imports.deactivate"
    ∷ "imports.delete" ∷ "imports.restore" ∷ []

-- `ROLE_DEFAULT_PERMISSIONS`.
unfoldable pub manager_permissions : List String
manager_permissions =
    "teams.view" ∷ "imports.preview" ∷ "imports.confirm" ∷ "imports.view_history"
    ∷ "imports.view_errors" ∷ "imports.team" ∷ "metrics.view_team" ∷ "metrics.team"
    ∷ "leaderboard.view" ∷ "leaderboards.view" ∷ "coaching.view_team" ∷ "coaching.create_team"
    ∷ "flags.view_team" ∷ "commissions.view_team" ∷ "commissions.export_team"
    ∷ "dashboard.view_team" ∷ "dashboard.export_team" ∷ "coaching.submit_rubric_team"
    ∷ "coaching.publish_team" ∷ "shadowing.manage_team" ∷ "flags.raise_team_case"
    ∷ "flags.update_team_case" ∷ []

-- An agent's.
unfoldable pub agent_permissions : List String
agent_permissions =
    "metrics.view_own" ∷ "metrics.self" ∷ "leaderboard.view" ∷ "leaderboards.view"
    ∷ "flags.view_own" ∷ "commissions.view_own" ∷ "dashboard.view_own" ∷ []

unfoldable pub role_default_permissions : Role → List String
role_default_permissions Role.admin = all_permission_keys
role_default_permissions Role.manager = manager_permissions
role_default_permissions Role.agent = agent_permissions
