-- ===== src/Access/Features.antt =====
-- The guards of src/auth/feature-access.ts: which permission each feature asks of which role.
use openers_performance_dash.Prelude.{String, Bool, true, false, not, ◌&&◌, ◌||◌}
use openers_performance_dash.Accounts.{Role, Actor, is_admin, is_manager}
use openers_performance_dash.Access.{Grants, has_permission}

-- `canAccessCoaching`, `canAccessCoachingLeaderboard`, `canCreateCoachingSession` and
-- `canAccessFlags`.
abbrev pub can_access_coaching : Role → Bool
can_access_coaching role = is_admin role || is_manager role

abbrev pub can_access_coaching_leaderboard : Role → Bool
can_access_coaching_leaderboard role = is_admin role

abbrev pub can_create_coaching_session : Role → Bool
can_create_coaching_session role = is_admin role || is_manager role

abbrev is_agent : Role → Bool
is_agent Role.agent = true
is_agent other = false

abbrev pub can_access_flags : Role → Bool
can_access_flags role = is_admin role || is_manager role || is_agent role

-- The guards of the features.
pub data Feature : Type 0 where
  coaching_view coaching_create coaching_leaderboard flags_view commissions_view : Feature
  commissions_export role_dashboard_view dashboard_export : Feature

-- The test of the role that a guard begins with.
abbrev pub admits : Feature → Role → Bool
admits coaching_view role = can_access_coaching role
admits coaching_create role = can_create_coaching_session role
admits coaching_leaderboard role = can_access_coaching_leaderboard role
admits flags_view role = can_access_flags role
admits commissions_view role = true
admits commissions_export role = is_admin role
admits role_dashboard_view role = true
admits dashboard_export role = not (is_agent role)

abbrev by_role : Role → (company team own : String) → String
by_role Role.admin company team own = company
by_role Role.manager company team own = team
by_role Role.agent company team own = own

-- The permission that it then asserts.
abbrev pub asked : Feature → Role → String
asked coaching_view role =
    by_role role "coaching.view_company" "coaching.view_team" "coaching.view_team"
asked coaching_create role =
    by_role role "coaching.create_company" "coaching.create_team" "coaching.create_team"
asked coaching_leaderboard role = "coaching.view_company"
asked flags_view role = by_role role "flags.view_company" "flags.view_team" "flags.view_own"
asked commissions_view role =
    by_role role "commissions.view_company" "commissions.view_team" "commissions.view_own"
asked commissions_export role = "commissions.export_company"
asked role_dashboard_view role =
    by_role role "dashboard.view_company" "dashboard.view_team" "dashboard.view_own"
asked dashboard_export role =
    by_role role "dashboard.export_company" "dashboard.export_team" "dashboard.export_team"

-- Whether the guard of a feature lets an actor pass.
unfoldable pub can_use : Feature → Actor → Grants → Bool
can_use f a g = admits f a.role && has_permission a (asked f a.role) g
