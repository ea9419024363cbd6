-- ===== src/Access/Tests.antt =====
-- Checks of the rules of access on small tables, and instances of the theorems.
use openers_performance_dash.Prelude.{
  ℕ, ◌≤◌, ◌≡◌, ◌↔◌, ◌∙◌, sym, inl, inr, refl, true, false, none, some, List, [], ◌∷◌, arith, In,
}
use openers_performance_dash.Accounts.{Role, AccountStatus, Actor, Profile}
use openers_performance_dash.Access.{
  Grants, UserPermissionOverride, has_permission, listed, override_of,
}
use openers_performance_dash.Access.Permissions.{
  all_permission_keys, overridable_team_permissions, overridable_import_permissions,
  overridable_permission_keys, admin_only_permissions, manager_permissions, agent_permissions,
  role_default_permissions,
}
use openers_performance_dash.Access.Policy.{
  PermissionOverrideInput, allow, deny, validate_each, validate_permission_overrides, refused,
  final_active_admin, set_user_account_status, update_admin_user_role, can_remove_admin,
  active_admin_count, admin_only_grant,
}
use openers_performance_dash.Access.Features.{coaching_view, dashboard_export, can_use}
use openers_performance_dash.Access.Granted.{IsGranted, IsUnique, has_permission-IsGranted}
use openers_performance_dash.Access.Guards.{
  after, set_user_account_status-count, update_admin_user_role-count,
}
use openers_performance_dash.Access.Defaults.{reference_grants, reference_grants-admits}
use openers_performance_dash.Access.Overrides.{
  AreDistinct, IsGrantable, validate_permission_overrides-grants,
}

abbrev user : ℕ → Role → Actor
user id role = record { id = id; role = role; team_ids = 4 ∷ []; organization_id = 1 }

abbrev profile : ℕ → Role → Profile
profile id role = record {
  id = id;
  role = role;
  organization_id = 1;
  is_active = true;
  account_status = AccountStatus.active;
}

abbrev staff : List Profile
staff = profile 1 Role.admin ∷ profile 2 Role.manager ∷ []

-- A manager who may view imports' history, and no longer teams.
abbrev wanted : List PermissionOverrideInput
wanted =
    record { permission_key = "imports.view_history"; value = allow }
    ∷ record { permission_key = "teams.view"; value = deny }
    ∷ []

final_admin_stays :
    set_user_account_status 1 1 AccountStatus.deactivated true staff ≡ refused final_active_admin
unfolding set_user_account_status can_remove_admin active_admin_count
final_admin_stays = refl

restore_is_not_granted :
    validate_permission_overrides
      (record { permission_key = "imports.restore"; value = allow } ∷ [])
      Role.manager
    ≡ some admin_only_grant
unfolding validate_permission_overrides validate_each listed overridable_permission_keys
    overridable_team_permissions overridable_import_permissions admin_only_permissions
restore_is_not_granted = refl

staff-count : 1 ≤ active_admin_count 1 staff
unfolding active_admin_count
staff-count = ground arith

wanted_passes : validate_permission_overrides wanted Role.manager ≡ none
unfolding validate_permission_overrides validate_each listed overridable_permission_keys
    overridable_team_permissions overridable_import_permissions admin_only_permissions
wanted_passes = refl

admin_may_delete : has_permission (user 1 Role.admin) "imports.delete" reference_grants ≡ true
unfolding has_permission override_of listed reference_grants role_default_permissions
    all_permission_keys manager_permissions agent_permissions admin_only_permissions
    overridable_permission_keys overridable_team_permissions overridable_import_permissions
admin_may_delete = refl

manager_coaches : can_use coaching_view (user 2 Role.manager) reference_grants ≡ true
manager_coaches = reference_grants-admits coaching_view (user 2 Role.manager)

set_user_account_status-count_example :
    1
    ≤ active_admin_count 1
        (after (set_user_account_status 1 1 AccountStatus.deactivated true staff) staff)
set_user_account_status-count_example =
    set_user_account_status-count 1 1 AccountStatus.deactivated true staff (ground arith)
      staff-count

update_admin_user_role-count_example :
    1
    ≤ active_admin_count 1
        (after (update_admin_user_role 2 1 1 Role.manager false true staff) staff)
update_admin_user_role-count_example =
    update_admin_user_role-count 2 1 1 Role.manager false true staff (ground arith) staff-count

-- The manager's one override.
abbrev history : UserPermissionOverride
history = record { profile_id = 2; permission_key = "imports.view_history"; allowed = true }

abbrev overridden : Grants
overridden = record { role_permissions = []; overrides = history ∷ [] }

overridden-IsUnique : IsUnique overridden.overrides
overridden-IsUnique r s (inl e) (inl f) u k = e ∙ sym f
overridden-IsUnique r s (inl e) (inr n) u k = elim n [ ]
overridden-IsUnique r s (inr m) n u k = elim m [ ]

has_permission-IsGranted_example :
    (has_permission (user 2 Role.manager) "imports.view_history" overridden ≡ true)
    ↔ IsGranted (user 2 Role.manager) "imports.view_history" overridden
has_permission-IsGranted_example =
    has_permission-IsGranted (user 2 Role.manager) "imports.view_history" overridden
      overridden-IsUnique

reference_grants-admits_example :
    can_use dashboard_export (user 3 Role.agent) reference_grants ≡ false
reference_grants-admits_example = reference_grants-admits dashboard_export (user 3 Role.agent)

validate_permission_overrides-grants_example :
    AreDistinct wanted × ((o : PermissionOverrideInput) → In o wanted → IsGrantable Role.manager o)
validate_permission_overrides-grants_example =
    validate_permission_overrides-grants wanted Role.manager wanted_passes
