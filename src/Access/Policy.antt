-- ===== src/Access/Policy.antt =====
-- The rules of src/admin/policy.ts on changes of accounts, and the changes to which
-- src/admin/data.ts applies the rule on the last administrator.
use openers_performance_dash.Prelude.{
  ℕ, String, Bool, true, false, not, ◌&&◌, ◌||◌, Option, none, some, List, [], ◌∷◌, length, leb,
  ◌==◌, or_else, if◌then◌else◌,
}
use openers_performance_dash.Prelude.Table.{find, select_where, update}
use openers_performance_dash.Accounts.{Role, AccountStatus, Profile, is_admin, is_active_status}
use openers_performance_dash.Access.{listed, is_admin_only, is_overridable}

pub data OverrideValue : Type 0 where
  allow deny inherit : OverrideValue

pub record PermissionOverrideInput : Type 0 where
  pub permission_key : String
  pub value : OverrideValue

abbrev pub is_allow : OverrideValue → Bool
is_allow allow = true
is_allow other = false

-- `canGrantPermissionToRole`.
abbrev pub can_grant : String → Role → Bool
can_grant key role = is_admin role || not (is_admin_only key)

pub data OverrideRefusal : Type 0 where
  invalid_permission duplicate_override : String → OverrideRefusal
  admin_only_grant : OverrideRefusal

-- The loop of `validatePermissionOverrides`; `none` where it throws nothing.
unfoldable pub validate_each :
    List PermissionOverrideInput → Role → (seen : List String) → Option OverrideRefusal
validate_each [] role seen = none
validate_each (o ∷ os) role seen =
    let rest = validate_each os role (o.permission_key ∷ seen) in
    if not (is_overridable o.permission_key)
    then some (invalid_permission o.permission_key)
    else (if listed o.permission_key seen
        then some (duplicate_override o.permission_key)
        else (if is_allow o.value && not (can_grant o.permission_key role)
            then some admin_only_grant
            else rest))

unfoldable pub validate_permission_overrides :
    List PermissionOverrideInput → Role → Option OverrideRefusal
validate_permission_overrides os role = validate_each os role []

-- `assertCanRemoveAdmin`: whether it lets the change pass.
unfoldable pub can_remove_admin :
    (target_role : Role)
    → (target_status : AccountStatus) → (active_admin_count : ℕ) → (next_role : Option Role)
    → (next_status : Option AccountStatus) → Bool
can_remove_admin role status count next_role next_status = not (
    (is_admin role && is_active_status status)
    && not (is_admin (or_else next_role role) && is_active_status (or_else next_status status))
    && leb count 1)

-- The rows that `getActiveAdminCountForUpdate` counts.
abbrev pub is_counted : ℕ → Profile → Bool
is_counted organization p =
    is_admin p.role
    && is_active_status p.account_status
    && p.is_active
    && p.organization_id == organization

unfoldable pub active_admin_count : ℕ → List Profile → ℕ
active_admin_count organization ps = length (select_where (is_counted organization) ps)

-- What became of a request: the new table, or a refusal.
pub data ChangeRefusal : Type 0 where
  user_not_found user_deleted final_active_admin no_password no_dialer_name own_role : ChangeRefusal
  duplicate_email : ChangeRefusal

pub data Changed : Type 0 where
  done : List Profile → Changed
  refused : ChangeRefusal → Changed

abbrev is_deleted : AccountStatus → Bool
is_deleted AccountStatus.deleted = true
is_deleted other = false

abbrev is_agent : Role → Bool
is_agent Role.agent = true
is_agent other = false

abbrev pub is_user : (organization user : ℕ) → Profile → Bool
is_user organization user p = p.id == user && p.organization_id == organization

abbrev pub put_status : AccountStatus → Profile → Profile
put_status status p = record p { account_status = status; is_active = is_active_status status }

abbrev pub put_role : Role → Profile → Profile
put_role role p = record p { role = role }

-- The profile's part of `setUserAccountStatus`, within the actor's organization; `has_password` is whether
-- the row has a password hash.
unfoldable pub set_user_account_status :
    (organization user : ℕ) → AccountStatus → (has_password : Bool) → List Profile → Changed
set_user_account_status organization user status has_password ps =
    elim (find (is_user organization user) ps) [
      | none ↦ refused user_not_found
      | some p ↦
          if is_deleted p.account_status
          then refused user_deleted
          else (if not (
                can_remove_admin p.role p.account_status (active_admin_count organization ps) none
                  (some status))
              then refused final_active_admin
              else (if is_active_status status && not has_password
                  then refused no_password
                  else done (update (is_user organization user) (put_status status) ps)))
    ]

-- The profile's part of `updateAdminUser`, after its checks of the texts and the team; `is_duplicate`
-- is whether another profile has the e-mail that is asked for, and `has_mapping` whether the user has
-- an active dialer name.
unfoldable pub update_admin_user_role :
    (actor organization user : ℕ)
    → Role
    → (is_duplicate has_mapping : Bool) → List Profile
    → Changed
update_admin_user_role actor organization user role is_duplicate has_mapping ps =
    if actor == user && not (is_admin role)
    then refused own_role
    else elim (find (is_user organization user) ps) [
      | none ↦ refused user_not_found
      | some p ↦
          if is_deleted p.account_status
          then refused user_deleted
          else (if is_duplicate
              then refused duplicate_email
              else (if not (
                    can_remove_admin p.role p.account_status (active_admin_count organization ps)
                      (some role) none)
                  then refused final_active_admin
                  else (if is_agent role && not has_mapping
                      then refused no_dialer_name
                      else done (update (is_user organization user) (put_role role) ps))))
    ]
