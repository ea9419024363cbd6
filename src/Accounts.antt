-- ===== src/Accounts.antt =====
-- The accounts that the rest of the program reads: profiles, teams and team memberships of
-- src/db/schema.ts, and the actor of src/auth/authorization.ts. Identifiers are opaque texts that
-- the program only compares, so they are numbers here; so are names of time zones and the like.
use openers_performance_dash.Prelude.{ℕ, Bool, true, false, Option, List}

pub data Role : Type 0 where
  admin manager agent : Role

pub data AccountStatus : Type 0 where
  invited active deactivated revoked deleted : AccountStatus

-- A request's actor. The program gives `organizationId` on every authenticated request.
pub record Actor : Type 0 where
  pub id : ℕ
  pub role : Role
  pub team_ids : List ℕ
  pub organization_id : ℕ

pub record Profile : Type 0 where
  pub id : ℕ
  pub role : Role
  pub organization_id : ℕ
  pub is_active : Bool
  pub account_status : AccountStatus

pub record Team : Type 0 where
  pub id : ℕ
  pub organization_id : ℕ
  pub is_active : Bool
  pub archived_at : Option ℕ
  pub deleted_at : Option ℕ

pub record TeamMembership : Type 0 where
  pub profile_id : ℕ
  pub team_id : ℕ
  pub is_active : Bool
  pub ended_at : Option ℕ

pub record Directory : Type 0 where
  pub profiles : List Profile
  pub teams : List Team
  pub memberships : List TeamMembership

abbrev pub is_admin : Role → Bool
is_admin Role.admin = true
is_admin other = false

abbrev pub is_manager : Role → Bool
is_manager Role.manager = true
is_manager other = false

abbrev pub is_active_status : AccountStatus → Bool
is_active_status AccountStatus.active = true
is_active_status other = false
