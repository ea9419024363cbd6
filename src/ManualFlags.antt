-- ===== src/ManualFlags.antt =====
-- Manual flag cases: src/operations/domain.ts and `updateManualFlagCase` of src/operations/service.ts.
-- A case is the columns that the update reads or sets; its events and audit rows are left out.
pub mod Cases
mod Tests
use openers_performance_dash.Prelude.{
  ℕ, Bool, true, false, not, ◌&&◌, ◌||◌, Option, none, some, List, [], ◌∷◌, any, is_none, or_else,
  ◌==◌, if◌then◌else◌,
}
use openers_performance_dash.Prelude.Text.{trim}
use openers_performance_dash.Prelude.Table.{find, update}
use openers_performance_dash.Accounts.{Role, Actor, Profile, is_admin, is_manager}

pub data ManualFlagStatus : Type 0 where
  opened under_review action_required coaching_scheduled resolved dismissed : ManualFlagStatus

abbrev pub number : ManualFlagStatus → ℕ
number opened = 0
number under_review = 1
number action_required = 2
number coaching_scheduled = 3
number resolved = 4
number dismissed = 5

-- `MANUAL_FLAG_TRANSITIONS`.
abbrev pub manual_flag_transitions : ManualFlagStatus → List ManualFlagStatus
manual_flag_transitions opened =
    under_review ∷ action_required ∷ coaching_scheduled ∷ resolved ∷ dismissed ∷ []
manual_flag_transitions under_review =
    action_required ∷ coaching_scheduled ∷ resolved ∷ dismissed ∷ []
manual_flag_transitions action_required =
    under_review ∷ coaching_scheduled ∷ resolved ∷ dismissed ∷ []
manual_flag_transitions coaching_scheduled = action_required ∷ resolved ∷ dismissed ∷ []
manual_flag_transitions resolved = []
manual_flag_transitions dismissed = []

-- Whether `assertManualFlagTransition` throws nothing.
abbrev pub may_move : ManualFlagStatus → ManualFlagStatus → Bool
may_move from to = any (λ s. number s == number to) (manual_flag_transitions from)

pub record ManualFlagCase : Type 0 where
  pub id : ℕ
  pub organization_id : ℕ
  pub agent_profile_id : ℕ
  pub status : ManualFlagStatus
  pub assigned_owner_id : Option ℕ
  pub resolution : Option (List ℕ)
  pub published_to_agent : Bool
  pub resolved_by_id : Option ℕ
  pub resolved_at : Option ℕ

-- An optional field: left out, or given as `null` or as an id.
pub data OwnerInput : Type 0 where
  left_out cleared : OwnerInput
  owned_by : ℕ → OwnerInput

pub record CaseInput : Type 0 where
  pub case_id : ℕ
  pub status : ManualFlagStatus
  pub assigned_owner_id : OwnerInput
  pub resolution : Option (List ℕ)
  pub publish_to_agent : Option Bool

-- What the update reads elsewhere: the answer of `assertPermission`, whether `currentAgentContext` finds
-- an agent within the actor's reach, and the profiles.
pub record Surroundings : Type 0 where
  pub permitted : Bool
  pub reaches_agent : ℕ → Bool
  pub profiles : List Profile

pub data Updated : Type 0 where
  written : List ManualFlagCase → Updated
  forbidden case_not_found no_transition resolution_required : Updated

abbrev pub is_closed : ManualFlagStatus → Bool
is_closed resolved = true
is_closed dismissed = true
is_closed other = false

abbrev is_eligible : Actor → ℕ → Profile → Bool
is_eligible a owner p =
    p.id == owner
    && p.organization_id == a.organization_id
    && p.is_active
    && (is_admin p.role || is_manager p.role)

abbrev pub may_assign : Actor → OwnerInput → List Profile → Bool
may_assign a left_out profiles = true
may_assign a cleared profiles = true
may_assign a (owned_by owner) profiles =
    not (is_manager a.role && not (owner == a.id)) && any (is_eligible a owner) profiles

abbrev pub owner_of : OwnerInput → Option ℕ → Option ℕ
owner_of left_out old = old
owner_of cleared old = none
owner_of (owned_by owner) old = some owner

-- `input.resolution?.trim() || null`.
abbrev non_empty : List ℕ → Option (List ℕ)
non_empty [] = none
non_empty (c ∷ cs) = some (c ∷ cs)

unfoldable pub resolution_of : Option (List ℕ) → Option (List ℕ)
resolution_of none = none
resolution_of (some text) = non_empty (trim text)

unfoldable pub set_case : Actor → ℕ → CaseInput → ManualFlagCase → ManualFlagCase
set_case a now input c = record c {
  status = input.status;
  assigned_owner_id = owner_of input.assigned_owner_id c.assigned_owner_id;
  resolution = resolution_of input.resolution;
  published_to_agent = or_else input.publish_to_agent c.published_to_agent;
  resolved_by_id = if is_closed input.status then some a.id else none;
  resolved_at = if is_closed input.status then some now else none;
}

abbrev is_agent : Role → Bool
is_agent Role.agent = true
is_agent other = false

-- `updateManualFlagCase`.
unfoldable pub update_manual_flag_case :
    Surroundings → Actor → ℕ → CaseInput → List ManualFlagCase → Updated
update_manual_flag_case env a now input cases =
    if is_agent a.role || not env.permitted
    then forbidden
    else elim (find
        (λ (c : ManualFlagCase). c.id == input.case_id && c.organization_id == a.organization_id)
        cases) [
          | none ↦ case_not_found
          | some c ↦
              if not (env.reaches_agent c.agent_profile_id)
              then forbidden
              else (if not (may_assign a input.assigned_owner_id env.profiles)
                  then forbidden
                  else (if not (may_move c.status input.status)
                      then no_transition
                      else (if is_closed input.status && is_none (resolution_of input.resolution)
                          then resolution_required
                          else written (
                              update (λ (r : ManualFlagCase). r.id == input.case_id)
                                (set_case a now input) cases))))
        ]
