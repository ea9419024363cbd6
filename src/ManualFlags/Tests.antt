-- ===== src/ManualFlags/Tests.antt =====
-- Requests on a small table of cases, and instances of the theorems.
use openers_performance_dash.Prelude.{
  ℕ, ◌≡◌, refl, true, false, none, some, List, [], ◌∷◌, inl, inr, arith, In, All, Option,
}
use openers_performance_dash.Prelude.Text.{codes, trim, trim_start, trim_end, is_space}
use openers_performance_dash.Accounts.{Role, Actor}
use openers_performance_dash.ManualFlags.{
  ManualFlagStatus, opened, under_review, coaching_scheduled, dismissed, ManualFlagCase, CaseInput,
  left_out, no_transition, resolution_required, Surroundings, update_manual_flag_case,
  resolution_of,
}
use openers_performance_dash.ManualFlags.Cases.{IsSettled, Request, run, run-IsSettled, run-closed}

abbrev admin : Actor
admin = record { id = 7; role = Role.admin; team_ids = []; organization_id = 1 }

abbrev case_of : ℕ → ManualFlagStatus → ManualFlagCase
case_of id status = record {
  id = id;
  organization_id = 1;
  agent_profile_id = 20;
  status = status;
  assigned_owner_id = some 7;
  resolution = none;
  published_to_agent = false;
  resolved_by_id = none;
  resolved_at = none;
}

abbrev closed : ManualFlagCase
closed = record {
  id = 2;
  organization_id = 1;
  agent_profile_id = 20;
  status = dismissed;
  assigned_owner_id = some 7;
  resolution = some (codes "duplicate");
  published_to_agent = true;
  resolved_by_id = some 7;
  resolved_at = some 100;
}

abbrev cases : List ManualFlagCase
cases = case_of 1 coaching_scheduled ∷ closed ∷ []

abbrev env : Surroundings
env = record { permitted = true; reaches_agent = λ id. true; profiles = [] }

abbrev input : ℕ → ManualFlagStatus → Option (List ℕ) → CaseInput
input id status resolution = record {
  case_id = id;
  status = status;
  assigned_owner_id = left_out;
  resolution = resolution;
  publish_to_agent = none;
}

abbrev request : ℕ → ManualFlagStatus → Option (List ℕ) → Request
request id status resolution = record {
  env = env;
  actor = admin;
  now = 500;
  input = input id status resolution;
}

coaching_is_not_reviewed :
    update_manual_flag_case env admin 500 (input 1 under_review none) cases ≡ no_transition
unfolding update_manual_flag_case
coaching_is_not_reviewed = refl

dismissal_is_explained :
    update_manual_flag_case env admin 500 (input 1 dismissed (some (codes "  "))) cases
    ≡ resolution_required
unfolding update_manual_flag_case resolution_of trim trim_start trim_end is_space
dismissal_is_explained = refl

run-IsSettled_example :
    All IsSettled
      (run (request 1 dismissed (some (codes "done")) ∷ request 2 opened none ∷ []) cases)
run-IsSettled_example =
    run-IsSettled (request 1 dismissed (some (codes "done")) ∷ request 2 opened none ∷ []) cases
      (ground arith)

run-closed_example :
    In closed (run (request 1 dismissed (some (codes "done")) ∷ request 2 opened none ∷ []) cases)
run-closed_example =
    run-closed (request 1 dismissed (some (codes "done")) ∷ request 2 opened none ∷ []) cases closed
      (ground arith) (inr (inl refl)) refl
