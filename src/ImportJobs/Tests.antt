-- ===== src/ImportJobs/Tests.antt =====
-- Runs of the import queue (src/import/jobs.ts) on a small store, and instances of its theorems.
use openers_performance_dash.Prelude.{
  ℕ, suc, ◌+◌, ◌*◌, ◌≤◌, ◌≡◌, refl, Bool, true, false, none, some, inl, inr, List, [], ◌∷◌, arith,
  min, In, ◌==◌,
}
use openers_performance_dash.Prelude.Table.{select_first}
use openers_performance_dash.Accounts.{Role, AccountStatus}
use openers_performance_dash.ImportJobs.{
  JobStatus, BatchStatus, ImportJob, Store, start_job, claim_next, error, sweep, claim_selected,
  give_up, batch_status, is_batch_persisted, safe_failure,
}
use openers_performance_dash.ImportJobs.Process.{
  Surroundings, RunStatus, process_next, process_claimed, actor_for_job, after_error,
  record_failure, is_retried, retry_delay,
}
use openers_performance_dash.ImportJobs.Invariant.{IsSound}
use openers_performance_dash.ImportJobs.Claims.{Outcome, claim_next-Outcome}
use openers_performance_dash.ImportJobs.Events.{
  Event, apply, claim, complete, set_batches, run, run-IsSound,
}
use openers_performance_dash.ImportJobs.Leases.{run-leased}
use openers_performance_dash.ImportJobs.Retries.{
  handed, handed_in, handed_bounded, retry_delay_bounds,
}
use openers_performance_dash.ImportJobs.Runs.{
  Settled, IsLost, left_by, process_next-Settled, process_claimed-IsLost,
}

abbrev fresh : ℕ → ℕ → ImportJob
fresh id available_at = record {
  id = id;
  organization_id = 1;
  actor_profile_id = some 7;
  batch_id = id + 100;
  status = JobStatus.queued;
  attempt_count = 0;
  max_attempts = 3;
  available_at = available_at;
  queued_at = 0;
  processing_started_at = none;
  heartbeat_at = none;
  lease_owner = none;
  lease_expires_at = none;
  completed_at = none;
  failed_at = none;
  failure_code = none;
  failure_reason = none;
}

-- Job 2 has been available for longer than job 1.
abbrev demo : Store
demo = record {
  jobs = fresh 1 50 ∷ fresh 2 20 ∷ [];
  batches = record { id = 101; status = BatchStatus.uploaded; validation_errors = [] } ∷ [];
  audit_logs = [];
}

abbrev no_locks : ℕ → Bool
no_locks id = false

demo-IsSound : IsSound demo.jobs
demo-IsSound = record { keyed = ground arith; valid = ground arith }

-- Worker 9 claims job 2 at time 60, for thirty seconds.
abbrev leased : ImportJob
leased = start_job 9 60 30060 1 (fresh 2 20)

claims_in_order : (claim_next no_locks 30 9 60 demo).0 ≡ some leased
unfolding claim_next sweep select_first claim_selected
claims_in_order = refl

skips_locked :
    (claim_next (λ id. id == 2) 30 9 60 demo).0 ≡ some (start_job 9 60 30060 1 (fresh 1 50))
unfolding claim_next sweep select_first claim_selected
skips_locked = refl

abbrev after_claim : Store
after_claim = record { jobs = fresh 1 50 ∷ leased ∷ []; batches = demo.batches; audit_logs = [] }

after_claim-IsSound : IsSound after_claim.jobs
after_claim-IsSound = record { keyed = ground arith; valid = ground arith }

-- Three lost leases use the three attempts of job 1 up; its batch was never processed.
abbrev lost_leases : List Event
lost_leases =
    claim (λ id. id == 2) 30 9 60
    ∷ claim (λ id. id == 2) 30 8 40000
    ∷ claim (λ id. id == 2) 30 9 80000
    ∷ claim (λ id. id == 2) 30 8 120000
    ∷ []

lost_leases_use_up : handed_in 1 lost_leases demo ≡ 3
unfolding handed_in handed apply claim_next sweep select_first claim_selected give_up batch_status
    is_batch_persisted
lost_leases_use_up = refl

run-IsSound_example : IsSound (run lost_leases demo).jobs
run-IsSound_example = run-IsSound lost_leases demo demo-IsSound

claim_next-Outcome_example :
    Outcome no_locks 60 30 9 demo
      (claim_next no_locks 30 9 60 demo).1
      (claim_next no_locks 30 9 60 demo).0
claim_next-Outcome_example = claim_next-Outcome no_locks 60 30 9 demo demo-IsSound

-- Worker 8 claims and completes job 1 meanwhile, and asks for one more.
abbrev meanwhile : List Event
meanwhile =
    claim no_locks 30 8 61
    ∷ complete (fresh 1 50) 7 8 500
    ∷ claim no_locks 30 8 600
    ∷ set_batches []
    ∷ []

run-leased_example : In leased (run meanwhile after_claim).jobs
run-leased_example =
    run-leased 9 30060 leased (record { running = refl; owner = refl; until = refl }) meanwhile
      after_claim (omega arith) after_claim-IsSound (inr (inl refl))

handed_bounded_example : 0 + handed_in 1 lost_leases demo ≤ 3
handed_bounded_example = handed_bounded lost_leases (fresh 1 50) demo demo-IsSound (inl refl)

retry_delay_bounds_example :
    (1000 ≤ retry_delay 3)
    × (retry_delay 3 ≤ 60000)
    × (retry_delay (suc (suc 3)) ≡ min 60000 (2 * retry_delay (suc 3)))
retry_delay_bounds_example = retry_delay_bounds 3

-- The processor throws a transient error; the actor of the jobs is an active profile.
abbrev surroundings : Surroundings
surroundings = record {
  directory = record {
    profiles =
        record {
          id = 7;
          role = Role.admin;
          organization_id = 1;
          is_active = true;
          account_status = AccountStatus.active;
        }
        ∷ [];
    teams = [];
    memberships = [];
  };
  processor = λ a c s. (some (error "Deadlock found when trying to get lock"), s);
  commit_error = none;
  ended_at = 90;
}

retries : (process_next surroundings no_locks 30 9 60 demo).1 ≡ RunStatus.queued
unfolding process_next process_claimed actor_for_job after_error record_failure is_retried
    safe_failure claim_next sweep select_first claim_selected
retries = refl

process_next-Settled_example :
    let (o, st, s') = process_next surroundings no_locks 30 9 60 demo in Settled 60 o st s'
process_next-Settled_example =
    process_next-Settled surroundings no_locks 30 9 60 demo demo-IsSound (λ a c t h. h)

-- The job of worker 9.
abbrev taken : Store
taken = record demo { jobs = leased ∷ [] }

taken-IsLost : IsLost 8 (fresh 2 20) (left_by surroundings (fresh 2 20) taken)
unfolding actor_for_job
taken-IsLost r (inl e) i p o = cc (e, o)
taken-IsLost r (inr m) i p o = elim m [ ]

process_claimed-IsLost_example :
    process_claimed surroundings 8 60 (fresh 2 20) taken
    ≡ (some (fresh 2 20), RunStatus.lease_lost, left_by surroundings (fresh 2 20) taken)
process_claimed-IsLost_example =
    process_claimed-IsLost surroundings 8 60 (fresh 2 20) taken taken-IsLost
