-- ===== src/ImportJobs/Process.antt =====
-- One run of the import worker, src/import/jobs.ts: `heartbeatImportJob`, `actorForJob`, the two
-- transactions that end a job, and `processNextImportJob`, which composes them.
use openers_performance_dash.Prelude.{
  ℕ, ◌+◌, ◌-◌, ◌*◌, ◌^◌, min, Bool, true, false, not, ◌&&◌, Option, none, some, List, [], ◌∷◌, ◌++◌,
  map, leb, ◌==◌, if◌then◌else◌, eq?, is_none, any,
}
use openers_performance_dash.Prelude.Table.{update, find, select_where}
use openers_performance_dash.Accounts.{
  Actor, Profile, Team, TeamMembership, Directory, is_active_status,
}
use openers_performance_dash.ImportJobs.{
  JobStatus, BatchStatus, ImportJob, ImportBatch, job_failed, job_completed, job_retried, Store,
  is_processing, claim_next, JobError, confirmation, JobFailure, safe_failure,
}

-- The row belongs to this worker's unfinished job.
abbrev pub is_owned : ℕ → ℕ → ImportJob → Bool
is_owned job_id worker j = j.id == job_id && is_processing j.status && eq? j.lease_owner worker

abbrev pub extend_lease : ℕ → ℕ → ImportJob → ImportJob
extend_lease now expires j = record j { heartbeat_at = some now; lease_expires_at = some expires }

-- `heartbeatImportJob`.
unfoldable pub heartbeat : (lease_seconds job_id worker now : ℕ) → Store → Store
heartbeat lease_seconds job_id worker now s = record s {
  jobs = update (is_owned job_id worker) (extend_lease now (now + lease_seconds * 1000)) s.jobs;
}

abbrev is_eligible : Profile → Bool
is_eligible p = p.is_active && is_active_status p.account_status

-- A membership of the profile that has not ended, in a team of the organization that is active,
-- not archived and not deleted (the inner join of `actorForJob`).
abbrev is_open_team : ℕ → Team → Bool
is_open_team org t =
    t.organization_id == org && t.is_active && is_none t.archived_at && is_none t.deleted_at

abbrev is_current_membership : Profile → List Team → TeamMembership → Bool
is_current_membership p teams m =
    m.profile_id == p.id
    && m.is_active
    && is_none m.ended_at
    && any (λ (t : Team). t.id == m.team_id && is_open_team p.organization_id t) teams

abbrev actor_of_profile : Directory → Profile → Actor
actor_of_profile d p = record {
  id = p.id;
  role = p.role;
  team_ids =
      map (λ (m : TeamMembership). m.team_id)
        (select_where (is_current_membership p d.teams) d.memberships);
  organization_id = p.organization_id;
}

-- `actorForJob`.
unfoldable pub actor_for_job : Directory → ImportJob → Option Actor
actor_for_job d j = elim j.actor_profile_id [
  | none ↦ none
  | some a ↦
      elim (find (λ (p : Profile). p.id == a && p.organization_id == j.organization_id)
        d.profiles) [
          | none ↦ none
          | some p ↦ if is_eligible p then some (actor_of_profile d p) else none
        ]
]

abbrev pub finish_job : ℕ → ImportJob → ImportJob
finish_job now j = record j {
  status = JobStatus.completed;
  completed_at = some now;
  heartbeat_at = some now;
  lease_owner = none;
  lease_expires_at = none;
}

-- The transaction after the processor has succeeded. Its answer is `completed`.
unfoldable pub complete_job : ImportJob → ℕ → (worker now : ℕ) → Store → Bool × Store
complete_job j actor_id worker now s = elim (find (is_owned j.id worker) s.jobs) [
  | none ↦ (false, s)
  | some owned ↦ (
    true,
    record s {
      jobs = update (λ r. r.id == j.id && eq? r.lease_owner worker) (finish_job now) s.jobs;
      audit_logs =
          s.audit_logs
          ++ record {
            organization_id = j.organization_id;
            actor_profile_id = some actor_id;
            action = job_completed;
            entity_id = j.id;
            batch_id = j.batch_id;
            attempt_count = j.attempt_count;
            failure_code = none;
          }
            ∷ [];
    },
  )
]

-- Milliseconds until the next attempt after the given number of attempts.
unfoldable pub retry_delay : ℕ → ℕ
retry_delay attempts = min 60000 (1000 * 2 ^ (attempts - 1))

unfoldable pub is_retried : ImportJob → JobFailure → Bool
is_retried j f = f.retryable && not (leb j.max_attempts j.attempt_count)

abbrev pub fail_job : Bool → ImportJob → JobFailure → (now failed_at : ℕ) → ImportJob → ImportJob
fail_job retry j f now failed_at r = record r {
  status = if retry then JobStatus.queued else JobStatus.failed;
  available_at = if retry then now + retry_delay j.attempt_count else j.available_at;
  failed_at = if retry then none else some failed_at;
  failure_code = some f.code;
  failure_reason = some f.reason;
  lease_owner = none;
  lease_expires_at = none;
}

abbrev requeue_batch : ImportBatch → ImportBatch
requeue_batch b = record b { status = BatchStatus.uploaded }

-- The transaction of the `catch` block. Its answer is `recorded`.
unfoldable pub record_failure :
    ImportJob → Option ℕ → JobFailure → (worker now failed_at : ℕ) → Store → Bool × Store
unfolding is_retried retry_delay
record_failure j actor_id f worker now failed_at s = elim (find (is_owned j.id worker) s.jobs) [
  | none ↦ (false, s)
  | some owned ↦
      let retry = is_retried j f in
      (
        true,
        record {
          jobs =
              update (λ r. r.id == j.id && eq? r.lease_owner worker)
                (fail_job retry j f now failed_at) s.jobs;
          batches =
              if retry
              then update (λ (b : ImportBatch). b.id == j.batch_id) requeue_batch s.batches
              else s.batches;
          audit_logs =
              s.audit_logs
              ++ record {
                organization_id = j.organization_id;
                actor_profile_id = actor_id;
                action = if retry then job_retried else job_failed;
                entity_id = j.id;
                batch_id = j.batch_id;
                attempt_count = j.attempt_count;
                failure_code = some f.code;
              }
                ∷ [];
        },
      )
]

pub data RunStatus : Type 0 where
  idle lease_lost completed queued failed : RunStatus

-- What the run meets outside itself: the tables of accounts, what is in the store when the
-- processor is done and whether it threw (the processor itself, heartbeats and other workers act
-- in between), whether the completing transaction threw, and the clock at the end.
pub record Surroundings : Type 0 where
  pub directory : Directory
  pub processor : Actor → ImportJob → Store → Option JobError × Store
  pub commit_error : Option JobError
  pub ended_at : ℕ

abbrev pub Run : Type 0
Run = Option ImportJob × RunStatus × Store

unfoldable pub after_error :
    Surroundings → (worker now : ℕ) → ImportJob → Option ℕ → JobError → Store → Run
after_error w worker now j actor_id e s =
    let f = safe_failure e in
    let (recorded, s') = record_failure j actor_id f worker now w.ended_at s in
    (some j, if recorded then (if is_retried j f then queued else failed) else lease_lost, s')

unfoldable pub after_success : Surroundings → (worker now : ℕ) → ImportJob → ℕ → Store → Run
after_success w worker now j actor_id s = elim w.commit_error [
  | some e ↦ after_error w worker now j (some actor_id) e s
  | none ↦
      let (done, s') = complete_job j actor_id worker w.ended_at s in
      (some j, if done then completed else lease_lost, s')
]

unfoldable pub process_claimed : Surroundings → (worker now : ℕ) → ImportJob → Store → Run
process_claimed w worker now j s = elim (actor_for_job w.directory j) [
  | none ↦ after_error w worker now j none (confirmation "forbidden") s
  | some a ↦
      let (thrown, s') = w.processor a j s in
      elim thrown [
        | some e ↦ after_error w worker now j (some a.id) e s'
        | none ↦ after_success w worker now j a.id s'
      ]
]

-- `processNextImportJob`.
unfoldable pub process_next :
    Surroundings → (ℕ → Bool) → (lease_seconds worker now : ℕ) → Store → Run
process_next w locked lease_seconds worker now s =
    let (claimed, s') = claim_next locked lease_seconds worker now s in
    elim claimed [ none ↦ (none, idle, s') | some j ↦ process_claimed w worker now j s' ]
