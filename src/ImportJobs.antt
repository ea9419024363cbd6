-- ===== src/ImportJobs.antt =====
-- The queue of import jobs, src/import/jobs.ts, over the tables of src/db/schema.ts. Each
-- transaction is one function of the store. `locked` says which rows a concurrent transaction holds
-- (`skipLocked`). Times are milliseconds. The log lines and the ids of audit rows are left out.
mod Failure
pub mod Process
pub mod Invariant
pub mod Claims
pub mod Events
pub mod Leases
pub mod Retries
mod Tests
pub mod Runs
unfoldable pub use Failure.*
use openers_performance_dash.Prelude.{
  ℕ, ◌+◌, ◌*◌, Bool, true, false, not, ◌&&◌, ◌||◌, Option, none, some, List, [], ◌∷◌, ◌++◌, String,
  leb, ltb, ◌==◌, if◌then◌else◌, lte?, or_else,
}
use openers_performance_dash.Prelude.Table.{update, select_first, find}

pub data JobStatus : Type 0 where
  queued processing completed failed cancelled : JobStatus

pub data BatchStatus : Type 0 where
  uploaded processing draft validation_failed ready_to_publish active : BatchStatus
  deactivated superseded rolled_back failed rejected : BatchStatus

pub record ImportJob : Type 0 where
  pub id : ℕ
  pub organization_id : ℕ
  pub actor_profile_id : Option ℕ
  pub batch_id : ℕ
  pub status : JobStatus
  pub attempt_count : ℕ
  pub max_attempts : ℕ
  pub available_at : ℕ
  pub queued_at : ℕ
  pub processing_started_at : Option ℕ
  pub heartbeat_at : Option ℕ
  pub lease_owner : Option ℕ
  pub lease_expires_at : Option ℕ
  pub completed_at : Option ℕ
  pub failed_at : Option ℕ
  pub failure_code : Option String
  pub failure_reason : Option String

pub record ImportBatch : Type 0 where
  pub id : ℕ
  pub status : BatchStatus
  pub validation_errors : List String

pub data AuditAction : Type 0 where
  job_recovered_completed job_failed job_completed job_retried : AuditAction

pub record AuditLog : Type 0 where
  pub organization_id : ℕ
  pub actor_profile_id : Option ℕ
  pub action : AuditAction
  pub entity_id : ℕ
  pub batch_id : ℕ
  pub attempt_count : ℕ
  pub failure_code : Option String

pub record Store : Type 0 where
  pub jobs : List ImportJob
  pub batches : List ImportBatch
  pub audit_logs : List AuditLog

abbrev pub is_queued : JobStatus → Bool
is_queued JobStatus.queued = true
is_queued other = false

abbrev pub is_processing : JobStatus → Bool
is_processing JobStatus.processing = true
is_processing other = false

-- The batch statuses that a finished run of the processor leaves.
abbrev is_persisted : BatchStatus → Bool
is_persisted ready_to_publish = true
is_persisted validation_failed = true
is_persisted other = false

abbrev is_unprocessed : BatchStatus → Bool
is_unprocessed uploaded = true
is_unprocessed BatchStatus.processing = true
is_unprocessed other = false

-- The two `where` clauses of `claimNextImportJob`.
abbrev pub is_exhausted : (ℕ → Bool) → ℕ → ImportJob → Bool
is_exhausted locked now j =
    is_processing j.status
    && lte? j.lease_expires_at now
    && leb j.max_attempts j.attempt_count
    && not (locked j.id)

abbrev pub is_claimable : (ℕ → Bool) → ℕ → ImportJob → Bool
is_claimable locked now j =
    ((is_queued j.status && leb j.available_at now)
      || (is_processing j.status && lte? j.lease_expires_at now))
    && ltb j.attempt_count j.max_attempts
    && not (locked j.id)

abbrev pub retry_exhausted : String
retry_exhausted = "retry_exhausted"

abbrev pub stopped_reason : String
stopped_reason = "Import processing stopped after the retry limit."

pub batch_status : ℕ → Store → Option BatchStatus
batch_status b s = elim (find (λ (r : ImportBatch). r.id == b) s.batches) [
  | none ↦ none
  | some r ↦ some r.status
]

-- `processingPersisted`.
pub is_batch_persisted : Option BatchStatus → Bool
is_batch_persisted none = false
is_batch_persisted (some st) = is_persisted st

abbrev pub give_up_job : Bool → ℕ → ImportJob → ImportJob
give_up_job persisted now j = record j {
  status = if persisted then JobStatus.completed else JobStatus.failed;
  completed_at = if persisted then some now else none;
  failed_at = if persisted then none else some now;
  failure_code = if persisted then none else some retry_exhausted;
  failure_reason = if persisted then none else some stopped_reason;
  heartbeat_at = some now;
  lease_owner = none;
  lease_expires_at = none;
}

abbrev fail_batch : ImportBatch → ImportBatch
fail_batch r = record r { status = BatchStatus.failed; validation_errors = stopped_reason ∷ [] }

-- What `claimNextImportJob` does with an exhausted job.
pub give_up : ImportJob → ℕ → Store → Store
unfolding is_batch_persisted
give_up j now s =
    let persisted = is_batch_persisted (batch_status j.batch_id s) in
    record {
      jobs = update (λ r. r.id == j.id) (give_up_job persisted now) s.jobs;
      batches =
          if persisted
          then s.batches
          else update (λ r. r.id == j.batch_id && is_unprocessed r.status) fail_batch s.batches;
      audit_logs =
          s.audit_logs
          ++ record {
            organization_id = j.organization_id;
            actor_profile_id = j.actor_profile_id;
            action = if persisted then job_recovered_completed else job_failed;
            entity_id = j.id;
            batch_id = j.batch_id;
            attempt_count = j.attempt_count;
            failure_code = if persisted then none else some retry_exhausted;
          }
            ∷ [];
    }

pub sweep : (ℕ → Bool) → ℕ → Store → Store
sweep locked now s =
    elim (select_first (is_exhausted locked now) (λ j. or_else j.lease_expires_at 0)
      (λ j. j.queued_at) s.jobs) [ none ↦ s | some j ↦ give_up j now s ]

-- The columns that a claim sets.
abbrev pub start_job : ℕ → ℕ → ℕ → ℕ → ImportJob → ImportJob
start_job worker now expires attempts j = record j {
  status = JobStatus.processing;
  attempt_count = attempts;
  processing_started_at = some now;
  heartbeat_at = some now;
  lease_owner = some worker;
  lease_expires_at = some expires;
  failure_code = none;
  failure_reason = none;
}

pub claim_selected :
    (lease_seconds worker now : ℕ) → Option ImportJob → Store → Option ImportJob × Store
claim_selected lease_seconds worker now none s = (none, s)
claim_selected lease_seconds worker now (some j) s =
    let start = start_job worker now (now + lease_seconds * 1000) (j.attempt_count + 1) in
    (some (start j), record s { jobs = update (λ r. r.id == j.id) start s.jobs })

-- `claimNextImportJob`.
pub claim_next : (ℕ → Bool) → (lease_seconds worker now : ℕ) → Store → Option ImportJob × Store
claim_next locked lease_seconds worker now s =
    let s' = sweep locked now s in
    claim_selected lease_seconds worker now
      (select_first (is_claimable locked now) (λ j. j.available_at) (λ j. j.queued_at) s'.jobs) s'
