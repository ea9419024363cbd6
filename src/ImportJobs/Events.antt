-- ===== src/ImportJobs/Events.antt =====
-- Workers that run at the same time: their transactions on the job table of src/import/jobs.ts in
-- one order after another.
use openers_performance_dash.Prelude.{ℕ, Bool, Option, List, [], ◌∷◌}
use openers_performance_dash.ImportJobs.{ImportJob, ImportBatch, Store, claim_next, JobFailure}
use openers_performance_dash.ImportJobs.Process.{heartbeat, complete_job, record_failure}
use openers_performance_dash.ImportJobs.Invariant.{
  IsSound, claim_next-IsSound, heartbeat-IsSound, complete_job-IsSound, record_failure-IsSound,
}

-- One transaction of some worker, or of another part of the program on the other tables.
pub data Event : Type 0 where
  claim : (ℕ → Bool) → (lease_seconds worker now : ℕ) → Event
  beat : (lease_seconds job_id worker now : ℕ) → Event
  complete : ImportJob → (actor_id worker now : ℕ) → Event
  fail : ImportJob → Option ℕ → JobFailure → (worker now failed_at : ℕ) → Event
  set_batches : List ImportBatch → Event

unfoldable pub apply : Event → Store → Store
apply (claim locked lease_seconds worker now) s = (claim_next locked lease_seconds worker now s).1
apply (beat lease_seconds job_id worker now) s = heartbeat lease_seconds job_id worker now s
apply (complete j actor_id worker now) s = (complete_job j actor_id worker now s).1
apply (fail j actor_id f worker now failed_at) s =
    (record_failure j actor_id f worker now failed_at s).1
apply (set_batches batches) s = record s { batches = batches }

unfoldable pub run : List Event → Store → Store
run [] s = s
run (e ∷ es) s = run es (apply e s)

pub apply-IsSound : (e : Event) (s : Store) → IsSound s.jobs → IsSound (apply e s).jobs
unfolding apply
apply-IsSound (claim locked lease_seconds worker now) s h =
    claim_next-IsSound locked lease_seconds worker now s h
apply-IsSound (beat lease_seconds job_id worker now) s h =
    heartbeat-IsSound lease_seconds job_id worker now s h
apply-IsSound (complete j actor_id worker now) s h = complete_job-IsSound j actor_id worker now s h
apply-IsSound (fail j actor_id f worker now failed_at) s h =
    record_failure-IsSound j actor_id f worker now failed_at s h
apply-IsSound (set_batches batches) s h = h

-- Whatever the workers do, in whatever order and at whatever times, the job table stays sound:
-- distinct ids, attempts within the limit, a lease exactly on the jobs in processing, completed and
-- failed jobs stamped.
pub run-IsSound : (es : List Event) (s : Store) → IsSound s.jobs → IsSound (run es s).jobs
unfolding run
run-IsSound [] s h = h
run-IsSound (e ∷ es) s h = run-IsSound es (apply e s) (apply-IsSound e s h)
