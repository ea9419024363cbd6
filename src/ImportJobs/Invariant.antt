-- ===== src/ImportJobs/Invariant.antt =====
-- The invariant of the rows of the job table, src/import/jobs.ts, and each transaction by itself.
use openers_performance_dash.Prelude.{
  ℕ, ◌+◌, ◌*◌, ◌≤◌, ◌<◌, ◌≡◌, ◌≢◌, refl, Bool, true, false, ◌&&◌, Option, none, some, inl, inr,
  List, arith, ◌==◌, ==_iff, eq?, or_else, is_some, All, In, Option-cases,
}
use openers_performance_dash.Prelude.Table.{
  update, select_first, select_first-In, IsKeyed, IsKeyed-eq, update-IsKeyed, update-All, find,
}
use openers_performance_dash.ImportJobs.{
  JobStatus, ImportJob, Store, is_exhausted, is_claimable, give_up_job, give_up, sweep, start_job,
  claim_selected, claim_next, JobFailure, is_batch_persisted, batch_status,
}
use openers_performance_dash.ImportJobs.Process.{
  heartbeat, complete_job, record_failure, is_retried, is_owned, extend_lease, finish_job, fail_job,
}

pub record IsValid (j : ImportJob) : Type 0 where
  pub within : j.attempt_count ≤ j.max_attempts
  pub owned : j.status ≡ JobStatus.processing → is_some j.lease_owner ≡ true
  pub leased : j.status ≡ JobStatus.processing → is_some j.lease_expires_at ≡ true
  pub attempted : j.status ≡ JobStatus.processing → 0 < j.attempt_count
  pub free : j.status ≢ JobStatus.processing → (j.lease_owner ≡ none) × (j.lease_expires_at ≡ none)
  pub finished : j.status ≡ JobStatus.completed → is_some j.completed_at ≡ true
  pub explained :
      j.status ≡ JobStatus.failed → (is_some j.failed_at ≡ true) × (is_some j.failure_code ≡ true)

pub record IsSound (jobs : List ImportJob) : Type 0 where
  pub keyed : IsKeyed (λ (j : ImportJob). j.id) jobs
  pub valid : All IsValid jobs

-- An `UPDATE` that keeps the rows it sets valid, and their ids, keeps the table sound.
update-IsSound :
    (p : ImportJob → Bool) (f : ImportJob → ImportJob) (jobs : List ImportJob)
    → ((x : ImportJob) → (f x).id ≡ x.id)
    → ((x : ImportJob) → In x jobs → IsValid x → p x ≡ true → IsValid (f x))
    → IsSound jobs
    → IsSound (update p f jobs)
update-IsSound p f jobs same keep h = record {
  keyed = update-IsKeyed (λ (j : ImportJob). j.id) p f jobs same h.keyed;
  valid = update-All IsValid p f jobs keep h.valid;
}

give_up-IsSound :
    (j : ImportJob) (now : ℕ) (s : Store) → IsSound s.jobs → IsSound (give_up j now s).jobs
unfolding give_up
give_up-IsSound j now s h =
    let persisted = is_batch_persisted (batch_status j.batch_id s) in
    update-IsSound (λ r. r.id == j.id) (give_up_job persisted now) s.jobs (λ x. refl)
      (λ x m v t. gives_up persisted x v) h
  where
    gives_up :
        (persisted : Bool) (x : ImportJob) → IsValid x → IsValid (give_up_job persisted now x)
    gives_up true x v = ground arith
    gives_up false x v = ground arith

pub sweep-IsSound :
    (locked : ℕ → Bool) (now : ℕ) (s : Store) → IsSound s.jobs → IsSound (sweep locked now s).jobs
unfolding sweep
sweep-IsSound locked now s h =
    elim (Option-cases (
      select_first (is_exhausted locked now) (λ j. or_else j.lease_expires_at 0) (λ j. j.queued_at)
        s.jobs)) [
          | inl n ↦ rw (n, sweep) h
          | inr (j, e) ↦ rw (e, sweep) (give_up-IsSound j now s h)
        ]

start_job-IsValid :
    (locked : ℕ → Bool) (now worker expires : ℕ) (j : ImportJob)
    → is_claimable locked now j ≡ true
    → IsValid (start_job worker now expires (j.attempt_count + 1) j)
start_job-IsValid locked now worker expires j t = ground arith

claim_selected-IsSound :
    (locked : ℕ → Bool) (lease_seconds worker now : ℕ) (j : ImportJob) (s : Store)
    → In j s.jobs
    → is_claimable locked now j ≡ true
    → IsSound s.jobs
    → IsSound (claim_selected lease_seconds worker now (some j) s).1.jobs
unfolding claim_selected
claim_selected-IsSound locked lease_seconds worker now j s m t h =
    update-IsSound (λ r. r.id == j.id)
      (start_job worker now (now + lease_seconds * 1000) (j.attempt_count + 1)) s.jobs (λ x. refl)
      (λ x n v e.
        let same : x ≡ j = IsKeyed-eq (λ r. r.id) s.jobs x j h.keyed n m ((==_iff x.id j.id).0 e) in
        rw same (start_job-IsValid locked now worker (now + lease_seconds * 1000) j t))
      h

-- A claim keeps every row valid, whichever rows are locked.
pub claim_next-IsSound :
    (locked : ℕ → Bool) (lease_seconds worker now : ℕ) (s : Store)
    → IsSound s.jobs
    → IsSound (claim_next locked lease_seconds worker now s).1.jobs
unfolding claim_next
claim_next-IsSound locked lease_seconds worker now s h =
    let s' = sweep locked now s in
    let swept : IsSound s'.jobs = sweep-IsSound locked now s h in
    elim (Option-cases
      (select_first (is_claimable locked now) (λ j. j.available_at) (λ j. j.queued_at) s'.jobs)) [
        | inl n ↦ rw n (unfold claim_selected in swept)
        | inr (j, e) ↦
            let (m, t) =
              select_first-In (is_claimable locked now) (λ j. j.available_at) (λ j. j.queued_at)
                s'.jobs j e in
            rw e (claim_selected-IsSound locked lease_seconds worker now j s' m t swept)
      ]

pub heartbeat-IsSound :
    (lease_seconds job_id worker now : ℕ) (s : Store)
    → IsSound s.jobs
    → IsSound (heartbeat lease_seconds job_id worker now s).jobs
unfolding heartbeat
heartbeat-IsSound lease_seconds job_id worker now s h =
    update-IsSound (is_owned job_id worker) (extend_lease now (now + lease_seconds * 1000)) s.jobs
      (λ x. refl) (λ x m v t. ground arith) h

pub complete_job-IsSound :
    (j : ImportJob) (actor_id worker now : ℕ) (s : Store)
    → IsSound s.jobs
    → IsSound (complete_job j actor_id worker now s).1.jobs
unfolding complete_job
complete_job-IsSound j actor_id worker now s h =
    elim (Option-cases (find (is_owned j.id worker) s.jobs)) [
      | inl n ↦ rw (n, complete_job) h
      | inr (owned, e) ↦
          rw (e, complete_job)
            (update-IsSound (λ r. r.id == j.id && eq? r.lease_owner worker) (finish_job now) s.jobs
              (λ x. refl) (λ x m v t. ground arith) h)
    ]

pub record_failure-IsSound :
    (j : ImportJob) (actor_id : Option ℕ) (f : JobFailure) (worker now failed_at : ℕ) (s : Store)
    → IsSound s.jobs
    → IsSound (record_failure j actor_id f worker now failed_at s).1.jobs
unfolding record_failure
record_failure-IsSound j actor_id f worker now failed_at s h =
    elim (Option-cases (find (is_owned j.id worker) s.jobs)) [
      | inl n ↦ rw (n, record_failure) h
      | inr (owned, e) ↦
          rw (e, record_failure)
            (update-IsSound (λ r. r.id == j.id && eq? r.lease_owner worker)
              (fail_job (is_retried j f) j f now failed_at) s.jobs (λ x. refl)
              (λ x m v t. fails (is_retried j f) x v) h)
    ]
  where
    fails :
        (retry : Bool) (x : ImportJob) → IsValid x → IsValid (fail_job retry j f now failed_at x)
    fails true x v = ground arith
    fails false x v = ground arith
