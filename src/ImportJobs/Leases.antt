-- ===== src/ImportJobs/Leases.antt =====
-- The lease of a row of src/import/jobs.ts, and the transactions of the other workers.
use openers_performance_dash.Prelude.{
  ℕ, ◌+◌, ◌*◌, ◌<◌, ◌≡◌, ◌≢◌, refl, Bool, true, false, ◌&&◌, Option, none, some, inl, inr, List, [],
  ◌∷◌, arith, ◌==◌, ==_iff, eq?, or_else, All, In, Option-cases, Bool-cases,
}
use openers_performance_dash.Prelude.Table.{
  find, select_first, select_first-In, IsKeyed-eq, update-passes,
}
use openers_performance_dash.ImportJobs.{
  JobStatus, ImportJob, Store, is_exhausted, is_claimable, give_up_job, give_up, sweep, start_job,
  claim_selected, claim_next, JobFailure, is_batch_persisted, batch_status,
}
use openers_performance_dash.ImportJobs.Process.{
  heartbeat, complete_job, record_failure, is_retried, is_owned, extend_lease, finish_job, fail_job,
}
use openers_performance_dash.ImportJobs.Invariant.{IsSound, sweep-IsSound}
use openers_performance_dash.ImportJobs.Events.{
  Event, claim, beat, complete, fail, set_batches, apply, run, apply-IsSound,
}

-- The row `j` is leased to `worker` until `expires`.
pub record IsLeased (worker expires : ℕ) (j : ImportJob) : Type 0 where
  pub running : j.status ≡ JobStatus.processing
  pub owner : j.lease_owner ≡ some worker
  pub until : j.lease_expires_at ≡ some expires

-- An event that is not of `worker`, or is a claim, by any worker at all, before `expires`.
abbrev pub IsForeign : ℕ → ℕ → Event → Type 0
IsForeign worker expires (claim locked lease_seconds w now) = now < expires
IsForeign worker expires (beat lease_seconds job_id w now) = w ≢ worker
IsForeign worker expires (complete j actor_id w now) = w ≢ worker
IsForeign worker expires (fail j actor_id f w now failed_at) = w ≢ worker
IsForeign worker expires (set_batches batches) = Unit

module _ (worker expires : ℕ) (k : ImportJob) (l : IsLeased worker expires k) where
  -- The row is neither exhausted nor claimable yet.
  not_selected :
      (locked : ℕ → Bool) (now : ℕ)
      → now < expires
      → (is_exhausted locked now k ≡ false) × (is_claimable locked now k ≡ false)
  not_selected locked now h = (ground (arith, l), ground (arith, l))

  apart :
      (jobs : List ImportJob) (j : ImportJob) (t : ImportJob → Bool)
      → IsSound jobs
      → In k jobs
      → In j jobs
      → t j ≡ true
      → t k ≡ false
      → (k.id == j.id) ≡ false
  apart jobs j t h m n tj tk = elim (Bool-cases (k.id == j.id)) [
    | inr e ↦ e
    | inl e ↦
        let same : k ≡ j = IsKeyed-eq (λ r. r.id) jobs k j h.keyed m n ((==_iff k.id j.id).0 e) in
        absurd (cc (rw same at tk, tj))
  ]

  sweep-leased :
      (locked : ℕ → Bool) (now : ℕ) (s : Store)
      → now < expires
      → IsSound s.jobs
      → In k s.jobs
      → In k (sweep locked now s).jobs
  unfolding sweep
  sweep-leased locked now s b h m =
      elim (Option-cases (
        select_first (is_exhausted locked now) (λ j. or_else j.lease_expires_at 0)
          (λ j. j.queued_at) s.jobs)) [
            | inl n ↦ rw (n, sweep) m
            | inr (j, e) ↦
                let (mj, x) =
                  select_first-In (is_exhausted locked now) (λ j. or_else j.lease_expires_at 0)
                    (λ j. j.queued_at) s.jobs j e in
                rw (e, sweep)
                  (unfold give_up in
                    update-passes (λ r. r.id == j.id)
                      (give_up_job (is_batch_persisted (batch_status j.batch_id s)) now) s.jobs k
                      (apart s.jobs j (is_exhausted locked now) h m mj x
                        (not_selected locked now b).0)
                      m)
          ]

  claim_selected-leased :
      (locked : ℕ → Bool) (lease_seconds w now : ℕ) (o : Option ImportJob) (s : Store)
      → now < expires
      → IsSound s.jobs
      → In k s.jobs
      → ((j : ImportJob) → o ≡ some j → In j s.jobs × (is_claimable locked now j ≡ true))
      → In k (claim_selected lease_seconds w now o s).1.jobs
  unfolding claim_selected
  claim_selected-leased locked lease_seconds w now none s b h m c = m
  claim_selected-leased locked lease_seconds w now (some j) s b h m c =
      let (mj, t) = c j refl in
      update-passes (λ r. r.id == j.id)
        (start_job w now (now + lease_seconds * 1000) (j.attempt_count + 1)) s.jobs k
        (apart s.jobs j (is_claimable locked now) h m mj t (not_selected locked now b).1) m

  claim_next-leased :
      (locked : ℕ → Bool) (lease_seconds w now : ℕ) (s : Store)
      → now < expires
      → IsSound s.jobs
      → In k s.jobs
      → In k (claim_next locked lease_seconds w now s).1.jobs
  unfolding claim_next
  claim_next-leased locked lease_seconds w now s b h m =
      let s' = sweep locked now s in
      claim_selected-leased locked lease_seconds w now
        (select_first (is_claimable locked now) (λ j. j.available_at) (λ j. j.queued_at) s'.jobs) s'
        b (sweep-IsSound locked now s h) (sweep-leased locked now s b h m)
        (λ j e.
          select_first-In (is_claimable locked now) (λ j. j.available_at) (λ j. j.queued_at) s'.jobs
            j e)

  -- The tests of another worker's transactions refuse the row.
  not_owned :
      (job_id w : ℕ)
      → w ≢ worker
      → (is_owned job_id w k ≡ false) × ((k.id == job_id && eq? k.lease_owner w) ≡ false)
  not_owned job_id w ne = (ground (arith, l), ground (arith, l))

  complete_job-leased :
      (j : ImportJob) (actor_id w now : ℕ) (s : Store)
      → w ≢ worker
      → In k s.jobs
      → In k (complete_job j actor_id w now s).1.jobs
  unfolding complete_job
  complete_job-leased j actor_id w now s ne m =
      elim (Option-cases (find (is_owned j.id w) s.jobs)) [
        | inl n ↦ rw (n, complete_job) m
        | inr (owned, e) ↦
            rw (e, complete_job)
              (update-passes (λ r. r.id == j.id && eq? r.lease_owner w) (finish_job now) s.jobs k
                (not_owned j.id w ne).1 m)
      ]

  record_failure-leased :
      (j : ImportJob) (actor_id : Option ℕ) (f : JobFailure) (w now failed_at : ℕ) (s : Store)
      → w ≢ worker
      → In k s.jobs
      → In k (record_failure j actor_id f w now failed_at s).1.jobs
  unfolding record_failure
  record_failure-leased j actor_id f w now failed_at s ne m =
      elim (Option-cases (find (is_owned j.id w) s.jobs)) [
        | inl n ↦ rw (n, record_failure) m
        | inr (owned, e) ↦
            rw (e, record_failure)
              (update-passes (λ r. r.id == j.id && eq? r.lease_owner w)
                (fail_job (is_retried j f) j f now failed_at) s.jobs k (not_owned j.id w ne).1 m)
      ]

  apply-leased :
      (e : Event) (s : Store)
      → IsForeign worker expires e
      → IsSound s.jobs
      → In k s.jobs
      → In k (apply e s).jobs
  unfolding apply
  apply-leased (claim locked lease_seconds w now) s b h m =
      claim_next-leased locked lease_seconds w now s b h m
  apply-leased (beat lease_seconds job_id w now) s ne h m =
      unfold heartbeat in
      update-passes (is_owned job_id w) (extend_lease now (now + lease_seconds * 1000)) s.jobs k
        (not_owned job_id w ne).0 m
  apply-leased (complete j actor_id w now) s ne h m = complete_job-leased j actor_id w now s ne m
  apply-leased (fail j actor_id f w now failed_at) s ne h m =
      record_failure-leased j actor_id f w now failed_at s ne m
  apply-leased (set_batches batches) s b h m = m

  -- A job leased to a worker until some time stays exactly as it is through any transactions of
  -- other workers, and through any claims made before that time, its own worker's included.
  pub run-leased :
      (es : List Event) (s : Store)
      → All (IsForeign worker expires) es
      → IsSound s.jobs
      → In k s.jobs
      → In k (run es s).jobs
  unfolding run
  run-leased [] s f h m = m
  run-leased (e ∷ es) s f h m =
      run-leased es (apply e s) f.1 (apply-IsSound e s h) (apply-leased e s f.0 h m)
