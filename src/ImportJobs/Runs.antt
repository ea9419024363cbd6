-- ===== src/ImportJobs/Runs.antt =====
-- How a run of the import worker ends, `processNextImportJob` of src/import/jobs.ts, when it does
-- not lose its lease, and when it does.
use openers_performance_dash.Prelude.{
  ℕ, ◌+◌, ◌≤◌, ◌<◌, ◌≡◌, ◌≢◌, refl, Bool, true, false, ◌&&◌, Option, none, some, inl, inr, arith,
  ◌==◌, eq?, In, Option-cases, Bool-cases, List, [], ◌∷◌,
}
use openers_performance_dash.Prelude.Table.{update, find, find-In, In-update_of}
use openers_performance_dash.Accounts.{Actor}
use openers_performance_dash.ImportJobs.{
  JobStatus, ImportJob, Store, is_claimable, claim_next, JobError, JobFailure, safe_failure,
  confirmation,
}
use openers_performance_dash.ImportJobs.Process.{
  is_owned, complete_job, finish_job, record_failure, fail_job, is_retried, retry_delay, RunStatus,
  Surroundings, after_error, after_success, process_claimed, process_next, actor_for_job,
}
use openers_performance_dash.ImportJobs.Invariant.{IsSound, claim_next-IsSound}
use openers_performance_dash.ImportJobs.Claims.{Claimed, claim_next-Outcome}

-- The table is sound, and the worker still holds the job `c` that it claimed.
pub record Holds (worker : ℕ) (c : ImportJob) (s : Store) : Type 0 where
  pub sound : IsSound s.jobs
  pub row : ImportJob
  pub listed : In row s.jobs
  pub owned : is_owned c.id worker row ≡ true
  pub same_attempts : row.attempt_count ≡ c.attempt_count
  pub same_limit : row.max_attempts ≡ c.max_attempts

-- A row of the store that this job has become.
pub record Ends (c : ImportJob) (status : JobStatus) (s : Store) : Type 0 where
  pub row : ImportJob
  pub listed : In row s.jobs
  pub same_id : row.id ≡ c.id
  pub has_status : row.status ≡ status
  pub released : row.lease_owner ≡ none

-- Queued again, for a time at which any worker can claim it.
pub record Requeued (now : ℕ) (c : ImportJob) (s : Store) : Type 0 where
  pub row : ImportJob
  pub listed : In row s.jobs
  pub same_id : row.id ≡ c.id
  pub released : row.lease_owner ≡ none
  pub ready :
      (t : ℕ) → now + retry_delay c.attempt_count ≤ t → is_claimable (λ id. false) t row ≡ true

-- What a run's answer says of the store that it leaves.
abbrev pub Settled : ℕ → Option ImportJob → RunStatus → Store → Type 0
Settled now none RunStatus.idle s = Unit
Settled now (some c) RunStatus.completed s = Ends c JobStatus.completed s
Settled now (some c) RunStatus.queued s = Requeued now c s
Settled now (some c) RunStatus.failed s = Ends c JobStatus.failed s
Settled now _ _ s = ⊥

-- The first row that passes a test, where some row does.
find_of_In :
    (p : ImportJob → Bool) (jobs : List ImportJob) (x : ImportJob)
    → In x jobs
    → p x ≡ true
    → (y : ImportJob) × (find p jobs ≡ some y)
find_of_In p [] x m t = elim m [ ]
find_of_In p (y ∷ ys) x (inl e) t = (y, rw (rw e at t) refl)
find_of_In p (y ∷ ys) x (inr m) t = elim (Bool-cases (p y)) [
  | inl u ↦ (y, rw u refl)
  | inr u ↦ let (z, e) = find_of_In p ys x m t in (z, rw u e)
]

is_retried-below :
    (j : ImportJob) (f : JobFailure) → is_retried j f ≡ true → j.attempt_count < j.max_attempts
unfolding is_retried
is_retried-below j f h = ground arith

module _ (worker now : ℕ) (c : ImportJob) where
  owned_written :
      (s : Store) (f : ImportJob → ImportJob) (h : Holds worker c s)
      → In (f h.row) (update (λ r. r.id == c.id && eq? r.lease_owner worker) f s.jobs)
  owned_written s f h =
      let t : (h.row.id == c.id && eq? h.row.lease_owner worker) ≡ true = ground (arith, h.owned) in
      rw t at (In-update_of (λ r. r.id == c.id && eq? r.lease_owner worker) f s.jobs h.row h.listed)

  held_id : (s : Store) (h : Holds worker c s) → h.row.id ≡ c.id
  held_id s h = ground (arith, h.owned)

  record_failure-held :
      (actor_id : Option ℕ) (f : JobFailure) (failed_at : ℕ) (s : Store) (h : Holds worker c s)
      → ((record_failure c actor_id f worker now failed_at s).0 ≡ true)
        × In
            (fail_job (is_retried c f) c f now failed_at h.row)
            (record_failure c actor_id f worker now failed_at s).1.jobs
  unfolding record_failure
  record_failure-held actor_id f failed_at s h =
      let (y, q) = find_of_In (is_owned c.id worker) s.jobs h.row h.listed h.owned in
      rw (q, record_failure) (refl, owned_written s (fail_job (is_retried c f) c f now failed_at) h)

  complete_job-held :
      (actor_id completed_at : ℕ) (s : Store) (h : Holds worker c s)
      → ((complete_job c actor_id worker completed_at s).0 ≡ true)
        × In (finish_job completed_at h.row) (complete_job c actor_id worker completed_at s).1.jobs
  unfolding complete_job
  complete_job-held actor_id completed_at s h =
      let (y, q) = find_of_In (is_owned c.id worker) s.jobs h.row h.listed h.owned in
      rw (q, complete_job) (refl, owned_written s (finish_job completed_at) h)

  module _ (w : Surroundings) where
    after_error-Settled :
        (actor_id : Option ℕ) (e : JobError) (s : Store)
        → Holds worker c s
        → let (o, st, s') = after_error w worker now c actor_id e s in Settled now o st s'
    unfolding after_error
    after_error-Settled actor_id e s h =
        let f = safe_failure e in
        let (ok, m) = record_failure-held actor_id f w.ended_at s h in
        elim (Bool-cases (is_retried c f)) [
          | inl t ↦
              rw (ok, t, after_error)
                (record {
                  row = fail_job true c f now w.ended_at h.row;
                  listed = rw t at m;
                  same_id = held_id s h;
                  released = refl;
                  ready = λ u b.
                      ground (arith, b, h.same_attempts, h.same_limit, is_retried-below c f t);
                })
          | inr t ↦
              rw (ok, t, after_error)
                (record {
                  row = fail_job false c f now w.ended_at h.row;
                  listed = rw t at m;
                  same_id = held_id s h;
                  has_status = refl;
                  released = refl;
                })
        ]

    after_success-Settled :
        (actor_id : ℕ) (s : Store)
        → Holds worker c s
        → let (o, st, s') = after_success w worker now c actor_id s in Settled now o st s'
    unfolding after_success
    after_success-Settled actor_id s h = elim (Option-cases w.commit_error) [
      | inr (e, q) ↦ rw (q, after_success) (after_error-Settled (some actor_id) e s h)
      | inl n ↦
          let (ok, m) = complete_job-held actor_id w.ended_at s h in
          rw (n, ok, after_success)
            (record {
              row = finish_job w.ended_at h.row;
              listed = m;
              same_id = held_id s h;
              has_status = refl;
              released = refl;
            })
    ]

    -- If neither the processor nor what runs beside it takes the lease away, the run of a claimed
    -- job settles it: its row is completed, failed, or queued for a time at which it can be
    -- claimed again, as the answer says, and its lease is released.
    process_claimed-Settled :
        (s : Store)
        → ((a : Actor) → Holds worker c (w.processor a c s).1)
        → Holds worker c s
        → let (o, st, s') = process_claimed w worker now c s in Settled now o st s'
    unfolding process_claimed
    process_claimed-Settled s keeps h = elim (Option-cases (actor_for_job w.directory c)) [
      | inl n ↦ rw (n, process_claimed) (after_error-Settled none (confirmation "forbidden") s h)
      | inr (a, q) ↦ elim (Option-cases (w.processor a c s).0) [
        | inr (e, u) ↦
            rw (q, u, process_claimed)
              (after_error-Settled (some a.id) e (w.processor a c s).1 (keeps a))
        | inl n ↦
            rw (q, n, process_claimed) (after_success-Settled a.id (w.processor a c s).1 (keeps a))
      ]
    ]

Claimed-Holds :
    (locked : ℕ → Bool) (lease_seconds worker now : ℕ) (s s' : Store) (c : ImportJob)
    → IsSound s'.jobs
    → Claimed locked now lease_seconds worker s s' c
    → Holds worker c s'
Claimed-Holds locked lease_seconds worker now s s' c h k = record {
  sound = h;
  row = c;
  listed = k.stored;
  owned = rw k.started (ground arith);
  same_attempts = refl;
  same_limit = refl;
}

-- A run of the worker on a sound table, whose processor and whatever runs beside it leave the
-- lease alone, does not lose the lease. It answers that it was idle, or it settles the job that it
-- claimed: the job's row is completed or failed with its lease released, or queued with its lease
-- released and from the end of its delay on open to any claim, as the answer says.
pub process_next-Settled :
    (w : Surroundings) (locked : ℕ → Bool) (lease_seconds worker now : ℕ) (s : Store)
    → IsSound s.jobs
    → ((a : Actor) (c : ImportJob) (t : Store)
        → Holds worker c t
        → Holds worker c (w.processor a c t).1)
    → let (o, st, s') = process_next w locked lease_seconds worker now s in Settled now o st s'
unfolding process_next
process_next-Settled w locked lease_seconds worker now s h keeps =
    let s' = (claim_next locked lease_seconds worker now s).1 in
    let sound : IsSound s'.jobs = claim_next-IsSound locked lease_seconds worker now s h in
    elim (Option-cases (claim_next locked lease_seconds worker now s).0) [
      | inl n ↦ rw (n, process_next) tt
      | inr (c, e) ↦
          let held : Holds worker c s' =
            Claimed-Holds locked lease_seconds worker now s s' c sound
              (rw e at (claim_next-Outcome locked now lease_seconds worker s h)) in
          rw (e, process_next)
            (process_claimed-Settled worker now c w s' (λ a. keeps a c s' held) held)
    ]

-- No row says that the worker holds the job.
abbrev pub IsLost : ℕ → ImportJob → Store → Type 0
IsLost worker c s =
    (r : ImportJob)
    → In r s.jobs
    → r.id ≡ c.id
    → r.status ≡ JobStatus.processing
    → r.lease_owner ≢ some worker

find_owned-IsLost :
    (worker : ℕ) (c : ImportJob) (s : Store)
    → IsLost worker c s
    → find (is_owned c.id worker) s.jobs ≡ none
find_owned-IsLost worker c s lost = elim (Option-cases (find (is_owned c.id worker) s.jobs)) [
  | inl n ↦ n
  | inr (r, f) ↦
      let (m, t) = find-In (is_owned c.id worker) s.jobs r f in
      absurd (lost r m (ground (arith, t)) (held-processing r t) (held-owner r t))
]
  where
    held-processing :
        (r : ImportJob) → is_owned c.id worker r ≡ true → r.status ≡ JobStatus.processing
    held-processing r t = ground (arith, t)

    held-owner : (r : ImportJob) → is_owned c.id worker r ≡ true → r.lease_owner ≡ some worker
    held-owner r t = ground (arith, t)

-- The store when the processor is done with a job, or as it was where the job has no actor.
abbrev pub left_by : Surroundings → ImportJob → Store → Store
left_by w c s = elim (actor_for_job w.directory c) [ none ↦ s | some a ↦ (w.processor a c s).1 ]

after_error-IsLost :
    (w : Surroundings) (worker now : ℕ) (c : ImportJob) (actor_id : Option ℕ) (e : JobError)
    (s : Store)
    → IsLost worker c s
    → after_error w worker now c actor_id e s ≡ (some c, RunStatus.lease_lost, s)
unfolding after_error record_failure
after_error-IsLost w worker now c actor_id e s lost =
    rw (after_error, record_failure, find_owned-IsLost worker c s lost) refl

after_success-IsLost :
    (w : Surroundings) (worker now : ℕ) (c : ImportJob) (actor_id : ℕ) (s : Store)
    → IsLost worker c s
    → after_success w worker now c actor_id s ≡ (some c, RunStatus.lease_lost, s)
unfolding after_success complete_job
after_success-IsLost w worker now c actor_id s lost = elim (Option-cases w.commit_error) [
  | inl q ↦ rw (q, after_success, complete_job, find_owned-IsLost worker c s lost) refl
  | inr (e, q) ↦ rw (q, after_success) (after_error-IsLost w worker now c (some actor_id) e s lost)
]

-- Where no row of the store that the processor leaves is the job in processing with the worker as its
-- lease's owner, the run of the claimed job leaves that store as it is and answers that the lease was
-- lost, whether the job has an actor, the processor threw or the completing transaction threw, or not.
pub process_claimed-IsLost :
    (w : Surroundings) (worker now : ℕ) (c : ImportJob) (s : Store)
    → IsLost worker c (left_by w c s)
    → process_claimed w worker now c s ≡ (some c, RunStatus.lease_lost, left_by w c s)
unfolding process_claimed
process_claimed-IsLost w worker now c s lost = elim (Option-cases (actor_for_job w.directory c)) [
  | inl n ↦
      rw (n, process_claimed, left_by)
        (after_error-IsLost w worker now c none (confirmation "forbidden") s
          (rw (left_by, n) at lost))
  | inr (a, q) ↦ elim (Option-cases (w.processor a c s).0) [
    | inr (e, u) ↦
        rw (q, u, process_claimed, left_by)
          (after_error-IsLost w worker now c (some a.id) e (w.processor a c s).1
            (rw (left_by, q) at lost))
    | inl n ↦
        rw (q, n, process_claimed, left_by)
          (after_success-IsLost w worker now c a.id (w.processor a c s).1 (rw (left_by, q) at lost))
  ]
]
