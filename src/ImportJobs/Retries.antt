-- ===== src/ImportJobs/Retries.antt =====
-- How often a job of src/import/jobs.ts is handed out, and how long a retry waits.
use mathlib.Core.Path.{subst}
use native.Mathlib.Nat.{pow-suc}
use openers_performance_dash.Prelude.{
  ℕ, zero, suc, ◌+◌, ◌-◌, ◌*◌, ◌^◌, ◌≤◌, ◌≡◌, refl, ap, min, Bool, true, false, ◌&&◌, Option, none,
  some, inl, inr, List, [], ◌∷◌, arith, ◌==◌, ==_iff, eq?, or_else, if◌then◌else◌, All-In, In,
  Option-cases, Bool-cases,
}
use openers_performance_dash.Prelude.Table.{
  update, find, select_first, select_first-In, IsKeyed-eq, In-update_of,
}
use openers_performance_dash.ImportJobs.{
  ImportJob, Store, is_exhausted, is_claimable, give_up_job, give_up, sweep, start_job,
  claim_selected, claim_next, JobFailure, is_batch_persisted, batch_status,
}
use openers_performance_dash.ImportJobs.Process.{
  heartbeat, complete_job, record_failure, is_retried, is_owned, extend_lease, finish_job, fail_job,
  retry_delay,
}
use openers_performance_dash.ImportJobs.Invariant.{IsValid, IsSound, sweep-IsSound}
use openers_performance_dash.ImportJobs.Events.{
  Event, claim, beat, complete, fail, set_batches, apply, run, apply-IsSound, run-IsSound,
}

-- 1 if the row that a claim hands out is the job `id`.
abbrev pub is_handed : ℕ → Option ImportJob → ℕ
is_handed id none = 0
is_handed id (some c) = if c.id == id then 1 else 0

-- How often the job `id` is handed out in one event, and in a run.
unfoldable pub handed : ℕ → Event → Store → ℕ
handed id (claim locked lease_seconds worker now) s =
    is_handed id (claim_next locked lease_seconds worker now s).0
handed id e s = 0

unfoldable pub handed_in : ℕ → List Event → Store → ℕ
handed_in id [] s = 0
handed_in id (e ∷ es) s = handed id e s + handed_in id es (apply e s)

-- The row `j` later, `n` attempts on.
record Evolves (n : ℕ) (j j' : ImportJob) : Type 0 where
  same_id : j'.id ≡ j.id
  same_limit : j'.max_attempts ≡ j.max_attempts
  more : j'.attempt_count ≡ j.attempt_count + n

record Later (n : ℕ) (j : ImportJob) (jobs : List ImportJob) : Type 0 where
  row : ImportJob
  listed : In row jobs
  evolves : Evolves n j row

stays : (j : ImportJob) (jobs : List ImportJob) → In j jobs → Later 0 j jobs
stays j jobs m = record { row = j; listed = m; evolves = omega arith }

-- An update that sets neither id, limit nor attempt count.
update-Later :
    (p : ImportJob → Bool) (f : ImportJob → ImportJob) (jobs : List ImportJob) (j : ImportJob)
    → Evolves 0 j (f j)
    → In j jobs
    → Later 0 j (update p f jobs)
update-Later p f jobs j e m = elim (Bool-cases (p j)) [
  | inl t ↦ record { row = f j; listed = rw t at (In-update_of p f jobs j m); evolves = e }
  | inr t ↦ record { row = j; listed = rw t at (In-update_of p f jobs j m); evolves = omega arith }
]

module _ (j : ImportJob) where
  sweep-Later :
      (locked : ℕ → Bool) (now : ℕ) (s : Store) → In j s.jobs → Later 0 j (sweep locked now s).jobs
  unfolding sweep
  sweep-Later locked now s m =
      elim (Option-cases (
        select_first (is_exhausted locked now) (λ j. or_else j.lease_expires_at 0)
          (λ j. j.queued_at) s.jobs)) [
            | inl n ↦ rw (n, sweep) (stays j s.jobs m)
            | inr (x, e) ↦
                rw (e, sweep)
                  (unfold give_up in
                    update-Later (λ r. r.id == x.id)
                      (give_up_job (is_batch_persisted (batch_status x.batch_id s)) now) s.jobs j
                      (omega arith) m)
          ]

  claim_selected-Later :
      (lease_seconds worker now : ℕ) (o : Option ImportJob) (s : Store)
      → IsSound s.jobs
      → ((x : ImportJob) → o ≡ some x → In x s.jobs)
      → In j s.jobs
      → Later
          (is_handed j.id (claim_selected lease_seconds worker now o s).0)
          j
          (claim_selected lease_seconds worker now o s).1.jobs
  unfolding claim_selected
  claim_selected-Later lease_seconds worker now none s h c m = stays j s.jobs m
  claim_selected-Later lease_seconds worker now (some x) s h c m =
      let start = start_job worker now (now + lease_seconds * 1000) (x.attempt_count + 1) in
      elim (Bool-cases (j.id == x.id)) [
        | inl t ↦
            let same : j ≡ x =
              IsKeyed-eq (λ r. r.id) s.jobs j x h.keyed m (c x refl) ((==_iff j.id x.id).0 t) in
            let met : (x.id == j.id) ≡ true = ground (arith, t) in
            rw met (record {
              row = start j;
              listed = rw t at (In-update_of (λ r. r.id == x.id) start s.jobs j m);
              evolves = omega (arith, ap (λ (r : ImportJob). r.attempt_count) same);
            })
        | inr t ↦
            let missed : (x.id == j.id) ≡ false = ground (arith, t) in
            rw missed (record {
              row = j;
              listed = rw t at (In-update_of (λ r. r.id == x.id) start s.jobs j m);
              evolves = omega arith;
            })
      ]

then_Later :
    (a b c : ℕ) (j : ImportJob) (xs ys : List ImportJob)
    → a + b ≡ c
    → Later a j xs
    → ((k : ImportJob) → In k xs → k.id ≡ j.id → Later b k ys)
    → Later c j ys
then_Later a b c j xs ys q l f =
    let next = f l.row l.listed l.evolves.same_id in
    record {
      row = next.row;
      listed = next.listed;
      evolves = omega (arith, q, l.evolves, next.evolves);
    }

claim_next-Later :
    (j : ImportJob) (locked : ℕ → Bool) (lease_seconds worker now : ℕ) (s : Store)
    → IsSound s.jobs
    → In j s.jobs
    → Later
        (is_handed j.id (claim_next locked lease_seconds worker now s).0)
        j
        (claim_next locked lease_seconds worker now s).1.jobs
unfolding claim_next
claim_next-Later j locked lease_seconds worker now s h m =
    let s' = sweep locked now s in
    let o =
      select_first (is_claimable locked now) (λ j. j.available_at) (λ j. j.queued_at) s'.jobs in
    let r = claim_selected lease_seconds worker now o s' in
    then_Later 0 (is_handed j.id r.0) (is_handed j.id r.0) j s'.jobs r.1.jobs (omega arith)
      (sweep-Later j locked now s m)
      (λ k n e.
        subst (λ (i : ℕ). Later (is_handed i r.0) k r.1.jobs) e
          (claim_selected-Later k lease_seconds worker now o s' (sweep-IsSound locked now s h)
            (λ x q.
              (select_first-In (is_claimable locked now) (λ j. j.available_at) (λ j. j.queued_at)
                s'.jobs x q).0)
            n))

complete_job-Later :
    (k j : ImportJob) (actor_id worker now : ℕ) (s : Store)
    → In k s.jobs
    → Later 0 k (complete_job j actor_id worker now s).1.jobs
unfolding complete_job
complete_job-Later k j actor_id worker now s m =
    elim (Option-cases (find (is_owned j.id worker) s.jobs)) [
      | inl n ↦ rw (n, complete_job) (stays k s.jobs m)
      | inr (owned, e) ↦
          rw (e, complete_job)
            (update-Later (λ r. r.id == j.id && eq? r.lease_owner worker) (finish_job now) s.jobs k
              (omega arith) m)
    ]

record_failure-Later :
    (k j : ImportJob) (actor_id : Option ℕ) (f : JobFailure) (worker now failed_at : ℕ) (s : Store)
    → In k s.jobs
    → Later 0 k (record_failure j actor_id f worker now failed_at s).1.jobs
unfolding record_failure
record_failure-Later k j actor_id f worker now failed_at s m =
    elim (Option-cases (find (is_owned j.id worker) s.jobs)) [
      | inl n ↦ rw (n, record_failure) (stays k s.jobs m)
      | inr (owned, e) ↦
          rw (e, record_failure)
            (update-Later (λ r. r.id == j.id && eq? r.lease_owner worker)
              (fail_job (is_retried j f) j f now failed_at) s.jobs k (omega arith) m)
    ]

apply-Later :
    (j : ImportJob) (e : Event) (s : Store)
    → IsSound s.jobs
    → In j s.jobs
    → Later (handed j.id e s) j (apply e s).jobs
unfolding apply handed
apply-Later j (claim locked lease_seconds worker now) s h m =
    claim_next-Later j locked lease_seconds worker now s h m
apply-Later j (beat lease_seconds job_id worker now) s h m =
    unfold heartbeat in
    update-Later (is_owned job_id worker) (extend_lease now (now + lease_seconds * 1000)) s.jobs j
      (omega arith) m
apply-Later j (complete k actor_id worker now) s h m =
    complete_job-Later j k actor_id worker now s m
apply-Later j (fail k actor_id f worker now failed_at) s h m =
    record_failure-Later j k actor_id f worker now failed_at s m
apply-Later j (set_batches batches) s h m = stays j s.jobs m

run-Later :
    (es : List Event) (j : ImportJob) (s : Store)
    → IsSound s.jobs
    → In j s.jobs
    → Later (handed_in j.id es s) j (run es s).jobs
unfolding run handed_in
run-Later [] j s h m = stays j s.jobs m
run-Later (e ∷ es) j s h m =
    then_Later (handed j.id e s) (handed_in j.id es (apply e s)) (handed_in j.id (e ∷ es) s) j
      (apply e s).jobs (run es (apply e s)).jobs refl (apply-Later j e s h m)
      (λ k n q.
        subst (λ (i : ℕ). Later (handed_in i es (apply e s)) k (run es (apply e s)).jobs) q
          (run-Later es k (apply e s) (apply-IsSound e s h) n))

-- In any run of transactions a job is handed to workers at most as often as its limit leaves it
-- attempts, lost leases and retries included.
pub handed_bounded :
    (es : List Event) (j : ImportJob) (s : Store)
    → IsSound s.jobs
    → In j s.jobs
    → j.attempt_count + handed_in j.id es s ≤ j.max_attempts
handed_bounded es j s h m =
    let l = run-Later es j s h m in
    let v : IsValid l.row =
      All-In IsValid l.row (run es s).jobs (run-IsSound es s h).valid l.listed in
    omega (arith, l.evolves, v.within)

pow_pos : (n : ℕ) → 1 ≤ 2 ^ n
pow_pos zero = omega arith
pow_pos (suc n) = rw pow-suc (omega (arith, pow_pos n))

-- The wait before a retry lies between one second and one minute, and never gets shorter from one
-- attempt to the next; while it is below the minute it doubles.
pub retry_delay_bounds :
    (n : ℕ)
    → (1000 ≤ retry_delay n)
      × (retry_delay n ≤ 60000)
      × (retry_delay (suc (suc n)) ≡ min 60000 (2 * retry_delay (suc n)))
unfolding retry_delay
retry_delay_bounds n =
    let later : suc (suc n) - 1 ≡ suc n = omega arith in
    let now : suc n - 1 ≡ n = omega arith in
    (omega (arith, pow_pos (n - 1)), omega arith, rw (later, now, pow-suc) (omega arith))
