-- ===== src/ImportJobs/Claims.antt =====
-- What `claimNextImportJob` of src/import/jobs.ts hands to a worker.
use openers_performance_dash.Prelude.{
  ℕ, ◌+◌, ◌*◌, ◌≡◌, refl, sym, Bool, true, false, Option, none, some, inl, inr, arith, ◌==◌, ==_iff,
  or_else, In, Option-cases, Bool-cases,
}
use openers_performance_dash.Prelude.Table.{
  before, select_first, select_first-In, select_first-none, select_first-least, IsKeyed-eq,
  In-update, In-update_of,
}
use openers_performance_dash.ImportJobs.{
  ImportJob, Store, is_exhausted, is_claimable, give_up_job, give_up, sweep, start_job,
  claim_selected, claim_next, is_batch_persisted, batch_status,
}
use openers_performance_dash.ImportJobs.Invariant.{IsSound}

module _ (locked : ℕ → Bool) (now : ℕ) where
  -- A claimable row is never the exhausted one.
  give_up-keeps :
      (j : ImportJob) (s : Store) (k : ImportJob)
      → IsSound s.jobs
      → In j s.jobs
      → is_exhausted locked now j ≡ true
      → is_claimable locked now k ≡ true
      → In k s.jobs
      → In k (give_up j now s).jobs
  unfolding give_up
  give_up-keeps j s k h m x c n =
      let f = give_up_job (is_batch_persisted (batch_status j.batch_id s)) now in
      elim (Bool-cases (k.id == j.id)) [
        | inl e ↦
            let same : k ≡ j =
              IsKeyed-eq (λ r. r.id) s.jobs k j h.keyed n m ((==_iff k.id j.id).0 e) in
            absurd (clash (rw same at c))
        | inr e ↦ rw e at (In-update_of (λ r. r.id == j.id) f s.jobs k n)
      ]
    where
      clash : is_claimable locked now j ≡ true → ⊥
      clash c = ground arith

  give_up-brings :
      (j : ImportJob) (s : Store) (k : ImportJob)
      → is_claimable locked now k ≡ true
      → In k (give_up j now s).jobs
      → In k s.jobs
  unfolding give_up
  give_up-brings j s k c n =
      let persisted = is_batch_persisted (batch_status j.batch_id s) in
      let (x, m, e) = In-update (λ r. r.id == j.id) (give_up_job persisted now) s.jobs k n in
      elim (Bool-cases (x.id == j.id)) [
        | inl t ↦ absurd (clash persisted x (rw (rw t at e) at c))
        | inr t ↦ rw (rw t at e) m
      ]
    where
      clash :
          (persisted : Bool) (x : ImportJob)
          → is_claimable locked now (give_up_job persisted now x) ≡ true
          → ⊥
      clash true x c = ground arith
      clash false x c = ground arith

  sweep-claimable :
      (s : Store) (k : ImportJob)
      → IsSound s.jobs
      → is_claimable locked now k ≡ true
      → (In k s.jobs → In k (sweep locked now s).jobs)
        × (In k (sweep locked now s).jobs → In k s.jobs)
  unfolding sweep
  sweep-claimable s k h c =
      elim (Option-cases (
        select_first (is_exhausted locked now) (λ j. or_else j.lease_expires_at 0)
          (λ j. j.queued_at) s.jobs)) [
            | inl n ↦ rw (n, sweep) ((λ m. m), (λ m. m))
            | inr (j, e) ↦
                let (m, x) =
                  select_first-In (is_exhausted locked now) (λ j. or_else j.lease_expires_at 0)
                    (λ j. j.queued_at) s.jobs j e in
                rw (e, sweep) (give_up-keeps j s k h m x c, give_up-brings j s k c)
          ]

  module _ (lease_seconds worker : ℕ) where
    claim_selected-some :
        (j : ImportJob) (s : Store)
        → (claim_selected lease_seconds worker now (some j) s).0
          ≡ some (start_job worker now (now + lease_seconds * 1000) (j.attempt_count + 1) j)
    unfolding claim_selected
    claim_selected-some j s = refl

    claim_selected-none : (s : Store) → (claim_selected lease_seconds worker now none s).0 ≡ none
    unfolding claim_selected
    claim_selected-none s = refl

    claim_selected-stores :
        (j : ImportJob) (s : Store)
        → In j s.jobs
        → In
            (start_job worker now (now + lease_seconds * 1000) (j.attempt_count + 1) j)
            (claim_selected lease_seconds worker now (some j) s).1.jobs
    unfolding claim_selected
    claim_selected-stores j s m = rw ((==_iff j.id j.id).1 refl) at (
        In-update_of (λ r. r.id == j.id)
          (start_job worker now (now + lease_seconds * 1000) (j.attempt_count + 1)) s.jobs j m)

    claim_next-none :
        (s : Store) (k : ImportJob)
        → IsSound s.jobs
        → (claim_next locked lease_seconds worker now s).0 ≡ none
        → In k s.jobs
        → is_claimable locked now k ≡ false
    unfolding claim_next
    claim_next-none s k h e m = elim (Bool-cases (is_claimable locked now k)) [
      | inr f ↦ f
      | inl t ↦
          elim (Option-cases (
            select_first (is_claimable locked now) (λ j. j.available_at) (λ j. j.queued_at)
              (sweep locked now s).jobs)) [
                | inl n ↦
                    select_first-none (is_claimable locked now) (λ j. j.available_at)
                      (λ j. j.queued_at) (sweep locked now s).jobs k n
                      ((sweep-claimable s k h t).0 m)
                | inr (j, q) ↦ cc (rw q at e, claim_selected-some j (sweep locked now s))
              ]
    ]

    -- What a claim that hands out `c` has done: `c` is a row of the table that could be claimed,
    -- with one more attempt and a fresh lease of this worker; it stands in the new table; and no
    -- row that could be claimed came before it.
    pub record Claimed (s s' : Store) (c : ImportJob) : Type 0 where
      pub job : ImportJob
      pub listed : In job s.jobs
      pub claimable : is_claimable locked now job ≡ true
      pub started :
          c ≡ start_job worker now (now + lease_seconds * 1000) (job.attempt_count + 1) job
      pub stored : In c s'.jobs
      pub first :
          (k : ImportJob)
          → In k s.jobs
          → is_claimable locked now k ≡ true
          → before (λ j. j.available_at) (λ j. j.queued_at) k job ≡ false

    claim_next-Claimed :
        (s : Store) (c : ImportJob)
        → IsSound s.jobs
        → (claim_next locked lease_seconds worker now s).0 ≡ some c
        → Claimed s (claim_next locked lease_seconds worker now s).1 c
    unfolding claim_next
    claim_next-Claimed s c h e =
        elim (Option-cases (
          select_first (is_claimable locked now) (λ j. j.available_at) (λ j. j.queued_at)
            (sweep locked now s).jobs)) [
              | inl n ↦ absurd (cc (rw n at e, claim_selected-none (sweep locked now s)))
              | inr (j, q) ↦
                  let s' = sweep locked now s in
                  let (m, t) =
                    select_first-In (is_claimable locked now) (λ j. j.available_at)
                      (λ j. j.queued_at) s'.jobs j q in
                  let same : start_job worker now (now + lease_seconds * 1000) (j.attempt_count + 1)
                        j
                      ≡ c =
                    cc (rw q at e, claim_selected-some j s') in
                  rw q (record {
                    job = j;
                    listed = (sweep-claimable s j h t).1 m;
                    claimable = t;
                    started = sym same;
                    stored = rw (← same) (claim_selected-stores j s' m);
                    first = λ k n u.
                        select_first-least (is_claimable locked now) (λ j. j.available_at)
                          (λ j. j.queued_at) s'.jobs j k q ((sweep-claimable s k h u).0 n) u;
                  })
            ]

    abbrev pub Outcome : Store → Store → Option ImportJob → Type 0
    Outcome s s' none = (k : ImportJob) → In k s.jobs → is_claimable locked now k ≡ false
    Outcome s s' (some c) = Claimed s s' c

    -- On a sound table a claim hands out nothing only if no row can be claimed. Otherwise it hands
    -- out a claimable row that no other claimable row precedes by (availableAt, queuedAt), with its
    -- attempt count one higher and a lease of this worker for the whole lease time, and that is
    -- what the table then holds.
    pub claim_next-Outcome :
        (s : Store)
        → IsSound s.jobs
        → Outcome s
            (claim_next locked lease_seconds worker now s).1
            (claim_next locked lease_seconds worker now s).0
    claim_next-Outcome s h = elim (Option-cases (claim_next locked lease_seconds worker now s).0) [
      | inl n ↦ rw n (λ k m. claim_next-none s k h n m)
      | inr (c, e) ↦ rw e (claim_next-Claimed s c h e)
    ]
