-- ===== src/Outbox/Runs.antt =====
-- How a run of the outbox worker ends, `processNextEmail` of src/email/outbox.ts.
use openers_performance_dash.Prelude.{
  ℕ, ◌+◌, ◌*◌, ◌≤◌, ◌<◌, ◌≡◌, refl, Bool, true, false, Option, none, some, inl, inr, List, String,
  arith, ◌==◌, ==_iff, In, Option-cases, Bool-cases,
}
use openers_performance_dash.Prelude.Table.{
  update, In-update_of, find, find-none, select_first, select_first-In,
}
use openers_performance_dash.Outbox.{
  OutboxStatus, OutboxMessage, Store, claim_next_email, claim_selected_email, sweep_emails,
  is_available_message, start_message,
}
use openers_performance_dash.Outbox.Delivery.{
  is_owned_message, is_held, send_message, record_sent, is_permanent, is_retried_email,
  fail_message, record_failed, Surroundings, DeliveryError, permanent_outbox, other_error,
  DeliveryResult, accepted, refused, EmailRunStatus, after_email_error, after_delivery,
  process_claimed_email, process_next_email, email_retry_delay, has_message,
}

-- The message that a worker has claimed is in its hands.
pub record Holds (worker : ℕ) (c : OutboxMessage) (s : Store) : Type 0 where
  pub row : OutboxMessage
  pub listed : In row s.messages
  pub owned : is_owned_message c.id worker row ≡ true
  pub same_attempts : row.attempt_count ≡ c.attempt_count
  pub same_limit : row.max_attempts ≡ c.max_attempts

-- A row of the store that this message has become.
pub record Ends (c : OutboxMessage) (status : OutboxStatus) (s : Store) : Type 0 where
  pub row : OutboxMessage
  pub listed : In row s.messages
  pub same_id : row.id ≡ c.id
  pub has_status : row.status ≡ status
  pub released : row.lease_owner ≡ none

-- To be tried again, from a time on at which any worker can claim it.
pub record Requeued (now : ℕ) (c : OutboxMessage) (s : Store) : Type 0 where
  pub row : OutboxMessage
  pub listed : In row s.messages
  pub same_id : row.id ≡ c.id
  pub released : row.lease_owner ≡ none
  pub ready :
      (t : ℕ)
      → now + email_retry_delay c.attempt_count ≤ t
      → is_available_message (λ id. false) none t row ≡ true

-- What a run's answer says of the store that it leaves.
abbrev pub Settled : ℕ → Option OutboxMessage → EmailRunStatus → Store → Type 0
Settled now none EmailRunStatus.idle s = Unit
Settled now (some c) EmailRunStatus.sent s = Ends c OutboxStatus.sent s
Settled now (some c) EmailRunStatus.retry s = Requeued now c s
Settled now (some c) EmailRunStatus.failed s = Ends c OutboxStatus.failed s
Settled now _ _ s = ⊥

find_of_In :
    (p : OutboxMessage → Bool) (ms : List OutboxMessage) (x : OutboxMessage)
    → In x ms
    → p x ≡ true
    → (y : OutboxMessage) × (find p ms ≡ some y)
find_of_In p ms x m t = elim (Option-cases (find p ms)) [
  | inl n ↦ absurd (cc (find-none p ms x n m, t))
  | inr (y, e) ↦ (y, e)
]

is_retried_email-below :
    (c : OutboxMessage) (permanent : Bool)
    → is_retried_email c permanent ≡ true
    → c.attempt_count < c.max_attempts
is_retried_email-below c permanent h = ground arith

module _ (worker now : ℕ) (c : OutboxMessage) where
  owned_written :
      (s : Store) (f : OutboxMessage → OutboxMessage) (h : Holds worker c s)
      → In (f h.row) (update (is_held c.id worker) f s.messages)
  owned_written s f h =
      let t : is_held c.id worker h.row ≡ true = ground (arith, h.owned) in
      rw t at (In-update_of (is_held c.id worker) f s.messages h.row h.listed)

  held_id : (s : Store) (h : Holds worker c s) → h.row.id ≡ c.id
  held_id s h = ground (arith, h.owned)

  record_failed-held :
      (provider : String) (permanent : Bool) (failed_at : ℕ) (s : Store) (h : Holds worker c s)
      → ((record_failed provider c permanent worker now failed_at s).0 ≡ true)
        × In
            (fail_message permanent c now failed_at h.row)
            (record_failed provider c permanent worker now failed_at s).1.messages
  unfolding record_failed
  record_failed-held provider permanent failed_at s h =
      let (y, q) = find_of_In (is_owned_message c.id worker) s.messages h.row h.listed h.owned in
      rw (q, record_failed) (refl, owned_written s (fail_message permanent c now failed_at) h)

  record_sent-held :
      (provider : String) (message_id : Option ℕ) (sent_at : ℕ) (s : Store) (h : Holds worker c s)
      → ((record_sent c provider message_id worker sent_at s).0 ≡ true)
        × In
            (send_message provider message_id sent_at h.row)
            (record_sent c provider message_id worker sent_at s).1.messages
  unfolding record_sent
  record_sent-held provider message_id sent_at s h =
      let (y, q) = find_of_In (is_owned_message c.id worker) s.messages h.row h.listed h.owned in
      rw (q, record_sent) (refl, owned_written s (send_message provider message_id sent_at) h)

  module _ (w : Surroundings) where
    after_email_error-Settled :
        (e : DeliveryError) (s : Store)
        → Holds worker c s
        → let (o, st, s') = after_email_error w worker now c e s in Settled now o st s'
    unfolding after_email_error
    after_email_error-Settled e s h =
        let permanent = is_permanent e in
        let (ok, m) = record_failed-held w.provider permanent w.ended_at s h in
        elim (Bool-cases (is_retried_email c permanent)) [
          | inl t ↦
              rw (ok, t, after_email_error)
                (record {
                  row = fail_message permanent c now w.ended_at h.row;
                  listed = m;
                  same_id = held_id s h;
                  released = refl;
                  ready = λ u b. ground (
                    arith,
                    b,
                    t,
                    h.same_attempts,
                    h.same_limit,
                    is_retried_email-below c permanent t,
                  );
                })
          | inr t ↦
              rw (ok, t, after_email_error)
                (record {
                  row = fail_message permanent c now w.ended_at h.row;
                  listed = m;
                  same_id = held_id s h;
                  has_status = rw t refl;
                  released = refl;
                })
        ]

    after_delivery-Settled :
        (r : DeliveryResult) (s : Store)
        → Holds worker c s
        → let (o, st, s') = after_delivery w worker now c r s in Settled now o st s'
    unfolding after_delivery
    after_delivery-Settled (refused message) s h =
        after_email_error-Settled (other_error message) s h
    after_delivery-Settled (accepted provider message_id) s h = elim (Option-cases w.commit_error) [
      | inr (e, q) ↦ rw (q, after_delivery) (after_email_error-Settled (other_error e) s h)
      | inl n ↦
          let (ok, m) = record_sent-held provider message_id w.ended_at s h in
          rw (n, ok, after_delivery)
            (record {
              row = send_message provider message_id w.ended_at h.row;
              listed = m;
              same_id = held_id s h;
              has_status = refl;
              released = refl;
            })
    ]

    process_claimed_email-Settled :
        (s : Store)
        → Holds worker c (w.deliver c s).1
        → Holds worker c s
        → let (o, st, s') = process_claimed_email w worker now c s in Settled now o st s'
    unfolding process_claimed_email
    process_claimed_email-Settled s keeps h = elim (Bool-cases (has_message w c)) [
      | inr f ↦ rw (f, process_claimed_email) (after_email_error-Settled permanent_outbox s h)
      | inl t ↦
          rw (t, process_claimed_email)
            (after_delivery-Settled (w.deliver c s).0 (w.deliver c s).1 keeps)
    ]

Claimed-Holds :
    (provider : String) (locked : ℕ → Bool) (lease_seconds worker now : ℕ) (asked : Option ℕ)
    (s : Store) (c : OutboxMessage)
    → (claim_next_email provider locked lease_seconds worker now asked s).0 ≡ some c
    → Holds worker c (claim_next_email provider locked lease_seconds worker now asked s).1
unfolding claim_next_email claim_selected_email
Claimed-Holds provider locked lease_seconds worker now asked s c e =
    let s' = sweep_emails provider locked asked now s in
    elim (Option-cases (
      select_first (is_available_message locked asked now) (λ m. m.next_attempt_at)
        (λ m. m.created_at) s'.messages)) [
          | inl n ↦ absurd (cc (rw (n, claim_next_email) at e))
          | inr (m, q) ↦
              let (k, t) =
                select_first-In (is_available_message locked asked now) (λ m. m.next_attempt_at)
                  (λ m. m.created_at) s'.messages m q in
              let start =
                start_message worker now (now + lease_seconds * 1000) (m.attempt_count + 1) in
              let same : start m ≡ c = cc (rw (q, claim_next_email) at e) in
              let on : (m.id == m.id) ≡ true = (==_iff m.id m.id).1 refl in
              let there : In (start m) (update (λ r. r.id == m.id) start s'.messages) =
                rw on at (In-update_of (λ r. r.id == m.id) start s'.messages m k) in
              rw q (record {
                row = start m;
                listed = there;
                owned = ground (arith, same);
                same_attempts = ground (arith, same);
                same_limit = ground (arith, same);
              })
        ]

-- A run of the worker, while whose delivery nobody takes the message away, answers that it was idle,
-- or it settles the message that it claimed: the row is sent or failed with its lease released, or it
-- is to be tried again, with its lease released and from the end of its delay on open to any
-- claim, as the answer says.
pub process_next_email-Settled :
    (w : Surroundings) (locked : ℕ → Bool) (worker now : ℕ) (asked : Option ℕ) (s : Store)
    → ((c : OutboxMessage) (t : Store) → Holds worker c t → Holds worker c (w.deliver c t).1)
    → let (o, st, s') = process_next_email w locked worker now asked s in Settled now o st s'
unfolding process_next_email
process_next_email-Settled w locked worker now asked s keeps =
    let s' = (claim_next_email w.provider locked w.lease_seconds worker now asked s).1 in
    elim (Option-cases (claim_next_email w.provider locked w.lease_seconds worker now asked s).0) [
      | inl n ↦ rw (n, process_next_email) tt
      | inr (c, e) ↦
          let held : Holds worker c s' =
            Claimed-Holds w.provider locked w.lease_seconds worker now asked s c e in
          rw (e, process_next_email)
            (process_claimed_email-Settled worker now c w s' (keeps c s' held) held)
    ]
