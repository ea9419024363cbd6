-- ===== src/Outbox/Invariant.antt =====
-- The invariant of the rows of the outbox, src/email/outbox.ts, and each transaction by itself.
use openers_performance_dash.Prelude.{
  ℕ, ◌+◌, ◌*◌, ◌≤◌, ◌<◌, ◌≡◌, ◌≢◌, refl, String, Bool, true, Option, none, some, inl, inr, any,
  List, arith, ◌==◌, ==_iff, or_else, is_some, All, In, append-All, any-none, Option-cases,
  Bool-cases,
}
use openers_performance_dash.Prelude.Table.{
  update, select_first, select_first-In, IsKeyed, IsKeyed-eq, update-IsKeyed, append-IsKeyed,
  update-All, find, find-In,
}
use openers_performance_dash.Accounts.{Actor, is_admin}
use openers_performance_dash.Outbox.{
  OutboxStatus, OutboxMessage, EnqueueInput, Store, new_message, conflicts, insert_message, enqueue,
  is_exhausted_message, is_available_message, give_up_message, give_up_email, sweep_emails,
  start_message, claim_selected_email, claim_next_email,
}
use openers_performance_dash.Outbox.Delivery.{
  is_owned_message, is_held, send_message, record_sent, is_retried_email, fail_message,
  record_failed, requeue_message, is_retriable, retry_failed_email,
}

pub record IsValid (m : OutboxMessage) : Type 0 where
  pub within : m.attempt_count ≤ m.max_attempts
  pub owned : m.status ≡ OutboxStatus.processing → is_some m.lease_owner ≡ true
  pub leased : m.status ≡ OutboxStatus.processing → is_some m.lease_expires_at ≡ true
  pub attempted : m.status ≡ OutboxStatus.processing → 0 < m.attempt_count
  pub free :
      m.status ≢ OutboxStatus.processing → (m.lease_owner ≡ none) × (m.lease_expires_at ≡ none)
  pub delivered :
      m.status ≡ OutboxStatus.sent → (is_some m.sent_at ≡ true) × (m.encrypted_payload ≡ none)
  pub pending : m.status ≢ OutboxStatus.sent → is_some m.encrypted_payload ≡ true
  pub explained :
      m.status ≡ OutboxStatus.failed
      → (is_some m.failed_at ≡ true) × (is_some m.failure_code ≡ true)

pub record IsSound (ms : List OutboxMessage) : Type 0 where
  pub keyed : IsKeyed (λ (m : OutboxMessage). m.id) ms
  pub intents : IsKeyed (λ (m : OutboxMessage). m.idempotency_key) ms
  pub valid : All IsValid ms

-- An `UPDATE` that keeps the rows it sets valid, and their keys, keeps the table sound.
update-IsSound :
    (p : OutboxMessage → Bool) (f : OutboxMessage → OutboxMessage) (ms : List OutboxMessage)
    → ((x : OutboxMessage) → ((f x).id ≡ x.id) × ((f x).idempotency_key ≡ x.idempotency_key))
    → ((x : OutboxMessage) → In x ms → IsValid x → p x ≡ true → IsValid (f x))
    → IsSound ms
    → IsSound (update p f ms)
update-IsSound p f ms same keep h = record {
  keyed = update-IsKeyed (λ (m : OutboxMessage). m.id) p f ms (λ x. (same x).0) h.keyed;
  intents =
      update-IsKeyed (λ (m : OutboxMessage). m.idempotency_key) p f ms (λ x. (same x).1) h.intents;
  valid = update-All IsValid p f ms keep h.valid;
}

-- The same for the update of one row of the table, by its id.
update_one-IsSound :
    (m : OutboxMessage) (f : OutboxMessage → OutboxMessage) (ms : List OutboxMessage)
    → In m ms
    → ((x : OutboxMessage) → ((f x).id ≡ x.id) × ((f x).idempotency_key ≡ x.idempotency_key))
    → (IsValid m → IsValid (f m))
    → IsSound ms
    → IsSound (update (λ r. r.id == m.id) f ms)
update_one-IsSound m f ms k same keep h =
    update-IsSound (λ r. r.id == m.id) f ms same
      (λ x n v e.
        let one : x ≡ m = IsKeyed-eq (λ r. r.id) ms x m h.keyed n k ((==_iff x.id m.id).0 e) in
        rw one (keep (rw one at v)))
      h

new_message-IsValid : (id now : ℕ) (input : EnqueueInput) → IsValid (new_message id now input)
new_message-IsValid id now input = ground arith

pub enqueue-IsSound :
    (id now : ℕ) (input : EnqueueInput) (s : Store)
    → IsSound s.messages
    → IsSound (enqueue id now input s).1.messages
unfolding enqueue insert_message
enqueue-IsSound id now input s h =
    elim (Bool-cases (any (conflicts id input.idempotency_key) s.messages)) [
      | inl t ↦ rw t h
      | inr t ↦ rw t (record {
        keyed =
            append-IsKeyed (λ m. m.id) s.messages (new_message id now input) h.keyed
              (λ y m.
                ground (arith, any-none (conflicts id input.idempotency_key) s.messages y t m));
        intents =
            append-IsKeyed (λ m. m.idempotency_key) s.messages (new_message id now input) h.intents
              (λ y m.
                ground (arith, any-none (conflicts id input.idempotency_key) s.messages y t m));
        valid =
            append-All IsValid s.messages (new_message id now input) h.valid
              (new_message-IsValid id now input);
      })
    ]

pub sweep_emails-IsSound :
    (provider : String) (locked : ℕ → Bool) (asked : Option ℕ) (now : ℕ) (s : Store)
    → IsSound s.messages
    → IsSound (sweep_emails provider locked asked now s).messages
unfolding sweep_emails give_up_email
sweep_emails-IsSound provider locked asked now s h =
    elim (Option-cases (
      select_first (is_exhausted_message locked asked now) (λ m. or_else m.lease_expires_at 0)
        (λ m. m.created_at) s.messages)) [
          | inl n ↦ rw (n, sweep_emails) h
          | inr (m, e) ↦
              let (k, t) =
                select_first-In (is_exhausted_message locked asked now)
                  (λ m. or_else m.lease_expires_at 0) (λ m. m.created_at) s.messages m e in
              rw (e, sweep_emails)
                (update_one-IsSound m (give_up_message now) s.messages k (λ x. (refl, refl))
                  (λ v. ground (arith, t, v)) h)
        ]

start_message-IsValid :
    (locked : ℕ → Bool) (asked : Option ℕ) (worker now expires : ℕ) (m : OutboxMessage)
    → is_available_message locked asked now m ≡ true
    → IsValid m
    → IsValid (start_message worker now expires (m.attempt_count + 1) m)
start_message-IsValid locked asked worker now expires m t v = ground arith

-- A claim keeps every row valid, whichever rows are locked.
pub claim_next_email-IsSound :
    (provider : String) (locked : ℕ → Bool) (lease_seconds worker now : ℕ) (asked : Option ℕ)
    (s : Store)
    → IsSound s.messages
    → IsSound (claim_next_email provider locked lease_seconds worker now asked s).1.messages
unfolding claim_next_email claim_selected_email
claim_next_email-IsSound provider locked lease_seconds worker now asked s h =
    let s' = sweep_emails provider locked asked now s in
    let swept : IsSound s'.messages = sweep_emails-IsSound provider locked asked now s h in
    elim (Option-cases (
      select_first (is_available_message locked asked now) (λ m. m.next_attempt_at)
        (λ m. m.created_at) s'.messages)) [
          | inl n ↦ rw n swept
          | inr (m, e) ↦
              let (k, t) =
                select_first-In (is_available_message locked asked now) (λ m. m.next_attempt_at)
                  (λ m. m.created_at) s'.messages m e in
              rw e (
                update_one-IsSound m
                  (start_message worker now (now + lease_seconds * 1000) (m.attempt_count + 1))
                  s'.messages k (λ x. (refl, refl))
                  (λ v.
                    start_message-IsValid locked asked worker now (now + lease_seconds * 1000) m t
                      v)
                  swept)
        ]

send_message-IsValid :
    (id worker : ℕ) (provider : String) (message_id : Option ℕ) (sent_at : ℕ) (x : OutboxMessage)
    → IsValid x
    → is_held id worker x ≡ true
    → IsValid (send_message provider message_id sent_at x)
send_message-IsValid id worker provider message_id sent_at x v t = ground arith

pub record_sent-IsSound :
    (m : OutboxMessage) (provider : String) (message_id : Option ℕ) (worker sent_at : ℕ) (s : Store)
    → IsSound s.messages
    → IsSound (record_sent m provider message_id worker sent_at s).1.messages
unfolding record_sent
record_sent-IsSound m provider message_id worker sent_at s h =
    elim (Option-cases (find (is_owned_message m.id worker) s.messages)) [
      | inl n ↦ rw (n, record_sent) h
      | inr (owned, e) ↦
          rw (e, record_sent)
            (update-IsSound (is_held m.id worker) (send_message provider message_id sent_at)
              s.messages (λ x. (refl, refl))
              (λ x k v t. send_message-IsValid m.id worker provider message_id sent_at x v t) h)
    ]

-- A row with a lease is in processing, so it keeps its payload.
fail_message-IsValid :
    (permanent : Bool) (m : OutboxMessage) (id worker now failed_at : ℕ) (x : OutboxMessage)
    → IsValid x
    → is_held id worker x ≡ true
    → IsValid (fail_message permanent m now failed_at x)
fail_message-IsValid permanent m id worker now failed_at x v t =
    elim (Bool-cases (is_retried_email m permanent)) [
      | inl r ↦ rw r (ground (arith, v, t))
      | inr r ↦ rw r (ground (arith, v, t))
    ]

pub record_failed-IsSound :
    (provider : String) (m : OutboxMessage) (permanent : Bool) (worker now failed_at : ℕ)
    (s : Store)
    → IsSound s.messages
    → IsSound (record_failed provider m permanent worker now failed_at s).1.messages
unfolding record_failed
record_failed-IsSound provider m permanent worker now failed_at s h =
    elim (Option-cases (find (is_owned_message m.id worker) s.messages)) [
      | inl n ↦ rw (n, record_failed) h
      | inr (owned, e) ↦
          rw (e, record_failed)
            (update-IsSound (is_held m.id worker) (fail_message permanent m now failed_at)
              s.messages (λ x. (refl, refl))
              (λ x k v t. fail_message-IsValid permanent m m.id worker now failed_at x v t) h)
    ]

-- The store that a request leaves.
abbrev pub after : Option Store → Store → Store
after none s = s
after (some s') s = s'

pub retry_failed_email-IsSound :
    (a : Actor) (id now : ℕ) (s : Store)
    → IsSound s.messages
    → IsSound (after (retry_failed_email a id now s) s).messages
unfolding retry_failed_email
retry_failed_email-IsSound a id now s h = elim (Bool-cases (is_admin a.role)) [
  | inr f ↦ rw f h
  | inl t ↦ elim (Option-cases (find (is_retriable a id) s.messages)) [
    | inl n ↦ rw (t, n) h
    | inr (m, e) ↦
        let (k, u) = find-In (is_retriable a id) s.messages m e in
        rw (t, e)
          (update_one-IsSound m (requeue_message now) s.messages k (λ x. (refl, refl))
            (λ v. ground (arith, u, v)) h)
  ]
]
