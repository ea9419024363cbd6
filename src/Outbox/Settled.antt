-- ===== src/Outbox/Settled.antt =====
-- Messages of the outbox, src/email/outbox.ts, that the worker is through with. The cleanup that
-- deletes them in the end (src/cleanup/service.ts) is not a transaction of that file.
use openers_performance_dash.Prelude.{
  ℕ, ◌+◌, ◌*◌, ◌≡◌, ◌≢◌, Bool, true, false, ◌&&◌, Option, inl, inr, List, [], ◌∷◌, String, arith,
  ◌==◌, ==_iff, or_else, In, All, All-In, In-append, Option-cases, Bool-cases, any,
}
use openers_performance_dash.Prelude.Table.{
  update, update-passes, select_first, select_first-In, IsKeyed-eq, find, find-In,
}
use openers_performance_dash.Accounts.{Actor, is_admin}
use openers_performance_dash.Outbox.{
  OutboxStatus, OutboxMessage, EnqueueInput, Store, new_message, conflicts, insert_message, enqueue,
  is_exhausted_message, is_available_message, give_up_message, give_up_email, sweep_emails,
  start_message, claim_selected_email, claim_next_email,
}
use openers_performance_dash.Outbox.Delivery.{
  is_owned_message, is_held, send_message, record_sent, fail_message, record_failed,
  requeue_message, is_retriable, retry_failed_email,
}
use openers_performance_dash.Outbox.Invariant.{IsValid, IsSound, after}
use openers_performance_dash.Outbox.Invariant.{sweep_emails-IsSound}
use openers_performance_dash.Outbox.Events.{
  Event, enqueues, claims, sends, fails, retries, set_tokens, apply, run_outbox, apply-IsSound,
}

-- A message that the worker is through with.
abbrev pub is_settled : OutboxStatus → Bool
is_settled OutboxStatus.sent = true
is_settled OutboxStatus.failed = true
is_settled OutboxStatus.cancelled = true
is_settled other = false

-- A request to retry this very message, which has failed, by an administrator of its organization.
abbrev pub is_retry_of : OutboxMessage → Event → Bool
is_retry_of m (retries a id now) = is_admin a.role && is_retriable a id m
is_retry_of m other = false

-- An update of one row, which has another status, passes a settled message over.
other_row :
    (c m : OutboxMessage) (f : OutboxMessage → OutboxMessage) (ms : List OutboxMessage)
    → IsSound ms
    → In c ms
    → In m ms
    → c ≢ m
    → In c (update (λ r. r.id == m.id) f ms)
other_row c m f ms h k n apart = elim (Bool-cases (c.id == m.id)) [
  | inr t ↦ update-passes (λ r. r.id == m.id) f ms c t k
  | inl t ↦ absurd (apart (IsKeyed-eq (λ r. r.id) ms c m h.keyed k n ((==_iff c.id m.id).0 t)))
]

differs : (c m : OutboxMessage) (p : OutboxMessage → Bool) → p c ≡ false → p m ≡ true → c ≢ m
differs c m p f t e = absurd (cc (rw e at f, t))

module _ (c : OutboxMessage) (settled : is_settled c.status ≡ true) where
  enqueue-settled :
      (id now : ℕ) (input : EnqueueInput) (s : Store)
      → In c s.messages
      → In c (enqueue id now input s).1.messages
  unfolding enqueue insert_message
  enqueue-settled id now input s k =
      elim (Bool-cases (any (conflicts id input.idempotency_key) s.messages)) [
        | inl t ↦ rw t k
        | inr t ↦ rw t (In-append s.messages (new_message id now input) c k)
      ]

  sweep_emails-settled :
      (provider : String) (locked : ℕ → Bool) (asked : Option ℕ) (now : ℕ) (s : Store)
      → IsSound s.messages
      → In c s.messages
      → In c (sweep_emails provider locked asked now s).messages
  unfolding sweep_emails give_up_email
  sweep_emails-settled provider locked asked now s h k =
      elim (Option-cases (
        select_first (is_exhausted_message locked asked now) (λ m. or_else m.lease_expires_at 0)
          (λ m. m.created_at) s.messages)) [
            | inl n ↦ rw (n, sweep_emails) k
            | inr (m, e) ↦
                let (n, t) =
                  select_first-In (is_exhausted_message locked asked now)
                    (λ m. or_else m.lease_expires_at 0) (λ m. m.created_at) s.messages m e in
                rw (e, sweep_emails)
                  (other_row c m (give_up_message now) s.messages h k n (
                    differs c m (is_exhausted_message locked asked now) (ground (arith, settled))
                      t))
          ]

  claim_next_email-settled :
      (provider : String) (locked : ℕ → Bool) (lease_seconds worker now : ℕ) (asked : Option ℕ)
      (s : Store)
      → IsSound s.messages
      → IsSound (sweep_emails provider locked asked now s).messages
      → In c s.messages
      → In c (claim_next_email provider locked lease_seconds worker now asked s).1.messages
  unfolding claim_next_email claim_selected_email
  claim_next_email-settled provider locked lease_seconds worker now asked s h h' k =
      let s' = sweep_emails provider locked asked now s in
      let k' : In c s'.messages = sweep_emails-settled provider locked asked now s h k in
      elim (Option-cases (
        select_first (is_available_message locked asked now) (λ m. m.next_attempt_at)
          (λ m. m.created_at) s'.messages)) [
            | inl n ↦ rw n k'
            | inr (m, e) ↦
                let (n, t) =
                  select_first-In (is_available_message locked asked now) (λ m. m.next_attempt_at)
                    (λ m. m.created_at) s'.messages m e in
                rw e (
                  other_row c m
                    (start_message worker now (now + lease_seconds * 1000) (m.attempt_count + 1))
                    s'.messages h' k' n
                    (differs c m (is_available_message locked asked now) (ground (arith, settled))
                      t))
          ]

  -- The worker's last transactions set rows with a lease, which a settled message has not.
  not_held : (id worker : ℕ) → IsValid c → is_held id worker c ≡ false
  not_held id worker v = ground (arith, settled, v)

  record_sent-settled :
      (m : OutboxMessage) (provider : String) (message_id : Option ℕ) (worker sent_at : ℕ)
      (s : Store)
      → IsValid c
      → In c s.messages
      → In c (record_sent m provider message_id worker sent_at s).1.messages
  unfolding record_sent
  record_sent-settled m provider message_id worker sent_at s v k =
      elim (Option-cases (find (is_owned_message m.id worker) s.messages)) [
        | inl n ↦ rw (n, record_sent) k
        | inr (owned, e) ↦
            rw (e, record_sent)
              (update-passes (is_held m.id worker) (send_message provider message_id sent_at)
                s.messages c (not_held m.id worker v) k)
      ]

  record_failed-settled :
      (provider : String) (m : OutboxMessage) (permanent : Bool) (worker now failed_at : ℕ)
      (s : Store)
      → IsValid c
      → In c s.messages
      → In c (record_failed provider m permanent worker now failed_at s).1.messages
  unfolding record_failed
  record_failed-settled provider m permanent worker now failed_at s v k =
      elim (Option-cases (find (is_owned_message m.id worker) s.messages)) [
        | inl n ↦ rw (n, record_failed) k
        | inr (owned, e) ↦
            rw (e, record_failed)
              (update-passes (is_held m.id worker) (fail_message permanent m now failed_at)
                s.messages c (not_held m.id worker v) k)
      ]

  retry_failed_email-settled :
      (a : Actor) (id now : ℕ) (s : Store)
      → is_retry_of c (retries a id now) ≡ false
      → IsSound s.messages
      → In c s.messages
      → In c (after (retry_failed_email a id now s) s).messages
  unfolding retry_failed_email
  retry_failed_email-settled a id now s other h k = elim (Bool-cases (is_admin a.role)) [
    | inr f ↦ rw f k
    | inl t ↦ elim (Option-cases (find (is_retriable a id) s.messages)) [
      | inl n ↦ rw (t, n) k
      | inr (m, e) ↦
          let (n, u) = find-In (is_retriable a id) s.messages m e in
          rw (t, e)
            (other_row c m (requeue_message now) s.messages h k n
              (differs c m (is_retriable a id) (ground (arith, other, t)) u))
    ]
  ]

  apply-settled :
      (e : Event) (s : Store)
      → is_retry_of c e ≡ false
      → IsSound s.messages
      → In c s.messages
      → In c (apply e s).messages
  unfolding apply
  apply-settled (enqueues id now input) s u h k = enqueue-settled id now input s k
  apply-settled (claims provider locked lease_seconds worker now asked) s u h k =
      claim_next_email-settled provider locked lease_seconds worker now asked s h
        (sweep_emails-IsSound provider locked asked now s h) k
  apply-settled (sends m provider message_id worker sent_at) s u h k =
      record_sent-settled m provider message_id worker sent_at s
        (All-In IsValid c s.messages h.valid k) k
  apply-settled (fails provider m permanent worker now failed_at) s u h k =
      record_failed-settled provider m permanent worker now failed_at s
        (All-In IsValid c s.messages h.valid k) k
  apply-settled (retries a id now) s u h k = retry_failed_email-settled a id now s u h k
  apply-settled (set_tokens ts) s u h k = k

  -- In a sound outbox a message that is sent, failed or cancelled stays just as it is through any
  -- queueing, claims, ending transactions of deliveries and retries of src/email/outbox.ts and any
  -- changes of invitations, unless an administrator of its organization asks to retry it after a
  -- failure.
  pub run_outbox-settled :
      (es : List Event) (s : Store)
      → All (λ e. is_retry_of c e ≡ false) es
      → IsSound s.messages
      → In c s.messages
      → In c (run_outbox es s).messages
  unfolding run_outbox
  run_outbox-settled [] s u h k = k
  run_outbox-settled (e ∷ es) s u h k =
      run_outbox-settled es (apply e s) u.1 (apply-IsSound e s h) (apply-settled e s u.0 h k)
