-- ===== src/Outbox/Tests.antt =====
-- Runs of the outbox worker on a small store, and instances of the theorems of its modules.
use openers_performance_dash.Prelude.{
  ℕ, ◌+◌, ◌≡◌, refl, Bool, true, false, none, some, inl, inr, List, [], ◌∷◌, arith, In,
}
use openers_performance_dash.Prelude.Text.{codes}
use openers_performance_dash.Prelude.Table.{select_first}
use openers_performance_dash.Outbox.{
  OutboxStatus, OutboxMessage, EnqueueInput, Store, enqueue, claim_next_email, claim_selected_email,
  sweep_emails,
}
use openers_performance_dash.Outbox.Delivery.{
  Surroundings, refused, EmailRunStatus, process_next_email, process_claimed_email, after_delivery,
  after_email_error, record_failed, is_permanent, is_permanent_message, email_retry_delay,
}
use openers_performance_dash.Outbox.Invariant.{IsSound}
use openers_performance_dash.Outbox.Events.{Event, claims, run_outbox, run_outbox-IsSound}
use openers_performance_dash.Outbox.Settled.{run_outbox-settled}
use openers_performance_dash.Outbox.Runs.{Settled, process_next_email-Settled}
use openers_performance_dash.Outbox.Queueing.{enqueue_twice}

abbrev message : ℕ → ℕ → OutboxMessage
message id at = record {
  id = id;
  organization_id = some 1;
  profile_id = some 7;
  reference_id = none;
  message_type = "password_changed";
  recipient_email = codes "a@b.c";
  encrypted_payload = some 99;
  idempotency_key = id + 100;
  status = OutboxStatus.queued;
  attempt_count = 0;
  max_attempts = 5;
  next_attempt_at = at;
  processing_started_at = none;
  lease_owner = none;
  lease_expires_at = none;
  sent_at = none;
  failed_at = none;
  provider = none;
  provider_message_id = none;
  failure_code = none;
  failure_reason = none;
  created_at = at;
}

abbrev delivered : OutboxMessage
delivered = record (message 3 10) {
  status = OutboxStatus.sent;
  encrypted_payload = none;
  sent_at = some 40;
}

abbrev demo : Store
demo = record {
  messages = message 1 50 ∷ message 2 20 ∷ delivered ∷ [];
  tokens = [];
  attempts = [];
  retry_requests = [];
}

demo-IsSound : IsSound demo.messages
demo-IsSound = record { keyed = ground arith; intents = ground arith; valid = ground arith }

abbrev no_locks : ℕ → Bool
no_locks id = false

abbrev w : Surroundings
w = record {
  provider = "smtp";
  lease_seconds = 60;
  decrypts = λ c. true;
  deliver = λ m s. (refused "Connection reset.", s);
  commit_error = none;
  ended_at = 200;
}

-- The message that has waited longest is tried, and is due again half a minute later.
first_run : (process_next_email w no_locks 5 100 none demo).1 ≡ EmailRunStatus.retry
unfolding process_next_email process_claimed_email after_delivery after_email_error record_failed
    is_permanent is_permanent_message claim_next_email claim_selected_email sweep_emails
    select_first
first_run = refl

first_delay : email_retry_delay 1 ≡ 30000
unfolding email_retry_delay
first_delay = refl

abbrev events : List Event
events = claims "smtp" no_locks 60 5 100 none ∷ claims "smtp" no_locks 60 6 100 (some 1) ∷ []

abbrev input : EnqueueInput
input = record {
  organization_id = some 1;
  profile_id = some 7;
  reference_id = none;
  recipient_email = codes " A@b.c ";
  message_type = "access_revoked";
  idempotency_key = 500;
  encrypted_payload = 98;
}

run_outbox-IsSound_example : IsSound (run_outbox events demo).messages
run_outbox-IsSound_example = run_outbox-IsSound events demo demo-IsSound

run_outbox-settled_example : In delivered (run_outbox events demo).messages
run_outbox-settled_example =
    run_outbox-settled delivered refl events demo (refl, (refl, tt)) demo-IsSound
      (inr (inr (inl refl)))

process_next_email-Settled_example :
    let (o, st, s') = process_next_email w no_locks 5 100 none demo in Settled 100 o st s'
process_next_email-Settled_example =
    process_next_email-Settled w no_locks 5 100 none demo (λ c t h. h)

enqueue_twice_example :
    let s1 = (enqueue 4 100 input demo).1 in
    ((n : ℕ) × ((enqueue 4 100 input demo).0 ≡ some n))
    × (enqueue 5 200 input s1 ≡ ((enqueue 4 100 input demo).0, s1))
enqueue_twice_example = enqueue_twice 4 5 100 200 input input demo (λ m k. ground arith) refl
