-- ===== src/Outbox/Events.antt =====
-- Workers, requests and administrators on the outbox of src/email/outbox.ts, one transaction after
-- another.
use openers_performance_dash.Prelude.{ℕ, Bool, Option, List, [], ◌∷◌, String}
use openers_performance_dash.Accounts.{Actor}
use openers_performance_dash.Outbox.{
  OutboxMessage, InvitationToken, EnqueueInput, Store, enqueue, claim_next_email,
}
use openers_performance_dash.Outbox.Delivery.{record_sent, record_failed, retry_failed_email}
use openers_performance_dash.Outbox.Invariant.{
  IsSound, after, enqueue-IsSound, claim_next_email-IsSound, record_sent-IsSound,
  record_failed-IsSound, retry_failed_email-IsSound,
}

-- One transaction, of the outbox or of another part of the program on the invitations.
pub data Event : Type 0 where
  enqueues : (id now : ℕ) → EnqueueInput → Event
  claims : String → (ℕ → Bool) → (lease_seconds worker now : ℕ) → Option ℕ → Event
  sends : OutboxMessage → String → Option ℕ → (worker sent_at : ℕ) → Event
  fails : String → OutboxMessage → Bool → (worker now failed_at : ℕ) → Event
  retries : Actor → (id now : ℕ) → Event
  set_tokens : List InvitationToken → Event

unfoldable pub apply : Event → Store → Store
apply (enqueues id now input) s = (enqueue id now input s).1
apply (claims provider locked lease_seconds worker now asked) s =
    (claim_next_email provider locked lease_seconds worker now asked s).1
apply (sends m provider message_id worker sent_at) s =
    (record_sent m provider message_id worker sent_at s).1
apply (fails provider m permanent worker now failed_at) s =
    (record_failed provider m permanent worker now failed_at s).1
apply (retries a id now) s = after (retry_failed_email a id now s) s
apply (set_tokens ts) s = record s { tokens = ts }

unfoldable pub run_outbox : List Event → Store → Store
run_outbox [] s = s
run_outbox (e ∷ es) s = run_outbox es (apply e s)

pub apply-IsSound : (e : Event) (s : Store) → IsSound s.messages → IsSound (apply e s).messages
unfolding apply
apply-IsSound (enqueues id now input) s h = enqueue-IsSound id now input s h
apply-IsSound (claims provider locked lease_seconds worker now asked) s h =
    claim_next_email-IsSound provider locked lease_seconds worker now asked s h
apply-IsSound (sends m provider message_id worker sent_at) s h =
    record_sent-IsSound m provider message_id worker sent_at s h
apply-IsSound (fails provider m permanent worker now failed_at) s h =
    record_failed-IsSound provider m permanent worker now failed_at s h
apply-IsSound (retries a id now) s h = retry_failed_email-IsSound a id now s h
apply-IsSound (set_tokens ts) s h = h

-- Whatever workers, requests and administrators do, in whatever order and at whatever times, the outbox
-- stays sound: distinct ids and idempotency keys, attempts within the limit, a lease exactly on the
-- messages in processing, a payload exactly on those not sent, sent and failed ones stamped.
pub run_outbox-IsSound :
    (es : List Event) (s : Store) → IsSound s.messages → IsSound (run_outbox es s).messages
unfolding run_outbox
run_outbox-IsSound [] s h = h
run_outbox-IsSound (e ∷ es) s h = run_outbox-IsSound es (apply e s) (apply-IsSound e s h)
