-- ===== src/Outbox.antt =====
-- The e-mail outbox, src/email/outbox.ts, over the tables of src/db/schema.ts: what is queued, and how a
-- worker claims a message. `locked` says which rows a concurrent transaction holds (`skipLocked`).
-- Times are milliseconds. A payload's ciphertext, like an idempotency key, is a number; an address is
-- its code units, and its letters are those of ASCII.
pub mod Delivery
pub mod Invariant
pub mod Events
pub mod Settled
pub mod Runs
pub mod Queueing
mod Tests
use openers_performance_dash.Prelude.{
  ℕ, ◌+◌, ◌*◌, Bool, true, false, not, ◌&&◌, ◌||◌, Option, none, some, List, [], ◌∷◌, ◌++◌, String,
  map, leb, ltb, ◌==◌, if◌then◌else◌, lte?, or_else, eq?, is_none, any,
}
use openers_performance_dash.Prelude.Table.{update, select_first, find}
use openers_performance_dash.Prelude.Text.{trim, to_lower, same_text}

pub data OutboxStatus : Type 0 where
  queued processing retry sent failed cancelled : OutboxStatus

pub record OutboxMessage : Type 0 where
  pub id : ℕ
  pub organization_id : Option ℕ
  pub profile_id : Option ℕ
  pub reference_id : Option ℕ
  pub message_type : String
  pub recipient_email : List ℕ
  pub encrypted_payload : Option ℕ
  pub idempotency_key : ℕ
  pub status : OutboxStatus
  pub attempt_count : ℕ
  pub max_attempts : ℕ
  pub next_attempt_at : ℕ
  pub processing_started_at : Option ℕ
  pub lease_owner : Option ℕ
  pub lease_expires_at : Option ℕ
  pub sent_at : Option ℕ
  pub failed_at : Option ℕ
  pub provider : Option String
  pub provider_message_id : Option ℕ
  pub failure_code : Option String
  pub failure_reason : Option String
  pub created_at : ℕ

-- A row of accountInvitationTokens; `is_delivery_failed` is whether its deliveryStatus is
-- "delivery_failed".
pub record InvitationToken : Type 0 where
  pub id : ℕ
  pub used_at : Option ℕ
  pub revoked_at : Option ℕ
  pub is_delivery_failed : Bool

-- A row of emailDeliveryAttempts.
pub record DeliveryAttempt : Type 0 where
  pub profile_id : Option ℕ
  pub token_id : Option ℕ
  pub message_type : String
  pub provider : String
  pub recipient_email : List ℕ
  pub accepted : Bool
  pub provider_message_id : Option ℕ
  pub error_message : Option String

-- A row of auditLogs with the action "email_outbox.retry_requested".
pub record RetryRequest : Type 0 where
  pub organization_id : ℕ
  pub actor_profile_id : ℕ
  pub entity_id : ℕ

pub record Store : Type 0 where
  pub messages : List OutboxMessage
  pub tokens : List InvitationToken
  pub attempts : List DeliveryAttempt
  pub retry_requests : List RetryRequest

pub record EnqueueInput : Type 0 where
  pub organization_id : Option ℕ
  pub profile_id : Option ℕ
  pub reference_id : Option ℕ
  pub recipient_email : List ℕ
  pub message_type : String
  pub idempotency_key : ℕ
  pub encrypted_payload : ℕ

abbrev pub new_message : ℕ → ℕ → EnqueueInput → OutboxMessage
new_message id now input = record {
  id = id;
  organization_id = input.organization_id;
  profile_id = input.profile_id;
  reference_id = input.reference_id;
  message_type = input.message_type;
  recipient_email = map to_lower (trim input.recipient_email);
  encrypted_payload = some input.encrypted_payload;
  idempotency_key = input.idempotency_key;
  status = OutboxStatus.queued;
  attempt_count = 0;
  max_attempts = 5;
  next_attempt_at = now;
  processing_started_at = none;
  lease_owner = none;
  lease_expires_at = none;
  sent_at = none;
  failed_at = none;
  provider = none;
  provider_message_id = none;
  failure_code = none;
  failure_reason = none;
  created_at = now;
}

-- The insertion gives way to a row with the same primary or idempotency key.
abbrev pub conflicts : ℕ → ℕ → OutboxMessage → Bool
conflicts id key m = m.id == id || m.idempotency_key == key

unfoldable pub insert_message : ℕ → ℕ → EnqueueInput → List OutboxMessage → List OutboxMessage
insert_message id now input ms =
    if any (conflicts id input.idempotency_key) ms then ms else ms ++ new_message id now input ∷ []

abbrev pub persisted_id : ℕ → List OutboxMessage → Option ℕ
persisted_id key ms = elim (find (λ (m : OutboxMessage). m.idempotency_key == key) ms) [
  | none ↦ none
  | some m ↦ some m.id
]

-- `enqueueEmailOutbox` with a new id; it throws where it returns `none`.
unfoldable pub enqueue : ℕ → ℕ → EnqueueInput → Store → Option ℕ × Store
enqueue id now input s =
    let ms = insert_message id now input s.messages in
    (persisted_id input.idempotency_key ms, record s { messages = ms })

abbrev pub is_processing_message : OutboxStatus → Bool
is_processing_message OutboxStatus.processing = true
is_processing_message other = false

abbrev pub is_waiting : OutboxStatus → Bool
is_waiting OutboxStatus.queued = true
is_waiting OutboxStatus.retry = true
is_waiting other = false

-- `messageId ? eq(…) : undefined`.
abbrev pub is_asked : Option ℕ → OutboxMessage → Bool
is_asked none m = true
is_asked (some id) m = m.id == id

-- The two `where` clauses of `claimNextEmail`.
abbrev pub is_exhausted_message : (ℕ → Bool) → Option ℕ → ℕ → OutboxMessage → Bool
is_exhausted_message locked asked now m =
    is_processing_message m.status
    && lte? m.lease_expires_at now
    && leb m.max_attempts m.attempt_count
    && is_asked asked m
    && not (locked m.id)

abbrev pub is_available_message : (ℕ → Bool) → Option ℕ → ℕ → OutboxMessage → Bool
is_available_message locked asked now m =
    is_asked asked m
    && ((is_waiting m.status && leb m.next_attempt_at now)
        || (is_processing_message m.status && lte? m.lease_expires_at now))
    && ltb m.attempt_count m.max_attempts
    && not (locked m.id)

abbrev pub give_up_message : ℕ → OutboxMessage → OutboxMessage
give_up_message now m = record m {
  status = OutboxStatus.failed;
  failed_at = some now;
  failure_code = some "retry_exhausted";
  failure_reason = some "Email delivery stopped after the retry limit.";
  lease_owner = none;
  lease_expires_at = none;
}

abbrev fail_delivery : InvitationToken → InvitationToken
fail_delivery t = record t { is_delivery_failed = true }

-- The invitation whose message has failed, unless it is used or revoked.
unfoldable pub fail_token : OutboxMessage → List InvitationToken → List InvitationToken
fail_token m ts =
    if same_text m.message_type "account_invitation"
    then update
        (λ (t : InvitationToken).
          eq? m.reference_id t.id && is_none t.used_at && is_none t.revoked_at)
        fail_delivery ts
    else ts

-- `provider` is the configured one.
abbrev pub failed_attempt : OutboxMessage → String → String → DeliveryAttempt
failed_attempt m provider message = record {
  profile_id = m.profile_id;
  token_id = m.reference_id;
  message_type = m.message_type;
  provider = provider;
  recipient_email = m.recipient_email;
  accepted = false;
  provider_message_id = none;
  error_message = some message;
}

unfoldable pub give_up_email : String → ℕ → OutboxMessage → Store → Store
give_up_email provider now m s = record s {
  messages = update (λ r. r.id == m.id) (give_up_message now) s.messages;
  attempts =
      s.attempts
      ++ failed_attempt m provider "Retry limit exhausted after a stale worker lease." ∷ [];
  tokens = fail_token m s.tokens;
}

unfoldable pub sweep_emails : String → (ℕ → Bool) → Option ℕ → ℕ → Store → Store
sweep_emails provider locked asked now s =
    elim (select_first (is_exhausted_message locked asked now) (λ m. or_else m.lease_expires_at 0)
      (λ m. m.created_at) s.messages) [ none ↦ s | some m ↦ give_up_email provider now m s ]

abbrev pub start_message : (worker now expires attempts : ℕ) → OutboxMessage → OutboxMessage
start_message worker now expires attempts m = record m {
  status = OutboxStatus.processing;
  attempt_count = attempts;
  processing_started_at = some now;
  lease_owner = some worker;
  lease_expires_at = some expires;
  failure_code = none;
  failure_reason = none;
}

unfoldable pub claim_selected_email :
    (lease_seconds worker now : ℕ) → Option OutboxMessage → Store → Option OutboxMessage × Store
claim_selected_email lease_seconds worker now none s = (none, s)
claim_selected_email lease_seconds worker now (some m) s =
    let start = start_message worker now (now + lease_seconds * 1000) (m.attempt_count + 1) in
    (some (start m), record s { messages = update (λ r. r.id == m.id) start s.messages })

-- `claimNextEmail`.
unfoldable pub claim_next_email :
    String
    → (ℕ → Bool)
    → (lease_seconds worker now : ℕ) → Option ℕ
    → Store
    → Option OutboxMessage × Store
claim_next_email provider locked lease_seconds worker now asked s =
    let s' = sweep_emails provider locked asked now s in
    claim_selected_email lease_seconds worker now
      (select_first (is_available_message locked asked now) (λ m. m.next_attempt_at)
        (λ m. m.created_at) s'.messages)
      s'
