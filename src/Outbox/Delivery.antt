-- ===== src/Outbox/Delivery.antt =====
-- One run of the outbox worker, src/email/outbox.ts: `messageFor`, the two transactions that end a
-- delivery, `processNextEmail`, which composes them, and `retryFailedEmail`.
use openers_performance_dash.Prelude.{
  ℕ, ◌+◌, ◌-◌, ◌*◌, ◌^◌, min, Bool, true, false, not, ◌&&◌, ◌||◌, Option, none, some, [], ◌∷◌, ◌++◌,
  String, leb, ◌==◌, if◌then◌else◌, eq?,
}
use openers_performance_dash.Prelude.Text.{matches_i}
use openers_performance_dash.Prelude.Table.{update, find}
use openers_performance_dash.Accounts.{Actor, is_admin}
use openers_performance_dash.Outbox.{
  OutboxStatus, OutboxMessage, Store, is_processing_message, fail_token, failed_attempt,
  claim_next_email,
}

-- The row belongs to this worker's unfinished delivery.
abbrev pub is_owned_message : ℕ → ℕ → OutboxMessage → Bool
is_owned_message id worker m =
    m.id == id && is_processing_message m.status && eq? m.lease_owner worker

abbrev pub is_held : ℕ → ℕ → OutboxMessage → Bool
is_held id worker m = m.id == id && eq? m.lease_owner worker

abbrev pub send_message : String → Option ℕ → ℕ → OutboxMessage → OutboxMessage
send_message provider message_id sent_at m = record m {
  status = OutboxStatus.sent;
  sent_at = some sent_at;
  provider = some provider;
  provider_message_id = message_id;
  encrypted_payload = none;
  lease_owner = none;
  lease_expires_at = none;
}

-- The transaction after the provider has accepted a message. Its answer is `recorded`.
unfoldable pub record_sent :
    OutboxMessage → String → Option ℕ → (worker sent_at : ℕ) → Store → Bool × Store
record_sent m provider message_id worker sent_at s =
    elim (find (is_owned_message m.id worker) s.messages) [
      | none ↦ (false, s)
      | some owned ↦ (
        true,
        record s {
          messages =
              update (is_held m.id worker) (send_message provider message_id sent_at) s.messages;
          attempts =
              s.attempts
              ++ record {
                profile_id = m.profile_id;
                token_id = m.reference_id;
                message_type = m.message_type;
                provider = provider;
                recipient_email = m.recipient_email;
                accepted = true;
                provider_message_id = message_id;
                error_message = none;
              }
                ∷ [];
        },
      )
    ]

-- `permanentEmailFailure`.
unfoldable pub is_permanent_message : String → Bool
is_permanent_message message =
    matches_i "authentication failed" message
    || matches_i "sender address" message
    || matches_i "invalid recipient" message
    || matches_i "payload" message
    || matches_i "envelope" message

-- What reaches the `catch` block: `messageFor`'s own error, or another error's text.
pub data DeliveryError : Type 0 where
  permanent_outbox : DeliveryError
  other_error : String → DeliveryError

unfoldable pub is_permanent : DeliveryError → Bool
is_permanent permanent_outbox = true
is_permanent (other_error message) = is_permanent_message message

-- Milliseconds until the next attempt after the given number of attempts.
unfoldable pub email_retry_delay : ℕ → ℕ
email_retry_delay attempts = min 3600000 (30000 * 2 ^ (attempts - 1))

abbrev pub is_retried_email : OutboxMessage → Bool → Bool
is_retried_email m permanent = not permanent && not (leb m.max_attempts m.attempt_count)

abbrev code_of : Bool → Bool → String
code_of permanent exhausted =
    if permanent
    then "permanent_provider_failure"
    else (if exhausted then "retry_exhausted" else "transient_provider_failure")

abbrev reason_of : Bool → Bool → String
reason_of permanent retry =
    if permanent
    then "The email provider permanently rejected this message."
    else (if retry
        then "Email delivery was interrupted and will be retried."
        else "Email delivery failed after the retry limit.")

-- The columns that the `catch` block sets, given the claimed row.
abbrev pub fail_message : Bool → OutboxMessage → (now failed_at : ℕ) → OutboxMessage → OutboxMessage
fail_message permanent m now failed_at r =
    let retries = is_retried_email m permanent in
    record r {
      status = if retries then OutboxStatus.retry else OutboxStatus.failed;
      next_attempt_at =
          if retries then now + email_retry_delay m.attempt_count else m.next_attempt_at;
      failed_at = if retries then none else some failed_at;
      failure_code = some (code_of permanent (leb m.max_attempts m.attempt_count));
      failure_reason = some (reason_of permanent retries);
      lease_owner = none;
      lease_expires_at = none;
    }

-- The transaction of the `catch` block. Its answer is `recorded`.
unfoldable pub record_failed :
    String → OutboxMessage → Bool → (worker now failed_at : ℕ) → Store → Bool × Store
record_failed provider m permanent worker now failed_at s =
    elim (find (is_owned_message m.id worker) s.messages) [
      | none ↦ (false, s)
      | some owned ↦ (
        true,
        record s {
          messages =
              update (is_held m.id worker) (fail_message permanent m now failed_at) s.messages;
          attempts =
              s.attempts
              ++ failed_attempt m provider (
                  if permanent
                  then "Permanent provider failure."
                  else "Transient provider failure.")
                ∷ [];
          tokens = if is_retried_email m permanent then s.tokens else fail_token m s.tokens;
        },
      )
    ]

-- What the provider does with a message: it accepts it, or the promise is refused, throws or times out
-- with a text.
pub data DeliveryResult : Type 0 where
  accepted : (provider : String) → Option ℕ → DeliveryResult
  refused : String → DeliveryResult

-- What a run meets outside itself: the configured provider and lease, whether a ciphertext decrypts to
-- a payload of the schema, what the provider does with the message and how the store stands when it
-- is done, whether the completing transaction throws, and the clock at the end.
pub record Surroundings : Type 0 where
  pub provider : String
  pub lease_seconds : ℕ
  pub decrypts : ℕ → Bool
  pub deliver : OutboxMessage → Store → DeliveryResult × Store
  pub commit_error : Option String
  pub ended_at : ℕ

-- Whether `messageFor` builds a message.
abbrev pub has_message : Surroundings → OutboxMessage → Bool
has_message w m = elim m.encrypted_payload [ none ↦ false | some p ↦ w.decrypts p ]

pub data EmailRunStatus : Type 0 where
  idle lease_lost sent retry failed : EmailRunStatus

abbrev pub Run : Type 0
Run = Option OutboxMessage × EmailRunStatus × Store

unfoldable pub after_email_error :
    Surroundings → (worker now : ℕ) → OutboxMessage → DeliveryError → Store → Run
after_email_error w worker now m e s =
    let permanent = is_permanent e in
    let (recorded, s') = record_failed w.provider m permanent worker now w.ended_at s in
    (
      some m,
      if recorded then (if is_retried_email m permanent then retry else failed) else lease_lost,
      s',
    )

unfoldable pub after_delivery :
    Surroundings → (worker now : ℕ) → OutboxMessage → DeliveryResult → Store → Run
after_delivery w worker now m (refused message) s =
    after_email_error w worker now m (other_error message) s
after_delivery w worker now m (accepted provider message_id) s = elim w.commit_error [
  | some message ↦ after_email_error w worker now m (other_error message) s
  | none ↦
      let (recorded, s') = record_sent m provider message_id worker w.ended_at s in
      (some m, if recorded then sent else lease_lost, s')
]

unfoldable pub process_claimed_email : Surroundings → (worker now : ℕ) → OutboxMessage → Store → Run
process_claimed_email w worker now m s = elim (has_message w m) [
  | false ↦ after_email_error w worker now m permanent_outbox s
  | true ↦ let (result, s') = w.deliver m s in after_delivery w worker now m result s'
]

-- `processNextEmail`.
unfoldable pub process_next_email :
    Surroundings → (ℕ → Bool) → (worker now : ℕ) → Option ℕ → Store → Run
process_next_email w locked worker now asked s =
    let (claimed, s') = claim_next_email w.provider locked w.lease_seconds worker now asked s in
    elim claimed [ none ↦ (none, idle, s') | some m ↦ process_claimed_email w worker now m s' ]

abbrev pub is_failed_message : OutboxStatus → Bool
is_failed_message OutboxStatus.failed = true
is_failed_message other = false

abbrev pub requeue_message : ℕ → OutboxMessage → OutboxMessage
requeue_message now m = record m {
  status = OutboxStatus.queued;
  attempt_count = 0;
  next_attempt_at = now;
  failed_at = none;
  failure_code = none;
  failure_reason = none;
}

abbrev pub is_retriable : Actor → ℕ → OutboxMessage → Bool
is_retriable a id m =
    m.id == id && eq? m.organization_id a.organization_id && is_failed_message m.status

-- `retryFailedEmail`; it throws where it returns `none`.
unfoldable pub retry_failed_email : Actor → (id now : ℕ) → Store → Option Store
retry_failed_email a id now s =
    if not (is_admin a.role) then none else elim (find (is_retriable a id) s.messages) [
      | none ↦ none
      | some m ↦ some (record s {
        messages = update (λ r. r.id == m.id) (requeue_message now) s.messages;
        retry_requests =
            s.retry_requests
            ++ record {
              organization_id = a.organization_id;
              actor_profile_id = a.id;
              entity_id = m.id;
            }
              ∷ [];
      })
    ]
