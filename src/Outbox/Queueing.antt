-- ===== src/Outbox/Queueing.antt =====
-- Queueing messages, `enqueueEmailOutbox` of src/email/outbox.ts, under keys that are in use or not.
use openers_performance_dash.Prelude.{
  ℕ, ◌≡◌, ◌≢◌, refl, ap, ◌∙◌, Bool, true, some, inl, inr, List, [], ◌∷◌, ◌++◌, arith, ◌==◌, In,
  Bool-cases, any,
}
use openers_performance_dash.Outbox.{
  OutboxMessage, EnqueueInput, Store, new_message, conflicts, insert_message, enqueue, persisted_id,
}

abbrev has_key : ℕ → List OutboxMessage → Bool
has_key key ms = any (λ (m : OutboxMessage). m.idempotency_key == key) ms

conflicts-has_key :
    (id key : ℕ) (ms : List OutboxMessage)
    → ((m : OutboxMessage) → In m ms → m.id ≢ id)
    → any (conflicts id key) ms ≡ true
    → has_key key ms ≡ true
conflicts-has_key id key [] fresh h = h
conflicts-has_key id key (m ∷ ms) fresh h =
    ground (arith, h, fresh m (inl refl), conflicts-has_key id key ms (λ x n. fresh x (inr n)))

has_key-conflicts :
    (id key : ℕ) (ms : List OutboxMessage)
    → has_key key ms ≡ true
    → any (conflicts id key) ms ≡ true
has_key-conflicts id key [] h = h
has_key-conflicts id key (m ∷ ms) h = ground (arith, h, has_key-conflicts id key ms)

has_key-append :
    (x : OutboxMessage) (ms : List OutboxMessage) → has_key x.idempotency_key (ms ++ x ∷ []) ≡ true
has_key-append x [] = ground arith
has_key-append x (m ∷ ms) = ground (arith, has_key-append x ms)

has_key-found :
    (key : ℕ) (ms : List OutboxMessage)
    → has_key key ms ≡ true
    → (n : ℕ) × (persisted_id key ms ≡ some n)
has_key-found key (m ∷ ms) h = elim (Bool-cases (m.idempotency_key == key)) [
  | inl t ↦ (m.id, rw (t, persisted_id) refl)
  | inr t ↦ rw (t, persisted_id) (has_key-found key ms (rw t at h))
]
has_key-found key [] h = absurd (cc h)

insert_message-has_key :
    (id now : ℕ) (input : EnqueueInput) (ms : List OutboxMessage)
    → ((m : OutboxMessage) → In m ms → m.id ≢ id)
    → has_key input.idempotency_key (insert_message id now input ms) ≡ true
unfolding insert_message
insert_message-has_key id now input ms fresh =
    elim (Bool-cases (any (conflicts id input.idempotency_key) ms)) [
      | inl t ↦ rw t (conflicts-has_key id input.idempotency_key ms fresh t)
      | inr t ↦ rw t (has_key-append (new_message id now input) ms)
    ]

insert_message-again :
    (id now : ℕ) (input : EnqueueInput) (ms : List OutboxMessage)
    → has_key input.idempotency_key ms ≡ true
    → insert_message id now input ms ≡ ms
unfolding insert_message
insert_message-again id now input ms h = rw (has_key-conflicts id input.idempotency_key ms h) refl

-- Queueing under an id that is not in use answers an id; queueing once more under the same key, with
-- whatever content, changes nothing and answers the same id.
pub enqueue_twice :
    (id id' now now' : ℕ) (input input' : EnqueueInput) (s : Store)
    → ((m : OutboxMessage) → In m s.messages → m.id ≢ id)
    → input'.idempotency_key ≡ input.idempotency_key
    → let s1 = (enqueue id now input s).1 in
      ((n : ℕ) × ((enqueue id now input s).0 ≡ some n))
      × (enqueue id' now' input' s1 ≡ ((enqueue id now input s).0, s1))
unfolding enqueue
enqueue_twice id id' now now' input input' s fresh same =
    let ms = insert_message id now input s.messages in
    let h = insert_message-has_key id now input s.messages fresh in
    (
      has_key-found input.idempotency_key ms h,
      ap (λ r. (persisted_id input'.idempotency_key r, record s { messages = r }))
            (insert_message-again id' now' input' ms (rw same h))
          ∙ ap (λ k. (persisted_id k ms, record s { messages = ms })) same,
    )
