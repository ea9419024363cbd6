-- ===== src/Credentials/Reset.antt =====
-- `requestPasswordReset`, `issueRequiredPasswordChangeToken` and `resetPassword` of
-- src/auth/service.ts.
use openers_performance_dash.Prelude.{
  ℕ, ◌+◌, Bool, true, false, not, ◌&&◌, Option, none, some, List, [], ◌∷◌, ◌++◌, ◌==◌,
  if◌then◌else◌, is_some,
}
use openers_performance_dash.Prelude.Table.{update, find}
use openers_performance_dash.Outbox.{EnqueueInput, insert_message, persisted_id}
use openers_performance_dash.Credentials.{
  is_account_of, address_of, permanent, revoked, Account, Token, Store, Crypto,
  is_valid_opaque_token, validate_password, is_empty, is_usable, is_newest, is_signed_up, reuses,
  revoke_sessions, revoke_open, spend, Answer, invalid, superseded, password_reused, success,
  weak_password,
}
use openers_performance_dash.Credentials.Accept.{NewToken, is_taken}

abbrev message_of : Account → List ℕ → NewToken → EnqueueInput
message_of a email n = record {
  organization_id = some a.organization_id;
  profile_id = some a.id;
  reference_id = some n.token_id;
  recipient_email = email;
  message_type = "password_reset";
  idempotency_key = n.idempotency_key;
  encrypted_payload = n.encrypted_payload;
}

abbrev pub reset_of : Account → ℕ → NewToken → Token
reset_of a now n = record {
  id = n.token_id;
  profile_id = a.id;
  token_hash = n.token_hash;
  delivery_status = none;
  expires_at = now + n.lifetime;
  used_at = none;
  revoked_at = none;
  created_at = now;
}

abbrev pub add_reset : Account → ℕ → NewToken → Store → Store
add_reset a now n s = record s {
  resets = revoke_open none a.id now s.resets ++ reset_of a now n ∷ [];
}

-- `requestPasswordReset`, which answers nothing; `none` where its transaction throws. `is_asked` is
-- whether the database takes a stored address for the normalized one that is asked for.
unfoldable pub request_password_reset :
    (is_asked : List ℕ → Bool) → ℕ → NewToken → Store → Option Store
request_password_reset is_asked now n s = elim (find (is_account_of is_asked) s.accounts) [
  | none ↦ some s
  | some a ↦ elim (address_of a.email) [
    | none ↦ some s
    | some email ↦
        if not (is_signed_up a)
        then some s
        else (let ms = insert_message n.message_id now (message_of a email n) s.messages in
            if is_some (persisted_id n.idempotency_key ms) && not (is_taken n s.resets)
            then some (record (add_reset a now n s) { messages = ms })
            else none)
  ]
]

-- `issueRequiredPasswordChangeToken`; it throws where it returns `none`.
unfoldable pub issue_required_change : (profile now : ℕ) → NewToken → Store → Option Store
issue_required_change profile now n s = elim (find (λ (a : Account). a.id == profile) s.accounts) [
  | none ↦ none
  | some a ↦
      if is_signed_up a && a.must_reset_password && not (is_taken n s.resets)
      then some (add_reset a now n s)
      else none
]

abbrev pub change_password : ℕ → ℕ → Account → Account
change_password password_hash now a = record a {
  password_hash = some password_hash;
  password_state = permanent;
  encrypted_temporary_password = none;
  must_reset_password = false;
  password_changed_at = some now;
}

abbrev changed_message : Account → List ℕ → NewToken → EnqueueInput
changed_message a email n = record {
  organization_id = some a.organization_id;
  profile_id = some a.id;
  reference_id = some a.id;
  recipient_email = email;
  message_type = "password_changed";
  idempotency_key = n.idempotency_key;
  encrypted_payload = n.encrypted_payload;
}

-- What the transaction of `resetPassword` writes but for the message.
unfoldable pub reset_writes : Token → Account → ℕ → ℕ → Store → Store
reset_writes t a password_hash now s = record s {
  accounts = update (λ (b : Account). b.id == a.id) (change_password password_hash now) s.accounts;
  resets = spend none none t a.id now s.resets;
  invitations = revoke_open (some revoked) a.id now s.invitations;
  sessions = revoke_sessions a.id now s.sessions;
}

-- The transaction's checks.
unfoldable pub check_reset :
    Crypto → List ℕ → List ℕ → ℕ → Store → Answer × Option (Token × Account × List ℕ)
check_reset k token password now s =
    elim (find (λ (t : Token). t.token_hash == k.hash_opaque_token token && is_usable now t)
      s.resets) [
        | none ↦ (invalid, none)
        | some t ↦ elim (is_newest now t s.resets) [
          | false ↦ (superseded, none)
          | true ↦
              elim (find (λ (a : Account). a.id == t.profile_id && is_signed_up a) s.accounts) [
                | none ↦ (invalid, none)
                | some a ↦ elim (address_of a.email) [
                  | none ↦ (invalid, none)
                  | some email ↦
                      if reuses k password a
                      then (password_reused, none)
                      else (success, some (t, a, email))
                ]
              ]
        ]
      ]

-- `resetPassword`; `none` where its transaction throws.
unfoldable pub reset_password :
    Crypto → List ℕ → List ℕ → ℕ → NewToken → Store → Option (Answer × Store)
reset_password k token password now n s =
    if not (is_valid_opaque_token token)
    then some (invalid, s)
    else (if not (is_empty (validate_password password))
        then some (weak_password (validate_password password), s)
        else (let (answer, rows) = check_reset k token password now s in
            elim rows [
              | none ↦ some (answer, s)
              | some (t, a, email) ↦
                  let ms = insert_message n.message_id now (changed_message a email n) s.messages in
                  if is_some (persisted_id n.idempotency_key ms)
                  then some (
                    answer,
                    record (reset_writes t a (k.hash_password password) now s) { messages = ms },
                  )
                  else none
            ]))
