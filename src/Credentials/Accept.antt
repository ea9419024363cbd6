-- ===== src/Credentials/Accept.antt =====
-- `issueInvitation` and `acceptInvitation` of src/auth/service.ts.
use openers_performance_dash.Prelude.{
  ℕ, ◌+◌, Bool, true, false, not, ◌&&◌, ◌||◌, Option, none, some, List, [], ◌∷◌, ◌++◌, ◌==◌,
  if◌then◌else◌, is_some, any,
}
use openers_performance_dash.Prelude.Table.{update, find}
use openers_performance_dash.Accounts.{AccountStatus, Actor, is_admin}
use openers_performance_dash.Outbox.{EnqueueInput, insert_message, persisted_id}
use openers_performance_dash.Credentials.{
  address_of, permanent, pending, accepted, revoked, Account, Token, Store, Crypto,
  is_valid_opaque_token, validate_password, is_empty, is_usable, is_newest, can_be_invited, reuses,
  revoke_sessions, revoke_open, spend, is_open_of, Answer, invalid, superseded, password_reused,
  success, weak_password,
}

-- What a new invitation needs: the hash of a fresh token, ids, the key and ciphertext of its message,
-- and the time that an invitation lasts.
pub record NewToken : Type 0 where
  pub token_id : ℕ
  pub token_hash : ℕ
  pub message_id : ℕ
  pub idempotency_key : ℕ
  pub encrypted_payload : ℕ
  pub lifetime : ℕ

abbrev message_of : Account → List ℕ → Bool → NewToken → EnqueueInput
message_of a email resent n = record {
  organization_id = some a.organization_id;
  profile_id = some a.id;
  reference_id = some n.token_id;
  recipient_email = email;
  message_type = if resent then "account_invitation_resent" else "account_invitation";
  idempotency_key = n.idempotency_key;
  encrypted_payload = n.encrypted_payload;
}

abbrev pub invitation_of : Account → ℕ → NewToken → Token
invitation_of a now n = record {
  id = n.token_id;
  profile_id = a.id;
  token_hash = n.token_hash;
  delivery_status = some pending;
  expires_at = now + n.lifetime;
  used_at = none;
  revoked_at = none;
  created_at = now;
}

abbrev pub withdraw : ℕ → Token → Token
withdraw now t = record t { revoked_at = some now }

-- What the transaction of `issueInvitation` writes. (Revoking the former invitations leaves their
-- delivery status.)
unfoldable pub send_invitation : Account → List ℕ → ℕ → NewToken → Store → Store
send_invitation a email now n s =
    let resent = any (is_open_of a.id) s.invitations in
    record s {
      invitations =
          update (is_open_of a.id) (withdraw now) s.invitations ++ invitation_of a now n ∷ [];
      messages = insert_message n.message_id now (message_of a email resent n) s.messages;
    }

-- The unique keys of a table of tokens: its insertion throws where a row has them.
abbrev pub is_taken : NewToken → List Token → Bool
is_taken n ts = any (λ (t : Token). t.id == n.token_id || t.token_hash == n.token_hash) ts

-- `issueInvitation`; it throws where it returns `none`.
unfoldable pub issue_invitation : Actor → (profile now : ℕ) → NewToken → Store → Option Store
issue_invitation actor profile now n s =
    if not (is_admin actor.role)
    then none
    else elim (find (λ (a : Account). a.id == profile && a.organization_id == actor.organization_id)
        s.accounts) [
          | none ↦ none
          | some a ↦ elim (address_of a.email) [
            | none ↦ none
            | some email ↦
                let s' = send_invitation a email now n s in
                if can_be_invited a
                  && not (is_taken n s.invitations)
                  && is_some (persisted_id n.idempotency_key s'.messages)
                then some s'
                else none
          ]
        ]

abbrev pub open_account : ℕ → ℕ → Account → Account
open_account password_hash now a = record a {
  password_hash = some password_hash;
  password_state = permanent;
  encrypted_temporary_password = none;
  is_active = true;
  account_status = AccountStatus.active;
  must_reset_password = false;
  password_changed_at = some now;
  access_revoked_at = none;
}

-- What the transaction of `acceptInvitation` writes.
unfoldable pub accept_writes : Token → Account → ℕ → ℕ → Store → Store
accept_writes t a password_hash now s = record s {
  accounts = update (λ (b : Account). b.id == a.id) (open_account password_hash now) s.accounts;
  invitations = spend (some accepted) (some revoked) t a.id now s.invitations;
  resets = revoke_open none a.id now s.resets;
  sessions = revoke_sessions a.id now s.sessions;
}

-- The transaction's checks.
unfoldable pub check_acceptance :
    Crypto → List ℕ → List ℕ → ℕ → Store → Answer × Option (Token × Account)
check_acceptance k token password now s =
    elim (find (λ (t : Token). t.token_hash == k.hash_opaque_token token && is_usable now t)
      s.invitations) [
        | none ↦ (invalid, none)
        | some t ↦ elim (is_newest now t s.invitations) [
          | false ↦ (superseded, none)
          | true ↦ elim (find (λ (a : Account). a.id == t.profile_id) s.accounts) [
            | none ↦ (invalid, none)
            | some a ↦
                if not (can_be_invited a)
                then (invalid, none)
                else (if reuses k password a
                    then (password_reused, none)
                    else (success, some (t, a)))
          ]
        ]
      ]

-- `acceptInvitation`.
unfoldable pub accept_invitation : Crypto → List ℕ → List ℕ → ℕ → Store → Answer × Store
accept_invitation k token password now s =
    if not (is_valid_opaque_token token)
    then (invalid, s)
    else (if not (is_empty (validate_password password))
        then (weak_password (validate_password password), s)
        else (let (answer, rows) = check_acceptance k token password now s in
            elim rows [
              | none ↦ (answer, s)
              | some (t, a) ↦ (answer, accept_writes t a (k.hash_password password) now s)
            ]))
