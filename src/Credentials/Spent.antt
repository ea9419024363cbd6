-- ===== src/Credentials/Spent.antt =====
-- A link is followed once, whatever requests of src/auth/service.ts come after it.
use openers_performance_dash.Prelude.{
  ℕ, ◌≡◌, sym, refl, Bool, true, false, not, ◌&&◌, inl, inr, Option, none, some, List, [], ◌∷◌,
  arith, ◌==◌, if◌then◌else◌, Bool-cases, Option-cases, is_some,
}
use openers_performance_dash.Prelude.Table.{find}
use openers_performance_dash.Accounts.{Actor, is_admin}
use openers_performance_dash.Credentials.{
  is_account_of, address_of, is_valid_opaque_token, validate_password, is_empty, is_signed_up,
  accepted, revoked, can_be_invited, Account, Token, Store, Crypto, Answer, is_open_of,
  revoke_token, revoke_open,
}
use openers_performance_dash.Credentials.Accept.{
  NewToken, is_taken, send_invitation, invitation_of, withdraw, issue_invitation, accept_writes,
  accept_invitation, check_acceptance,
}
use openers_performance_dash.Credentials.Reset.{
  request_password_reset, issue_required_change, add_reset, reset_of, reset_writes, reset_password,
  check_reset,
}
use openers_performance_dash.Credentials.Moves.{
  Moves, stay, close, add, Proceeds, unproceeded, untaken, revoke_open-Moves, spend-Moves,
}
use openers_performance_dash.Outbox.{OutboxMessage, persisted_id}

-- The requests that write the tables of tokens.
pub data Request : Type 0 where
  issue : Actor → (profile now : ℕ) → NewToken → Request
  accept : (token password : List ℕ) → (now : ℕ) → Request
  ask : (List ℕ → Bool) → (now : ℕ) → NewToken → Request
  ask_change : (profile now : ℕ) → NewToken → Request
  reset : (token password : List ℕ) → (now : ℕ) → NewToken → Request

-- A request that throws leaves the store as it was.
abbrev kept : Option Store → Store → Store
kept none s = s
kept (some s') s = s'

abbrev answered : Option (Answer × Store) → Store → Store
answered none s = s
answered (some (a, s')) s = s'

unfoldable pub after_request : Crypto → Request → Store → Store
after_request k (issue actor profile now n) s = kept (issue_invitation actor profile now n s) s
after_request k (accept token password now) s = (accept_invitation k token password now s).1
after_request k (ask is_asked now n) s = kept (request_password_reset is_asked now n s) s
after_request k (ask_change profile now n) s = kept (issue_required_change profile now n s) s
after_request k (reset token password now n) s =
    answered (reset_password k token password now n s) s

unfoldable pub run_requests : Crypto → List Request → Store → Store
run_requests k [] s = s
run_requests k (r ∷ rs) s = run_requests k rs (after_request k r s)

issue_invitation-Proceeds :
    (actor : Actor) (profile now : ℕ) (n : NewToken) (s : Store)
    → Proceeds s (kept (issue_invitation actor profile now n s) s)
unfolding issue_invitation send_invitation
issue_invitation-Proceeds actor profile now n s = elim (Bool-cases (is_admin actor.role)) [
  | inr f ↦ rw (issue_invitation, f) (unproceeded s)
  | inl t ↦
      elim (Option-cases (
        find (λ (a : Account). a.id == profile && a.organization_id == actor.organization_id)
          s.accounts)) [
            | inl f ↦ rw (issue_invitation, t, f) (unproceeded s)
            | inr (a, f) ↦ elim (Option-cases (address_of a.email)) [
              | inl e ↦ rw (issue_invitation, t, f, e) (unproceeded s)
              | inr (email, e) ↦ rw (issue_invitation, t, f, e) (sent a email _ refl)
            ]
          ]
]
  where
    sent :
        (a : Account) (email : List ℕ) (c : Bool)
        → (c ≡ (
            can_be_invited a
            && not (is_taken n s.invitations)
            && is_some (persisted_id n.idempotency_key (send_invitation a email now n s).messages)))
        → Proceeds s (kept (if c then some (send_invitation a email now n s) else none) s)
    sent a email false e = unproceeded s
    sent a email true e = record {
      invitations =
          add (close stay (is_open_of a.id) (withdraw now) (λ t. refl) (λ t h. ground (arith, h)))
            (invitation_of a now n)
            (untaken n (is_open_of a.id) (withdraw now) s.invitations (λ t. refl)
              (ground (arith, e)));
      resets = stay;
    }

accept_invitation-Proceeds :
    (k : Crypto) (token password : List ℕ) (now : ℕ) (s : Store)
    → Proceeds s (accept_invitation k token password now s).1
unfolding accept_invitation accept_writes
accept_invitation-Proceeds k token password now s =
    elim (Bool-cases (is_valid_opaque_token token)) [
      | inr f ↦ rw (accept_invitation, f) (unproceeded s)
      | inl t ↦ elim (Bool-cases (is_empty (validate_password password))) [
        | inr e ↦ rw (accept_invitation, t, e) (unproceeded s)
        | inl e ↦ elim (Option-cases (check_acceptance k token password now s).1) [
          | inl n ↦ rw (accept_invitation, t, e, n) (unproceeded s)
          | inr ((l, a), n) ↦
              rw (accept_invitation, t, e, n)
                (record {
                  invitations = spend-Moves (some accepted) (some revoked) l a.id now stay;
                  resets = revoke_open-Moves none a.id now stay;
                })
        ]
      ]
    ]

reset_password-Proceeds :
    (k : Crypto) (token password : List ℕ) (now : ℕ) (n : NewToken) (s : Store)
    → Proceeds s (answered (reset_password k token password now n s) s)
unfolding reset_password reset_writes
reset_password-Proceeds k token password now n s = elim (Bool-cases (is_valid_opaque_token token)) [
  | inr f ↦ rw (reset_password, f) (unproceeded s)
  | inl t ↦ elim (Bool-cases (is_empty (validate_password password))) [
    | inr e ↦ rw (reset_password, t, e) (unproceeded s)
    | inl e ↦ elim (Option-cases (check_reset k token password now s).1) [
      | inl o ↦ rw (reset_password, t, e, o) (unproceeded s)
      | inr ((l, a, m), o) ↦ rw (reset_password, t, e, o) (written l a _ _)
    ]
  ]
]
  where
    written :
        (l : Token) (a : Account) (c : Bool) (ms : List OutboxMessage)
        → Proceeds s (
            answered
              (if c
                then some (
                  (check_reset k token password now s).0,
                  record (reset_writes l a (k.hash_password password) now s) { messages = ms },
                )
                else none)
              s)
    written l a false ms = unproceeded s
    written l a true ms = record {
      invitations = revoke_open-Moves (some revoked) a.id now stay;
      resets = spend-Moves none none l a.id now stay;
    }

-- The row of a new password reset link.
add_reset-Moves :
    (a : Account) (now : ℕ) (n : NewToken) (s : Store)
    → is_taken n s.resets ≡ false
    → Moves s.resets (add_reset a now n s).resets
unfolding revoke_open
add_reset-Moves a now n s e =
    add (revoke_open-Moves none a.id now stay) (reset_of a now n)
      (untaken n (is_open_of a.id) (revoke_token none now) s.resets (λ t. refl) e)

request_password_reset-Proceeds :
    (is_asked : List ℕ → Bool) (now : ℕ) (n : NewToken) (s : Store)
    → Proceeds s (kept (request_password_reset is_asked now n s) s)
unfolding request_password_reset
request_password_reset-Proceeds is_asked now n s =
    elim (Option-cases (find (is_account_of is_asked) s.accounts)) [
      | inl f ↦ rw (request_password_reset, f) (unproceeded s)
      | inr (a, f) ↦ elim (Option-cases (address_of a.email)) [
        | inl e ↦ rw (request_password_reset, f, e) (unproceeded s)
        | inr (email, e) ↦ elim (Bool-cases (is_signed_up a)) [
          | inr g ↦ rw (request_password_reset, f, e, g) (unproceeded s)
          | inl g ↦ rw (request_password_reset, f, e, g) (asked a _ _ _ refl)
        ]
      ]
    ]
  where
    asked :
        (a : Account) (b t : Bool) (ms : List OutboxMessage)
        → t ≡ is_taken n s.resets
        → Proceeds s (
            kept
              (if b && not t then some (record (add_reset a now n s) { messages = ms }) else none)
              s)
    asked a false t ms e = unproceeded s
    asked a true true ms e = unproceeded s
    asked a true false ms e = record {
      invitations = stay;
      resets = add_reset-Moves a now n s (sym e);
    }

issue_required_change-Proceeds :
    (profile now : ℕ) (n : NewToken) (s : Store)
    → Proceeds s (kept (issue_required_change profile now n s) s)
unfolding issue_required_change
issue_required_change-Proceeds profile now n s =
    elim (Option-cases (find (λ (a : Account). a.id == profile) s.accounts)) [
      | inl f ↦ rw (issue_required_change, f) (unproceeded s)
      | inr (a, f) ↦ rw (issue_required_change, f) (added a _ refl)
    ]
  where
    added :
        (a : Account) (c : Bool)
        → (c ≡ (is_signed_up a && a.must_reset_password && not (is_taken n s.resets)))
        → Proceeds s (kept (if c then some (add_reset a now n s) else none) s)
    added a false e = unproceeded s
    added a true e = record {
      invitations = stay;
      resets = add_reset-Moves a now n s (ground (arith, e));
    }

pub after_request-Proceeds :
    (k : Crypto) (r : Request) (s : Store) → Proceeds s (after_request k r s)
unfolding after_request
after_request-Proceeds k (issue actor profile now n) s =
    issue_invitation-Proceeds actor profile now n s
after_request-Proceeds k (accept token password now) s =
    accept_invitation-Proceeds k token password now s
after_request-Proceeds k (ask is_asked now n) s = request_password_reset-Proceeds is_asked now n s
after_request-Proceeds k (ask_change profile now n) s =
    issue_required_change-Proceeds profile now n s
after_request-Proceeds k (reset token password now n) s =
    reset_password-Proceeds k token password now n s
