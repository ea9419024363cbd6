-- ===== src/Credentials/Checks.antt =====
-- What a success of `acceptInvitation` or `resetPassword`, src/auth/service.ts, tells of the rows.
use openers_performance_dash.Prelude.{
  ℕ, ◌≡◌, ◌≢◌, refl, ap, Bool, true, false, not, ◌&&◌, inl, inr, Option, none, some, List, arith,
  ◌==◌, if◌then◌else◌, In, Bool-cases, Option-cases,
}
use openers_performance_dash.Prelude.Table.{find, find-In}
use openers_performance_dash.Outbox.{OutboxMessage}
use openers_performance_dash.Credentials.{
  address_of, Account, Token, Store, Crypto, Answer, success, is_usable, is_newest,
  is_valid_opaque_token, validate_password, is_empty, can_be_invited, is_signed_up, reuses,
}
use openers_performance_dash.Credentials.Accept.{
  NewToken, accept_writes, check_acceptance, accept_invitation,
}
use openers_performance_dash.Credentials.Reset.{reset_writes, check_reset, reset_password}

-- The link and the account that a transaction has found, among the rows it reads.
pub record IsMatch (k : Crypto) (token password : List ℕ) (now : ℕ) (eligible : Account → Bool)
    (ts : List Token) (accounts : List Account) (t : Token) (a : Account) : Type 0 where
  pub token_listed : In t ts
  pub same_hash : t.token_hash ≡ k.hash_opaque_token token
  pub usable : is_usable now t ≡ true
  pub newest : is_newest now t ts ≡ true
  pub account_listed : In a accounts
  pub own_account : a.id ≡ t.profile_id
  pub is_eligible : eligible a ≡ true
  pub fresh_password : reuses k password a ≡ false

found-IsMatch :
    (k : Crypto) (token password : List ℕ) (now : ℕ) (eligible : Account → Bool) (ts : List Token)
    (accounts : List Account) (t : Token) (a : Account)
    → find (λ (t : Token). t.token_hash == k.hash_opaque_token token && is_usable now t) ts ≡ some t
    → is_newest now t ts ≡ true
    → In a accounts
    → (a.id == t.profile_id) ≡ true
    → eligible a ≡ true
    → reuses k password a ≡ false
    → IsMatch k token password now eligible ts accounts t a
found-IsMatch k token password now eligible ts accounts t a f o n q i r =
    let (m, p) =
      find-In (λ (t : Token). t.token_hash == k.hash_opaque_token token && is_usable now t) ts t
        f in
    record {
      token_listed = m;
      same_hash = ground (arith, p);
      usable = ground (arith, p);
      newest = o;
      account_listed = n;
      own_account = ground (arith, q);
      is_eligible = i;
      fresh_password = r;
    }

pub check_acceptance-IsMatch :
    (k : Crypto) (token password : List ℕ) (now : ℕ) (s : Store) (x : Answer) (t : Token)
    (a : Account)
    → check_acceptance k token password now s ≡ (x, some (t, a))
    → IsMatch k token password now can_be_invited s.invitations s.accounts t a
unfolding check_acceptance
check_acceptance-IsMatch k token password now s x t a e =
    elim (Option-cases (
      find (λ (t : Token). t.token_hash == k.hash_opaque_token token && is_usable now t)
        s.invitations)) [
          | inl n ↦ absurd (cc (rw (check_acceptance, n) at e))
          | inr (u, f) ↦ elim (Bool-cases (is_newest now u s.invitations)) [
            | inr o ↦ absurd (cc (rw (check_acceptance, f, o) at e))
            | inl o ↦
                elim (Option-cases (find (λ (a : Account). a.id == u.profile_id) s.accounts)) [
                  | inl n ↦ absurd (cc (rw (check_acceptance, f, o, n) at e))
                  | inr (b, g) ↦ found u f o b g (rw (check_acceptance, f, o, g) at e)
                ]
          ]
        ]
  where
    found :
        (u : Token)
        → find
            (λ (t : Token). t.token_hash == k.hash_opaque_token token && is_usable now t)
            s.invitations
          ≡ some u
        → is_newest now u s.invitations ≡ true
        → (b : Account) → find (λ (a : Account). a.id == u.profile_id) s.accounts ≡ some b
        → ◌≡◌ {A = Answer × Option (Token × Account)}
            (if not (can_be_invited b)
              then (Answer.invalid, none)
              else (if reuses k password b
                  then (Answer.password_reused, none)
                  else (success, some (u, b))))
            (x, some (t, a))
        → IsMatch k token password now can_be_invited s.invitations s.accounts t a
    found u f o b g h = elim (Bool-cases (can_be_invited b)) [
      | inr i ↦ absurd (cc (rw i at h))
      | inl i ↦ elim (Bool-cases (reuses k password b)) [
        | inl r ↦ absurd (cc (rw (i, r) at h))
        | inr r ↦
            let u≡t : u ≡ t = cc (rw (i, r) at h) in
            let b≡a : b ≡ a = cc (rw (i, r) at h) in
            let (n, q) = find-In _ s.accounts b g in
            rw (← u≡t, ← b≡a) (found-IsMatch k token password now _ _ _ u b f o n q i r)
      ]
    ]

pub check_reset-IsMatch :
    (k : Crypto) (token password : List ℕ) (now : ℕ) (s : Store) (x : Answer) (t : Token)
    (a : Account) (email : List ℕ)
    → check_reset k token password now s ≡ (x, some (t, a, email))
    → IsMatch k token password now is_signed_up s.resets s.accounts t a
unfolding check_reset
check_reset-IsMatch k token password now s x t a email e =
    elim (Option-cases (
      find (λ (t : Token). t.token_hash == k.hash_opaque_token token && is_usable now t)
        s.resets)) [
          | inl n ↦ absurd (cc (rw (check_reset, n) at e))
          | inr (u, f) ↦ elim (Bool-cases (is_newest now u s.resets)) [
            | inr o ↦ absurd (cc (rw (check_reset, f, o) at e))
            | inl o ↦
                elim (Option-cases
                  (find (λ (a : Account). a.id == u.profile_id && is_signed_up a) s.accounts)) [
                    | inl n ↦ absurd (cc (rw (check_reset, f, o, n) at e))
                    | inr (b, g) ↦ found u f o b g (rw (check_reset, f, o, g) at e)
                  ]
          ]
        ]
  where
    found :
        (u : Token)
        → find
            (λ (t : Token). t.token_hash == k.hash_opaque_token token && is_usable now t)
            s.resets
          ≡ some u
        → is_newest now u s.resets ≡ true
        → (b : Account)
        → find (λ (a : Account). a.id == u.profile_id && is_signed_up a) s.accounts ≡ some b
        → ◌≡◌ {A = Answer × Option (Token × Account × List ℕ)}
            (elim (address_of b.email) [
              | none ↦ (Answer.invalid, none)
              | some email ↦
                  if reuses k password b
                  then (Answer.password_reused, none)
                  else (success, some (u, b, email))
            ])
            (x, some (t, a, email))
        → IsMatch k token password now is_signed_up s.resets s.accounts t a
    found u f o b g h = elim (Option-cases (address_of b.email)) [
      | inl i ↦ absurd (cc (rw i at h))
      | inr (m, i) ↦ elim (Bool-cases (reuses k password b)) [
        | inl r ↦ absurd (cc (rw (i, r) at h))
        | inr r ↦
            let u≡t : u ≡ t = cc (rw (i, r) at h) in
            let b≡a : b ≡ a = cc (rw (i, r) at h) in
            let (n, q) =
              find-In (λ (a : Account). a.id == u.profile_id && is_signed_up a) s.accounts b g in
            rw (← u≡t, ← b≡a)
              (found-IsMatch k token password now _ _ _ u b f o n (ground (arith, q))
                (ground (arith, q)) r)
      ]
    ]

-- Both checks answer rows just with a success.
check_acceptance-rows :
    (k : Crypto) (token password : List ℕ) (now : ℕ) (s : Store)
    → (check_acceptance k token password now s).1 ≡ none
    → (check_acceptance k token password now s).0 ≢ success
unfolding check_acceptance
check_acceptance-rows k token password now s n e = ground (arith, n, e)

check_reset-rows :
    (k : Crypto) (token password : List ℕ) (now : ℕ) (s : Store)
    → (check_reset k token password now s).1 ≡ none
    → (check_reset k token password now s).0 ≢ success
unfolding check_reset
check_reset-rows k token password now s n e = ground (arith, n, e)

-- An accepted invitation.
pub record IsAccepted (k : Crypto) (token password : List ℕ) (now : ℕ) (s s' : Store) : Type 0 where
  pub link : Token
  pub account : Account
  pub is_match : IsMatch k token password now can_be_invited s.invitations s.accounts link account
  pub writes : s' ≡ accept_writes link account (k.hash_password password) now s

pub accept_invitation-IsAccepted :
    (k : Crypto) (token password : List ℕ) (now : ℕ) (s s' : Store)
    → accept_invitation k token password now s ≡ (success, s')
    → IsAccepted k token password now s s'
unfolding accept_invitation
accept_invitation-IsAccepted k token password now s s' e =
    elim (Bool-cases (is_valid_opaque_token token)) [
      | inr v ↦ absurd (cc (rw v at e))
      | inl v ↦ elim (Bool-cases (is_empty (validate_password password))) [
        | inr p ↦ absurd (cc (rw (v, p) at e))
        | inl p ↦ elim (Option-cases (check_acceptance k token password now s).1) [
          | inl n ↦ absurd (check_acceptance-rows k token password now s n (cc (rw (v, p, n) at e)))
          | inr ((t, a), n) ↦ record {
            link = t;
            account = a;
            is_match =
                check_acceptance-IsMatch k token password now s
                  (check_acceptance k token password now s).0 t a
                  (ap (λ r. ((check_acceptance k token password now s).0, r)) n);
            writes = cc (rw (v, p, n) at e);
          }
        ]
      ]
    ]

-- A password that was reset, but for the message about it.
pub record IsReset (k : Crypto) (token password : List ℕ) (now : ℕ) (s s' : Store) : Type 0 where
  pub link : Token
  pub account : Account
  pub is_match : IsMatch k token password now is_signed_up s.resets s.accounts link account
  pub writes :
      record s' { messages = s.messages }
      ≡ reset_writes link account (k.hash_password password) now s

pub reset_password-IsReset :
    (k : Crypto) (token password : List ℕ) (now : ℕ) (n : NewToken) (s s' : Store)
    → reset_password k token password now n s ≡ some (success, s')
    → IsReset k token password now s s'
unfolding reset_password reset_writes
reset_password-IsReset k token password now n s s' e =
    elim (Bool-cases (is_valid_opaque_token token)) [
      | inr v ↦ absurd (cc (rw v at e))
      | inl v ↦ elim (Bool-cases (is_empty (validate_password password))) [
        | inr p ↦ absurd (cc (rw (v, p) at e))
        | inl p ↦ elim (Option-cases (check_reset k token password now s).1) [
          | inl o ↦ absurd (check_reset-rows k token password now s o (cc (rw (v, p, o) at e)))
          | inr ((t, a, m), o) ↦ record {
            link = t;
            account = a;
            is_match =
                check_reset-IsMatch k token password now s (check_reset k token password now s).0 t
                  a m (ap (λ r. ((check_reset k token password now s).0, r)) o);
            writes = written t a _ _ (rw (v, p, o) at e);
          }
        ]
      ]
    ]
  where
    written :
        (t : Token) (a : Account) (c : Bool) (ms : List OutboxMessage)
        → ◌≡◌ {A = Option (Answer × Store)}
            (if c
              then some (
                (check_reset k token password now s).0,
                record (reset_writes t a (k.hash_password password) now s) { messages = ms },
              )
              else none)
            (some (success, s'))
        → record s' { messages = s.messages } ≡ reset_writes t a (k.hash_password password) now s
    written t a true ms h =
        let q : record (reset_writes t a (k.hash_password password) now s) { messages = ms } ≡ s' =
          cc h in
        rw (← q) refl
    written t a false ms h = cc h
