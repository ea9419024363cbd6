-- ===== src/Credentials/Agreement.antt =====
-- Inspecting a link and following it, src/auth/service.ts: two readings of the same rows.
use openers_performance_dash.Prelude.{
  ℕ, ◌≡◌, ◌≢◌, refl, Bool, true, false, ◌&&◌, inl, inr, none, some, List, [], ◌∷◌, arith, ◌==◌,
  if◌then◌else◌, is_some, All, All-In, Bool-cases, Option-cases, ==_iff,
}
use openers_performance_dash.Prelude.Table.{find, find-In, IsKeyed}
use openers_performance_dash.Credentials.{
  validate_password, Account, Token, Store, Crypto, is_valid_opaque_token, is_usable, Answer,
  success, password_reused,
}
use openers_performance_dash.Credentials.Accept.{check_acceptance, accept_invitation}
use openers_performance_dash.Credentials.Inspect.{
  TokenInspectionStatus, valid, is_delivery_revoked, inspect_token, inspect_invitation_token,
}

find_no_usable :
    (hash now : ℕ) (ts : List Token)
    → find (λ (t : Token). t.token_hash == hash) ts ≡ none
    → find (λ (t : Token). t.token_hash == hash && is_usable now t) ts ≡ none
find_no_usable hash now [] e = refl
find_no_usable hash now (t ∷ ts) e = ground (arith, e, find_no_usable hash now ts)

-- Among rows with distinct hashes, the one with a hash is found whether or not it is asked to be usable.
find_usable :
    (hash now : ℕ) (ts : List Token) (t : Token)
    → IsKeyed (λ (t : Token). t.token_hash) ts
    → find (λ (t : Token). t.token_hash == hash) ts ≡ some t
    → find (λ (t : Token). t.token_hash == hash && is_usable now t) ts
      ≡ (if is_usable now t then some t else none)
find_usable hash now [] t k e = cc
find_usable hash now (u ∷ ts) t k e = elim (Bool-cases (u.token_hash == hash)) [
  | inr f ↦ rw f (find_usable hash now ts t k.1 (rw f at e))
  | inl h ↦
      let same : u ≡ t = cc (rw h at e) in
      elim (Bool-cases (is_usable now u)) [
        | inl v ↦ rw (← same, h, v) refl
        | inr v ↦
            rw (← same, h, v)
              (find_no_usable hash now ts (no_hash ts k.0 ((==_iff u.token_hash hash).0 h)))
      ]
]
  where
    no_hash :
        (us : List Token)
        → All (λ (y : Token). y.token_hash ≢ u.token_hash) us
        → u.token_hash ≡ hash
        → find (λ (t : Token). t.token_hash == hash) us ≡ none
    no_hash [] a h = refl
    no_hash (v ∷ us) a h = ground (arith, a.0, h, no_hash us a.1 h)

-- The answers of a link that could be followed, but perhaps for the password that was chosen.
abbrev pub is_followed : Answer → Bool
is_followed success = true
is_followed password_reused = true
is_followed other = false

abbrev pub is_valid_status : TokenInspectionStatus → Bool
is_valid_status valid = true
is_valid_status other = false

-- The transaction's checks, for a well-formed link.
inspect_invitation_token-checks :
    (k : Crypto) (token password : List ℕ) (now : ℕ) (s : Store)
    → IsKeyed (λ (t : Token). t.token_hash) s.invitations
    → All
        (λ (t : Token). is_delivery_revoked t.delivery_status ≡ true → is_some t.revoked_at ≡ true)
        s.invitations
    → is_valid_opaque_token token ≡ true
    → is_valid_status (inspect_invitation_token k token true now s)
      ≡ is_followed (check_acceptance k token password now s).0
unfolding inspect_invitation_token inspect_token check_acceptance
inspect_invitation_token-checks k token password now s keyed delivered form =
    let hash = k.hash_opaque_token token in
    elim (Option-cases (find (λ (t : Token). t.token_hash == hash) s.invitations)) [
      | inl n ↦
          rw (form, inspect_token, check_acceptance, n, find_no_usable hash now s.invitations n)
            refl
      | inr (t, e) ↦
          let d =
            All-In
              (λ (t : Token).
                is_delivery_revoked t.delivery_status ≡ true → is_some t.revoked_at ≡ true)
              t s.invitations delivered (find-In _ s.invitations t e).0 in
          elim (Option-cases (find (λ (a : Account). a.id == t.profile_id) s.accounts)) [
            | inl n ↦
                rw
                  (
                    form,
                    inspect_token,
                    check_acceptance,
                    e,
                    find_usable hash now s.invitations t keyed e,
                    n,
                  )
                  (ground (arith, d))
            | inr (a, f) ↦
                rw
                  (
                    form,
                    inspect_token,
                    check_acceptance,
                    e,
                    find_usable hash now s.invitations t keyed e,
                    f,
                  )
                  (ground (arith, d))
          ]
    ]

accept_invitation-answer :
    (k : Crypto) (token password : List ℕ) (now : ℕ) (s : Store)
    → is_valid_opaque_token token ≡ true
    → validate_password password ≡ []
    → (accept_invitation k token password now s).0 ≡ (check_acceptance k token password now s).0
unfolding accept_invitation
accept_invitation-answer k token password now s form strong =
    elim (Option-cases (check_acceptance k token password now s).1) [
      | inl n ↦ rw (accept_invitation, form, strong, n) refl
      | inr (r, n) ↦ rw (accept_invitation, form, strong, n) refl
    ]

-- In a table of invitations with distinct hashes, in which a delivery status "revoked" comes with a time
-- of revocation, the inspection of a link within the rate limit answers "valid" exactly if
-- acceptInvitation, called at that time with that link and a password that meets all the rules of
-- passwords, would succeed or refuse the password only because it is the one that the account has.
pub inspect_invitation_token-agrees :
    (k : Crypto) (token password : List ℕ) (now : ℕ) (s : Store)
    → IsKeyed (λ (t : Token). t.token_hash) s.invitations
    → All
        (λ (t : Token). is_delivery_revoked t.delivery_status ≡ true → is_some t.revoked_at ≡ true)
        s.invitations
    → validate_password password ≡ []
    → is_valid_status (inspect_invitation_token k token true now s)
      ≡ is_followed (accept_invitation k token password now s).0
unfolding inspect_invitation_token accept_invitation
inspect_invitation_token-agrees k token password now s keyed delivered strong =
    elim (Bool-cases (is_valid_opaque_token token)) [
      | inr f ↦ rw (f, inspect_invitation_token, accept_invitation) refl
      | inl t ↦
          rw (accept_invitation-answer k token password now s t strong)
            (inspect_invitation_token-checks k token password now s keyed delivered t)
    ]
