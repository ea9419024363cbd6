-- ===== src/Credentials/SignIn.antt =====
-- `canAuthenticate` of src/auth/security.ts and `authenticateCredentials` of src/auth/service.ts.
-- `is_asked` is whether the database takes a stored address for the normalized one that is given, and
-- `dummy_hash` the hash that the code compares with where there is no account.
use openers_performance_dash.Prelude.{
  ℕ, ◌≡◌, refl, Bool, true, false, not, ◌||◌, inl, inr, Option, none, some, List, length, ltb, ◌==◌,
  if◌then◌else◌, is_some, or_else, arith, In, Bool-cases,
}
use openers_performance_dash.Prelude.Table.{update, update-covers, find, find-In}
use openers_performance_dash.Credentials.{
  is_valid_opaque_token, Token, is_account_of, Account, Store, Crypto, is_signed_up,
  max_password_length, is_empty, validate_password, success,
}
use openers_performance_dash.Credentials.Accept.{
  check_acceptance, open_account, accept_writes, accept_invitation,
}

pub data Policy : Type 0 where
  inactive no_password reset_required allowed : Policy

unfoldable pub can_authenticate : Account → Policy
can_authenticate a =
    if not (is_signed_up a)
    then inactive
    else (if not (is_some a.password_hash)
        then no_password
        else (if a.must_reset_password then reset_required else allowed))

pub data SignIn : Type 0 where
  refused : SignIn
  signed_in : Account → (requires_password_change : Bool) → SignIn

abbrev hash_of : Option Account → Option ℕ
hash_of none = none
hash_of (some a) = a.password_hash

abbrev record_login : ℕ → Account → Account
record_login now a = record a { last_login_at = some now }

-- The policy's part.
unfoldable pub admit : Account → ℕ → Store → SignIn × Store
admit a now s = elim (can_authenticate a) [
  | inactive ↦ (refused, s)
  | no_password ↦ (refused, s)
  | reset_required ↦ (signed_in a true, s)
  | allowed ↦ (
    signed_in a false,
    record s { accounts = update (λ (b : Account). b.id == a.id) (record_login now) s.accounts },
  )
]

unfoldable pub authenticate_credentials :
    Crypto
    → (dummy_hash : ℕ) → (is_asked : List ℕ → Bool) → (password : List ℕ) → ℕ
    → Store
    → SignIn × Store
authenticate_credentials k dummy_hash is_asked password now s =
    let found = find (is_account_of is_asked) s.accounts in
    if ltb max_password_length (length password)
    then (refused, s)
    else (if not (is_some (hash_of found))
          || not (k.verify_password password (or_else (hash_of found) dummy_hash))
        then (refused, s)
        else elim found [ none ↦ (refused, s) | some a ↦ admit a now s ])

-- What an account is after an acceptance.
accepted_account :
    (t : Token) (a : Account) (hash now : ℕ) (s : Store) (b : Account)
    → In b (accept_writes t a hash now s).accounts
    → b.id ≡ a.id
    → (c : Account) × (b ≡ open_account hash now c)
unfolding accept_writes
accepted_account t a hash now s =
    update-covers (λ (b : Account). b.id ≡ a.id → (c : Account) × (b ≡ open_account hash now c))
      (λ (b : Account). b.id == a.id) (open_account hash now) s.accounts (λ x m t i. (x, refl))
      (λ x m e i. absurd (ground (arith, e, i)))

-- What a success of `acceptInvitation` has written, for the rows that its transaction has found.
accept_invitation-writes :
    (k : Crypto) (token password : List ℕ) (now : ℕ) (s s' : Store) (t : Token) (a : Account)
    → accept_invitation k token password now s ≡ (success, s')
    → check_acceptance k token password now s ≡ (success, some (t, a))
    → (accept_writes t a (k.hash_password password) now s ≡ s')
      × (ltb max_password_length (length password) ≡ false)
unfolding accept_invitation validate_password
accept_invitation-writes k token password now s s' t a e f =
    elim (Bool-cases (is_valid_opaque_token token)) [
      | inr v ↦ absurd (cc (rw v at e))
      | inl v ↦ elim (Bool-cases (is_empty (validate_password password))) [
        | inr p ↦ absurd (cc (rw (v, p) at e))
        | inl p ↦ (
          cc (rw (v, p, f) at e),
          elim (Bool-cases (ltb max_password_length (length password))) [
            | inl l ↦ absurd (cc (rw (validate_password, l) at p))
            | inr l ↦ l
          ],
        )
      ]
    ]

admit-signed_in :
    (b : Account) (now : ℕ) (s : Store) {h : ℕ}
    → is_signed_up b ≡ true
    → b.password_hash ≡ some h
    → b.must_reset_password ≡ false
    → (admit b now s).0 ≡ signed_in b false
unfolding admit can_authenticate
admit-signed_in b now s up hash kept = ground (arith, up, hash, kept)

-- Where the comparison of passwords recognises a hashed password, an accepted invitation lets its
-- account sign in with the chosen password, with no further change of it, by any address under which
-- the database finds that account.
pub authenticate_credentials-accept_invitation :
    (k : Crypto) (token password : List ℕ) (now later dummy_hash : ℕ) (is_asked : List ℕ → Bool)
    (s s' : Store) (t : Token) (a b : Account)
    → k.verify_password password (k.hash_password password) ≡ true
    → accept_invitation k token password now s ≡ (success, s')
    → check_acceptance k token password now s ≡ (success, some (t, a))
    → find (is_account_of is_asked) s'.accounts ≡ some b
    → b.id ≡ a.id
    → (authenticate_credentials k dummy_hash is_asked password later s').0 ≡ signed_in b false
unfolding authenticate_credentials
authenticate_credentials-accept_invitation k token password now later dummy_hash is_asked s s' t a b
      verifies e r f i =
    let (writes, short) = accept_invitation-writes k token password now s s' t a e r in
    let (m, _) = find-In (is_account_of is_asked) s'.accounts b f in
    let (c, same) =
      accepted_account t a (k.hash_password password) now s b (rw (← writes) at m) i in
    let hash : b.password_hash ≡ some (k.hash_password password) = cc same in
    let up : is_signed_up b ≡ true = rw same refl in
    let kept : b.must_reset_password ≡ false = cc same in
    rw (short, f) (ground (arith, hash, verifies, admit-signed_in b later s' up hash kept))
