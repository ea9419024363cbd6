-- ===== src/Credentials/Revoked.antt =====
-- What a new password ends, `acceptInvitation` and `resetPassword` of src/auth/service.ts: the sessions
-- and the open links of its account.
use openers_performance_dash.Prelude.{
  ℕ, ◌≡◌, ◌≢◌, refl, true, false, ◌&&◌, Option, none, some, List, arith, ◌==◌, is_some, is_none, In,
}
use openers_performance_dash.Prelude.Table.{update, update-covers}
use openers_performance_dash.Credentials.{
  Account, Token, Session, Store, Crypto, success, is_open, is_open_of, is_other_open_of,
  DeliveryStatus, revoke_token, use_token, revoke_session, revoke_sessions, revoke_open, spend,
  can_be_invited, is_signed_up,
}
use openers_performance_dash.Credentials.Accept.{
  NewToken, accept_writes, open_account, accept_invitation,
}
use openers_performance_dash.Credentials.Checks.{
  IsMatch, accept_invitation-IsAccepted, reset_password-IsReset,
}
use openers_performance_dash.Credentials.Sessions.{Limits, Directory, SessionUser, get_session_user}
use openers_performance_dash.Credentials.SignedIn.{get_session_user-IsSignedIn}
use openers_performance_dash.Credentials.Reset.{reset_writes, change_password, reset_password}

-- Only the new password, and neither a session nor a link from before, opens the account.
pub record IsRenewed (k : Crypto) (password : List ℕ) (a : Account) (s : Store) : Type 0 where
  pub no_session :
      (x : Session) → In x s.sessions → x.profile_id ≡ a.id → is_some x.revoked_at ≡ true
  pub no_invitation : (t : Token) → In t s.invitations → t.profile_id ≡ a.id → is_open t ≡ false
  pub no_reset : (t : Token) → In t s.resets → t.profile_id ≡ a.id → is_open t ≡ false
  pub new_password :
      (b : Account)
      → In b s.accounts
      → b.id ≡ a.id
      → b.password_hash ≡ some (k.hash_password password)

-- What a token of a profile that is closed looks like.
abbrev IsShut : ℕ → Token → Type 0
IsShut profile t = t.profile_id ≡ profile → is_open t ≡ false

revoke_sessions-In :
    (profile now : ℕ) (ss : List Session) (x : Session)
    → In x (revoke_sessions profile now ss)
    → x.profile_id ≡ profile
    → is_some x.revoked_at ≡ true
unfolding revoke_sessions
revoke_sessions-In profile now ss =
    update-covers (λ (x : Session). x.profile_id ≡ profile → is_some x.revoked_at ≡ true)
      (λ (x : Session). x.profile_id == profile && is_none x.revoked_at) (revoke_session now) ss
      (λ x m t h. refl) (λ x m f h. ground (arith, f, h))

revoke_open-In :
    (status : Option DeliveryStatus) (profile now : ℕ) (ts : List Token) (t : Token)
    → In t (revoke_open status profile now ts)
    → IsShut profile t
unfolding revoke_open
revoke_open-In status profile now ts =
    update-covers (IsShut profile) (is_open_of profile) (revoke_token status now) ts
      (λ x m t h. ground arith) (λ x m f h. ground (arith, f, h))

spend-In :
    (used others : Option DeliveryStatus) (t : Token) (profile now : ℕ) (ts : List Token)
    (u : Token)
    → In u (spend used others t profile now ts)
    → IsShut profile u
unfolding spend
spend-In used others t profile now ts =
    update-covers (IsShut profile) (is_other_open_of profile t.id) (revoke_token others now)
      (update (λ (u : Token). u.id == t.id) (use_token used now) ts) (λ x m o h. ground arith)
      (λ x m o h.
        let spent : x.id ≡ t.id → is_open x ≡ false =
          update-covers (λ (u : Token). u.id ≡ t.id → is_open u ≡ false)
            (λ (u : Token). u.id == t.id) (use_token used now) ts (λ y n e i. ground arith)
            (λ y n e i. ground (arith, e, i)) x m in
        ground (arith, spent, o, h))

-- A column of the rows with an id that an update sets.
account-set :
    (f : Account → Account) (h id : ℕ) (xs : List Account)
    → ((b : Account) → (f b).password_hash ≡ some h)
    → (b : Account) → In b (update (λ (b : Account). b.id == id) f xs)
    → b.id ≡ id
    → b.password_hash ≡ some h
account-set f h id xs sets =
    update-covers (λ (b : Account). b.id ≡ id → b.password_hash ≡ some h)
      (λ (b : Account). b.id == id) f xs (λ x m t i. sets x) (λ x m e i. ground (arith, e, i))

accept_writes-IsRenewed :
    (k : Crypto) (password : List ℕ) (t : Token) (a : Account) (now : ℕ) (s : Store)
    → IsRenewed k password a (accept_writes t a (k.hash_password password) now s)
unfolding accept_writes
accept_writes-IsRenewed k password t a now s = record {
  no_session = revoke_sessions-In a.id now s.sessions;
  no_invitation = spend-In _ _ t a.id now s.invitations;
  no_reset = revoke_open-In none a.id now s.resets;
  new_password =
      account-set (open_account (k.hash_password password) now) _ a.id s.accounts (λ b. refl);
}

reset_writes-IsRenewed :
    (k : Crypto) (password : List ℕ) (t : Token) (a : Account) (now : ℕ) (s : Store)
    → IsRenewed k password a (reset_writes t a (k.hash_password password) now s)
unfolding reset_writes
reset_writes-IsRenewed k password t a now s = record {
  no_session = revoke_sessions-In a.id now s.sessions;
  no_invitation = revoke_open-In _ a.id now s.invitations;
  no_reset = spend-In none none t a.id now s.resets;
  new_password =
      account-set (change_password (k.hash_password password) now) _ a.id s.accounts (λ b. refl);
}

-- When an invitation is accepted, its link and account are such as the transaction looks for. Then
-- every session of that account is revoked, all its invitations and reset links are closed, and its
-- password is the chosen one.
pub accept_invitation-IsRenewed :
    (k : Crypto) (token password : List ℕ) (now : ℕ) (s s' : Store)
    → accept_invitation k token password now s ≡ (success, s')
    → (t : Token) × (a : Account) × IsMatch k token password now can_be_invited s.invitations
        s.accounts t a
      × IsRenewed k password a s'
accept_invitation-IsRenewed k token password now s s' e =
    let r = accept_invitation-IsAccepted k token password now s s' e in
    (
      r.link,
      r.account,
      r.is_match,
      rw r.writes (accept_writes-IsRenewed k password r.link r.account now s),
    )

-- When a password is reset, its link and account are such as the transaction looks for. Then every
-- session of that account is revoked, all its invitations and reset links are closed, and its password
-- is the chosen one.
pub reset_password-IsRenewed :
    (k : Crypto) (token password : List ℕ) (now : ℕ) (n : NewToken) (s s' : Store)
    → reset_password k token password now n s ≡ some (success, s')
    → (t : Token) × (a : Account) × IsMatch k token password now is_signed_up s.resets s.accounts t
        a
      × IsRenewed k password a s'
reset_password-IsRenewed k token password now n s s' e =
    let r = reset_password-IsReset k token password now n s s' e in
    let w = rw (← r.writes) at (reset_writes-IsRenewed k password r.link r.account now s) in
    (
      r.link,
      r.account,
      r.is_match,
      record {
        no_session = w.no_session;
        no_invitation = w.no_invitation;
        no_reset = w.no_reset;
        new_password = w.new_password;
      },
    )

-- No cookie from before signs in as an account whose password is new.
pub get_session_user-IsRenewed :
    (l : Limits) (k : Crypto) (password cookie : List ℕ) (now : ℕ) (a : Account) (d : Directory)
    (s : Store) (u : SessionUser)
    → IsRenewed k password a s
    → (get_session_user l k cookie now d s.sessions).0 ≡ some u
    → u.id ≢ a.id
get_session_user-IsRenewed l k password cookie now a d s u r e same =
    let i = get_session_user-IsSignedIn l k cookie now d s.sessions u e in
    let ended =
      r.no_session i.session i.session_listed (ground (arith, i.own_account, i.same_id, same)) in
    ground (arith, ended, i.not_revoked)
