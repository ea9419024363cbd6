-- ===== src/Credentials/SignedIn.antt =====
-- What a signed-in user is, `getSessionUser` of src/auth/session.ts.
use openers_performance_dash.Prelude.{
  ℕ, ◌+◌, ◌*◌, ◌<◌, ◌≡◌, refl, true, false, ◌&&◌, inl, inr, none, some, List, [], ◌∷◌, ◌++◌, arith,
  ◌==◌, In, Bool-cases, Option-cases, is_none, any,
}
use openers_performance_dash.Prelude.Table.{find, find-In, find-append_last}
use openers_performance_dash.Credentials.{Account, Session, Crypto, address_of, is_signed_up}
use openers_performance_dash.Credentials.Sessions.{
  Limits, Directory, Team, Membership, SessionUser, is_member, is_open_team, team_ids_of, user_of,
  find_session, is_session_usable_at, get_session_user, create_session, lifetime_hours, new_session,
}

-- A team that a user of an account belongs to.
pub record IsTeamOf (d : Directory) (a : Account) (id : ℕ) : Type 0 where
  pub team : Team
  pub membership : Membership
  pub team_listed : In team d.teams
  pub membership_listed : In membership d.memberships
  pub same_id : team.id ≡ id
  pub same_team : membership.team_id ≡ id
  pub same_profile : membership.profile_id ≡ a.id
  pub same_organization : team.organization_id ≡ a.organization_id
  pub active_team : team.is_active ≡ true
  pub active_membership : membership.is_active ≡ true

-- What lets a cookie sign in.
pub record IsSignedIn (l : Limits) (k : Crypto) (cookie : List ℕ) (now : ℕ) (d : Directory)
    (ss : List Session) (u : SessionUser) : Type 0 where
  pub session : Session
  pub account : Account
  pub session_listed : In session ss
  pub same_cookie : session.id ≡ k.hash_opaque_token cookie
  pub not_revoked : session.revoked_at ≡ none
  pub not_expired : now < session.expires_at
  pub not_idle : now < session.last_seen_at + l.session_idle_minutes * 60 * 1000
  pub account_listed : In account d.accounts
  pub own_account : account.id ≡ session.profile_id
  pub signed_up : is_signed_up account ≡ true
  pub same_id : u.id ≡ account.id
  pub same_role : u.role ≡ account.role
  pub same_organization : u.organization_id ≡ account.organization_id
  pub own_teams : (id : ℕ) → In id u.team_ids → IsTeamOf d account id

team_ids_of-IsTeamOf :
    (d : Directory) (a : Account) (ms : List Membership) (id : ℕ)
    → ((m : Membership) → In m ms → In m d.memberships)
    → In id (team_ids_of a ms d.teams)
    → IsTeamOf d a id
unfolding team_ids_of
team_ids_of-IsTeamOf d a [] id sub n = elim n [ ]
team_ids_of-IsTeamOf d a (m ∷ ms) id sub n = elim (Bool-cases (is_member a.id m)) [
  | inr f ↦ team_ids_of-IsTeamOf d a ms id (λ x i. sub x (inr i)) (rw f at n)
  | inl t ↦ elim (Option-cases (find (is_open_team a.organization_id m.team_id) d.teams)) [
    | inl o ↦ team_ids_of-IsTeamOf d a ms id (λ x i. sub x (inr i)) (rw (t, o) at n)
    | inr (w, o) ↦ elim (rw (t, o) at n) [
      | inl e ↦ team_of w o e t
      | inr i ↦ team_ids_of-IsTeamOf d a ms id (λ x i. sub x (inr i)) i
    ]
  ]
]
  where
    team_of :
        (w : Team)
        → find (is_open_team a.organization_id m.team_id) d.teams ≡ some w
        → id ≡ w.id
        → is_member a.id m ≡ true
        → IsTeamOf d a id
    team_of w o e t =
        let (i, p) = find-In (is_open_team a.organization_id m.team_id) d.teams w o in
        record {
          team = w;
          membership = m;
          team_listed = i;
          membership_listed = sub m (inl refl);
          same_id = ground (arith, e);
          same_team = ground (arith, e, p);
          same_profile = ground (arith, t);
          same_organization = ground (arith, p);
          active_team = ground (arith, p);
          active_membership = ground (arith, t);
        }

-- A cookie signs in only by a session with its hash that is not revoked, expired or idle, as the account
-- that the session belongs to, which is signed up, and with active teams of its organization of which
-- it is an active member.
pub get_session_user-IsSignedIn :
    (l : Limits) (k : Crypto) (cookie : List ℕ) (now : ℕ) (d : Directory) (ss : List Session)
    (u : SessionUser)
    → (get_session_user l k cookie now d ss).0 ≡ some u
    → IsSignedIn l k cookie now d ss u
unfolding get_session_user find_session is_session_usable_at
get_session_user-IsSignedIn l k cookie now d ss u e =
    elim (Option-cases
      (find (λ (s : Session). s.id == k.hash_opaque_token cookie && is_none s.revoked_at) ss)) [
        | inl n ↦ absurd (cc (rw (get_session_user, find_session, n) at e))
        | inr (s, n) ↦
            elim (Option-cases (find (λ (a : Account). a.id == s.profile_id) d.accounts)) [
              | inl o ↦ absurd (cc (rw (get_session_user, find_session, n, o) at e))
              | inr (a, o) ↦ elim (Bool-cases (is_session_usable_at s now l.session_idle_minutes)) [
                | inr f ↦ absurd (cc (rw (get_session_user, find_session, n, o, f) at e))
                | inl t ↦ signed_in s n a o t (rw (get_session_user, find_session, n, o, t) at e)
              ]
            ]
      ]
  where
    signed_in :
        (s : Session)
        → find (λ (s : Session). s.id == k.hash_opaque_token cookie && is_none s.revoked_at) ss
          ≡ some s
        → (a : Account) → find (λ (a : Account). a.id == s.profile_id) d.accounts ≡ some a
        → is_session_usable_at s now l.session_idle_minutes ≡ true
        → user_of d a ≡ some u
        → IsSignedIn l k cookie now d ss u
    signed_in s n a o t e =
        let (m, p) = find-In _ ss s n in
        let (i, q) = find-In _ d.accounts a o in
        elim (Option-cases (address_of a.email)) [
          | inl f ↦ absurd (cc (rw (user_of, f) at e))
          | inr (c, f) ↦ elim (Bool-cases (is_signed_up a)) [
            | inr g ↦ absurd (cc (rw (user_of, f, g) at e))
            | inl g ↦
                let v = rw (user_of, f, g) at e in
                record {
                  session = s;
                  account = a;
                  session_listed = m;
                  same_cookie = ground (arith, p);
                  not_revoked = ground (arith, p);
                  not_expired = ground (arith, t);
                  not_idle = ground (arith, t);
                  account_listed = i;
                  own_account = ground (arith, q);
                  signed_up = g;
                  same_id = cc v;
                  same_role = cc v;
                  same_organization = cc v;
                  own_teams = λ id j.
                      let w : u.team_ids ≡ team_ids_of a d.memberships d.teams = cc v in
                      team_ids_of-IsTeamOf d a d.memberships id (λ x y. y) (rw w at j);
                }
          ]
        ]

-- No session with the id of a cookie is there if none with that id is there at all.
open_session-none :
    (id : ℕ) (ss : List Session)
    → any (λ (s : Session). s.id == id) ss ≡ false
    → any (λ (s : Session). s.id == id && is_none s.revoked_at) ss ≡ false
open_session-none id [] e = refl
open_session-none id (s ∷ ss) e = ground (arith, e, open_session-none id ss)

-- Once a session is created for an account that is signed up and has an address, its cookie signs that
-- account in, at any time within the lifetime and idle time of the session.
pub get_session_user-create_session :
    (l : Limits) (k : Crypto) (cookie : List ℕ) (a : Account) (now later c : ℕ) (cs : List ℕ)
    (d : Directory) (ss ss' : List Session)
    → create_session l k cookie a now ss ≡ some ss'
    → find (λ (b : Account). b.id == a.id) d.accounts ≡ some a
    → a.email ≡ some (c ∷ cs)
    → is_signed_up a ≡ true
    → later < now + 1000 * 60 * 60 * lifetime_hours l a.role
    → later < now + l.session_idle_minutes * 60 * 1000
    → (u : SessionUser) × ((get_session_user l k cookie later d ss').0 ≡ some u) × (u.id ≡ a.id)
unfolding create_session get_session_user find_session is_session_usable_at team_ids_of
get_session_user-create_session l k cookie a now later c cs d ss ss' e f m g h i =
    elim (Bool-cases (any (λ (s : Session). s.id == k.hash_opaque_token cookie) ss)) [
      | inl t ↦ absurd (cc (rw t at e))
      | inr t ↦
          let x : Session = new_session l (k.hash_opaque_token cookie) a now in
          let w : ss ++ x ∷ [] ≡ ss' = cc (rw t at e) in
          let n =
            find-append_last
              (λ (s : Session). s.id == k.hash_opaque_token cookie && is_none s.revoked_at) ss x
              (open_session-none (k.hash_opaque_token cookie) ss t) (ground arith) in
          let v : is_session_usable_at x later l.session_idle_minutes ≡ true =
            ground (arith, h, i) in
          let user : SessionUser = record {
            id = a.id;
            email = c ∷ cs;
            role = a.role;
            team_ids = team_ids_of a d.memberships d.teams;
            organization_id = a.organization_id;
          } in
          (
            user,
            rw (← w, get_session_user, find_session, n, f, is_session_usable_at, v, user_of, m, g)
                refl,
            refl,
          )
    ]
