-- ===== src/Credentials/Sessions.antt =====
-- Sessions, src/auth/session.ts. The cookie is the caller's; `now` is the one time that a call reads.
use openers_performance_dash.Prelude.{
  ℕ, ◌+◌, ◌*◌, Bool, not, ◌&&◌, Option, none, some, List, [], ◌∷◌, ◌++◌, ltb, leb, ◌==◌,
  if◌then◌else◌, is_none, any,
}
use openers_performance_dash.Prelude.Table.{update, find, select_where}
use openers_performance_dash.Accounts.{Role, is_admin}
use openers_performance_dash.Credentials.{
  address_of, Account, Session, Crypto, is_signed_up, revoke_session,
}

-- The hours that a session lasts at most and the minutes that it may idle, of the environment.
pub record Limits : Type 0 where
  pub session_absolute_hours : ℕ
  pub admin_session_absolute_hours : ℕ
  pub session_idle_minutes : ℕ

pub record Team : Type 0 where
  pub id : ℕ
  pub organization_id : ℕ
  pub is_active : Bool
  pub archived_at : Option ℕ
  pub deleted_at : Option ℕ

pub record Membership : Type 0 where
  pub profile_id : ℕ
  pub team_id : ℕ
  pub is_active : Bool
  pub ended_at : Option ℕ

-- What a session's user reads of the database.
pub record Directory : Type 0 where
  pub accounts : List Account
  pub memberships : List Membership
  pub teams : List Team

pub record SessionUser : Type 0 where
  pub id : ℕ
  pub email : List ℕ
  pub role : Role
  pub team_ids : List ℕ
  pub organization_id : ℕ

-- `isSessionUsableAt`.
unfoldable pub is_session_usable_at : Session → ℕ → ℕ → Bool
is_session_usable_at s now idle_minutes =
    ltb now s.expires_at && ltb now (s.last_seen_at + idle_minutes * 60 * 1000)

abbrev pub lifetime_hours : Limits → Role → ℕ
lifetime_hours l role =
    if is_admin role then l.admin_session_absolute_hours else l.session_absolute_hours

-- (The column last_seen_at keeps whole seconds; here it has the milliseconds of its clock.)
abbrev pub new_session : Limits → ℕ → Account → ℕ → Session
new_session l id a now = record {
  id = id;
  profile_id = a.id;
  expires_at = now + 1000 * 60 * 60 * lifetime_hours l a.role;
  revoked_at = none;
  last_seen_at = now;
}

-- `createSessionRecord`; the insertion throws where the id is in use, then it is `none`.
unfoldable pub create_session :
    Limits → Crypto → List ℕ → Account → ℕ → List Session → Option (List Session)
create_session l k token a now ss =
    let id = k.hash_opaque_token token in
    if any (λ (s : Session). s.id == id) ss then none else some (ss ++ new_session l id a now ∷ [])

-- `destroySession` with a cookie.
unfoldable pub destroy_session : Crypto → List ℕ → List Session → List Session
destroy_session k token ss =
    select_where (λ (s : Session). not (s.id == k.hash_opaque_token token)) ss

abbrev pub is_member : ℕ → Membership → Bool
is_member profile m = m.profile_id == profile && m.is_active && is_none m.ended_at

abbrev pub is_open_team : ℕ → ℕ → Team → Bool
is_open_team organization id t =
    t.id == id
    && t.is_active
    && is_none t.archived_at
    && is_none t.deleted_at
    && t.organization_id == organization

abbrev with_team : Option Team → List ℕ → List ℕ
with_team none ids = ids
with_team (some t) ids = t.id ∷ ids

-- The two left joins, and the ids that their rows have.
unfoldable pub team_ids_of : Account → List Membership → List Team → List ℕ
team_ids_of a [] teams = []
team_ids_of a (m ∷ ms) teams =
    let rest = team_ids_of a ms teams in
    if is_member a.id m
    then with_team (find (is_open_team a.organization_id m.team_id) teams) rest
    else rest

-- The row of `sessions` with its profile.
unfoldable pub find_session : ℕ → Directory → List Session → Option (Session × Account)
find_session id d ss = elim (find (λ (s : Session). s.id == id && is_none s.revoked_at) ss) [
  | none ↦ none
  | some s ↦ elim (find (λ (a : Account). a.id == s.profile_id) d.accounts) [
    | none ↦ none
    | some a ↦ some (s, a)
  ]
]

abbrev five_minutes : ℕ
five_minutes = 5 * 60 * 1000

unfoldable pub touch_session : Session → ℕ → List Session → List Session
touch_session s now ss =
    if leb (s.last_seen_at + five_minutes) now
    then update
        (λ (r : Session).
          r.id == s.id && is_none r.revoked_at && ltb (r.last_seen_at + five_minutes) now)
        (λ (r : Session). record r { last_seen_at = now }) ss
    else ss

abbrev pub user_of : Directory → Account → Option SessionUser
user_of d a = elim (address_of a.email) [
  | none ↦ none
  | some email ↦
      if is_signed_up a
      then some (record {
        id = a.id;
        email = email;
        role = a.role;
        team_ids = team_ids_of a d.memberships d.teams;
        organization_id = a.organization_id;
      })
      else none
]

-- `getSessionUser`, with the sessions that it leaves.
unfoldable pub get_session_user :
    Limits → Crypto → List ℕ → ℕ → Directory → List Session → Option SessionUser × List Session
get_session_user l k token now d ss = elim (find_session (k.hash_opaque_token token) d ss) [
  | none ↦ (none, ss)
  | some (s, a) ↦
      if not (is_session_usable_at s now l.session_idle_minutes)
      then (
        none,
        update (λ (r : Session). r.id == s.id && is_none r.revoked_at) (revoke_session now) ss,
      )
      else (user_of d a, touch_session s now ss)
]
