-- ===== src/Credentials/Tests.antt =====
-- A small store, and the theorems at it.
use openers_performance_dash.Prelude.{
  ℕ, ◌≡◌, ◌≢◌, ◌+◌, refl, Bool, true, false, ◌==◌, Option, none, some, List, [], ◌∷◌, arith,
}
use openers_performance_dash.Prelude.Text.{codes}
use openers_performance_dash.Prelude.Table.{find}
use openers_performance_dash.Accounts.{Role, AccountStatus}
use openers_performance_dash.Credentials.{
  temporary, permanent, pending, Account, Token, Session, Store, Crypto, Answer, success,
  is_signed_up, validate_password, too_short, no_symbol, no_number, no_uppercase, is_account_of,
  is_valid_opaque_token, newest, spend, revoke_open, revoke_sessions,
}
use openers_performance_dash.Outbox.{insert_message}
use openers_performance_dash.Credentials.Accept.{
  NewToken, accept_writes, accept_invitation, check_acceptance,
}
use openers_performance_dash.Credentials.Reset.{check_reset, reset_writes, reset_password}
use openers_performance_dash.Credentials.Inspect.{inspect_invitation_token}
use openers_performance_dash.Credentials.Agreement.{
  inspect_invitation_token-agrees, is_valid_status, is_followed,
}
use openers_performance_dash.Credentials.SignIn.{
  signed_in, authenticate_credentials, authenticate_credentials-accept_invitation,
}
use openers_performance_dash.Credentials.Sessions.{
  Limits, Directory, SessionUser, create_session, get_session_user, new_session, find_session,
  is_session_usable_at, team_ids_of,
}
use openers_performance_dash.Credentials.SignedIn.{
  IsSignedIn, get_session_user-IsSignedIn, get_session_user-create_session,
}
use openers_performance_dash.Credentials.Checks.{IsMatch}
use openers_performance_dash.Credentials.Spent.{Request, run_requests}
use openers_performance_dash.Credentials.Once.{accept_invitation-once}
use openers_performance_dash.Credentials.Revoked.{IsRenewed, reset_password-IsRenewed}

-- A hash that tells texts of different lengths or sums apart.
abbrev sum : List ℕ → ℕ
sum [] = 0
sum (c ∷ cs) = c + sum cs

abbrev crypto : Crypto
crypto = record {
  hash_opaque_token = sum;
  verify_password = λ p h. sum p == h;
  hash_password = sum;
}

abbrev invitation_link : List ℕ
invitation_link = codes "aaaaaaaaaaaaaaaaaaaaaaaaaaaaaaaaaaaaaaaaaaa"

abbrev reset_link : List ℕ
reset_link = codes "bbbbbbbbbbbbbbbbbbbbbbbbbbbbbbbbbbbbbbbbbbb"

abbrev password : List ℕ
password = codes "Correct-horse-1"

abbrev ann : Account
ann = record {
  id = 1;
  organization_id = 7;
  email = some (codes "ann@x.org");
  role = Role.admin;
  account_status = AccountStatus.invited;
  is_active = false;
  password_hash = none;
  password_state = temporary;
  encrypted_temporary_password = none;
  must_reset_password = false;
  password_changed_at = none;
  access_revoked_at = none;
  last_login_at = none;
}

abbrev bob : Account
bob = record {
  id = 2;
  organization_id = 7;
  email = some (codes "bob@x.org");
  role = Role.admin;
  account_status = AccountStatus.active;
  is_active = true;
  password_hash = some 5;
  password_state = permanent;
  encrypted_temporary_password = none;
  must_reset_password = false;
  password_changed_at = none;
  access_revoked_at = none;
  last_login_at = none;
}

abbrev invitation : Token
invitation = record {
  id = 10;
  profile_id = 1;
  token_hash = sum invitation_link;
  delivery_status = some pending;
  expires_at = 1000;
  used_at = none;
  revoked_at = none;
  created_at = 10;
}

abbrev reset_token : Token
reset_token = record {
  id = 20;
  profile_id = 2;
  token_hash = sum reset_link;
  delivery_status = none;
  expires_at = 1000;
  used_at = none;
  revoked_at = none;
  created_at = 10;
}

abbrev old_session : Session
old_session = record {
  id = sum (codes "old");
  profile_id = 2;
  expires_at = 5000;
  revoked_at = none;
  last_seen_at = 90;
}

abbrev store : Store
store = record {
  accounts = ann ∷ bob ∷ [];
  invitations = invitation ∷ [];
  resets = reset_token ∷ [];
  sessions = old_session ∷ [];
  messages = [];
}

abbrev notice : NewToken
notice = record {
  token_id = 30;
  token_hash = 31;
  message_id = 32;
  idempotency_key = 33;
  encrypted_payload = 34;
  lifetime = 3600;
}

weak_password_example :
    validate_password (codes "short") ≡ too_short ∷ no_uppercase ∷ no_number ∷ no_symbol ∷ []
unfolding validate_password
weak_password_example = refl

abbrev accepted_store : Store
accepted_store = (accept_invitation crypto invitation_link password 100 store).1

accepted_example :
    accept_invitation crypto invitation_link password 100 store ≡ (success, accepted_store)
unfolding accept_invitation check_acceptance is_valid_opaque_token validate_password newest
    accept_writes spend revoke_open revoke_sessions
accepted_example = refl

abbrev emptied : Option (Answer × Store) → Store
emptied none = store
emptied (some (a, s)) = s

abbrev reset_store : Store
reset_store = emptied (reset_password crypto reset_link password 100 notice store)

reset_example :
    reset_password crypto reset_link password 100 notice store ≡ some (success, reset_store)
unfolding reset_password check_reset is_valid_opaque_token validate_password newest reset_writes
    spend revoke_open revoke_sessions insert_message
reset_example = refl

found_example :
    check_acceptance crypto invitation_link password 100 store ≡ (success, some (invitation, ann))
unfolding check_acceptance newest
found_example = refl

accept_invitation-once_example :
    accept_invitation crypto invitation_link
      (codes "Another-horse-2")
      300
      (run_requests crypto (Request.ask (λ e. true) 200 notice ∷ []) accepted_store)
    ≢ (success, store)
accept_invitation-once_example =
    accept_invitation-once crypto invitation_link password (codes "Another-horse-2") 100 300
      (Request.ask (λ e. true) 200 notice ∷ []) store accepted_store store (tt, tt) accepted_example

reset_password-IsRenewed_example :
    (t : Token) × (a : Account) × IsMatch crypto reset_link password 100 is_signed_up store.resets
      store.accounts t a
    × IsRenewed crypto password a reset_store
reset_password-IsRenewed_example =
    reset_password-IsRenewed crypto reset_link password 100 notice store reset_store reset_example

strong_example : validate_password password ≡ []
unfolding validate_password
strong_example = refl

inspect_invitation_token-agrees_example :
    is_valid_status (inspect_invitation_token crypto invitation_link true 100 store)
    ≡ is_followed (accept_invitation crypto invitation_link password 100 store).0
inspect_invitation_token-agrees_example =
    inspect_invitation_token-agrees crypto invitation_link password 100 store (tt, tt)
      ((λ e. cc e), tt) strong_example

abbrev accepted_ann : Account
accepted_ann = record ann {
  account_status = AccountStatus.active;
  is_active = true;
  password_hash = some (sum password);
  password_state = permanent;
  password_changed_at = some 100;
}

abbrev is_ann : List ℕ → Bool
is_ann e = sum e == sum (codes "ann@x.org")

accepted_ann_example : find (is_account_of is_ann) accepted_store.accounts ≡ some accepted_ann
unfolding accept_invitation check_acceptance is_valid_opaque_token validate_password newest
    accept_writes spend revoke_open revoke_sessions
accepted_ann_example = refl

authenticate_credentials-accept_invitation_example :
    (authenticate_credentials crypto 0 is_ann password 200 accepted_store).0
    ≡ signed_in accepted_ann false
authenticate_credentials-accept_invitation_example =
    authenticate_credentials-accept_invitation crypto invitation_link password 100 200 0 is_ann
      store accepted_store invitation ann accepted_ann refl accepted_example found_example
      accepted_ann_example refl

abbrev limits : Limits
limits = record {
  session_absolute_hours = 12;
  admin_session_absolute_hours = 8;
  session_idle_minutes = 30;
}

abbrev directory : Directory
directory = record {
  accounts = ann ∷ bob ∷ [];
  memberships = record { profile_id = 2; team_id = 50; is_active = true; ended_at = none } ∷ [];
  teams =
      record {
        id = 50;
        organization_id = 7;
        is_active = true;
        archived_at = none;
        deleted_at = none;
      }
      ∷ [];
}

abbrev bob_user : SessionUser
bob_user = record {
  id = 2;
  email = codes "bob@x.org";
  role = Role.admin;
  team_ids = 50 ∷ [];
  organization_id = 7;
}

bob_example :
    (get_session_user limits crypto (codes "old") 100 directory store.sessions).0 ≡ some bob_user
unfolding get_session_user find_session is_session_usable_at team_ids_of
bob_example = refl

get_session_user-IsSignedIn_example :
    IsSignedIn limits crypto (codes "old") 100 directory store.sessions bob_user
get_session_user-IsSignedIn_example =
    get_session_user-IsSignedIn limits crypto (codes "old") 100 directory store.sessions bob_user
      bob_example

created_example :
    create_session limits crypto (codes "new") bob 100 store.sessions
    ≡ some (old_session ∷ new_session limits (sum (codes "new")) bob 100 ∷ [])
unfolding create_session
created_example = refl

get_session_user-create_session_example :
    (u : SessionUser) × ((get_session_user limits crypto
        (codes "new")
        200
        directory
        (old_session ∷ new_session limits (sum (codes "new")) bob 100 ∷ [])).0
      ≡ some u)
    × (u.id ≡ 2)
get_session_user-create_session_example =
    get_session_user-create_session limits crypto (codes "new") bob 100 200 98 (codes "ob@x.org")
      directory store.sessions (old_session ∷ new_session limits (sum (codes "new")) bob 100 ∷ [])
      created_example refl refl refl (omega arith) (omega arith)
