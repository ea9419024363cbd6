-- ===== src/Credentials.antt =====
-- Invitations and password resets, src/auth/service.ts, with the rules of src/auth/security.ts and the
-- tables of src/db/schema.ts. Tokens and passwords are their code units. What node's crypto computes
-- (the hash of a token, the hash of a password and its comparison) is a parameter. A password hash is
-- never the empty text. The audit log, to which the transactions append, is left out.
pub mod Accept
pub mod Reset
pub mod Inspect
pub mod Sessions
pub mod SignIn
pub mod SignedIn
pub mod Moves
pub mod Checks
pub mod Spent
pub mod Once
pub mod Revoked
pub mod Agreement
mod Tests
use openers_performance_dash.Prelude.{
  ℕ, ◌+◌, ◌*◌, Bool, true, false, not, ◌&&◌, ◌||◌, Option, none, some, List, [], ◌∷◌, ◌++◌, length,
  leb, ltb, ◌==◌, if◌then◌else◌, is_none, is_some, all, any,
}
use openers_performance_dash.Prelude.Table.{update, find, select_where}
use openers_performance_dash.Accounts.{Role, AccountStatus}
use openers_performance_dash.Outbox.{OutboxMessage}

pub data PasswordState : Type 0 where
  temporary permanent : PasswordState

pub data DeliveryStatus : Type 0 where
  pending accepted expired revoked delivery_failed : DeliveryStatus

-- The columns of a profile that sign-in reads or sets.
pub record Account : Type 0 where
  pub id : ℕ
  pub organization_id : ℕ
  pub email : Option (List ℕ)
  pub role : Role
  pub account_status : AccountStatus
  pub is_active : Bool
  pub password_hash : Option ℕ
  pub password_state : PasswordState
  pub encrypted_temporary_password : Option ℕ
  pub must_reset_password : Bool
  pub password_changed_at : Option ℕ
  pub access_revoked_at : Option ℕ
  pub last_login_at : Option ℕ

-- A row of accountInvitationTokens or of passwordResetTokens; the latter has no delivery status.
pub record Token : Type 0 where
  pub id : ℕ
  pub profile_id : ℕ
  pub token_hash : ℕ
  pub delivery_status : Option DeliveryStatus
  pub expires_at : ℕ
  pub used_at : Option ℕ
  pub revoked_at : Option ℕ
  pub created_at : ℕ

pub record Session : Type 0 where
  pub id : ℕ
  pub profile_id : ℕ
  pub expires_at : ℕ
  pub revoked_at : Option ℕ
  pub last_seen_at : ℕ

pub record Store : Type 0 where
  pub accounts : List Account
  pub invitations : List Token
  pub resets : List Token
  pub sessions : List Session
  pub messages : List OutboxMessage

-- node's crypto, as the code uses it.
pub record Crypto : Type 0 where
  pub hash_opaque_token : List ℕ → ℕ
  pub verify_password : List ℕ → ℕ → Bool
  pub hash_password : List ℕ → ℕ

abbrev is_lower : ℕ → Bool
is_lower c = leb b'a' c && leb c b'z'

abbrev is_upper : ℕ → Bool
is_upper c = leb b'A' c && leb c b'Z'

abbrev is_digit : ℕ → Bool
is_digit c = leb b'0' c && leb c b'9'

-- `OPAQUE_TOKEN_PATTERN`.
unfoldable pub is_valid_opaque_token : List ℕ → Bool
is_valid_opaque_token t =
    length t == 43 && all (λ c. is_lower c || is_upper c || is_digit c || c == b'_' || c == b'-') t

pub data PasswordError : Type 0 where
  too_long too_short no_lowercase no_uppercase no_number no_symbol : PasswordError

abbrev unless : Bool → PasswordError → List PasswordError
unless true e = []
unless false e = e ∷ []

abbrev pub max_password_length : ℕ
max_password_length = 256

-- `validatePassword`.
unfoldable pub validate_password : List ℕ → List PasswordError
validate_password p =
    if ltb max_password_length (length p)
    then too_long ∷ []
    else unless (leb 12 (length p)) too_short
      ++ unless (any is_lower p) no_lowercase
      ++ unless (any is_upper p) no_uppercase
      ++ unless (any is_digit p) no_number
      ++ unless (any (λ c. not (is_lower c || is_upper c || is_digit c)) p) no_symbol

abbrev pub is_empty : List PasswordError → Bool
is_empty [] = true
is_empty (e ∷ es) = false

-- `isNull(usedAt), isNull(revokedAt)`, with and without the deadline.
abbrev pub is_open : Token → Bool
is_open t = is_none t.used_at && is_none t.revoked_at

abbrev pub is_usable : ℕ → Token → Bool
is_usable now t = is_open t && ltb now t.expires_at

abbrev later : Token → Option Token → Token
later t none = t
later t (some u) = if ltb t.created_at u.created_at then u else t

-- `ORDER BY created_at DESC LIMIT 1`; of rows of one time, the one that stands first in the table.
unfoldable pub newest : (Token → Bool) → List Token → Option Token
newest p [] = none
newest p (t ∷ ts) = let rest = newest p ts in if p t then some (later t rest) else rest

abbrev pub is_newest : ℕ → Token → List Token → Bool
is_newest now t ts =
    elim (newest (λ (u : Token). u.profile_id == t.profile_id && is_usable now u) ts) [
      | none ↦ false
      | some u ↦ u.id == t.id
    ]

abbrev is_active_status : AccountStatus → Bool
is_active_status AccountStatus.active = true
is_active_status other = false

abbrev is_invited : AccountStatus → Bool
is_invited AccountStatus.invited = true
is_invited other = false

abbrev is_temporary : PasswordState → Bool
is_temporary temporary = true
is_temporary permanent = false

-- An address that is there and is not empty.
abbrev pub address_of : Option (List ℕ) → Option (List ℕ)
address_of none = none
address_of (some []) = none
address_of (some (c ∷ cs)) = some (c ∷ cs)

-- An account that an invitation is for.
abbrev pub can_be_invited : Account → Bool
can_be_invited a =
    (is_active_status a.account_status && is_temporary a.password_state)
    || (is_invited a.account_status && is_none a.password_hash)

-- An account whose password may be reset.
abbrev pub is_signed_up : Account → Bool
is_signed_up a = is_active_status a.account_status && a.is_active

abbrev pub reuses : Crypto → List ℕ → Account → Bool
reuses k password a = elim a.password_hash [ none ↦ false | some h ↦ k.verify_password password h ]

abbrev pub is_account_of : (List ℕ → Bool) → Account → Bool
is_account_of is_asked a = elim a.email [ none ↦ false | some e ↦ is_asked e ]

-- The columns of tokens and sessions that the transactions set.
abbrev pub use_token : Option DeliveryStatus → ℕ → Token → Token
use_token status now t = record t { used_at = some now; delivery_status = status }

abbrev pub revoke_token : Option DeliveryStatus → ℕ → Token → Token
revoke_token status now t = record t { revoked_at = some now; delivery_status = status }

abbrev pub revoke_session : ℕ → Session → Session
revoke_session now s = record s { revoked_at = some now }

-- The open tokens of a profile, but for one.
abbrev pub is_open_of : ℕ → Token → Bool
is_open_of profile t = t.profile_id == profile && is_open t

abbrev pub is_other_open_of : ℕ → ℕ → Token → Bool
is_other_open_of profile id t = t.profile_id == profile && not (t.id == id) && is_open t

unfoldable pub revoke_sessions : ℕ → ℕ → List Session → List Session
revoke_sessions profile now ss =
    update (λ (s : Session). s.profile_id == profile && is_none s.revoked_at) (revoke_session now)
      ss

unfoldable pub revoke_open : Option DeliveryStatus → ℕ → ℕ → List Token → List Token
revoke_open status profile now ts = update (is_open_of profile) (revoke_token status now) ts

-- The token that is used, and the other ones of its profile.
unfoldable pub spend :
    (used others : Option DeliveryStatus) → Token → ℕ → ℕ → List Token → List Token
spend used others t profile now ts =
    update (is_other_open_of profile t.id) (revoke_token others now)
      (update (λ (u : Token). u.id == t.id) (use_token used now) ts)

pub data Answer : Type 0 where
  invalid superseded password_reused success : Answer
  weak_password : List PasswordError → Answer
