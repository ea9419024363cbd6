-- ===== src/Credentials/Inspect.antt =====
-- `inspectInvitationToken` and `inspectPasswordResetToken` of src/auth/service.ts. `within_limit` is the
-- answer of the rate limit.
use openers_performance_dash.Prelude.{
  ℕ, Bool, true, false, not, ◌&&◌, ◌||◌, Option, none, some, List, ◌==◌, if◌then◌else◌, is_some,
  leb,
}
use openers_performance_dash.Prelude.Table.{find}
use openers_performance_dash.Credentials.{
  DeliveryStatus, Account, Token, Store, Crypto, is_valid_opaque_token, is_newest, can_be_invited,
  is_signed_up,
}

pub data TokenInspectionStatus : Type 0 where
  valid used revoked expired invalid superseded account_not_eligible : TokenInspectionStatus

abbrev is_expired : ℕ → Token → Bool
is_expired now t = leb t.expires_at now

abbrev pub is_delivery_revoked : Option DeliveryStatus → Bool
is_delivery_revoked (some DeliveryStatus.revoked) = true
is_delivery_revoked other = false

-- The part that the two have in common: `eligible` tests the account.
unfoldable pub inspect_token :
    (Account → Bool)
    → (delivery_counts : Bool) → ℕ
    → ℕ
    → List Token
    → List Account
    → TokenInspectionStatus
inspect_token eligible delivery_counts hash now ts accounts =
    elim (find (λ (t : Token). t.token_hash == hash) ts) [
      | none ↦ invalid
      | some t ↦
          if is_some t.used_at
          then used
          else (if is_some t.revoked_at
                || (delivery_counts && is_delivery_revoked t.delivery_status)
              then TokenInspectionStatus.revoked
              else (if is_expired now t
                  then expired
                  else elim (find (λ (a : Account). a.id == t.profile_id) accounts) [
                    | none ↦ account_not_eligible
                    | some a ↦
                        if not (eligible a)
                        then account_not_eligible
                        else (if is_newest now t ts then valid else superseded)
                  ]))
    ]

unfoldable pub inspect_invitation_token :
    Crypto → List ℕ → (within_limit : Bool) → ℕ → Store → TokenInspectionStatus
inspect_invitation_token k token within_limit now s =
    if not (is_valid_opaque_token token) || not within_limit
    then invalid
    else inspect_token can_be_invited true (k.hash_opaque_token token) now s.invitations s.accounts

unfoldable pub inspect_password_reset_token :
    Crypto → List ℕ → (within_limit : Bool) → ℕ → Store → TokenInspectionStatus
inspect_password_reset_token k token within_limit now s =
    if not (is_valid_opaque_token token) || not within_limit
    then invalid
    else inspect_token is_signed_up false (k.hash_opaque_token token) now s.resets s.accounts
