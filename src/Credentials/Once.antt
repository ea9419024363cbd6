-- ===== src/Credentials/Once.antt =====
-- Links are followed once, `acceptInvitation` and `resetPassword` of src/auth/service.ts.
use openers_performance_dash.Prelude.{
  ℕ, ◌≡◌, ◌≢◌, refl, ap, Bool, true, false, List, [], ◌∷◌, arith, ◌==◌, Option, none, some, In,
}
use openers_performance_dash.Prelude.Table.{update-covers, In-update_of, IsKeyed, IsKeyed-eq}
use openers_performance_dash.Credentials.{
  Account, Token, Store, Crypto, success, is_open, is_other_open_of, use_token, revoke_token, spend,
  DeliveryStatus,
}
use openers_performance_dash.Credentials.Accept.{NewToken, accept_writes, accept_invitation}
use openers_performance_dash.Credentials.Reset.{reset_writes, reset_password}
use openers_performance_dash.Credentials.Moves.{IsSpent, Moves-IsSpent, close-IsSpent}
use openers_performance_dash.Credentials.Checks.{
  IsMatch, accept_invitation-IsAccepted, reset_password-IsReset,
}
use openers_performance_dash.Credentials.Spent.{
  Request, run_requests, after_request, after_request-Proceeds,
}

run_requests-IsSpent_invitation :
    (k : Crypto) (hash : ℕ) (rs : List Request) (s : Store)
    → IsSpent hash s.invitations
    → IsSpent hash (run_requests k rs s).invitations
unfolding run_requests
run_requests-IsSpent_invitation k hash [] s i = i
run_requests-IsSpent_invitation k hash (r ∷ rs) s i =
    run_requests-IsSpent_invitation k hash rs (after_request k r s)
      (Moves-IsSpent (after_request-Proceeds k r s).invitations i)

run_requests-IsSpent_reset :
    (k : Crypto) (hash : ℕ) (rs : List Request) (s : Store)
    → IsSpent hash s.resets
    → IsSpent hash (run_requests k rs s).resets
unfolding run_requests
run_requests-IsSpent_reset k hash [] s i = i
run_requests-IsSpent_reset k hash (r ∷ rs) s i =
    run_requests-IsSpent_reset k hash rs (after_request k r s)
      (Moves-IsSpent (after_request-Proceeds k r s).resets i)

-- The token that is used, in a table with distinct hashes.
spend-IsSpent :
    (used others : Option DeliveryStatus) (t : Token) (profile now : ℕ) (ts : List Token)
    → IsKeyed (λ (t : Token). t.token_hash) ts
    → In t ts
    → IsSpent t.token_hash (spend used others t profile now ts)
unfolding spend
spend-IsSpent used others t profile now ts keyed m =
    close-IsSpent t.token_hash (is_other_open_of profile t.id) (revoke_token others now) _
      (λ t. refl) (λ t h. ground (arith, h))
      (record {
        row = use_token used now t;
        listed = rw own at (In-update_of (λ (u : Token). u.id == t.id) (use_token used now) ts t m);
        same_hash = refl;
        closed =
            update-covers (λ (u : Token). u.token_hash ≡ t.token_hash → is_open u ≡ false)
              (λ (u : Token). u.id == t.id) (use_token used now) ts (λ x n e h. refl)
              (λ x n e h.
                let same : x ≡ t = IsKeyed-eq (λ (t : Token). t.token_hash) ts x t keyed n m h in
                absurd (cc (rw same at e, own)));
      })
  where
    own : (t.id == t.id) ≡ true
    own = ground arith

-- A link that is spent opens nothing.
IsMatch-IsSpent :
    (k : Crypto) (token password : List ℕ) (now : ℕ) (eligible : Account → Bool) (ts : List Token)
    (accounts : List Account) (t : Token) (a : Account)
    → IsMatch k token password now eligible ts accounts t a
    → IsSpent (k.hash_opaque_token token) ts
    → ⊥
IsMatch-IsSpent k token password now eligible ts accounts t a m i =
    let shut = i.closed t m.token_listed m.same_hash in ground (arith, shut, m.usable)

-- In a table of invitations with distinct hashes, an invitation that was accepted is not accepted
-- again, with whatever password, after whatever requests, at whatever time.
pub accept_invitation-once :
    (k : Crypto) (token password again : List ℕ) (now later : ℕ) (rs : List Request)
    (s s' s'' : Store)
    → IsKeyed (λ (t : Token). t.token_hash) s.invitations
    → accept_invitation k token password now s ≡ (success, s')
    → accept_invitation k token again later (run_requests k rs s') ≢ (success, s'')
unfolding accept_writes
accept_invitation-once k token password again now later rs s s' s'' keyed e f =
    let r = accept_invitation-IsAccepted k token password now s s' e in
    let q = accept_invitation-IsAccepted k token again later (run_requests k rs s') s'' f in
    let spent : IsSpent (k.hash_opaque_token token) s'.invitations =
      rw (r.writes, ← r.is_match.same_hash)
        (spend-IsSpent _ _ r.link r.account.id now s.invitations keyed r.is_match.token_listed) in
    IsMatch-IsSpent k token again later _ _ _ q.link q.account q.is_match
      (run_requests-IsSpent_invitation k _ rs s' spent)

-- In a table of reset links with distinct hashes, a link that reset a password resets none again, with
-- whatever password, after whatever requests, at whatever time.
pub reset_password-once :
    (k : Crypto) (token password again : List ℕ) (now later : ℕ) (n m : NewToken)
    (rs : List Request) (s s' s'' : Store)
    → IsKeyed (λ (t : Token). t.token_hash) s.resets
    → reset_password k token password now n s ≡ some (success, s')
    → reset_password k token again later m (run_requests k rs s') ≢ some (success, s'')
unfolding reset_writes
reset_password-once k token password again now later n m rs s s' s'' keyed e f =
    let r = reset_password-IsReset k token password now n s s' e in
    let q = reset_password-IsReset k token again later m (run_requests k rs s') s'' f in
    let same : s'.resets ≡ (reset_writes r.link r.account (k.hash_password password) now s).resets =
      ap (λ (x : Store). x.resets) r.writes in
    let spent : IsSpent (k.hash_opaque_token token) s'.resets =
      rw (same, ← r.is_match.same_hash)
        (spend-IsSpent none none r.link r.account.id now s.resets keyed r.is_match.token_listed) in
    IsMatch-IsSpent k token again later _ _ _ q.link q.account q.is_match
      (run_requests-IsSpent_reset k _ rs s' spent)
