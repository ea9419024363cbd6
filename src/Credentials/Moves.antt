-- ===== src/Credentials/Moves.antt =====
-- How requests of src/auth/service.ts move the tables of tokens: no link is opened again, and none is
-- given out twice.
use openers_performance_dash.Prelude.{
  ℕ, ◌≡◌, refl, ap, Bool, false, inl, inr, Option, List, [], ◌∷◌, ◌++◌, arith, ◌==◌, if◌then◌else◌,
  In, Bool-cases, any, any-none, In-append, In-append_inv,
}
use openers_performance_dash.Prelude.Table.{update, update-covers, In-update_of}
use openers_performance_dash.Credentials.{
  Token, Store, is_open, is_open_of, is_other_open_of, use_token, revoke_token, revoke_open, spend,
  DeliveryStatus,
}
use openers_performance_dash.Credentials.Accept.{NewToken, is_taken}

-- What requests do to a table of tokens: rows are closed, and rows with a new hash are added.
pub data Moves (ts : List Token) : List Token → Type 0 where
  stay : Moves ts ts
  close :
      {us : List Token}
      → Moves ts us
      → (p : Token → Bool) (f : Token → Token) → ((t : Token) → (f t).token_hash ≡ t.token_hash)
      → ((t : Token) → is_open t ≡ false → is_open (f t) ≡ false)
      → Moves ts (update p f us)
  add :
      {us : List Token}
      → Moves ts us
      → (u : Token) → any (λ (t : Token). t.token_hash == u.token_hash) us ≡ false
      → Moves ts (us ++ u ∷ [])

-- The link with a hash is there, and it is closed.
pub record IsSpent (hash : ℕ) (ts : List Token) : Type 0 where
  pub row : Token
  pub listed : In row ts
  pub same_hash : row.token_hash ≡ hash
  pub closed : (t : Token) → In t ts → t.token_hash ≡ hash → is_open t ≡ false

pub close-IsSpent :
    (hash : ℕ) (p : Token → Bool) (f : Token → Token) (us : List Token)
    → ((t : Token) → (f t).token_hash ≡ t.token_hash)
    → ((t : Token) → is_open t ≡ false → is_open (f t) ≡ false)
    → IsSpent hash us
    → IsSpent hash (update p f us)
close-IsSpent hash p f us keeps shuts r = record {
  row = if p r.row then f r.row else r.row;
  listed = In-update_of p f us r.row r.listed;
  same_hash = elim (Bool-cases (p r.row)) [
    | inl t ↦ rw (t, keeps r.row) r.same_hash
    | inr t ↦ rw t r.same_hash
  ];
  closed =
      update-covers (λ (t : Token). t.token_hash ≡ hash → is_open t ≡ false) p f us
        (λ x n t h. shuts x (r.closed x n (rw (keeps x) at h))) (λ x n t h. r.closed x n h);
}

add-IsSpent :
    (hash : ℕ) (us : List Token) (u : Token)
    → any (λ (t : Token). t.token_hash == u.token_hash) us ≡ false
    → IsSpent hash us
    → IsSpent hash (us ++ u ∷ [])
add-IsSpent hash us u new r = record {
  row = r.row;
  listed = In-append us u r.row r.listed;
  same_hash = r.same_hash;
  closed = λ t n h. elim (In-append_inv us u t n) [
    | inl o ↦ r.closed t o h
    | inr e ↦
        let apart = any-none (λ (t : Token). t.token_hash == u.token_hash) us r.row new r.listed in
        let same = ap (λ (t : Token). t.token_hash) e in
        absurd (ground (arith, apart, same, h, r.same_hash))
  ];
}

pub Moves-IsSpent :
    {hash : ℕ} {ts us : List Token} → Moves ts us → IsSpent hash ts → IsSpent hash us
Moves-IsSpent stay i = i
Moves-IsSpent (close m p f keeps shuts) i = close-IsSpent _ p f _ keeps shuts (Moves-IsSpent m i)
Moves-IsSpent (add m u new) i = add-IsSpent _ _ u new (Moves-IsSpent m i)

-- Both tables of a store.
pub record Proceeds (s s' : Store) : Type 0 where
  pub invitations : Moves s.invitations s'.invitations
  pub resets : Moves s.resets s'.resets

pub unproceeded : (s : Store) → Proceeds s s
unproceeded s = record { invitations = stay; resets = stay }

pub untaken :
    (n : NewToken) (p : Token → Bool) (f : Token → Token) (ts : List Token)
    → ((t : Token) → (f t).token_hash ≡ t.token_hash)
    → is_taken n ts ≡ false
    → any (λ (t : Token). t.token_hash == n.token_hash) (update p f ts) ≡ false
untaken n p f [] keeps e = refl
untaken n p f (t ∷ ts) keeps e = ground (arith, e, keeps t, untaken n p f ts keeps)

pub revoke_open-Moves :
    {ts us : List Token} (status : Option DeliveryStatus) (profile now : ℕ)
    → Moves ts us
    → Moves ts (revoke_open status profile now us)
unfolding revoke_open
revoke_open-Moves status profile now m =
    close m (is_open_of profile) (revoke_token status now) (λ t. refl) (λ t h. ground (arith, h))

pub spend-Moves :
    {ts us : List Token} (used others : Option DeliveryStatus) (t : Token) (profile now : ℕ)
    → Moves ts us
    → Moves ts (spend used others t profile now us)
unfolding spend
spend-Moves used others t profile now m =
    close
      (close m (λ (u : Token). u.id == t.id) (use_token used now) (λ t. refl)
        (λ t h. ground (arith, h)))
      (is_other_open_of profile t.id) (revoke_token others now) (λ t. refl)
      (λ t h. ground (arith, h))
