-- ===== src/Access/Guards.antt =====
-- The count of active administrators through changes of accounts (src/admin/policy.ts,
-- src/admin/data.ts).
use openers_performance_dash.Prelude.{
  ℕ, suc, ◌≤◌, ◌≡◌, ◌≢◌, refl, Bool, true, false, none, some, List, [], ◌∷◌, inl, inr, arith, In,
  All, Bool-cases, Option-cases, length, leb,
}
use openers_performance_dash.Prelude.Table.{
  update, find, find-In, select_where, IsKeyed, IsKeyed-eq,
}
use openers_performance_dash.Accounts.{Role, AccountStatus, Profile}
use openers_performance_dash.Access.Policy.{
  Changed, done, refused, can_remove_admin, is_counted, active_admin_count, is_user, put_status,
  put_role, set_user_account_status, update_admin_user_role,
}

module _ {A : Type 0} (p q : A → Bool) (f : A → A) where
  -- Where no row leaves the selection, it does not shrink.
  count-update_kept :
      (xs : List A)
      → ((x : A) → In x xs → q x ≡ true → p x ≡ true → p (f x) ≡ true)
      → length (select_where p xs) ≤ length (select_where p (update q f xs))
  count-update_kept [] h = ground arith
  count-update_kept (x ∷ xs) h =
      let ih = count-update_kept xs (λ y m. h y (inr m)) in
      let here = h x (inl refl) in
      elim (Bool-cases (q x)) [
        | inr t ↦ elim (Bool-cases (p x)) [
          | inl u ↦ rw (t, u) (ground (arith, ih))
          | inr u ↦ rw (t, u) ih
        ]
        | inl t ↦ elim (Bool-cases (p x)) [
          | inl u ↦ rw (t, u, here t u) (ground (arith, ih))
          | inr u ↦ elim (Bool-cases (p (f x))) [
            | inl v ↦ rw (t, u, v) (ground (arith, ih))
            | inr v ↦ rw (t, u, v) ih
          ]
        ]
      ]

  -- Rows that the update leaves alone stay as they are.
  update_apart : (xs : List A) → All (λ x. q x ≡ false) xs → update q f xs ≡ xs
  update_apart [] h = refl
  update_apart (x ∷ xs) h = rw (h.0, update_apart xs h.1) refl

-- An update of one user's row takes at most one row out of a selection.
count-update :
    (p : Profile → Bool) (organization user : ℕ) (f : Profile → Profile) (xs : List Profile)
    → IsKeyed (λ (x : Profile). x.id) xs
    → length (select_where p xs)
      ≤ suc (length (select_where p (update (is_user organization user) f xs)))
count-update p organization user f [] k = ground arith
count-update p organization user f (x ∷ xs) k =
    let ih = count-update p organization user f xs k.1 in
    elim (Bool-cases (is_user organization user x)) [
      | inl t ↦
          let rest = update_apart p (is_user organization user) f xs (apart x xs k.0 t) in
          elim (Bool-cases (p x)) [
            | inl u ↦ elim (Bool-cases (p (f x))) [
              | inl v ↦ rw (t, u, v, rest) (ground arith)
              | inr v ↦ rw (t, u, v, rest) (ground arith)
            ]
            | inr u ↦ elim (Bool-cases (p (f x))) [
              | inl v ↦ rw (t, u, v, rest) (ground arith)
              | inr v ↦ rw (t, u, v, rest) (ground arith)
            ]
          ]
      | inr t ↦ elim (Bool-cases (p x)) [
        | inl u ↦ rw (t, u) (ground (arith, ih))
        | inr u ↦ rw (t, u) ih
      ]
    ]
  where
    apart :
        (x : Profile) (xs : List Profile)
        → All (λ (y : Profile). y.id ≢ x.id) xs
        → is_user organization user x ≡ true
        → All (λ y. is_user organization user y ≡ false) xs
    apart x [] h t = tt
    apart x (y ∷ ys) h t = (ground (arith, h.0, t), apart x ys h.1 t)

module _ (organization user : ℕ) (f : Profile → Profile) (ps : List Profile) (p : Profile) where
  -- If the row may not leave the selection while it is the only one, one row stays selected.
  one_stays :
      IsKeyed (λ (x : Profile). x.id) ps
      → find (is_user organization user) ps ≡ some p
      → 1 ≤ active_admin_count organization ps
      → (active_admin_count organization ps ≤ 1
          → is_counted organization p ≡ true
          → is_counted organization (f p) ≡ true)
      → 1 ≤ active_admin_count organization (update (is_user organization user) f ps)
  unfolding active_admin_count
  one_stays k e c stays =
      let least = count-update (is_counted organization) organization user f ps k in
      elim (Bool-cases (leb (active_admin_count organization ps) 1)) [
        | inr t ↦ ground (arith, least, t)
        | inl t ↦
            let (m, u) = find-In (is_user organization user) ps p e in
            let kept =
              count-update_kept (is_counted organization) (is_user organization user) f ps
                (λ x n v w.
                  let same : x ≡ p =
                    IsKeyed-eq (λ (y : Profile). y.id) ps x p k n m (ground (arith, u, v)) in
                  rw same (stays (ground (arith, t)) (rw same at w))) in
            ground (arith, kept, c)
      ]

-- The table that a request leaves.
abbrev pub after : Changed → List Profile → List Profile
after (done ps') ps = ps'
after (refused e) ps = ps

-- The row that a granted change is about.
record Granted (organization user : ℕ) (f : Profile → Profile) (ps ps' : List Profile)
    : Type 0 where
  row : Profile
  found : find (is_user organization user) ps ≡ some row
  written : ps' ≡ update (is_user organization user) f ps
  stays :
      active_admin_count organization ps ≤ 1
      → is_counted organization row ≡ true
      → is_counted organization (f row) ≡ true

after_keeps :
    (organization user : ℕ) (f : Profile → Profile) (ps : List Profile) (r : Changed)
    → IsKeyed (λ (x : Profile). x.id) ps
    → 1 ≤ active_admin_count organization ps
    → ((ps' : List Profile) → r ≡ done ps' → Granted organization user f ps ps')
    → 1 ≤ active_admin_count organization (after r ps)
after_keeps organization user f ps (refused e) k c granted = c
after_keeps organization user f ps (done ps') k c granted =
    let g = granted ps' refl in
    rw g.written (one_stays organization user f ps g.row k g.found c g.stays)

can_remove_admin-status :
    (organization : ℕ) (p : Profile) (status : AccountStatus) (n : ℕ)
    → can_remove_admin p.role p.account_status n none (some status) ≡ true
    → n ≤ 1
    → is_counted organization p ≡ true
    → is_counted organization (put_status status p) ≡ true
unfolding can_remove_admin
can_remove_admin-status organization p status n g l c = ground arith

can_remove_admin-role :
    (organization : ℕ) (p : Profile) (role : Role) (n : ℕ)
    → can_remove_admin p.role p.account_status n (some role) none ≡ true
    → n ≤ 1
    → is_counted organization p ≡ true
    → is_counted organization (put_role role p) ≡ true
unfolding can_remove_admin
can_remove_admin-role organization p role n g l c = ground arith

-- In a table with distinct ids, a request to change an account's status leaves the organization an
-- active administrator, if it had one.
pub set_user_account_status-count :
    (organization user : ℕ) (status : AccountStatus) (has_password : Bool) (ps : List Profile)
    → IsKeyed (λ (x : Profile). x.id) ps
    → 1 ≤ active_admin_count organization ps
    → 1
      ≤ active_admin_count organization
          (after (set_user_account_status organization user status has_password ps) ps)
unfolding set_user_account_status
set_user_account_status-count organization user status has_password ps k c =
    after_keeps organization user (put_status status) ps
      (set_user_account_status organization user status has_password ps) k c
      λ ps' e. elim (Option-cases (find (is_user organization user) ps)) [
        | inl n ↦ absurd (cc (rw (n, set_user_account_status) at e))
        | inr (p, f) ↦
            let e' = rw (f, set_user_account_status) at e in
            record {
              row = p;
              found = f;
              written = ground (arith, e');
              stays =
                  can_remove_admin-status organization p status (active_admin_count organization ps)
                    (ground (arith, e'));
            }
      ]

-- In a table with distinct ids, a request to change a user's role leaves the organization an active
-- administrator, if it had one.
pub update_admin_user_role-count :
    (actor organization user : ℕ) (role : Role) (is_duplicate has_mapping : Bool)
    (ps : List Profile)
    → IsKeyed (λ (x : Profile). x.id) ps
    → 1 ≤ active_admin_count organization ps
    → 1
      ≤ active_admin_count organization (
          after
            (update_admin_user_role actor organization user role is_duplicate has_mapping ps)
            ps)
unfolding update_admin_user_role
update_admin_user_role-count actor organization user role is_duplicate has_mapping ps k c =
    after_keeps organization user (put_role role) ps
      (update_admin_user_role actor organization user role is_duplicate has_mapping ps) k c
      λ ps' e. elim (Option-cases (find (is_user organization user) ps)) [
        | inl n ↦ absurd (ground (arith, e, n))
        | inr (p, f) ↦ record {
          row = p;
          found = f;
          written = ground (arith, e, f);
          stays =
              can_remove_admin-role organization p role (active_admin_count organization ps)
                (ground (arith, e, f));
        }
      ]
