-- ===== src/Access/Granted.antt =====
-- Who has a permission by `hasPermission` of src/auth/permissions.ts, described by the rows of its tables.
use Prim.Native.Nat.{Ordering}
use Prim.Native.String.{compare}
use text.Mathlib.TextEquality.{path_by_compare}
use text.Mathlib.TextPositions.{compare_refl}
use openers_performance_dash.Prelude.{
  ◌≡◌, ◌↔◌, ◌⊎◌, refl, sym, ◌∙◌, String, Bool, true, false, not, ◌&&◌, Option, none, some, inl, inr,
  List, [], ◌∷◌, arith, In, ◌==◌, or_else, Bool-cases, Option-cases,
}
use openers_performance_dash.Prelude.Table.{find, find-In, find-none}
use openers_performance_dash.Accounts.{Role, Actor, is_admin}
use openers_performance_dash.Access.{
  RolePermission, UserPermissionOverride, Grants, same_key, same_role, listed, is_admin_only,
  is_overridable, override_of, has_role_permission, has_permission,
}
use openers_performance_dash.Access.Permissions.{
  admin_only_permissions, overridable_permission_keys,
}

-- An override of the actor for the permission.
pub record HasOverride (a : Actor) (key : String) (g : Grants) (allowed : Bool) : Type 0 where
  pub row : UserPermissionOverride
  pub listed : In row g.overrides
  pub same_user : row.profile_id ≡ a.id
  pub same_permission : row.permission_key ≡ key
  pub answer : row.allowed ≡ allowed

-- A grant of the permission to the role of the actor.
pub record HasRoleGrant (a : Actor) (key : String) (g : Grants) : Type 0 where
  pub row : RolePermission
  pub listed : In row g.role_permissions
  pub same_role : row.role ≡ a.role
  pub same_permission : row.permission_key ≡ key

-- No override decides about the permission.
abbrev pub IsUndecided : Actor → String → Grants → Type 0
IsUndecided a key g =
    ¬ In key overridable_permission_keys ⊎ ((allowed : Bool) → ¬ HasOverride a key g allowed)

pub record IsGranted (a : Actor) (key : String) (g : Grants) : Type 0 where
  pub within_role : (a.role ≡ Role.admin) ⊎ ¬ In key admin_only_permissions
  pub by_rows :
      (In key overridable_permission_keys × HasOverride a key g true)
      ⊎ (IsUndecided a key g × HasRoleGrant a key g)

-- The primary key of the table of overrides: a user has one row for a permission.
abbrev pub IsUnique : List UserPermissionOverride → Type 0
IsUnique rows =
    (r s : UserPermissionOverride)
    → In r rows
    → In s rows
    → r.profile_id ≡ s.profile_id
    → r.permission_key ≡ s.permission_key
    → r ≡ s

same_key-eq : (s t : String) → same_key s t ≡ true → s ≡ t
same_key-eq s t h = decide (compare s t) refl h
  where
    decide :
        (o : Ordering)
        → compare s t ≡ o
        → (elim o [ Ordering.eq ↦ true | _ ↦ false ]) ≡ true
        → s ≡ t
    decide Ordering.eq e h = path_by_compare s t e
    decide Ordering.lt e h = cc h
    decide Ordering.gt e h = cc h

same_key_refl : (s t : String) → s ≡ t → same_key s t ≡ true
same_key_refl s t e = rw (e, same_key, compare_refl t) refl

listed-In : (key : String) (keys : List String) → listed key keys ≡ true → In key keys
unfolding listed
listed-In key [] h = cc h
listed-In key (k ∷ ks) h = elim (Bool-cases (same_key key k)) [
  | inl t ↦ inl (same_key-eq key k t)
  | inr f ↦ inr (listed-In key ks (rw f at h))
]

listed-not_In : (key : String) (keys : List String) → listed key keys ≡ false → ¬ In key keys
unfolding listed
listed-not_In key [] h m = elim m [ ]
listed-not_In key (k ∷ ks) h (inl e) = cc (rw (same_key_refl key k e) at h)
listed-not_In key (k ∷ ks) h (inr m) = listed-not_In key ks (ground (arith, h)) m

same_role-eq : (r s : Role) → same_role r s ≡ true → r ≡ s
same_role-eq Role.admin Role.admin h = refl
same_role-eq Role.admin Role.manager h = cc h
same_role-eq Role.admin Role.agent h = cc h
same_role-eq Role.manager Role.admin h = cc h
same_role-eq Role.manager Role.manager h = refl
same_role-eq Role.manager Role.agent h = cc h
same_role-eq Role.agent Role.admin h = cc h
same_role-eq Role.agent Role.manager h = cc h
same_role-eq Role.agent Role.agent h = refl

same_role_refl : (r : Role) → same_role r r ≡ true
same_role_refl Role.admin = refl
same_role_refl Role.manager = refl
same_role_refl Role.agent = refl

is_admin-eq : (r : Role) → is_admin r ≡ true → r ≡ Role.admin
is_admin-eq Role.admin h = refl
is_admin-eq Role.manager h = cc h
is_admin-eq Role.agent h = cc h

module _ (a : Actor) (key : String) (g : Grants) where
  abbrev own : UserPermissionOverride → Bool
  own r = r.profile_id == a.id && same_key r.permission_key key

  abbrev grants_role : RolePermission → Bool
  grants_role r = same_role r.role a.role && same_key r.permission_key key

  own-row :
      (r : UserPermissionOverride) → own r ≡ true → (r.profile_id ≡ a.id) × (r.permission_key ≡ key)
  own-row r t = (ground (arith, t), same_key-eq r.permission_key key (ground (arith, t)))

  own_of :
      (r : UserPermissionOverride) → r.profile_id ≡ a.id → r.permission_key ≡ key → own r ≡ true
  own_of r u k = rw (same_key_refl r.permission_key key k) (ground (arith, u))

  has_role_permission-row :
      has_role_permission a.role key g.role_permissions ≡ true → HasRoleGrant a key g
  has_role_permission-row h = elim (Option-cases (find grants_role g.role_permissions)) [
    | inl n ↦ absurd (cc (rw n at h))
    | inr (r, f) ↦
        let (m, t) = find-In grants_role g.role_permissions r f in
        record {
          row = r;
          listed = m;
          same_role = same_role-eq r.role a.role (ground (arith, t));
          same_permission = same_key-eq r.permission_key key (ground (arith, t));
        }
  ]

  has_role_permission_of :
      HasRoleGrant a key g → has_role_permission a.role key g.role_permissions ≡ true
  has_role_permission_of h = elim (Option-cases (find grants_role g.role_permissions)) [
    | inr (r, f) ↦ rw f refl
    | inl n ↦
        let no_row = find-none grants_role g.role_permissions h.row n h.listed in
        let same : same_role h.row.role a.role ≡ true = rw h.same_role (same_role_refl a.role) in
        absurd (cc (rw (same, same_key_refl h.row.permission_key key h.same_permission) at no_row))
  ]

  override_of-row :
      (b : Bool)
      → override_of a key g.overrides ≡ some b
      → In key overridable_permission_keys × HasOverride a key g b
  unfolding override_of
  override_of-row b h = elim (Bool-cases (is_overridable key)) [
    | inr f ↦ absurd (cc (rw (override_of, f) at h))
    | inl t ↦ elim (Option-cases (find own g.overrides)) [
      | inl n ↦ absurd (cc (rw (override_of, t, n) at h))
      | inr (r, f) ↦
          let (m, o) = find-In own g.overrides r f in
          let (u, k) = own-row r o in
          (
            listed-In key overridable_permission_keys t,
            record {
              row = r;
              listed = m;
              same_user = u;
              same_permission = k;
              answer = cc (rw (override_of, t, f) at h);
            },
          )
    ]
  ]

  override_of-IsUndecided : override_of a key g.overrides ≡ none → IsUndecided a key g
  unfolding override_of
  override_of-IsUndecided h = elim (Bool-cases (is_overridable key)) [
    | inr f ↦ inl (listed-not_In key overridable_permission_keys f)
    | inl t ↦ elim (Option-cases (find own g.overrides)) [
      | inr (r, f) ↦ absurd (cc (rw (override_of, t, f) at h))
      | inl n ↦ inr (λ b o.
          let no_row = find-none own g.overrides o.row n o.listed in
          absurd (cc (no_row, own_of o.row o.same_user o.same_permission)))
    ]
  ]

  -- The two sides, by what the override says.
  resolved :
      (o : Option Bool)
      → override_of a key g.overrides ≡ o
      → or_else o (has_role_permission a.role key g.role_permissions) ≡ true
      → (In key overridable_permission_keys × HasOverride a key g true)
        ⊎ (IsUndecided a key g × HasRoleGrant a key g)
  resolved none e h = inr (override_of-IsUndecided e, has_role_permission-row h)
  resolved (some true) e h = inl (override_of-row true e)
  resolved (some false) e h = cc h

  resolved_of :
      IsUnique g.overrides
      → (In key overridable_permission_keys × HasOverride a key g true)
        ⊎ (IsUndecided a key g × HasRoleGrant a key g)
      → (o : Option Bool) → override_of a key g.overrides ≡ o
      → or_else o (has_role_permission a.role key g.role_permissions) ≡ true
  resolved_of unique h (some true) e = refl
  resolved_of unique (inl (k, h)) (some false) e =
      let (_, o) = override_of-row false e in
      let same : o.row ≡ h.row =
        unique o.row h.row o.listed h.listed (o.same_user ∙ sym h.same_user)
          (o.same_permission ∙ sym h.same_permission) in
      cc (same, o.answer, h.answer)
  resolved_of unique (inr (inl n, h)) (some false) e = absurd (n (override_of-row false e).0)
  resolved_of unique (inr (inr n, h)) (some false) e = absurd (n false (override_of-row false e).1)
  resolved_of unique (inl (k, h)) none e = elim (override_of-IsUndecided e) [
    | inl n ↦ absurd (n k)
    | inr n ↦ absurd (n true h)
  ]
  resolved_of unique (inr (n, h)) none e = has_role_permission_of h

  -- Where a user has one override at most for a permission, an actor has a permission exactly if the
  -- actor is an administrator or the permission is not for administrators alone, and it may be
  -- overridden and the actor's override allows it, or no override decides and the actor's role has it.
  pub has_permission-IsGranted :
      IsUnique g.overrides → (has_permission a key g ≡ true) ↔ IsGranted a key g
  unfolding has_permission
  has_permission-IsGranted unique = (there, back)
    where
      there : has_permission a key g ≡ true → IsGranted a key g
      there h = elim (Bool-cases (not (is_admin a.role) && is_admin_only key)) [
        | inl t ↦ absurd (cc (rw (has_permission, t) at h))
        | inr f ↦ record {
          within_role = elim (Bool-cases (is_admin a.role)) [
            | inl t ↦ inl (is_admin-eq a.role t)
            | inr n ↦ inr (listed-not_In key admin_only_permissions (rw n at f))
          ];
          by_rows = resolved (override_of a key g.overrides) refl (rw (has_permission, f) at h);
        }
      ]

      back : IsGranted a key g → has_permission a key g ≡ true
      back i = elim (Bool-cases (not (is_admin a.role) && is_admin_only key)) [
        | inr f ↦
            rw (has_permission, f)
              (resolved_of unique i.by_rows (override_of a key g.overrides) refl)
        | inl t ↦ elim i.within_role [
          | inl e ↦ absurd (cc (rw e at t))
          | inr n ↦ absurd (n (listed-In key admin_only_permissions (ground (arith, t))))
        ]
      ]
