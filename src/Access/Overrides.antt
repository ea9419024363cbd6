-- ===== src/Access/Overrides.antt =====
-- The validation of overrides (src/admin/policy.ts), described by what it lets pass.
use openers_performance_dash.Prelude.{
  ◌≡◌, String, true, false, none, List, [], ◌∷◌, inl, inr, arith, In, All, All-of_In,
}
use openers_performance_dash.Accounts.{Role, is_admin}
use openers_performance_dash.Access.{listed, is_admin_only, is_overridable, same_key}
use openers_performance_dash.Access.Policy.{
  PermissionOverrideInput, allow, validate_each, validate_permission_overrides,
}

-- An override that may be stored.
pub record IsGrantable (role : Role) (o : PermissionOverrideInput) : Type 0 where
  pub overridable : is_overridable o.permission_key ≡ true
  pub within_role : o.value ≡ allow → is_admin role ≡ false → is_admin_only o.permission_key ≡ false

validate_each-IsGrantable :
    (os : List PermissionOverrideInput) (role : Role) (seen : List String)
    → validate_each os role seen ≡ none
    → (o : PermissionOverrideInput) → In o os
    → IsGrantable role o × (listed o.permission_key seen ≡ false)
unfolding validate_each listed
validate_each-IsGrantable [] role seen e o m = elim m [ ]
validate_each-IsGrantable (x ∷ xs) role seen e o (inl q) = rw q (
  record { overridable = ground (arith, e); within_role = λ a n. ground (arith, e, a, n) },
  ground (arith, e),
)
validate_each-IsGrantable (x ∷ xs) role seen e o (inr m) =
    let (g, n) =
      validate_each-IsGrantable xs role (x.permission_key ∷ seen) (ground (arith, e)) o m in
    (g, ground (arith, n))

pub AreDistinct : List PermissionOverrideInput → Type 0
AreDistinct [] = Unit
AreDistinct (o ∷ os) =
    All (λ (p : PermissionOverrideInput). same_key p.permission_key o.permission_key ≡ false) os
    × AreDistinct os

validate_each-AreDistinct :
    (os : List PermissionOverrideInput) (role : Role) (seen : List String)
    → validate_each os role seen ≡ none
    → AreDistinct os
unfolding validate_each listed AreDistinct
validate_each-AreDistinct [] role seen e = tt
validate_each-AreDistinct (x ∷ xs) role seen e =
    let rest : validate_each xs role (x.permission_key ∷ seen) ≡ none = ground (arith, e) in
    (
      All-of_In
          (λ (p : PermissionOverrideInput). same_key p.permission_key x.permission_key ≡ false) xs
          (λ o m.
            ground (arith, validate_each-IsGrantable xs role (x.permission_key ∷ seen) rest o m)),
      validate_each-AreDistinct xs role (x.permission_key ∷ seen) rest,
    )

-- Overrides that the validation lets pass have distinct keys, each of which may be overridden, and
-- none allows a permission for administrators alone to a user of another role.
pub validate_permission_overrides-grants :
    (os : List PermissionOverrideInput) (role : Role)
    → validate_permission_overrides os role ≡ none
    → AreDistinct os × ((o : PermissionOverrideInput) → In o os → IsGrantable role o)
unfolding validate_permission_overrides
validate_permission_overrides-grants os role e =
    (validate_each-AreDistinct os role [] e, λ o m. (validate_each-IsGrantable os role [] e o m).0)
