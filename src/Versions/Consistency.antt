-- ===== src/Versions/Consistency.antt =====
-- The agreement of the tables of dataset versions: each scope's active version is to be a row of that
-- scope with status active, and the only such row. It is about the columns that publishing, switching
-- and deactivating write (src/import/service.ts, src/import/active-lifecycle.ts).
use openers_performance_dash.Prelude.{
  ℕ, ◌≡◌, ◌≢◌, refl, sym, ap, ◌∙◌, true, false, Option, some, inl, inr, arith, ◌==◌, ==_iff,
  if◌then◌else◌, eq?, In, Bool-cases,
}
use openers_performance_dash.Prelude.Table.{
  update, select_where, IsKeyed, IsKeyed-eq, update-IsKeyed, In-update, In-update_of,
  select_where-update,
}
use openers_performance_dash.Versions.{
  VersionStatus, Version, Scope, Store, in_batch, retire, activate, point_at, hand_over,
}

pub record HasActive (s : Store) (sc : Scope) (id : ℕ) : Type 0 where
  pub row : Version
  pub listed : In row s.versions
  pub same_id : row.id ≡ id
  pub same_scope : row.scope_key ≡ sc.scope_key
  pub active : row.status ≡ VersionStatus.active

pub record IsPointedAt (s : Store) (v : Version) : Type 0 where
  pub row : Scope
  pub listed : In row s.scopes
  pub same_scope : row.scope_key ≡ v.scope_key
  pub points : row.active_version_id ≡ some v.id

-- The keys of the schema (among them: a batch has one version in a scope), and the agreement.
pub record IsConsistent (s : Store) : Type 0 where
  pub version_ids : IsKeyed (λ (v : Version). v.id) s.versions
  pub scope_keys : IsKeyed (λ (sc : Scope). sc.scope_key) s.scopes
  pub one_each :
      (b : ℕ) → IsKeyed (λ (v : Version). v.scope_key) (select_where (in_batch b) s.versions)
  pub pointed :
      (sc : Scope) (id : ℕ) → In sc s.scopes → sc.active_version_id ≡ some id → HasActive s sc id
  pub sole : (v : Version) → In v s.versions → v.status ≡ VersionStatus.active → IsPointedAt s v

-- A row of the scope that is to become its active version.
pub record IsNew (s : Store) (scope_key id : ℕ) : Type 0 where
  pub row : Version
  pub listed : In row s.versions
  pub same_id : row.id ≡ id
  pub same_scope : row.scope_key ≡ scope_key

module _ (status : VersionStatus) (now : ℕ) (key : ℕ) (old new : Option ℕ) (s : Store) where
  -- What a hand-over makes of a version.
  abbrev retired : Version → Version
  retired v = if eq? old v.id then retire status now v else v

  abbrev rewritten : Version → Version
  rewritten v = if eq? new (retired v).id then activate now (retired v) else retired v

  rewritten-In :
      (v : Version)
      → In v s.versions
      → In (rewritten v) (hand_over status now key old new s).versions
  unfolding hand_over
  rewritten-In v m =
      In-update_of (λ w. eq? new w.id) (activate now)
        (update (λ w. eq? old w.id) (retire status now) s.versions) (retired v)
        (In-update_of (λ w. eq? old w.id) (retire status now) s.versions v m)

  In-rewritten :
      (y : Version)
      → In y (hand_over status now key old new s).versions
      → (v : Version) × In v s.versions × (y ≡ rewritten v)
  unfolding hand_over
  In-rewritten y m =
      let (x, n, e) =
        In-update (λ w. eq? new w.id) (activate now)
          (update (λ w. eq? old w.id) (retire status now) s.versions) y m in
      let (v, k, q) = In-update (λ w. eq? old w.id) (retire status now) s.versions x n in
      (v, k, rw q at e)

  pub scopes_In :
      (x : Scope)
      → In x s.scopes
      → In
          (if x.scope_key == key then point_at new x else x)
          (hand_over status now key old new s).scopes
  unfolding hand_over
  scopes_In x m = In-update_of (λ r. r.scope_key == key) (point_at new) s.scopes x m

  In-scopes :
      (y : Scope)
      → In y (hand_over status now key old new s).scopes
      → (x : Scope) × In x s.scopes × (y ≡ (if x.scope_key == key then point_at new x else x))
  unfolding hand_over
  In-scopes y m = In-update (λ r. r.scope_key == key) (point_at new) s.scopes y m

  rewritten_keeps :
      (v : Version) → ((rewritten v).id ≡ v.id) × ((rewritten v).scope_key ≡ v.scope_key)
  rewritten_keeps v = ground arith

  hand_over-version_ids :
      IsKeyed (λ (v : Version). v.id) s.versions
      → IsKeyed (λ (v : Version). v.id) (hand_over status now key old new s).versions
  unfolding hand_over
  hand_over-version_ids k =
      update-IsKeyed (λ r. r.id) (λ w. eq? new w.id) (activate now)
        (update (λ w. eq? old w.id) (retire status now) s.versions) (λ x. refl)
        (update-IsKeyed (λ r. r.id) (λ w. eq? old w.id) (retire status now) s.versions (λ x. refl)
          k)

  hand_over-scope_keys :
      IsKeyed (λ (r : Scope). r.scope_key) s.scopes
      → IsKeyed (λ (r : Scope). r.scope_key) (hand_over status now key old new s).scopes
  unfolding hand_over
  hand_over-scope_keys k =
      update-IsKeyed (λ r. r.scope_key) (λ r. r.scope_key == key) (point_at new) s.scopes
        (λ x. refl) k

  hand_over-one_each :
      (b : ℕ)
      → IsKeyed (λ (v : Version). v.scope_key) (select_where (in_batch b) s.versions)
      → IsKeyed
          (λ (v : Version). v.scope_key)
          (select_where (in_batch b) (hand_over status now key old new s).versions)
  unfolding hand_over
  hand_over-one_each b k =
      rw
        (
          select_where-update (in_batch b) (λ w. eq? new w.id) (activate now)
              (update (λ w. eq? old w.id) (retire status now) s.versions) (λ x. refl),
          select_where-update (in_batch b) (λ w. eq? old w.id) (retire status now) s.versions
              (λ x. refl),
        )
        (update-IsKeyed (λ r. r.scope_key) (λ w. eq? new w.id) (activate now)
          (update (λ w. eq? old w.id) (retire status now) (select_where (in_batch b) s.versions))
          (λ x. refl)
          (update-IsKeyed (λ r. r.scope_key) (λ w. eq? old w.id) (retire status now)
            (select_where (in_batch b) s.versions) (λ x. refl) k))

  -- Other scopes' rows, and every version's id and scope, stay.
  pub hand_over-other_scope :
      (x : Scope)
      → In x s.scopes
      → (x.scope_key == key) ≡ false
      → In x (hand_over status now key old new s).scopes
  hand_over-other_scope x m e = rw e at (scopes_In x m)

  pub hand_over-IsNew : (k id : ℕ) → IsNew s k id → IsNew (hand_over status now key old new s) k id
  hand_over-IsNew k id w =
      let (i, j) = rewritten_keeps w.row in
      record {
        row = rewritten w.row;
        listed = rewritten-In w.row w.listed;
        same_id = i ∙ w.same_id;
        same_scope = j ∙ w.same_scope;
      }

  module _ (h : IsConsistent s) (sc : Scope) (m : In sc s.scopes) (key_eq : sc.scope_key ≡ key)
      (old_eq : sc.active_version_id ≡ old) (gone : status ≢ VersionStatus.active)
      (fresh : (id : ℕ) → new ≡ some id → IsNew s key id) where
    -- The version that loses the scope is a version of that scope.
    old_scope : (v : Version) → In v s.versions → eq? old v.id ≡ true → v.scope_key ≡ key
    old_scope v n t =
        let a : sc.active_version_id ≡ some v.id = ground (arith, old_eq, t) in
        let w = h.pointed sc v.id m a in
        let same : v ≡ w.row =
          IsKeyed-eq (λ r. r.id) s.versions v w.row h.version_ids n w.listed (sym w.same_id) in
        ap (λ (r : Version). r.scope_key) same ∙ w.same_scope ∙ key_eq

    -- So is the version that gets it.
    new_scope : (v : Version) → In v s.versions → eq? new v.id ≡ true → v.scope_key ≡ key
    new_scope v n t =
        let w = fresh v.id (ground (arith, t)) in
        let same : v ≡ w.row =
          IsKeyed-eq (λ r. r.id) s.versions v w.row h.version_ids n w.listed (sym w.same_id) in
        ap (λ (r : Version). r.scope_key) same ∙ w.same_scope

    hand_over-pointed :
        (sc' : Scope) (id : ℕ)
        → In sc' (hand_over status now key old new s).scopes
        → sc'.active_version_id ≡ some id
        → HasActive (hand_over status now key old new s) sc' id
    hand_over-pointed sc' id n a =
        let (x, k, e) = In-scopes sc' n in
        elim (Bool-cases (x.scope_key == key)) [
          | inl t ↦
              let e' : sc' ≡ point_at new x = rw t at e in
              let q : new ≡ some id = ground (arith, e', a) in
              let w = fresh id q in
              let (i, j) = rewritten_keeps w.row in
              record {
                row = rewritten w.row;
                listed = rewritten-In w.row w.listed;
                same_id = i ∙ w.same_id;
                same_scope = ground (arith, j, w.same_scope, e', t);
                active = ground (arith, q, w.same_id);
              }
          | inr t ↦
              let e' : sc' ≡ x = rw t at e in
              let w = h.pointed x id k (rw e' at a) in
              let (i, j) = rewritten_keeps w.row in
              let kept : eq? old w.row.id ≡ false = elim (Bool-cases (eq? old w.row.id)) [
                | inr u ↦ u
                | inl u ↦ absurd (ground (arith, old_scope w.row w.listed u, w.same_scope, t))
              ] in
              record {
                row = rewritten w.row;
                listed = rewritten-In w.row w.listed;
                same_id = i ∙ w.same_id;
                same_scope = ground (arith, j, w.same_scope, e');
                active = ground (arith, kept, w.active);
              }
        ]

    hand_over-sole :
        (y : Version)
        → In y (hand_over status now key old new s).versions
        → y.status ≡ VersionStatus.active
        → IsPointedAt (hand_over status now key old new s) y
    hand_over-sole y n a =
        let (v, k, e) = In-rewritten y n in
        let (i, j) = rewritten_keeps v in
        elim (Bool-cases (eq? new v.id)) [
          | inl t ↦
              let on : (sc.scope_key == key) ≡ true = (==_iff sc.scope_key key).1 key_eq in
              record {
                row = point_at new sc;
                listed = rw on at (scopes_In sc m);
                same_scope = ground (arith, key_eq, new_scope v k t, e, j);
                points = ground (arith, t, e, i);
              }
          | inr t ↦ elim (Bool-cases (eq? old v.id)) [
            | inl u ↦ absurd (gone (ground (arith, t, u, e, a)))
            | inr u ↦
                let same : y ≡ v = ground (arith, t, u, e) in
                let w = h.sole v k (rw same at a) in
                elim (Bool-cases (w.row.scope_key == key)) [
                  | inr z ↦ record {
                    row = w.row;
                    listed = rw z at (scopes_In w.row w.listed);
                    same_scope = ground (arith, w.same_scope, same);
                    points = ground (arith, w.points, same);
                  }
                  | inl z ↦
                      let one : w.row ≡ sc =
                        IsKeyed-eq (λ r. r.scope_key) s.scopes w.row sc h.scope_keys w.listed m
                          (ground (arith, z, key_eq)) in
                      absurd (
                        ground
                          (arith, ap (λ (r : Scope). r.active_version_id) one, w.points, old_eq, u))
                ]
          ]
        ]

    -- A hand-over within a scope, from its active version to a version of the same scope or to
    -- none, keeps the tables consistent.
    pub hand_over-IsConsistent : IsConsistent (hand_over status now key old new s)
    hand_over-IsConsistent = record {
      version_ids = hand_over-version_ids h.version_ids;
      scope_keys = hand_over-scope_keys h.scope_keys;
      one_each = λ b. hand_over-one_each b (h.one_each b);
      pointed = hand_over-pointed;
      sole = hand_over-sole;
    }
