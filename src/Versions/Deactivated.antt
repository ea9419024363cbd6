-- ===== src/Versions/Deactivated.antt =====
-- Deactivating an import (src/import/active-lifecycle.ts) and the agreement of the dataset tables.
use openers_performance_dash.Prelude.{
  ℕ, ◌≡◌, refl, Bool, some, List, [], ◌∷◌, inl, inr, arith, ◌==◌, ==_iff, eq?, In, Bool-cases,
  Option-cases,
}
use openers_performance_dash.Prelude.Table.{find, find-In, select_where, select_where-In, IsKeyed}
use openers_performance_dash.ImportJobs.{BatchStatus}
use openers_performance_dash.Versions.{
  VersionStatus, Version, Scope, Store, ok, hand_over, in_batch, set_batch_status,
}
use openers_performance_dash.Versions.Publish.{scopes_of}
use openers_performance_dash.Versions.Consistency.{
  IsConsistent, IsNew, hand_over-IsConsistent, hand_over-IsNew,
}
use openers_performance_dash.Prelude.Table.{select_where-IsKeyed}
use openers_performance_dash.Versions.Switch.{is_current}
use openers_performance_dash.Versions.Deactivate.{
  Resolution, is_replacement, find_newest, replacements, select_replacements, id_of,
  deactivate_each, activate_batches, resolve_active, check_active,
}
use openers_performance_dash.Versions.Reads.{
  OnOk, Ahead, Ahead-next, Ahead-batch, set_batch_status-IsConsistent, Result-cases,
}

find_newest-In :
    (p : Version → Bool) (vs : List Version) (v : Version) → find_newest p vs ≡ some v → In v vs
unfolding find_newest
find_newest-In p [] v e = cc
find_newest-In p (w ∷ ws) v e = elim (Bool-cases (p w)) [
  | inr t ↦ inr (find_newest-In p ws v (rw (t, find_newest) at e))
  | inl t ↦ elim (Option-cases (find_newest p ws)) [
    | inl n ↦ ground (arith, e, t, n)
    | inr (x, q) ↦ ground (arith, e, t, q, find_newest-In p ws x q)
  ]
]

replacements-In :
    (mode : Resolution) (b : ℕ) (vs : List Version) (s : Store) (r : Version)
    → In r (replacements mode b vs s)
    → In r s.versions
unfolding replacements
replacements-In mode b [] s r m = elim m [ ]
replacements-In mode b (v ∷ vs) s r m =
    elim (Option-cases (find_newest (is_replacement mode b v) s.versions)) [
      | inl n ↦ replacements-In mode b vs s r (rw (n, replacements) at m)
      | inr (x, q) ↦ head x q (replacements-In mode b vs s r) (rw (q, replacements) at m)
    ]
  where
    head :
        (x : Version)
        → find_newest (is_replacement mode b v) s.versions ≡ some x
        → (In r (replacements mode b vs s) → In r s.versions)
        → In r (x ∷ replacements mode b vs s)
        → In r s.versions
    head x q ih (inl e) = rw e (find_newest-In (is_replacement mode b v) s.versions x q)
    head x q ih (inr m) = ih m

deactivate_each-IsConsistent :
    (now : ℕ) (scopes : List Scope) (chosen vs : List Version) (s : Store)
    → IsConsistent s
    → IsKeyed (λ (v : Version). v.scope_key) vs
    → Ahead scopes vs s
    → ((r : Version) → In r chosen → IsNew s r.scope_key r.id)
    → OnOk IsConsistent (deactivate_each now scopes chosen vs s)
unfolding deactivate_each
deactivate_each-IsConsistent now scopes chosen [] s h k a c = h
deactivate_each-IsConsistent now scopes chosen (v ∷ vs) s h k a c =
    elim (Option-cases (find (λ (sc : Scope). sc.scope_key == v.scope_key) scopes)) [
      | inl n ↦ rw (n, deactivate_each) tt
      | inr (sc, e) ↦ elim (Bool-cases (eq? sc.active_version_id v.id)) [
        | inr t ↦ rw (e, t, deactivate_each) tt
        | inl t ↦
            let (m, u) = find-In (λ (sc : Scope). sc.scope_key == v.scope_key) scopes sc e in
            let q : sc.scope_key ≡ v.scope_key = (==_iff sc.scope_key v.scope_key).0 u in
            let o = find (λ (r : Version). r.scope_key == v.scope_key) chosen in
            let new = id_of o in
            rw (e, t, deactivate_each)
              (deactivate_each-IsConsistent now scopes chosen vs
                (hand_over VersionStatus.deactivated now v.scope_key (some v.id) new s)
                (hand_over-IsConsistent VersionStatus.deactivated now v.scope_key (some v.id) new s
                  h sc (a.unread v (inl refl) sc m q) q (ground (arith, t)) (λ z. cc)
                  (λ id z. replaces v chosen s c id z))
                k.1 (Ahead-next scopes v vs s VersionStatus.deactivated now (some v.id) new k a)
                (λ r n.
                  hand_over-IsNew VersionStatus.deactivated now v.scope_key (some v.id) new s
                    r.scope_key r.id (c r n)))
      ]
    ]
  where
    replaces :
        (v : Version) (chosen : List Version) (s : Store)
        → ((r : Version) → In r chosen → IsNew s r.scope_key r.id)
        → (id : ℕ) → id_of (find (λ (r : Version). r.scope_key == v.scope_key) chosen) ≡ some id
        → IsNew s v.scope_key id
    replaces v chosen s c id z =
        elim (Option-cases (find (λ (r : Version). r.scope_key == v.scope_key) chosen)) [
          | inl n ↦ absurd (cc (rw n at z))
          | inr (r, e) ↦
              let (m, u) = find-In (λ (r : Version). r.scope_key == v.scope_key) chosen r e in
              ground (arith, c r m, u, e, z)
        ]

activate_batches-IsConsistent :
    (vs : List Version) (s : Store) → IsConsistent s → IsConsistent (activate_batches vs s)
unfolding activate_batches
activate_batches-IsConsistent [] s h = h
activate_batches-IsConsistent (v ∷ vs) s h = elim (Option-cases v.import_batch_id) [
  | inl n ↦ rw (n, activate_batches) (activate_batches-IsConsistent vs s h)
  | inr (b, e) ↦
      rw (e, activate_batches)
        (activate_batches-IsConsistent vs (set_batch_status b BatchStatus.active s)
          (set_batch_status-IsConsistent b BatchStatus.active s h))
]

select_replacements-chosen :
    (mode : Resolution) (b : ℕ) (vs : List Version) (s : Store) (chosen : List Version)
    → select_replacements mode b vs s ≡ ok chosen
    → chosen ≡ replacements mode b vs s
unfolding select_replacements
select_replacements-chosen mode b vs s chosen e = ground arith

check_active-reads :
    (b : ℕ) (mode : Resolution) (s : Store) {vs chosen : List Version} {scs : List Scope}
    → check_active b mode s ≡ ok (vs, chosen, scs)
    → let versions = select_where (in_batch b) s.versions in
      (vs ≡ select_where (is_current scs) versions)
      × (scs ≡ scopes_of versions s)
      × (select_replacements mode b vs s ≡ ok chosen)
unfolding check_active
check_active-reads b mode s e = ground arith

-- What the loop of a deactivation works on is ahead of it.
Ahead-active :
    (b : ℕ) (mode : Resolution) (s : Store) (vs chosen : List Version) (scs : List Scope)
    → IsConsistent s
    → check_active b mode s ≡ ok (vs, chosen, scs)
    → IsKeyed (λ (v : Version). v.scope_key) vs
      × Ahead scs vs s
      × ((r : Version) → In r chosen → IsNew s r.scope_key r.id)
Ahead-active b mode s vs chosen scs h q =
    let versions = select_where (in_batch b) s.versions in
    let (ev, es, ec) = check_active-reads b mode s q in
    let ahead = Ahead-batch b s in
    let among =
      λ (v : Version) (m : In v vs). (select_where-In (is_current scs) versions v (rw ev at m)).0 in
    (
      rw ev (
          select_where-IsKeyed (λ (v : Version). v.scope_key) (is_current scs) versions
            (h.one_each b)),
      record {
        rows = λ v m. ahead.rows v (among v m);
        unread = λ v m sc n. ahead.unread v (among v m) sc (rw es at n);
      },
      λ r m. record {
        row = r;
        listed =
            replacements-In mode b vs s r
              (rw (select_replacements-chosen mode b vs s chosen ec) at m);
        same_id = refl;
        same_scope = refl;
      },
    )

-- Whatever the deactivation of an import commits is consistent if what it read was.
pub resolve_active-IsConsistent :
    (b : ℕ) (mode : Resolution) (now : ℕ) (s : Store)
    → IsConsistent s
    → OnOk IsConsistent (resolve_active b mode now s)
unfolding resolve_active
resolve_active-IsConsistent b mode now s h = elim (Result-cases (check_active b mode s)) [
  | inr (e, q) ↦ rw (q, resolve_active) tt
  | inl ((vs, chosen, scs), q) ↦
      let (keyed, ahead, new) = Ahead-active b mode s vs chosen scs h q in
      let kept : OnOk IsConsistent (deactivate_each now scs chosen vs s) =
        deactivate_each-IsConsistent now scs chosen vs s h keyed ahead new in
      elim (Result-cases (deactivate_each now scs chosen vs s)) [
        | inr (e, u) ↦ rw (q, u, resolve_active) tt
        | inl (s', u) ↦
            rw (q, u, resolve_active)
              (activate_batches-IsConsistent chosen (set_batch_status b BatchStatus.deactivated s')
                (set_batch_status-IsConsistent b BatchStatus.deactivated s' (rw u at kept)))
      ]
]
