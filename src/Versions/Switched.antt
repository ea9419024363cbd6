-- ===== src/Versions/Switched.antt =====
-- Rolling back and restoring imports (src/import/service.ts) and the agreement of the dataset tables.
use openers_performance_dash.Prelude.{
  ℕ, ◌≡◌, ◌≢◌, refl, false, some, List, [], ◌∷◌, inl, inr, arith, ◌==◌, ==_iff, if◌then◌else◌, eq?,
  any, In, All-In, Bool-cases, Option-cases,
}
use openers_performance_dash.Prelude.Table.{
  find, find-In, find-none, select_where, select_where-In, IsKeyed,
}
use openers_performance_dash.ImportJobs.{BatchStatus}
use openers_performance_dash.Versions.{
  VersionStatus, Version, Scope, Batch, Store, ok, in_batch, set_batch_status,
}
use openers_performance_dash.Versions.Publish.{revisit, scopes_of, replaced_by}
use openers_performance_dash.Versions.Consistency.{
  IsConsistent, IsNew, hand_over-IsConsistent, hand_over-other_scope, hand_over-IsNew,
}
use openers_performance_dash.Prelude.Table.{select_where-IsKeyed}
use openers_performance_dash.Versions.Switch.{
  SwitchMode, rollback, restore, restore_versions, Progress, current_version, listed_id, switch_one,
  switch_each, switch_transaction, check_switch, finish_switch, is_rollback,
}
use openers_performance_dash.Versions.Reads.{
  OnOk, set_batch_status-IsConsistent, revisit-IsConsistent, Result-cases,
}

-- What the loop over the scopes knows of those still to come.
record Ahead (versions : List Version) (scs : List Scope) (s : Store) : Type 0 where
  rows : (v : Version) → In v versions → IsNew s v.scope_key v.id
  unread : (sc : Scope) → In sc scs → In sc s.scopes

-- In consistent tables the active version of a scope is found, so it is what is set back.
listed_id-current :
    (sc : Scope) (s : Store)
    → IsConsistent s
    → In sc s.scopes
    → sc.active_version_id ≡ listed_id (current_version sc.active_version_id s)
listed_id-current sc s h m = elim (Option-cases (current_version sc.active_version_id s)) [
  | inr (v, e) ↦
      let t = (find-In (λ (v : Version). eq? sc.active_version_id v.id) s.versions v e).1 in
      rw e (ground (arith, t))
  | inl n ↦ elim (Option-cases sc.active_version_id) [
    | inl z ↦ rw n z
    | inr (id, z) ↦
        let w = h.pointed sc id m z in
        let f : eq? sc.active_version_id w.row.id ≡ false =
          find-none (λ (v : Version). eq? sc.active_version_id v.id) s.versions w.row n w.listed in
        absurd (ground (arith, f, z, w.same_id))
  ]
]

switch_each-IsConsistent :
    (now : ℕ) (versions : List Version) (scs : List Scope) (p : Progress)
    → IsConsistent p.store
    → IsKeyed (λ (sc : Scope). sc.scope_key) scs
    → Ahead versions scs p.store
    → OnOk (λ r. IsConsistent r.store) (switch_each now versions scs p)
unfolding switch_each
switch_each-IsConsistent now versions [] p h k a = h
switch_each-IsConsistent now versions (sc ∷ scs) p h k a =
    elim (Option-cases (find (λ (v : Version). v.scope_key == sc.scope_key) versions)) [
      | inl n ↦ rw (n, switch_each) tt
      | inr (v, e) ↦ elim (Bool-cases (eq? sc.active_version_id v.id)) [
        | inl t ↦
            rw (e, t, switch_each)
              (switch_each-IsConsistent now versions scs p h k.1
                (record { rows = a.rows; unread = λ x m. a.unread x (inr m) }))
        | inr t ↦
            let (m, u) = find-In (λ (v : Version). v.scope_key == sc.scope_key) versions v e in
            let q : v.scope_key ≡ sc.scope_key = (==_iff v.scope_key sc.scope_key).0 u in
            let here = a.unread sc (inl refl) in
            let old = listed_id (current_version sc.active_version_id p.store) in
            rw (e, t, switch_each)
              (switch_each-IsConsistent now versions scs (switch_one now sc v p)
                (hand_over-IsConsistent VersionStatus.rolled_back now sc.scope_key old (some v.id)
                  p.store h sc here refl (listed_id-current sc p.store h here) (λ z. cc)
                  (λ id z. ground (arith, a.rows v m, q, z)))
                k.1
                (record {
                  rows = λ w n.
                      hand_over-IsNew VersionStatus.rolled_back now sc.scope_key old (some v.id)
                        p.store w.scope_key w.id (a.rows w n);
                  unread = λ x n.
                      hand_over-other_scope VersionStatus.rolled_back now sc.scope_key old
                        (some v.id) p.store x (a.unread x (inr n))
                        (ground
                          (arith, All-In (λ (y : Scope). y.scope_key ≢ sc.scope_key) x scs k.0 n));
                }))
      ]
    ]

-- What is brought back are versions of the store.
restore_versions-In :
    (mode : SwitchMode) (b : ℕ) (scopes : List Scope) (s : Store) (vs : List Version)
    → restore_versions mode (select_where (in_batch b) s.versions) scopes s ≡ ok vs
    → (v : Version) → In v vs
    → In v s.versions
unfolding restore_versions
restore_versions-In rollback b scopes s vs e v m =
    let same : replaced_by (select_where (in_batch b) s.versions) s ≡ vs = ground (arith, e) in
    (select_where-In
      (λ (p : Version).
        any (λ (w : Version). eq? w.previous_version_id p.id)
          (select_where (in_batch b) s.versions))
      s.versions v (rw (← same) at m)).0
restore_versions-In restore b scopes s vs e v m =
    let same : select_where (in_batch b) s.versions ≡ vs = ground (arith, e) in
    (select_where-In (in_batch b) s.versions v (rw (← same) at m)).0

check_switch-reads :
    (mode : SwitchMode) (batch_id : ℕ) (s : Store) {b : Batch} {vs : List Version}
    {scs : List Scope}
    → check_switch mode batch_id s ≡ ok (b, vs, scs)
    → (restore_versions mode (select_where (in_batch b.id) s.versions) scs s ≡ ok vs)
      × (scs ≡ scopes_of (select_where (in_batch b.id) s.versions) s)
unfolding check_switch
check_switch-reads mode batch_id s e = ground arith

finish_switch-IsConsistent :
    (mode : SwitchMode) (b : ℕ) (p : Progress)
    → IsConsistent p.store
    → IsConsistent (finish_switch mode b p)
unfolding finish_switch
finish_switch-IsConsistent mode b p h =
    let seen =
      revisit BatchStatus.superseded p.restored
        (revisit BatchStatus.rolled_back p.affected p.store) in
    let kept : IsConsistent seen =
      revisit-IsConsistent BatchStatus.superseded p.restored
        (revisit BatchStatus.rolled_back p.affected p.store)
        (revisit-IsConsistent BatchStatus.rolled_back p.affected p.store h) in
    by_mode mode seen kept
  where
    by_mode :
        (mode : SwitchMode) (t : Store)
        → IsConsistent t
        → IsConsistent
            (if is_rollback mode then set_batch_status b BatchStatus.rolled_back t else t)
    by_mode rollback t k = set_batch_status-IsConsistent b BatchStatus.rolled_back t k
    by_mode restore t k = k

-- The scopes read by a rollback or restore are ahead of its loop.
Ahead-switch :
    (mode : SwitchMode) (batch_id : ℕ) (s : Store) (b : Batch) (vs : List Version)
    (scs : List Scope)
    → IsConsistent s
    → check_switch mode batch_id s ≡ ok (b, vs, scs)
    → IsKeyed (λ (sc : Scope). sc.scope_key) scs × Ahead vs scs s
Ahead-switch mode batch_id s b vs scs h q =
    let selected = select_where (in_batch b.id) s.versions in
    let (ev, es) = check_switch-reads mode batch_id s q in
    let read = λ (x : Scope). any (λ (w : Version). w.scope_key == x.scope_key) selected in
    (
      rw es (select_where-IsKeyed (λ (sc : Scope). sc.scope_key) read s.scopes h.scope_keys),
      record {
        rows = λ v m. record {
          row = v;
          listed = restore_versions-In mode b.id scs s vs ev v m;
          same_id = refl;
          same_scope = refl;
        };
        unread = λ sc m. (select_where-In read s.scopes sc (rw es at m)).0;
      },
    )

-- Whatever a rollback or a restore commits is consistent if what it read was.
pub switch_transaction-IsConsistent :
    (mode : SwitchMode) (batch_id now : ℕ) (s : Store)
    → IsConsistent s
    → OnOk IsConsistent (switch_transaction mode batch_id now s)
unfolding switch_transaction
switch_transaction-IsConsistent mode batch_id now s h =
    elim (Result-cases (check_switch mode batch_id s)) [
      | inr (e, q) ↦ rw (q, switch_transaction) tt
      | inl ((b, vs, scs), q) ↦
          let start : Progress = record { store = s; affected = []; restored = []; changed = 0 } in
          let (keyed, ahead) = Ahead-switch mode batch_id s b vs scs h q in
          let kept : OnOk (λ r. IsConsistent r.store) (switch_each now vs scs start) =
            switch_each-IsConsistent now vs scs start h keyed ahead in
          elim (Result-cases (switch_each now vs scs start)) [
            | inr (e, u) ↦ rw (q, u, switch_transaction) tt
            | inl (p, u) ↦ elim (Bool-cases (p.changed == 0)) [
              | inl z ↦ rw (q, u, z, switch_transaction) tt
              | inr z ↦
                  rw (q, u, z, switch_transaction)
                    (finish_switch-IsConsistent mode b.id p (rw u at kept))
            ]
          ]
    ]
