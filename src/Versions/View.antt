-- ===== src/Versions/View.antt =====
-- What readers see of the dataset tables, the active version of each dataset, and a publication
-- (src/import/service.ts) as a change of that view.
use openers_performance_dash.Prelude.{
  ℕ, ◌≡◌, ◌≢◌, refl, sym, ap, ◌∙◌, Option, none, some, List, [], ◌∷◌, inl, inr, arith, ◌==◌, ==_iff,
  eq?, if◌then◌else◌, In, All, All-In, All-of_In, Bool-cases, Option-cases,
}
use openers_performance_dash.Prelude.Table.{
  update, find, find-In, find-none, select_where, select_where-In, IsKeyed,
}
use openers_performance_dash.Accounts.{Actor}
use openers_performance_dash.ImportJobs.{BatchStatus}
use openers_performance_dash.Versions.{
  VersionStatus, Version, Scope, Batch, Store, ok, same_id, hand_over, in_batch, set_batch_status,
  point_at,
}
use openers_performance_dash.Versions.Publish.{
  publish_each, note_batch, check_publish, publish_transaction, revisit, replaced_by,
}
use openers_performance_dash.Versions.Consistency.{IsConsistent}
use openers_performance_dash.Versions.Published.{
  check_publish-reads, publish_transaction-IsConsistent,
}
use openers_performance_dash.Versions.Outcome.{
  Pointing, publish_transaction-points, revisit-scopes, check_publish-batch,
}
use openers_performance_dash.Versions.Reads.{OnOk, Result-cases}

-- The view: the active version of each dataset, if it has one.
abbrev pub View : Type 0
View = ℕ → Option ℕ

abbrev active_of : List Scope → View
active_of [] key = none
active_of (sc ∷ scs) key = if sc.scope_key == key then sc.active_version_id else active_of scs key

abbrev pub view : Store → View
view s = active_of s.scopes

-- A publication as readers see it: the versions of the batch, each in its dataset.
abbrev pub publish_view : List Version → View → View
publish_view vs f key = elim (find (λ (v : Version). v.scope_key == key) vs) [
  | none ↦ f key
  | some v ↦ some v.id
]

active_of-Pointing :
    (scopes : List Scope) (v : Version)
    → IsKeyed (λ (sc : Scope). sc.scope_key) scopes
    → Pointing scopes v
    → active_of scopes v.scope_key ≡ some v.id
active_of-Pointing scopes v k p = found scopes k p.listed
  where
    found :
        (scs : List Scope)
        → IsKeyed (λ (sc : Scope). sc.scope_key) scs
        → In p.row scs
        → active_of scs v.scope_key ≡ some v.id
    found [] k m = elim m [ ]
    found (sc ∷ scs) k (inl e) = rw (← e) (ground (arith, p.same_scope, p.points))
    found (sc ∷ scs) k (inr m) =
        let apart = All-In (λ (y : Scope). y.scope_key ≢ sc.scope_key) p.row scs k.0 m in
        ground (arith, apart, p.same_scope, found scs k.1 m)

active_of-other :
    (scopes : List Scope) (k key : ℕ) (new : Option ℕ)
    → k ≢ key
    → active_of (update (λ (sc : Scope). sc.scope_key == k) (point_at new) scopes) key
      ≡ active_of scopes key
active_of-other [] k key new h = refl
active_of-other (sc ∷ scs) k key new h = ground (arith, h, active_of-other scs k key new h)

publish_each-other :
    (b now : ℕ) (scopes : List Scope) (previous vs : List Version) (seen : List ℕ) (s : Store)
    (key : ℕ)
    → All (λ (v : Version). v.scope_key ≢ key) vs
    → OnOk (λ r. view r.0 key ≡ view s key) (publish_each b now scopes previous vs seen s)
unfolding publish_each hand_over
publish_each-other b now scopes previous [] seen s key h = refl
publish_each-other b now scopes previous (v ∷ vs) seen s key h =
    elim (Option-cases (find (λ (sc : Scope). sc.scope_key == v.scope_key) scopes)) [
      | inl n ↦ rw (n, publish_each) tt
      | inr (sc, e) ↦ elim (Bool-cases (same_id sc.active_version_id v.previous_version_id)) [
        | inr f ↦ rw (e, f, publish_each) tt
        | inl u ↦
            let s' =
              hand_over VersionStatus.superseded now v.scope_key sc.active_version_id (some v.id)
                s in
            let seen' =
              note_batch b (find (λ (p : Version). eq? sc.active_version_id p.id) previous) seen in
            let rest = publish_each-other b now scopes previous vs seen' s' key h.1 in
            let here = active_of-other s.scopes v.scope_key key (some v.id) h.0 in
            rw (e, u, publish_each) (rw here at rest)
      ]
    ]

publish_transaction-other :
    (a : Actor) (batch_id now : ℕ) (s s' : Store) (key : ℕ)
    → publish_transaction a batch_id now s ≡ ok s'
    → All (λ (v : Version). v.scope_key ≢ key) (select_where (in_batch batch_id) s.versions)
    → view s' key ≡ view s key
unfolding publish_transaction
publish_transaction-other a batch_id now s s' key e h =
    elim (Result-cases (check_publish a batch_id s)) [
      | inr (x, q) ↦ absurd (cc (rw (q, publish_transaction) at e))
      | inl ((b, vs, scs), q) ↦
          let (ev, _) = check_publish-reads a batch_id s q in
          let previous = replaced_by vs s in
          let own : b.id ≡ batch_id =
            (==_iff b.id batch_id).0
              (find-In (λ (r : Batch). r.id == batch_id) s.batches b
                (check_publish-batch a batch_id s q)).1 in
          let kept = publish_each-other b.id now scs previous vs [] s key (rw (ev, own) h) in
          elim (Result-cases (publish_each b.id now scs previous vs [] s)) [
            | inr (x, u) ↦ absurd (cc (rw (q, u, publish_transaction) at e))
            | inl ((t', seen), u) ↦
                let final = set_batch_status b.id BatchStatus.active t' in
                let e' : ok (revisit BatchStatus.superseded seen final) ≡ ok s' =
                  rw (q, u, publish_transaction) at e in
                let end : revisit BatchStatus.superseded seen final ≡ s' = cc in
                let same : s'.scopes ≡ t'.scopes =
                  ap (λ (x : Store). x.scopes) (sym end)
                  ∙ revisit-scopes BatchStatus.superseded seen final in
                rw same (rw u at kept)
          ]
    ]

-- If the dataset tables agree, a publication that is committed changes the view of the datasets
-- exactly by the versions of the batch, each in its dataset.
pub publish_transaction-refines :
    (a : Actor) (batch_id now : ℕ) (s s' : Store) (key : ℕ)
    → IsConsistent s
    → publish_transaction a batch_id now s ≡ ok s'
    → view s' key ≡ publish_view (select_where (in_batch batch_id) s.versions) (view s) key
publish_transaction-refines a batch_id now s s' key h e =
    let vs = select_where (in_batch batch_id) s.versions in
    let own = λ (v : Version). v.scope_key == key in
    elim (Option-cases (find own vs)) [
      | inl n ↦
          let apart =
            All-of_In (λ (v : Version). v.scope_key ≢ key) vs
              (λ v m q. ground (arith, find-none own vs v n m, q)) in
          rw (publish_view, n) (publish_transaction-other a batch_id now s s' key e apart)
      | inr (v, f) ↦
          let (m, t) = find-In own vs v f in
          let (n, i) = select_where-In (in_batch batch_id) s.versions v m in
          let after : IsConsistent s' =
            rw e at (publish_transaction-IsConsistent a batch_id now s h) in
          let p = publish_transaction-points a batch_id now s s' h e v n i in
          let same : v.scope_key ≡ key = (==_iff v.scope_key key).0 t in
          rw (publish_view, f) (rw same at (active_of-Pointing s'.scopes v after.scope_keys p))
    ]
