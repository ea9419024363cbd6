-- ===== src/Versions/Published.antt =====
-- Publishing an import (src/import/service.ts) and the agreement of the dataset tables.
use openers_performance_dash.Prelude.{
  ℕ, ◌≡◌, refl, some, List, [], ◌∷◌, inl, inr, arith, ◌==◌, ==_iff, eq?, Bool-cases, Option-cases,
}
use openers_performance_dash.Prelude.Table.{find, find-In, select_where, IsKeyed}
use openers_performance_dash.Accounts.{Actor}
use openers_performance_dash.ImportJobs.{BatchStatus}
use openers_performance_dash.Versions.{
  VersionStatus, Version, Scope, Batch, Store, ok, same_id, hand_over, in_batch, set_batch_status,
}
use openers_performance_dash.Versions.Publish.{
  publish_each, note_batch, check_publish, publish_transaction, scopes_of, replaced_by,
}
use openers_performance_dash.Versions.Consistency.{IsConsistent, hand_over-IsConsistent}
use openers_performance_dash.Versions.Reads.{
  OnOk, Ahead, Ahead-next, set_batch_status-IsConsistent, revisit-IsConsistent, Ahead-batch,
  Result-cases,
}

publish_each-IsConsistent :
    (b now : ℕ) (scopes : List Scope) (previous vs : List Version) (seen : List ℕ) (s : Store)
    → IsConsistent s
    → IsKeyed (λ (v : Version). v.scope_key) vs
    → Ahead scopes vs s
    → OnOk (λ r. IsConsistent r.0) (publish_each b now scopes previous vs seen s)
unfolding publish_each
publish_each-IsConsistent b now scopes previous [] seen s h k a = h
publish_each-IsConsistent b now scopes previous (v ∷ vs) seen s h k a =
    elim (Option-cases (find (λ (sc : Scope). sc.scope_key == v.scope_key) scopes)) [
      | inl n ↦ rw (n, publish_each) tt
      | inr (sc, e) ↦
          let (m, t) = find-In (λ (sc : Scope). sc.scope_key == v.scope_key) scopes sc e in
          let q : sc.scope_key ≡ v.scope_key = (==_iff sc.scope_key v.scope_key).0 t in
          elim (Bool-cases (same_id sc.active_version_id v.previous_version_id)) [
            | inr f ↦ rw (e, f, publish_each) tt
            | inl u ↦
                rw (e, u, publish_each)
                  (publish_each-IsConsistent b now scopes previous vs
                    (note_batch b (find (λ (p : Version). eq? sc.active_version_id p.id) previous)
                      seen)
                    (hand_over VersionStatus.superseded now v.scope_key sc.active_version_id
                      (some v.id) s)
                    (hand_over-IsConsistent VersionStatus.superseded now v.scope_key
                      sc.active_version_id (some v.id) s h sc (a.unread v (inl refl) sc m q) q refl
                      (λ z. cc) (λ id z. ground (arith, a.rows v (inl refl), z)))
                    k.1
                    (Ahead-next scopes v vs s VersionStatus.superseded now sc.active_version_id
                      (some v.id) k a))
          ]
    ]

pub check_publish-reads :
    (a : Actor) (batch_id : ℕ) (s : Store) {b : Batch} {vs : List Version} {scs : List Scope}
    → check_publish a batch_id s ≡ ok (b, vs, scs)
    → (vs ≡ select_where (in_batch b.id) s.versions) × (scs ≡ scopes_of vs s)
unfolding check_publish
check_publish-reads a batch_id s e = ground arith

-- Whatever a publishing transaction commits is consistent if what it read was.
pub publish_transaction-IsConsistent :
    (a : Actor) (batch_id now : ℕ) (s : Store)
    → IsConsistent s
    → OnOk IsConsistent (publish_transaction a batch_id now s)
unfolding publish_transaction
publish_transaction-IsConsistent a batch_id now s h =
    elim (Result-cases (check_publish a batch_id s)) [
      | inr (e, q) ↦ rw (q, publish_transaction) tt
      | inl ((b, vs, scs), q) ↦
          let (ev, es) = check_publish-reads a batch_id s q in
          let previous = replaced_by vs s in
          let kept : OnOk (λ r. IsConsistent r.0) (publish_each b.id now scs previous vs [] s) =
            publish_each-IsConsistent b.id now scs previous vs [] s h (rw ev (h.one_each b.id))
              (rw es (rw ev (Ahead-batch b.id s))) in
          elim (Result-cases (publish_each b.id now scs previous vs [] s)) [
            | inr (e, u) ↦ rw (q, u, publish_transaction) tt
            | inl ((s', seen), u) ↦
                rw (q, u, publish_transaction)
                  (revisit-IsConsistent BatchStatus.superseded seen
                    (set_batch_status b.id BatchStatus.active s')
                    (set_batch_status-IsConsistent b.id BatchStatus.active s' (rw u at kept)))
          ]
    ]
