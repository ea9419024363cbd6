-- ===== src/Versions/Outcome.antt =====
-- What a publication (src/import/service.ts) leaves in the table of scopes.
use openers_performance_dash.Prelude.{
  ℕ, ◌≡◌, ◌≢◌, refl, sym, ap, ◌∙◌, true, some, List, [], ◌∷◌, inl, inr, arith, ◌==◌, ==_iff, eq?,
  In, All, Bool-cases, Option-cases,
}
use openers_performance_dash.Prelude.Table.{find, find-In, In-select_where, IsKeyed}
use openers_performance_dash.Accounts.{Actor}
use openers_performance_dash.ImportJobs.{BatchStatus}
use openers_performance_dash.Versions.{
  VersionStatus, Version, Scope, Batch, Store, ok, same_id, hand_over, in_batch, set_batch_status,
  update_visibility, point_at,
}
use openers_performance_dash.Versions.Publish.{
  publish_each, note_batch, check_publish, publish_transaction, revisit, replaced_by,
}
use openers_performance_dash.Versions.Consistency.{IsConsistent, hand_over-other_scope, scopes_In}
use openers_performance_dash.Versions.Published.{check_publish-reads}
use openers_performance_dash.Versions.Reads.{OnOk, Ahead, Ahead-next, Ahead-batch, Result-cases}

-- The loop leaves the scopes of other datasets alone.
publish_each-other_scope :
    (b now : ℕ) (scopes : List Scope) (previous vs : List Version) (seen : List ℕ) (s : Store)
    (x : Scope)
    → In x s.scopes
    → All (λ (v : Version). v.scope_key ≢ x.scope_key) vs
    → OnOk (λ r. In x r.0.scopes) (publish_each b now scopes previous vs seen s)
unfolding publish_each
publish_each-other_scope b now scopes previous [] seen s x m h = m
publish_each-other_scope b now scopes previous (v ∷ vs) seen s x m h =
    elim (Option-cases (find (λ (sc : Scope). sc.scope_key == v.scope_key) scopes)) [
      | inl n ↦ rw (n, publish_each) tt
      | inr (sc, e) ↦ elim (Bool-cases (same_id sc.active_version_id v.previous_version_id)) [
        | inr f ↦ rw (e, f, publish_each) tt
        | inl u ↦
            rw (e, u, publish_each)
              (publish_each-other_scope b now scopes previous vs
                (note_batch b (find (λ (p : Version). eq? sc.active_version_id p.id) previous) seen)
                (hand_over VersionStatus.superseded now v.scope_key sc.active_version_id (some v.id)
                  s)
                x
                (hand_over-other_scope VersionStatus.superseded now v.scope_key sc.active_version_id
                  (some v.id) s x m (ground (arith, h.0)))
                h.1)
      ]
    ]

-- A row of the table of scopes that points at a version.
pub record Pointing (scopes : List Scope) (v : Version) : Type 0 where
  pub row : Scope
  pub listed : In row scopes
  pub same_scope : row.scope_key ≡ v.scope_key
  pub points : row.active_version_id ≡ some v.id

publish_each-points :
    (b now : ℕ) (scopes : List Scope) (previous vs : List Version) (seen : List ℕ) (s : Store)
    → IsKeyed (λ (v : Version). v.scope_key) vs
    → Ahead scopes vs s
    → OnOk
        (λ r. (v : Version) → In v vs → Pointing r.0.scopes v)
        (publish_each b now scopes previous vs seen s)
unfolding publish_each
publish_each-points b now scopes previous [] seen s k a = λ v m. elim m [ ]
publish_each-points b now scopes previous (w ∷ ws) seen s k a =
    elim (Option-cases (find (λ (sc : Scope). sc.scope_key == w.scope_key) scopes)) [
      | inl n ↦ rw (n, publish_each) tt
      | inr (sc, e) ↦ elim (Bool-cases (same_id sc.active_version_id w.previous_version_id)) [
        | inr f ↦ rw (e, f, publish_each) tt
        | inl u ↦
            let (m, t) = find-In (λ (sc : Scope). sc.scope_key == w.scope_key) scopes sc e in
            let q : sc.scope_key ≡ w.scope_key = (==_iff sc.scope_key w.scope_key).0 t in
            let s' =
              hand_over VersionStatus.superseded now w.scope_key sc.active_version_id (some w.id)
                s in
            let seen' =
              note_batch b (find (λ (p : Version). eq? sc.active_version_id p.id) previous) seen in
            let here : In (point_at (some w.id) sc) s'.scopes = rw t at (
              scopes_In VersionStatus.superseded now w.scope_key sc.active_version_id (some w.id) s
                sc (a.unread w (inl refl) sc m q)) in
            let kept =
              publish_each-other_scope b now scopes previous ws seen' s' (point_at (some w.id) sc)
                here (rw q k.0) in
            let rest = publish_each-points b now scopes previous ws seen' s' k.1 (
              Ahead-next scopes w ws s VersionStatus.superseded now sc.active_version_id (some w.id)
                k a) in
            elim (Result-cases (publish_each b now scopes previous ws seen' s')) [
              | inr (x, z) ↦ rw (e, u, z, publish_each) tt
              | inl (r, z) ↦
                  rw (e, u, z, publish_each)
                    (both w ws r.0.scopes sc q (rw z at kept) (rw z at rest))
            ]
      ]
    ]
  where
    both :
        (w : Version) (ws : List Version) (table : List Scope) (sc : Scope)
        → sc.scope_key ≡ w.scope_key
        → In (point_at (some w.id) sc) table
        → ((v : Version) → In v ws → Pointing table v)
        → (v : Version) → In v (w ∷ ws)
        → Pointing table v
    both w ws table sc q kept rest v (inl e) = record {
      row = point_at (some w.id) sc;
      listed = kept;
      same_scope = ground (arith, q, e);
      points = ground (arith, e);
    }
    both w ws table sc q kept rest v (inr m) = rest v m

pub revisit-scopes :
    (status : BatchStatus) (bs : List ℕ) (s : Store) → (revisit status bs s).scopes ≡ s.scopes
unfolding revisit update_visibility
revisit-scopes status [] s = refl
revisit-scopes status (b ∷ bs) s = revisit-scopes status bs (update_visibility b status s)

pub check_publish-batch :
    (a : Actor) (batch_id : ℕ) (s : Store) {b : Batch} {vs : List Version} {scs : List Scope}
    → check_publish a batch_id s ≡ ok (b, vs, scs)
    → find (λ (r : Batch). r.id == batch_id) s.batches ≡ some b
unfolding check_publish
check_publish-batch a batch_id s e = ground arith

-- If the dataset tables agree, a publication that is committed leaves, for each version of the batch, a
-- scope of its dataset that points at it.
pub publish_transaction-points :
    (a : Actor) (batch_id now : ℕ) (s s' : Store)
    → IsConsistent s
    → publish_transaction a batch_id now s ≡ ok s'
    → (v : Version) → In v s.versions
    → in_batch batch_id v ≡ true
    → Pointing s'.scopes v
unfolding publish_transaction
publish_transaction-points a batch_id now s s' h e v m t =
    elim (Result-cases (check_publish a batch_id s)) [
      | inr (x, q) ↦ absurd (cc (rw (q, publish_transaction) at e))
      | inl ((b, vs, scs), q) ↦
          let (ev, es) = check_publish-reads a batch_id s q in
          let previous = replaced_by vs s in
          let own : b.id ≡ batch_id =
            (==_iff b.id batch_id).0
              (find-In (λ (r : Batch). r.id == batch_id) s.batches b
                (check_publish-batch a batch_id s q)).1 in
          let listed : In v vs =
            rw (ev, own) (In-select_where (in_batch batch_id) s.versions v m t) in
          let kept : OnOk (λ r. (w : Version) → In w vs → Pointing r.0.scopes w)
              (publish_each b.id now scs previous vs [] s) =
            publish_each-points b.id now scs previous vs [] s (rw ev (h.one_each b.id))
              (rw es (rw ev (Ahead-batch b.id s))) in
          elim (Result-cases (publish_each b.id now scs previous vs [] s)) [
            | inr (x, u) ↦ absurd (cc (rw (q, u, publish_transaction) at e))
            | inl ((t', seen), u) ↦
                let final = set_batch_status b.id BatchStatus.active t' in
                let e' : ok (revisit BatchStatus.superseded seen final) ≡ ok s' =
                  rw (q, u, publish_transaction) at e in
                let end : revisit BatchStatus.superseded seen final ≡ s' = cc in
                let same : s'.scopes ≡ t'.scopes =
                  ap (λ (x : Store). x.scopes) (sym end)
                  ∙ revisit-scopes BatchStatus.superseded seen final in
                rw same ((rw u at kept) v listed)
          ]
    ]
