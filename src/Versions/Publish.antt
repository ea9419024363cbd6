-- ===== src/Versions/Publish.antt =====
-- The publishing transaction of `publishDialerImportBatch` (src/import/service.ts): a batch that is
-- ready takes over its scopes.
use openers_performance_dash.Prelude.{
  ℕ, Bool, true, false, not, ◌&&◌, Option, none, some, List, [], ◌∷◌, length, ltb, ◌==◌,
  if◌then◌else◌, any, eq?,
}
use openers_performance_dash.Prelude.Table.{find, select_where}
use openers_performance_dash.Accounts.{Actor, is_admin, is_manager}
use openers_performance_dash.ImportJobs.{BatchStatus}
use openers_performance_dash.Versions.{
  VersionStatus, Version, Scope, Batch, Store, Result, ok, err, ◌>>=◌, ◌>>◌, throw_if, found,
  same_id, mem, add, in_batch, hand_over, set_batch_status, update_visibility, not_found, forbidden,
  preview_blocked, warning_review_forbidden, stale_draft,
}

abbrev is_ready : BatchStatus → Bool
is_ready BatchStatus.ready_to_publish = true
is_ready other = false

-- A version outside the actor's teams.
abbrev is_outside : Actor → Version → Bool
is_outside a v = elim v.team_id [ none ↦ true | some t ↦ not (mem t a.team_ids) ]

-- The batches to look at again are those of the versions that are replaced, but for the published
-- one.
unfoldable pub note_batch : ℕ → Option Version → List ℕ → List ℕ
note_batch b none seen = seen
note_batch b (some v) seen = elim v.import_batch_id [
  | none ↦ seen
  | some p ↦ if p == b then seen else add p seen
]

-- The loop over the batch's versions, on the scopes and the replaced versions as they were read.
unfoldable pub publish_each :
    (batch_id now : ℕ)
    → List Scope
    → List Version
    → List Version
    → List ℕ
    → Store
    → Result (Store × List ℕ)
publish_each b now scopes previous [] seen s = ok (s, seen)
publish_each b now scopes previous (v ∷ vs) seen s =
    elim (find (λ (sc : Scope). sc.scope_key == v.scope_key) scopes) [
      | none ↦ err stale_draft
      | some sc ↦ elim (same_id sc.active_version_id v.previous_version_id) [
        | false ↦ err stale_draft
        | true ↦
            publish_each b now scopes previous vs
              (note_batch b (find (λ (p : Version). eq? sc.active_version_id p.id) previous) seen)
              (hand_over VersionStatus.superseded now v.scope_key sc.active_version_id (some v.id)
                s)
      ]
    ]

unfoldable pub revisit : BatchStatus → List ℕ → Store → Store
revisit hidden [] s = s
revisit hidden (b ∷ bs) s = revisit hidden bs (update_visibility b hidden s)

-- The scopes of some versions.
abbrev pub scopes_of : List Version → Store → List Scope
scopes_of versions s =
    select_where (λ (sc : Scope). any (λ (v : Version). v.scope_key == sc.scope_key) versions)
      s.scopes

abbrev pub assert_access : Actor → Batch → Result (Unit {0})
assert_access a b = do
  throw_if (not (is_admin a.role)) forbidden
  throw_if (not (b.organization_id == a.organization_id)) forbidden

-- The checks of the publishing transaction, with what it then works on.
unfoldable pub check_publish : Actor → ℕ → Store → Result (Batch × List Version × List Scope)
check_publish a batch_id s = do
  b ← found (find (λ (r : Batch). r.id == batch_id) s.batches) not_found
  assert_access a b
  throw_if (not (is_ready b.status)) preview_blocked
  throw_if (ltb 0 b.warnings && not (is_admin a.role)) warning_review_forbidden
  let versions = select_where (in_batch b.id) s.versions
  throw_if (length versions == 0) preview_blocked
  throw_if (is_manager a.role && any (is_outside a) versions) forbidden
  let scopes = scopes_of versions s
  throw_if (not (length scopes == length versions)) stale_draft
  ok (b, versions, scopes)

abbrev pub replaced_by : List Version → Store → List Version
replaced_by versions s =
    select_where (λ (p : Version). any (λ (v : Version). eq? v.previous_version_id p.id) versions)
      s.versions

unfoldable pub publish_transaction : Actor → ℕ → ℕ → Store → Result Store
publish_transaction a batch_id now s = do
  (b, versions, scopes) ← check_publish a batch_id s
  (s', seen) ← publish_each b.id now scopes (replaced_by versions s) versions [] s
  ok (revisit BatchStatus.superseded seen (set_batch_status b.id BatchStatus.active s'))
