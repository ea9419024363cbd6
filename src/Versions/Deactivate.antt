-- ===== src/Versions/Deactivate.antt =====
-- `deactivateDialerImportBatch` of src/import/active-lifecycle.ts: an active import gives up its
-- scopes, each to an older version or to none.
use openers_performance_dash.Prelude.{
  ℕ, Bool, true, false, not, ◌&&◌, ◌||◌, Option, none, some, List, [], ◌∷◌, length, ltb, ◌==◌,
  if◌then◌else◌, eq?,
}
use openers_performance_dash.Prelude.Text.{trim}
use openers_performance_dash.Prelude.Table.{find, select_where}
use openers_performance_dash.Accounts.{Actor, is_admin}
use openers_performance_dash.ImportJobs.{BatchStatus}
use openers_performance_dash.Versions.{
  VersionStatus, Version, Scope, Batch, Store, Result, ok, err, ◌>>=◌, ◌>>◌, throw_if, found,
  in_batch, hand_over, set_batch_status, not_found, forbidden, reason_required, import_not_active,
  active_import_changed, fallback_required, invalid_fallback_scope,
}
use openers_performance_dash.Versions.Publish.{scopes_of}
use openers_performance_dash.Versions.Switch.{is_current, import_reason_min_length}

-- `resolution.mode`, with the selected batch if one is given. (A blank text counts as none.)
pub data Resolution : Type 0 where
  previous no_version automatic_previous : Resolution
  selected : Option ℕ → Resolution

abbrev pub is_valid_fallback : VersionStatus → Bool
is_valid_fallback VersionStatus.superseded = true
is_valid_fallback VersionStatus.rolled_back = true
is_valid_fallback VersionStatus.deactivated = true
is_valid_fallback other = false

-- `.orderBy(desc(versionNumber)).find(…)`: the fitting version with the highest number.
abbrev newer : Version → Option Version → Version
newer v none = v
newer v (some w) = if ltb v.version_number w.version_number then w else v

unfoldable pub find_newest : (Version → Bool) → List Version → Option Version
find_newest p [] = none
find_newest p (v ∷ vs) = let rest = find_newest p vs in if p v then some (newer v rest) else rest

-- Whether `candidate` may take the place of `v` of the batch `b`.
abbrev pub is_replacement : Resolution → ℕ → Version → Version → Bool
is_replacement (selected choice) b v candidate =
    is_valid_fallback candidate.status
    && candidate.scope_key == v.scope_key
    && not (in_batch b candidate)
    && elim choice [ none ↦ false | some c ↦ in_batch c candidate ]
is_replacement no_version b v candidate = false
is_replacement mode b v candidate =
    is_valid_fallback candidate.status
    && candidate.scope_key == v.scope_key
    && not (in_batch b candidate)
    && ltb candidate.version_number v.version_number

-- The replacements of some active versions, one for each that has any.
unfoldable pub replacements : Resolution → ℕ → List Version → Store → List Version
replacements mode b [] s = []
replacements mode b (v ∷ vs) s =
    let rest = replacements mode b vs s in
    elim (find_newest (is_replacement mode b v) s.versions) [ none ↦ rest | some r ↦ r ∷ rest ]

abbrev lacks_choice : Resolution → Bool
lacks_choice (selected none) = true
lacks_choice other = false

-- Modes in which every scope must get a replacement.
abbrev must_replace : Resolution → Bool
must_replace previous = true
must_replace (selected c) = true
must_replace other = false

-- `selectReplacementVersions`.
unfoldable pub select_replacements : Resolution → ℕ → List Version → Store → Result (List Version)
select_replacements mode b actives s = do
  let chosen = replacements mode b actives s
  throw_if (lacks_choice mode) fallback_required
  throw_if (must_replace mode && not (length chosen == length actives)) invalid_fallback_scope
  ok chosen

abbrev pub id_of : Option Version → Option ℕ
id_of none = none
id_of (some v) = some v.id

-- The loop over the active versions, on the scopes as they were read.
unfoldable pub deactivate_each : ℕ → List Scope → List Version → List Version → Store → Result Store
deactivate_each now scopes chosen [] s = ok s
deactivate_each now scopes chosen (v ∷ vs) s =
    elim (find (λ (sc : Scope). sc.scope_key == v.scope_key) scopes) [
      | none ↦ err active_import_changed
      | some sc ↦ elim (eq? sc.active_version_id v.id) [
        | false ↦ err active_import_changed
        | true ↦
            let new = id_of (find (λ (r : Version). r.scope_key == v.scope_key) chosen) in
            deactivate_each now scopes chosen vs
              (hand_over VersionStatus.deactivated now v.scope_key (some v.id) new s)
      ]
    ]

unfoldable pub activate_batches : List Version → Store → Store
activate_batches [] s = s
activate_batches (v ∷ vs) s =
    activate_batches vs
      (elim v.import_batch_id [ none ↦ s | some b ↦ set_batch_status b BatchStatus.active s ])

-- The checks of `resolveActiveImportWithinTransaction`, with what it then works on.
unfoldable pub check_active :
    ℕ → Resolution → Store → Result (List Version × List Version × List Scope)
check_active b mode s = do
  let versions = select_where (in_batch b) s.versions
  let scopes = scopes_of versions s
  let actives = select_where (is_current scopes) versions
  throw_if (length actives == 0) import_not_active
  chosen ← select_replacements mode b actives s
  ok (actives, chosen, scopes)

-- `resolveActiveImportWithinTransaction`.
unfoldable pub resolve_active : ℕ → Resolution → ℕ → Store → Result Store
resolve_active b mode now s = do
  (actives, chosen, scopes) ← check_active b mode s
  s' ← deactivate_each now scopes chosen actives s
  ok (activate_batches chosen (set_batch_status b BatchStatus.deactivated s'))

abbrev restores : Resolution → Bool
restores no_version = false
restores other = true

-- `deactivateDialerImportBatch`; the two answers are those for `imports.deactivate` and
-- `imports.restore`.
unfoldable pub deactivate_batch :
    Actor → (may_deactivate may_restore : Bool) → ℕ → List ℕ → Resolution → ℕ → Store → Result Store
deactivate_batch a may_deactivate may_restore batch_id reason mode now s = do
  throw_if (not (is_admin a.role)) forbidden
  throw_if (ltb (length (trim reason)) import_reason_min_length) reason_required
  throw_if (not may_deactivate || (restores mode && not may_restore)) forbidden
  b ←
      found
        (find (λ (r : Batch). r.id == batch_id && r.organization_id == a.organization_id) s.batches)
        not_found
  resolve_active b.id mode now s
