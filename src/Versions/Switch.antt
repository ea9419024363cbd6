-- ===== src/Versions/Switch.antt =====
-- `switchHistoricalVersions` of src/import/service.ts, behind rollback and restore.
use openers_performance_dash.Prelude.{
  ℕ, suc, Bool, true, false, not, Option, none, some, List, [], ◌∷◌, length, ltb, ◌==◌,
  if◌then◌else◌, any, all, is_some, eq?,
}
use openers_performance_dash.Prelude.Text.{trim}
use openers_performance_dash.Prelude.Table.{find, select_where}
use openers_performance_dash.Accounts.{Actor, is_admin}
use openers_performance_dash.ImportJobs.{BatchStatus}
use openers_performance_dash.Versions.{
  VersionStatus, Version, Scope, Batch, Store, Result, ok, err, ◌>>=◌, ◌>>◌, throw_if, found, add?,
  in_batch, hand_over, set_batch_status, not_found, forbidden, reason_required,
  invalid_restore_target,
}
use openers_performance_dash.Versions.Publish.{scopes_of, replaced_by, revisit}

pub data SwitchMode : Type 0 where
  rollback restore : SwitchMode

abbrev pub import_reason_min_length : ℕ
import_reason_min_length = 5

abbrev is_unusable : VersionStatus → Bool
is_unusable VersionStatus.draft = true
is_unusable VersionStatus.rejected = true
is_unusable other = false

-- Whether a version is the active one of its scope.
abbrev pub is_current : List Scope → Version → Bool
is_current scopes v = elim (find (λ (sc : Scope). sc.scope_key == v.scope_key) scopes) [
  | none ↦ false
  | some sc ↦ eq? sc.active_version_id v.id
]

-- The versions to bring back.
unfoldable pub restore_versions :
    SwitchMode → List Version → List Scope → Store → Result (List Version)
restore_versions rollback selected scopes s = do
  throw_if (not (all (is_current scopes) selected)) invalid_restore_target
  throw_if (not (all (λ (v : Version). is_some v.previous_version_id) selected))
      invalid_restore_target
  ok (replaced_by selected s)
restore_versions restore selected scopes s = do
  throw_if (any (λ (v : Version). is_unusable v.status) selected) invalid_restore_target
  ok selected

-- What the loop over the scopes has gathered: the store, the batches that lose and that get a
-- scope, and how many scopes have changed.
pub record Progress : Type 0 where
  pub store : Store
  pub affected : List ℕ
  pub restored : List ℕ
  pub changed : ℕ

-- The version that is active now, looked up in the store as it is at that moment.
abbrev pub current_version : Option ℕ → Store → Option Version
current_version o s = find (λ (v : Version). eq? o v.id) s.versions

abbrev pub batch_of : Option Version → Option ℕ
batch_of none = none
batch_of (some v) = v.import_batch_id

-- The active version is set back only if its row is there.
abbrev pub listed_id : Option Version → Option ℕ
listed_id none = none
listed_id (some v) = some v.id

abbrev pub switch_one : ℕ → Scope → Version → Progress → Progress
switch_one now sc v p =
    let current = current_version sc.active_version_id p.store in
    record {
      store =
          hand_over VersionStatus.rolled_back now sc.scope_key (listed_id current) (some v.id)
            p.store;
      affected = add? (batch_of current) p.affected;
      restored = add? v.import_batch_id p.restored;
      changed = suc p.changed;
    }

unfoldable pub switch_each : ℕ → List Version → List Scope → Progress → Result Progress
switch_each now versions [] p = ok p
switch_each now versions (sc ∷ scs) p =
    elim (find (λ (v : Version). v.scope_key == sc.scope_key) versions) [
      | none ↦ err invalid_restore_target
      | some v ↦ elim (eq? sc.active_version_id v.id) [
        | true ↦ switch_each now versions scs p
        | false ↦ switch_each now versions scs (switch_one now sc v p)
      ]
    ]

abbrev pub is_rollback : SwitchMode → Bool
is_rollback rollback = true
is_rollback restore = false

-- The checks of the transaction, with what it then works on.
unfoldable pub check_switch : SwitchMode → ℕ → Store → Result (Batch × List Version × List Scope)
check_switch mode batch_id s = do
  b ← found (find (λ (r : Batch). r.id == batch_id) s.batches) not_found
  let selected = select_where (in_batch b.id) s.versions
  throw_if (length selected == 0) invalid_restore_target
  let scopes = scopes_of selected s
  throw_if (not (length scopes == length selected)) invalid_restore_target
  versions ← restore_versions mode selected scopes s
  throw_if (not (length versions == length selected)) invalid_restore_target
  ok (b, versions, scopes)

-- The batches' statuses after the loop.
unfoldable pub finish_switch : SwitchMode → ℕ → Progress → Store
finish_switch mode b p =
    let seen =
      revisit BatchStatus.superseded p.restored
        (revisit BatchStatus.rolled_back p.affected p.store) in
    if is_rollback mode then set_batch_status b BatchStatus.rolled_back seen else seen

unfoldable pub switch_transaction : SwitchMode → ℕ → ℕ → Store → Result Store
switch_transaction mode batch_id now s = do
  (b, versions, scopes) ← check_switch mode batch_id s
  p ←
      switch_each now versions scopes
        (record { store = s; affected = []; restored = []; changed = 0 })
  throw_if (p.changed == 0) invalid_restore_target
  ok (finish_switch mode b.id p)

-- The checks before the transaction; `permitted` is the answer for `imports.restore`, and the
-- reason is a text of UTF-16 code units.
unfoldable pub switch_historical :
    Actor → (permitted : Bool) → SwitchMode → ℕ → List ℕ → ℕ → Store → Result Store
switch_historical a permitted mode batch_id reason now s = do
  throw_if (not (is_admin a.role)) forbidden
  throw_if (not permitted) forbidden
  throw_if (ltb (length (trim reason)) import_reason_min_length) reason_required
  switch_transaction mode batch_id now s
