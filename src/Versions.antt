-- ===== src/Versions.antt =====
-- The versions of imported datasets: the tables dialerDatasetVersions, dialerDatasetScopes and
-- dialerImportBatches of src/db/schema.ts, and the writes that src/import/service.ts and
-- src/import/active-lifecycle.ts make to them. A scope is one dataset (source, type, day, team,
-- dialer), known by its key; it has at most one active version. Rows carry the columns that these
-- writes read or set. The tables list rows in the order of their scope keys, by which the source
-- reads them.
pub mod Publish
pub mod Switch
pub mod Deactivate
pub mod Consistency
pub mod Reads
pub mod Published
pub mod Switched
pub mod Deactivated
pub mod Outcome
pub mod View
mod Tests
use openers_performance_dash.Prelude.{
  ℕ, ◌+◌, Bool, true, false, ◌&&◌, Option, none, some, List, [], ◌∷◌, ◌++◌, ◌==◌, if◌then◌else◌,
  eq?, any,
}
use openers_performance_dash.Prelude.Table.{update}
use openers_performance_dash.ImportJobs.{BatchStatus}

pub data VersionStatus : Type 0 where
  draft active deactivated superseded rolled_back rejected : VersionStatus

pub record Version : Type 0 where
  pub id : ℕ
  pub import_batch_id : Option ℕ
  pub scope_key : ℕ
  pub team_id : Option ℕ
  pub version_number : ℕ
  pub status : VersionStatus
  pub previous_version_id : Option ℕ
  pub activated_at : Option ℕ
  pub superseded_at : Option ℕ

pub record Scope : Type 0 where
  pub scope_key : ℕ
  pub active_version_id : Option ℕ
  pub revision : ℕ

pub record Batch : Type 0 where
  pub id : ℕ
  pub organization_id : ℕ
  pub status : BatchStatus
  pub warnings : ℕ  -- how many validation warnings it has

pub record Store : Type 0 where
  pub versions : List Version
  pub scopes : List Scope
  pub batches : List Batch

-- The codes of `ImportConfirmationError` and `ActiveImportLifecycleError`.
pub data ImportError : Type 0 where
  not_found forbidden reason_required preview_blocked warning_review_forbidden stale_draft :
      ImportError
  invalid_status invalid_restore_target import_not_active active_import_changed : ImportError
  fallback_required invalid_fallback_scope : ImportError

pub data Result (A : Type 0) : Type 0 where
  ok : A → Result A
  err : ImportError → Result A

infixl 5 ◌>>=◌ ◌>>◌
abbrev pub ◌>>=◌ : {A B : Type 0} → Result A → (A → Result B) → Result B
ok a >>= f = f a
err e >>= f = err e

abbrev pub ◌>>◌ : {B : Type 0} → Result (Unit {0}) → Result B → Result B
m >> k = m >>= λ _. k

-- `if (test) throw …`.
abbrev pub throw_if : Bool → ImportError → Result (Unit {0})
throw_if true e = err e
throw_if false e = ok tt

abbrev pub found : {A : Type 0} → Option A → ImportError → Result A
found none e = err e
found (some a) e = ok a

abbrev pub is_active : VersionStatus → Bool
is_active VersionStatus.active = true
is_active other = false

-- `===` on nullable ids.
abbrev pub same_id : Option ℕ → Option ℕ → Bool
same_id none none = true
same_id none (some b) = false
same_id (some a) none = false
same_id (some a) (some b) = a == b

abbrev pub mem : ℕ → List ℕ → Bool
mem a xs = any (λ x. x == a) xs

-- `Set.add`, in the order of insertion.
abbrev pub add : ℕ → List ℕ → List ℕ
add a xs = if mem a xs then xs else xs ++ a ∷ []

abbrev pub add? : Option ℕ → List ℕ → List ℕ
add? none xs = xs
add? (some a) xs = add a xs

abbrev pub in_batch : ℕ → Version → Bool
in_batch b v = eq? v.import_batch_id b

-- The columns set on the version that loses a scope and on the one that gets it.
abbrev pub retire : VersionStatus → ℕ → Version → Version
retire status now v = record v { status = status; superseded_at = some now }

abbrev pub activate : ℕ → Version → Version
activate now v = record v {
  status = VersionStatus.active;
  activated_at = some now;
  superseded_at = none;
}

abbrev pub point_at : Option ℕ → Scope → Scope
point_at new sc = record sc { active_version_id = new; revision = sc.revision + 1 }

-- The updates by which a scope passes from its active version, if any, to another one, if any.
-- (An update of the version `none` finds no row; the source leaves it out.)
unfoldable pub hand_over :
    VersionStatus → ℕ → (scope_key : ℕ) → (old new : Option ℕ) → Store → Store
hand_over status now scope_key old new s = record s {
  versions =
      update (λ v. eq? new v.id) (activate now)
        (update (λ v. eq? old v.id) (retire status now) s.versions);
  scopes = update (λ (sc : Scope). sc.scope_key == scope_key) (point_at new) s.scopes;
}

-- Whether some scope's active version belongs to the batch.
pub has_active_version : ℕ → Store → Bool
has_active_version b s =
    any
      (λ (sc : Scope).
        any (λ (v : Version). eq? sc.active_version_id v.id && in_batch b v) s.versions)
      s.scopes

abbrev pub set_batch_status : ℕ → BatchStatus → Store → Store
set_batch_status b status s = record s {
  batches = update (λ (r : Batch). r.id == b) (λ r. record r { status = status }) s.batches;
}

-- `updateBatchVisibilityStatus`.
pub update_visibility : ℕ → BatchStatus → Store → Store
update_visibility b inactive s =
    set_batch_status b (if has_active_version b s then BatchStatus.active else inactive) s
