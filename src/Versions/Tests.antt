-- ===== src/Versions/Tests.antt =====
-- Publishing, rolling back and deactivating an import of one scope, and instances of the theorems.
use openers_performance_dash.Prelude.{
  ℕ, ◌+◌, ◌≡◌, refl, none, some, inl, inr, List, [], ◌∷◌, arith, In, Option,
}
use openers_performance_dash.Prelude.Table.{select_where}
use openers_performance_dash.Accounts.{Role, Actor}
use openers_performance_dash.ImportJobs.{BatchStatus}
use openers_performance_dash.Versions.{
  in_batch, VersionStatus, Version, Scope, Batch, Store, Result, ok, err, hand_over,
  invalid_restore_target, has_active_version, update_visibility,
}
use openers_performance_dash.Versions.Publish.{
  publish_transaction, check_publish, publish_each, note_batch, revisit,
}
use openers_performance_dash.Versions.Switch.{
  rollback, restore, switch_transaction, check_switch, restore_versions, switch_each, finish_switch,
}
use openers_performance_dash.Versions.Deactivate.{
  previous, no_version, resolve_active, check_active, deactivate_each, activate_batches,
  select_replacements, replacements, find_newest,
}
use openers_performance_dash.Versions.Consistency.{IsConsistent, HasActive, IsPointedAt}
use openers_performance_dash.Versions.Reads.{OnOk}
use openers_performance_dash.Versions.View.{view, publish_view, publish_transaction-refines}
use openers_performance_dash.Versions.Outcome.{Pointing, publish_transaction-points}
use openers_performance_dash.Versions.Published.{publish_transaction-IsConsistent}
use openers_performance_dash.Versions.Switched.{switch_transaction-IsConsistent}
use openers_performance_dash.Versions.Deactivated.{resolve_active-IsConsistent}

abbrev version : ℕ → VersionStatus → Option ℕ → Version
version id status before = record {
  id = id;
  import_batch_id = some (id + 10);
  scope_key = 1;
  team_id = some 4;
  version_number = id;
  status = status;
  previous_version_id = before;
  activated_at = none;
  superseded_at = none;
}

abbrev scope : Scope
scope = record { scope_key = 1; active_version_id = some 2; revision = 1 }

abbrev batch : ℕ → BatchStatus → Batch
batch id status = record { id = id; organization_id = 1; status = status; warnings = 0 }

-- An old version, the active one and a draft.
abbrev demo : Store
demo = record {
  versions =
      version 1 VersionStatus.superseded none
      ∷ version 2 VersionStatus.active (some 1)
      ∷ version 3 VersionStatus.draft (some 2)
      ∷ [];
  scopes = scope ∷ [];
  batches =
      batch 11 BatchStatus.superseded
      ∷ batch 12 BatchStatus.active
      ∷ batch 13 BatchStatus.ready_to_publish
      ∷ [];
}

abbrev admin : Actor
admin = record { id = 7; role = Role.admin; team_ids = []; organization_id = 1 }

demo-pointed :
    (sc : Scope) (id : ℕ)
    → In sc demo.scopes
    → sc.active_version_id ≡ some id
    → HasActive demo sc id
demo-pointed sc id (inl e) a = record {
  row = version 2 VersionStatus.active (some 1);
  listed = inr (inl refl);
  same_id = ground (arith, e, a);
  same_scope = ground (arith, e);
  active = refl;
}
demo-pointed sc id (inr m) a = elim m [ ]

demo-sole :
    (v : Version) → In v demo.versions → v.status ≡ VersionStatus.active → IsPointedAt demo v
demo-sole v (inl e) a = absurd (cc)
demo-sole v (inr (inl e)) a = record {
  row = scope;
  listed = inl refl;
  same_scope = ground (arith, e);
  points = ground (arith, e);
}
demo-sole v (inr (inr (inl e))) a = absurd (cc)
demo-sole v (inr (inr (inr m))) a = elim m [ ]

demo-IsConsistent : IsConsistent demo
demo-IsConsistent = record {
  version_ids = ground arith;
  scope_keys = ground arith;
  one_each = λ b. ground arith;
  pointed = demo-pointed;
  sole = demo-sole;
}

-- How the scope and the batches stand after a transaction.
abbrev outcome : Result Store → Result (List Scope × List Batch)
outcome (ok s) = ok (s.scopes, s.batches)
outcome (err e) = err e

publish_takes_over :
    outcome (publish_transaction admin 13 500 demo)
    ≡ ok (
      record { scope_key = 1; active_version_id = some 3; revision = 2 } ∷ [],
      batch 11 BatchStatus.superseded
          ∷ batch 12 BatchStatus.superseded
          ∷ batch 13 BatchStatus.active
          ∷ [],
    )
unfolding publish_transaction check_publish publish_each note_batch revisit hand_over
    has_active_version update_visibility
publish_takes_over = refl

rollback_gives_back :
    outcome (switch_transaction rollback 12 500 demo)
    ≡ ok (
      record { scope_key = 1; active_version_id = some 1; revision = 2 } ∷ [],
      batch 11 BatchStatus.active
          ∷ batch 12 BatchStatus.rolled_back
          ∷ batch 13 BatchStatus.ready_to_publish
          ∷ [],
    )
unfolding switch_transaction check_switch restore_versions switch_each finish_switch revisit
    hand_over has_active_version update_visibility
rollback_gives_back = refl

restore_rejects_draft :
    outcome (switch_transaction restore 13 500 demo) ≡ err invalid_restore_target
unfolding switch_transaction check_switch restore_versions
restore_rejects_draft = refl

deactivate_leaves_none :
    outcome (resolve_active 12 no_version 500 demo)
    ≡ ok (
      record { scope_key = 1; active_version_id = none; revision = 2 } ∷ [],
      batch 11 BatchStatus.superseded
          ∷ batch 12 BatchStatus.deactivated
          ∷ batch 13 BatchStatus.ready_to_publish
          ∷ [],
    )
unfolding resolve_active check_active select_replacements replacements find_newest deactivate_each
    activate_batches hand_over
deactivate_leaves_none = refl

deactivate_falls_back :
    outcome (resolve_active 12 previous 500 demo)
    ≡ ok (
      record { scope_key = 1; active_version_id = some 1; revision = 2 } ∷ [],
      batch 11 BatchStatus.active
          ∷ batch 12 BatchStatus.deactivated
          ∷ batch 13 BatchStatus.ready_to_publish
          ∷ [],
    )
unfolding resolve_active check_active select_replacements replacements find_newest deactivate_each
    activate_batches hand_over
deactivate_falls_back = refl

publish_transaction-IsConsistent_example : OnOk IsConsistent (publish_transaction admin 13 500 demo)
publish_transaction-IsConsistent_example =
    publish_transaction-IsConsistent admin 13 500 demo demo-IsConsistent

switch_transaction-IsConsistent_example :
    OnOk IsConsistent (switch_transaction rollback 12 500 demo)
switch_transaction-IsConsistent_example =
    switch_transaction-IsConsistent rollback 12 500 demo demo-IsConsistent

resolve_active-IsConsistent_example : OnOk IsConsistent (resolve_active 12 previous 500 demo)
resolve_active-IsConsistent_example =
    resolve_active-IsConsistent 12 previous 500 demo demo-IsConsistent

-- The store after the publication of the draft.
abbrev published : Store
published = record {
  versions =
      version 1 VersionStatus.superseded none
      ∷ record (version 2 VersionStatus.superseded (some 1)) { superseded_at = some 500 }
      ∷ record (version 3 VersionStatus.active (some 2)) { activated_at = some 500 }
      ∷ [];
  scopes = record { scope_key = 1; active_version_id = some 3; revision = 2 } ∷ [];
  batches =
      batch 11 BatchStatus.superseded
      ∷ batch 12 BatchStatus.superseded
      ∷ batch 13 BatchStatus.active
      ∷ [];
}

publishes : publish_transaction admin 13 500 demo ≡ ok published
unfolding publish_transaction check_publish publish_each note_batch revisit hand_over
    has_active_version update_visibility
publishes = refl

publish_transaction-points_example :
    Pointing published.scopes (version 3 VersionStatus.draft (some 2))
publish_transaction-points_example =
    publish_transaction-points admin 13 500 demo published demo-IsConsistent publishes
      (version 3 VersionStatus.draft (some 2)) (inr (inr (inl refl))) refl

publish_transaction-refines_example :
    view published 1 ≡ publish_view (select_where (in_batch 13) demo.versions) (view demo) 1
publish_transaction-refines_example =
    publish_transaction-refines admin 13 500 demo published 1 demo-IsConsistent publishes
