-- ===== src/Versions/Reads.antt =====
-- What the transactions of src/import/service.ts and src/import/active-lifecycle.ts know, in their
-- loops, of the rows that they read before.
use openers_performance_dash.Prelude.{
  ℕ, ◌≡◌, ◌≢◌, refl, true, Option, none, some, List, [], ◌∷◌, inl, inr, arith, ◌==◌, if◌then◌else◌,
  any, ◌⊎◌, In, All-In,
}
use openers_performance_dash.Prelude.Table.{select_where, select_where-In, IsKeyed}
use openers_performance_dash.ImportJobs.{BatchStatus}
use openers_performance_dash.Versions.{
  VersionStatus, Version, Scope, Store, Result, ok, err, same_id, hand_over, in_batch,
  set_batch_status, update_visibility, has_active_version, ImportError,
}
use openers_performance_dash.Versions.Publish.{revisit, scopes_of}
use openers_performance_dash.Versions.Consistency.{
  IsConsistent, IsNew, hand_over-other_scope, hand_over-IsNew,
}

-- What holds of the store that a transaction commits; one that throws leaves the old store.
abbrev pub OnOk : {A : Type 0} → (A → Type 0) → Result A → Type 0
OnOk P (ok a) = P a
OnOk P (err e) = Unit

-- What the loops know of the versions still to come: their rows are there, and the scopes as they
-- were read are still the rows of the table.
pub record Ahead (scopes : List Scope) (vs : List Version) (s : Store) : Type 0 where
  pub rows : (v : Version) → In v vs → IsNew s v.scope_key v.id
  pub unread :
      (v : Version)
      → In v vs
      → (sc : Scope) → In sc scopes
      → sc.scope_key ≡ v.scope_key
      → In sc s.scopes

-- After the hand-over of one version's scope, the rest is still ahead.
pub Ahead-next :
    (scopes : List Scope) (v : Version) (vs : List Version) (s : Store) (status : VersionStatus)
    (now : ℕ) (old new : Option ℕ)
    → IsKeyed (λ (w : Version). w.scope_key) (v ∷ vs)
    → Ahead scopes (v ∷ vs) s
    → Ahead scopes vs (hand_over status now v.scope_key old new s)
Ahead-next scopes v vs s status now old new k a = record {
  rows =
      λ w m. hand_over-IsNew status now v.scope_key old new s w.scope_key w.id (a.rows w (inr m));
  unread = λ w m sc n e.
      let apart : w.scope_key ≢ v.scope_key =
        All-In (λ (x : Version). x.scope_key ≢ v.scope_key) w vs k.0 m in
      hand_over-other_scope status now v.scope_key old new s sc (a.unread w (inr m) sc n e)
        (ground (arith, apart, e));
}

pub same_id_eq : (a b : Option ℕ) → same_id a b ≡ true → a ≡ b
same_id_eq none none h = refl
same_id_eq none (some b) h = cc
same_id_eq (some a) none h = cc
same_id_eq (some a) (some b) h = ground arith

-- The batches have no part in the agreement.
pub set_batch_status-IsConsistent :
    (b : ℕ) (status : BatchStatus) (s : Store)
    → IsConsistent s
    → IsConsistent (set_batch_status b status s)
set_batch_status-IsConsistent b status s h = record {
  version_ids = h.version_ids;
  scope_keys = h.scope_keys;
  one_each = h.one_each;
  pointed = λ sc id m e.
      let w = h.pointed sc id m e in
      record {
        row = w.row;
        listed = w.listed;
        same_id = w.same_id;
        same_scope = w.same_scope;
        active = w.active;
      };
  sole = λ v m e.
      let w = h.sole v m e in
      record { row = w.row; listed = w.listed; same_scope = w.same_scope; points = w.points };
}

pub revisit-IsConsistent :
    (status : BatchStatus) (bs : List ℕ) (s : Store)
    → IsConsistent s
    → IsConsistent (revisit status bs s)
unfolding revisit update_visibility
revisit-IsConsistent status [] s h = h
revisit-IsConsistent status (b ∷ bs) s h =
    revisit-IsConsistent status bs (update_visibility b status s) (
      set_batch_status-IsConsistent b
        (if has_active_version b s then BatchStatus.active else status) s h)

-- The versions of a batch, and the scopes read for them, are ahead of a loop over them.
pub Ahead-batch :
    (b : ℕ) (s : Store)
    → let vs = select_where (in_batch b) s.versions in Ahead (scopes_of vs s) vs s
Ahead-batch b s = record {
  rows = λ v m. record {
    row = v;
    listed = (select_where-In (in_batch b) s.versions v m).0;
    same_id = refl;
    same_scope = refl;
  };
  unread = λ v m sc n e.
      (select_where-In
        (λ (x : Scope).
          any (λ (w : Version). w.scope_key == x.scope_key) (select_where (in_batch b) s.versions))
        s.scopes sc n).0;
}

pub Result-cases :
    {A : Type 0} (r : Result A) → ((a : A) × (r ≡ ok a)) ⊎ ((e : ImportError) × (r ≡ err e))
Result-cases (ok a) = inl (a, refl)
Result-cases (err e) = inr (e, refl)
