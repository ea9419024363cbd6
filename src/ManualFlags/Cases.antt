-- ===== src/ManualFlags/Cases.antt =====
-- Manual flag cases through any calls of updateManualFlagCase (src/operations/service.ts), the only
-- request here: the deletion of a user, which removes or reassigns cases, is not one of them.
use openers_performance_dash.Prelude.{
  ℕ, ◌≡◌, refl, true, ◌&&◌, List, [], ◌∷◌, inl, inr, arith, ◌==◌, is_some, In, All, Bool-cases,
  Option-cases,
}
use openers_performance_dash.Prelude.Table.{
  update, update-All, update-IsKeyed, update-passes, find, find-In, IsKeyed, IsKeyed-eq,
}
use openers_performance_dash.Accounts.{Actor}
use openers_performance_dash.ManualFlags.{
  ManualFlagStatus, ManualFlagCase, CaseInput, Surroundings, Updated, written, forbidden,
  case_not_found, no_transition, resolution_required, is_closed, may_move, resolution_of, set_case,
  update_manual_flag_case,
}

-- A closed case has a resolution, and who closed it when; another case has neither of the latter.
abbrev pub IsSettled : ManualFlagCase → Type 0
IsSettled c =
    (is_closed c.status ≡ is_some c.resolved_by_id)
    × (is_closed c.status ≡ is_some c.resolved_at)
    × (is_closed c.status ≡ true → is_some c.resolution ≡ true)

-- What is known of a request that is granted.
record Granted (a : Actor) (now : ℕ) (input : CaseInput) (cases cases' : List ManualFlagCase)
    : Type 0 where
  row : ManualFlagCase
  listed : In row cases
  matches : row.id ≡ input.case_id
  moves : may_move row.status input.status ≡ true
  resolves : is_closed input.status ≡ true → is_some (resolution_of input.resolution) ≡ true
  result :
      cases' ≡ update (λ (r : ManualFlagCase). r.id == input.case_id) (set_case a now input) cases

granted :
    (env : Surroundings) (a : Actor) (now : ℕ) (input : CaseInput)
    (cases cases' : List ManualFlagCase)
    → update_manual_flag_case env a now input cases ≡ written cases'
    → Granted a now input cases cases'
unfolding update_manual_flag_case
granted env a now input cases cases' e =
    let p =
      λ (c : ManualFlagCase). c.id == input.case_id && c.organization_id == a.organization_id in
    elim (Option-cases (find p cases)) [
      | inl n ↦ absurd (ground (arith, e, n))
      | inr (c, f) ↦
          let (m, u) = find-In p cases c f in
          record {
            row = c;
            listed = m;
            matches = ground (arith, u);
            moves = ground (arith, e, f);
            resolves = λ k. ground (arith, e, f, k);
            result = ground (arith, e, f);
          }
    ]

-- The table that a request leaves.
abbrev pub after : Updated → List ManualFlagCase → List ManualFlagCase
after (written cases') cases = cases'
after other cases = cases

pub record Request : Type 0 where
  pub env : Surroundings
  pub actor : Actor
  pub now : ℕ
  pub input : CaseInput

abbrev pub serve : Request → List ManualFlagCase → List ManualFlagCase
serve r cases = after (update_manual_flag_case r.env r.actor r.now r.input cases) cases

-- Requests by any users, one after the other.
abbrev pub run : List Request → List ManualFlagCase → List ManualFlagCase
run [] cases = cases
run (r ∷ rs) cases = run rs (serve r cases)

by_answer :
    (P : List ManualFlagCase → Type 0) (u : Updated) (cases : List ManualFlagCase)
    → P cases
    → ((cases' : List ManualFlagCase) → u ≡ written cases' → P cases')
    → P (after u cases)
by_answer P (written cases') cases h g = g cases' refl
by_answer P forbidden cases h g = h
by_answer P case_not_found cases h g = h
by_answer P no_transition cases h g = h
by_answer P resolution_required cases h g = h

set_case-IsSettled :
    (a : Actor) (now : ℕ) (input : CaseInput) (c : ManualFlagCase)
    → (is_closed input.status ≡ true → is_some (resolution_of input.resolution) ≡ true)
    → IsSettled (set_case a now input c)
unfolding set_case
set_case-IsSettled a now input c h = (ground arith, ground arith, h)

serve-IsSettled :
    (r : Request) (cases : List ManualFlagCase)
    → All IsSettled cases
    → All IsSettled (serve r cases)
serve-IsSettled r cases h =
    by_answer (All IsSettled) (update_manual_flag_case r.env r.actor r.now r.input cases) cases h
      λ cases' e.
        let g = granted r.env r.actor r.now r.input cases cases' e in
        rw g.result (
          update-All IsSettled (λ (c : ManualFlagCase). c.id == r.input.case_id)
            (set_case r.actor r.now r.input) cases
            (λ c m s t. set_case-IsSettled r.actor r.now r.input c g.resolves) h)

-- Whatever calls of updateManualFlagCase come, in whatever order, every closed case has a resolution and says who closed
-- it and when, and no other case says so, if that was so before.
pub run-IsSettled :
    (rs : List Request) (cases : List ManualFlagCase)
    → All IsSettled cases
    → All IsSettled (run rs cases)
run-IsSettled [] cases h = h
run-IsSettled (r ∷ rs) cases h = run-IsSettled rs (serve r cases) (serve-IsSettled r cases h)

serve-IsKeyed :
    (r : Request) (cases : List ManualFlagCase)
    → IsKeyed (λ (c : ManualFlagCase). c.id) cases
    → IsKeyed (λ (c : ManualFlagCase). c.id) (serve r cases)
unfolding set_case
serve-IsKeyed r cases k =
    by_answer (IsKeyed (λ (c : ManualFlagCase). c.id))
      (update_manual_flag_case r.env r.actor r.now r.input cases) cases k
      λ cases' e.
        let g = granted r.env r.actor r.now r.input cases cases' e in
        rw g.result (
          update-IsKeyed (λ (c : ManualFlagCase). c.id)
            (λ (c : ManualFlagCase). c.id == r.input.case_id) (set_case r.actor r.now r.input) cases
            (λ x. refl) k)

serve-closed :
    (r : Request) (cases : List ManualFlagCase) (c : ManualFlagCase)
    → IsKeyed (λ (c : ManualFlagCase). c.id) cases
    → In c cases
    → is_closed c.status ≡ true
    → In c (serve r cases)
serve-closed r cases c k m z =
    by_answer (In c) (update_manual_flag_case r.env r.actor r.now r.input cases) cases m λ cases' e.
      let g = granted r.env r.actor r.now r.input cases cases' e in
      rw g.result (elim (Bool-cases (c.id == r.input.case_id)) [
        | inr t ↦
            update-passes (λ (x : ManualFlagCase). x.id == r.input.case_id)
              (set_case r.actor r.now r.input) cases c t m
        | inl t ↦
            let same : c ≡ g.row =
              IsKeyed-eq (λ (x : ManualFlagCase). x.id) cases c g.row k m g.listed
                (ground (arith, t, g.matches)) in
            absurd (no_way_out g.row.status r.input.status (rw same at z) g.moves)
      ])
  where
    no_way_out : (from to : ManualFlagStatus) → is_closed from ≡ true → may_move from to ≡ true → ⊥
    no_way_out from to h u = ground arith

-- In a table with distinct ids, a case that is resolved or dismissed stays just as it is through any
-- calls of updateManualFlagCase.
pub run-closed :
    (rs : List Request) (cases : List ManualFlagCase) (c : ManualFlagCase)
    → IsKeyed (λ (c : ManualFlagCase). c.id) cases
    → In c cases
    → is_closed c.status ≡ true
    → In c (run rs cases)
run-closed [] cases c k m z = m
run-closed (r ∷ rs) cases c k m z =
    run-closed rs (serve r cases) c (serve-IsKeyed r cases k) (serve-closed r cases c k m z) z
