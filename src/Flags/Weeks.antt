-- ===== src/Flags/Weeks.antt =====
-- The weeks into which src/flags/domain.ts splits a range of days.
use openers_performance_dash.Prelude.{
  ℕ, zero, suc, ◌+◌, ◌%◌, ◌≤◌, ◌<◌, ◌≡◌, ◌≢◌, ◌∙◌, refl, sym, ap, All-of_In, true, inl, inr, some,
  List, [], ◌∷◌, arith, leb, In, Bool-cases, Option-cases,
}
use openers_performance_dash.Prelude.Table.{IsKeyed}
use openers_performance_dash.Flags.{Week, week_of, week_loop, is_within, normalize_week_start}

-- The weeks from a day on to a last day.
pub data Splits (last : ℕ) : ℕ → List Week → Type 0 where
  done : {start : ℕ} → last < start → Splits last start []
  next :
      {start : ℕ} {ws : List Week}
      → start ≤ last
      → Splits last (start + 7) ws
      → Splits last start (week_of start last ∷ ws)

pub week_loop-Splits :
    (fuel start last : ℕ) (ws : List Week)
    → week_loop fuel start last ≡ some ws
    → Splits last start ws
unfolding week_loop
week_loop-Splits zero start last ws e = cc
week_loop-Splits (suc fuel) start last ws e = elim (Bool-cases (leb start last)) [
  | inr f ↦ let n : [] ≡ ws = cc (rw (week_loop, f) at e) in rw (← n) (done (ground (arith, f)))
  | inl t ↦ elim (Option-cases (week_loop fuel (start + 7) last)) [
    | inl n ↦ absurd (cc (rw (week_loop, t, n) at e))
    | inr (vs, v) ↦
        let n : week_of start last ∷ vs ≡ ws = cc (rw (week_loop, t, v) at e) in
        rw (← n) (next (ground (arith, t)) (week_loop-Splits fuel (start + 7) last vs v))
  ]
]

-- What each week is.
record IsWeek (start last : ℕ) (w : Week) : Type 0 where
  later : start ≤ w.start
  in_time : w.start ≤ last
  whole_weeks : w.start % 7 ≡ start % 7
  shape : w ≡ week_of w.start last

Splits-IsWeek :
    {last start : ℕ} {ws : List Week}
    → Splits last start ws
    → (w : Week) → In w ws
    → IsWeek start last w
Splits-IsWeek (done h) w m = elim m [ ]
Splits-IsWeek (next {start} {ws} h s) w (inl e) =
    rw e (record { later = omega arith; in_time = h; whole_weeks = refl; shape = refl })
Splits-IsWeek (next {start} {ws} h s) w (inr m) =
    let i = Splits-IsWeek s w m in
    record {
      later = omega (arith, i.later);
      in_time = i.in_time;
      whole_weeks = omega (arith, i.whole_weeks);
      shape = i.shape;
    }

-- A day from the first week on to the last day is in a week.
Splits-covers :
    {last start : ℕ} {ws : List Week}
    → Splits last start ws
    → (day : ℕ) → start ≤ day
    → day ≤ last
    → (w : Week) × In w ws × (is_within day w ≡ true)
Splits-covers (done h) day a b = absurd (omega (arith, h, a, b))
Splits-covers {last = last} (next {start} {ws} h s) day a b =
    elim (Bool-cases (leb day (start + 6))) [
      | inl t ↦ (week_of start last, inl refl, ground (arith, t, a, b))
      | inr f ↦ let (w, m, i) = Splits-covers s day (ground (arith, f)) b in (w, inr m, i)
    ]

-- And in no other.
Splits-apart :
    {last start : ℕ} {ws : List Week}
    → Splits last start ws
    → (day : ℕ) (v w : Week) → In v ws
    → In w ws
    → is_within day v ≡ true
    → is_within day w ≡ true
    → v ≡ w
Splits-apart (done h) day v w m n i j = elim m [ ]
Splits-apart (next h s) day v w (inl p) (inl q) i j = p ∙ sym q
Splits-apart (next h s) day v w (inl p) (inr n) i j =
    let k = Splits-IsWeek s w n in absurd (ground (arith, rw p at i, j, k.later))
Splits-apart (next h s) day v w (inr m) (inl q) i j =
    let k = Splits-IsWeek s v m in absurd (ground (arith, rw q at j, i, k.later))
Splits-apart (next h s) day v w (inr m) (inr n) i j = Splits-apart s day v w m n i j

Splits-IsKeyed :
    {last start : ℕ} {ws : List Week} → Splits last start ws → IsKeyed (λ (w : Week). w.start) ws
Splits-IsKeyed (done h) = tt
Splits-IsKeyed (next {start} {ws} h s) = (
  All-of_In (λ (w : Week). w.start ≢ start) ws
      (λ w m e. absurd (omega (arith, (Splits-IsWeek s w m).later, e))),
  Splits-IsKeyed s,
)

-- Weeks that part the days from one to another.
pub record IsWeekly (first last : ℕ) (ws : List Week) : Type 0 where
  pub keyed : IsKeyed (λ (w : Week). w.start) ws
  pub covers :
      (day : ℕ) → first ≤ day → day ≤ last → (w : Week) × In w ws × (is_within day w ≡ true)
  pub apart :
      (day : ℕ) (v w : Week)
      → In v ws
      → In w ws
      → is_within day v ≡ true
      → is_within day w ≡ true
      → v ≡ w
  pub mondays : (w : Week) → In w ws → w.start % 7 ≡ 0
  pub in_week :
      (w : Week) → In w ws → (w.start ≤ w.through) × (w.through ≤ w.start + 6) × (w.through ≤ last)

pub Splits-IsWeekly :
    (first last : ℕ) (ws : List Week)
    → Splits last (normalize_week_start first) ws
    → IsWeekly first last ws
Splits-IsWeekly first last ws s = record {
  keyed = Splits-IsKeyed s;
  covers = λ day a b. Splits-covers s day (omega (arith, a)) b;
  apart = Splits-apart s;
  mondays = λ w m. omega (arith, (Splits-IsWeek s w m).whole_weeks);
  in_week = λ w m.
      let i = Splits-IsWeek s w m in
      let through : w.through ≡ (week_of w.start last).through =
        ap (λ (w : Week). w.through) i.shape in
      rw through (ground (arith, i.in_time));
}
