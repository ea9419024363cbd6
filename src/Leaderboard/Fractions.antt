-- ===== src/Leaderboard/Fractions.antt =====
-- Fractions with positive denominators, compared by cross products, as rates are in
-- src/leaderboard/sorting.ts.
use openers_performance_dash.Prelude.{ℕ, ◌+◌, ◌*◌, ◌≤◌, ◌<◌, inl, inr, arith, ltb, Bool-cases}
use native.Mathlib.Nat.{mul-le-mul_right}

module _ (a b c d e f : ℕ) where
  -- Less, then at most.
  pub cross_lt_le : 0 < f → a * d < c * b → c * f ≤ e * d → a * f < e * b
  cross_lt_le h x y = elim (Bool-cases (ltb (a * f) (e * b))) [
    | inl t ↦ ground (arith, t)
    | inr t ↦
        let z : e * b ≤ a * f = ground (arith, t) in
        let x' : (a * d + 1) * f ≤ c * b * f = mul-le-mul_right f (omega (arith, x)) in
        absurd (omega (arith, h, x', mul-le-mul_right b y, mul-le-mul_right d z))
  ]

  -- At most, then less.
  pub cross_le_lt : 0 < b → a * d ≤ c * b → c * f < e * d → a * f < e * b
  cross_le_lt h x y = elim (Bool-cases (ltb (a * f) (e * b))) [
    | inl t ↦ ground (arith, t)
    | inr t ↦
        let z : e * b ≤ a * f = ground (arith, t) in
        let y' : (c * f + 1) * b ≤ e * d * b = mul-le-mul_right b (omega (arith, y)) in
        absurd (omega (arith, h, mul-le-mul_right f x, y', mul-le-mul_right d z))
  ]

  -- At most, twice.
  pub cross_le : 0 < d → a * d ≤ c * b → c * f ≤ e * d → a * f ≤ e * b
  cross_le h x y = elim (Bool-cases (ltb (e * b) (a * f))) [
    | inr t ↦ ground (arith, t)
    | inl t ↦
        let z : (e * b + 1) * d ≤ a * f * d = mul-le-mul_right d (ground (arith, t)) in
        absurd (omega (arith, h, mul-le-mul_right f x, mul-le-mul_right b y, z))
  ]
