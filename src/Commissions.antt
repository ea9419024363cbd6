-- ===== src/Commissions.antt =====
-- The monthly commission on closed deals (src/commissions/domain.ts). A count of deals is a natural
-- number: `calculateCommission` throws at once on other numbers. Amounts are whole pounds; the source
-- computes them in binary floating point, which is exact up to 2 ^ 53 and beyond it stays beyond it.
pub mod Tiers
mod Tests
use openers_performance_dash.Prelude.{
  ℕ, String, ◌+◌, ◌-◌, ◌*◌, ◌^◌, Bool, true, false, not, ◌&&◌, Option, none, some, List, [], ◌∷◌,
  leb, ltb, if◌then◌else◌,
}

pub record CommissionTier : Type 0 where
  pub label : String
  pub minimum : ℕ
  pub maximum : Option ℕ
  pub rate_per_deal : ℕ

abbrev tier : String → ℕ → Option ℕ → ℕ → CommissionTier
tier label minimum maximum rate = record {
  label = label;
  minimum = minimum;
  maximum = maximum;
  rate_per_deal = rate;
}

abbrev pub commission_base_salary_egp : ℕ
commission_base_salary_egp = 14000

abbrev pub commission_tiers : List CommissionTier
commission_tiers =
    tier "0–7" 0 (some 7) 0
    ∷ tier "8–10" 8 (some 10) 250
    ∷ tier "11–13" 11 (some 13) 400
    ∷ tier "14–18" 14 (some 18) 700
    ∷ tier "19–24" 19 (some 24) 900
    ∷ tier "25+" 25 none 1100
    ∷ []

pub record CommissionResult : Type 0 where
  pub closed_deals : ℕ
  pub tier_label : String
  pub tier_minimum : ℕ
  pub tier_maximum : Option ℕ
  pub rate_per_deal : ℕ
  pub commission_amount : ℕ
  pub base_salary : ℕ
  pub total_compensation : ℕ
  pub next_tier_minimum : Option ℕ
  pub next_tier_rate : Option ℕ
  pub deals_until_next_tier : Option ℕ

-- `Number.isSafeInteger` of a natural number.
abbrev pub is_safe_integer : ℕ → Bool
is_safe_integer n = ltb n (2 ^ 53)

abbrev pub holds : ℕ → CommissionTier → Bool
holds n t = leb t.minimum n && elim t.maximum [ none ↦ true | some m ↦ leb n m ]

abbrev first : List CommissionTier → Option CommissionTier
first [] = none
first (t ∷ ts) = some t

-- `findIndex`, with the tier found and the one after it.
abbrev pub find_tier : ℕ → List CommissionTier → Option (CommissionTier × Option CommissionTier)
find_tier n [] = none
find_tier n (t ∷ ts) = if holds n t then some (t, first ts) else find_tier n ts

abbrev result : ℕ → CommissionTier → Option CommissionTier → CommissionResult
result n t next = record {
  closed_deals = n;
  tier_label = t.label;
  tier_minimum = t.minimum;
  tier_maximum = t.maximum;
  rate_per_deal = t.rate_per_deal;
  commission_amount = n * t.rate_per_deal;
  base_salary = commission_base_salary_egp;
  total_compensation = commission_base_salary_egp + n * t.rate_per_deal;
  next_tier_minimum = elim next [ none ↦ none | some u ↦ some u.minimum ];
  next_tier_rate = elim next [ none ↦ none | some u ↦ some u.rate_per_deal ];
  deals_until_next_tier = elim next [ none ↦ none | some u ↦ some (u.minimum - n) ];
}

-- `calculateCommission`; `none` where it throws a `RangeError`. (The tier found has its minimum at
-- most `n`, the next one has it above, so the difference is none below 0.)
unfoldable pub calculate_commission : ℕ → Option CommissionResult
calculate_commission n =
    if not (is_safe_integer n) then none else elim (find_tier n commission_tiers) [
      | none ↦ none
      | some (t, next) ↦
          if is_safe_integer (commission_base_salary_egp + n * t.rate_per_deal)
          then some (result n t next)
          else none
    ]
