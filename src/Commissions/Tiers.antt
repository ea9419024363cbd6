-- ===== src/Commissions/Tiers.antt =====
-- What the commission of src/commissions/domain.ts pays for how many deals.
use openers_performance_dash.Prelude.{
  ℕ, ◌+◌, ◌*◌, ◌≤◌, ◌<◌, ◌≡◌, none, some, arith, ltb, if◌then◌else◌, ◌^◌, ◌⊎◌, inl, inr,
  Option-cases,
}
use openers_performance_dash.Commissions.{CommissionResult, calculate_commission}

-- The rate, described by the least counts that earn it.
abbrev pub rate : ℕ → ℕ
rate n =
    if ltb n 8
    then 0
    else (if ltb n 11
        then 250
        else (if ltb n 14
            then 400
            else (if ltb n 19 then 700 else (if ltb n 25 then 900 else 1100))))

calculate_commission-rate :
    (n : ℕ) (r : CommissionResult)
    → calculate_commission n ≡ some r
    → (r.rate_per_deal ≡ rate n)
      × (r.total_compensation ≡ 14000 + n * rate n)
      × (14000 + n * rate n < 2 ^ 53)
unfolding calculate_commission
calculate_commission-rate n r e = (ground (arith, e), ground (arith, e), ground (arith, e))

calculate_commission-none : (n : ℕ) → calculate_commission n ≡ none → 2 ^ 53 ≤ 14000 + n * rate n
unfolding calculate_commission
calculate_commission-none n e = ground (arith, e)

-- For every number of deals the commission is computed, with the rate that the number earns and a total
-- that is a safe integer, or that total would not be one and it is refused.
pub calculate_commission-total :
    (n : ℕ)
    → ((r : CommissionResult) × (calculate_commission n ≡ some r)
        × (r.rate_per_deal ≡ rate n)
        × (r.total_compensation ≡ 14000 + n * rate n)
        × (r.total_compensation < 2 ^ 53))
      ⊎ ((calculate_commission n ≡ none) × (2 ^ 53 ≤ 14000 + n * rate n))
calculate_commission-total n = elim (Option-cases (calculate_commission n)) [
  | inl e ↦ inr (e, calculate_commission-none n e)
  | inr (r, e) ↦ let (q, t, l) = calculate_commission-rate n r e in inl (r, e, q, t, rw t l)
]

pay_rises : (m n : ℕ) → m ≤ n → m * rate m ≤ n * rate n
pay_rises m n h = ground (arith, h)

-- More deals never pay less in total, nor by the deal.
pub calculate_commission-rises :
    (m n : ℕ) (r s : CommissionResult)
    → m ≤ n
    → calculate_commission m ≡ some r
    → calculate_commission n ≡ some s
    → (r.total_compensation ≤ s.total_compensation) × (r.rate_per_deal ≤ s.rate_per_deal)
calculate_commission-rises m n r s h e f =
    let (a, b, x) = calculate_commission-rate m r e in
    let (c, d, y) = calculate_commission-rate n s f in
    (rw (b, d) (ground (arith, pay_rises m n h)), rw (a, c) (ground (arith, h)))

-- The distance to the next tier is positive; any fewer deals leave the rate as it is, and that many
-- earn the rate announced for the next tier.
pub calculate_commission-next :
    (n d : ℕ) (r : CommissionResult)
    → calculate_commission n ≡ some r
    → r.deals_until_next_tier ≡ some d
    → (0 < d)
      × ((k : ℕ) → k < d → rate (n + k) ≡ r.rate_per_deal)
      × (r.next_tier_rate ≡ some (rate (n + d)))
unfolding calculate_commission
calculate_commission-next n d r e q =
    (ground (arith, e, q), λ k l. ground (arith, e, q, l), ground (arith, e, q))
