-- ===== src/Commissions/Tests.antt =====
-- Commissions of a few counts of deals, and instances of the theorems.
use openers_performance_dash.Prelude.{ℕ, ◌+◌, ◌^◌, ◌≤◌, ◌<◌, ◌≡◌, refl, none, some, arith, ◌⊎◌}
use openers_performance_dash.Commissions.{CommissionResult, calculate_commission}
use openers_performance_dash.Commissions.Tiers.{
  rate, calculate_commission-total, calculate_commission-rises, calculate_commission-next,
}

abbrev nine : CommissionResult
nine = record {
  closed_deals = 9;
  tier_label = "8–10";
  tier_minimum = 8;
  tier_maximum = some 10;
  rate_per_deal = 250;
  commission_amount = 2250;
  base_salary = 14000;
  total_compensation = 16250;
  next_tier_minimum = some 11;
  next_tier_rate = some 400;
  deals_until_next_tier = some 2;
}

abbrev thirty : CommissionResult
thirty = record {
  closed_deals = 30;
  tier_label = "25+";
  tier_minimum = 25;
  tier_maximum = none;
  rate_per_deal = 1100;
  commission_amount = 33000;
  base_salary = 14000;
  total_compensation = 47000;
  next_tier_minimum = none;
  next_tier_rate = none;
  deals_until_next_tier = none;
}

commission_of_nine : calculate_commission 9 ≡ some nine
unfolding calculate_commission
commission_of_nine = refl

commission_of_thirty : calculate_commission 30 ≡ some thirty
unfolding calculate_commission
commission_of_thirty = refl

calculate_commission-total_example :
    ((r : CommissionResult) × (calculate_commission 9 ≡ some r)
      × (r.rate_per_deal ≡ 250)
      × (r.total_compensation ≡ 16250)
      × (r.total_compensation < 2 ^ 53))
    ⊎ ((calculate_commission 9 ≡ none) × (2 ^ 53 ≤ 16250))
calculate_commission-total_example = calculate_commission-total 9

calculate_commission-rises_example : (16250 ≤ 47000) × (250 ≤ 1100)
calculate_commission-rises_example =
    calculate_commission-rises 9 30 nine thirty (ground arith) commission_of_nine
      commission_of_thirty

calculate_commission-next_example :
    (0 < 2) × ((k : ℕ) → k < 2 → rate (9 + k) ≡ 250) × (some 400 ≡ some (rate 11))
calculate_commission-next_example = calculate_commission-next 9 2 nine commission_of_nine refl
