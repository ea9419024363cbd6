-- ===== src/Comparison/Tests.antt =====
-- Two agents' metrics, and the theorem at them.
use openers_performance_dash.Prelude.{ℕ, ◌+◌, ◌≡◌, refl, inl, inr, some, List, [], ◌∷◌, In}
use openers_performance_dash.Comparison.{
  negsuc, ComparableMetric, AgentMetricDifference, compare_metrics, difference_of, agent_totals,
  totals_for_metrics,
}
use openers_performance_dash.Comparison.Agents.{IsRowOf, compare_metrics-IsRowOf}

abbrev metric : ℕ → ℕ → ComparableMetric
metric agent calls = record {
  agent_profile_id = agent;
  source_agent_name = agent + 100;
  totals = record { calls = calls; logged_in_seconds = 60; talk_seconds = 30; wrap_seconds = 5 };
}

abbrev current : List ComparableMetric
current = metric 1 4 ∷ metric 2 7 ∷ metric 1 6 ∷ []

abbrev uploaded : List ComparableMetric
uploaded = metric 1 8 ∷ metric 3 1 ∷ []

calls_example : (compare_metrics current uploaded).calls ≡ record {
  before = 17;
  after = 9;
  difference = negsuc 7;
  percentage_difference = some (negsuc 799, 17);
}
unfolding compare_metrics totals_for_metrics difference_of
calls_example = refl

new_example : (compare_metrics current uploaded).new_agents ≡ 103 ∷ []
unfolding compare_metrics agent_totals
new_example = refl

compare_metrics-IsRowOf_example :
    (r : AgentMetricDifference) × In r (compare_metrics current uploaded).agents
    × (r.agent_profile_id ≡ 3)
    × IsRowOf current uploaded r
compare_metrics-IsRowOf_example =
    compare_metrics-IsRowOf current uploaded (metric 3 1) (inr (inr (inl refl)))
