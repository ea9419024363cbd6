-- ===== src/Comparison.antt =====
-- The comparison of an uploaded import with the active one, src/import/versioning.ts. Agents are known by
-- the numbers of their profiles. The orders of the lists, by localeCompare, are left out, and so are the
-- numbers that the caller passes through; a percentage is a fraction of a difference.
pub mod Agents
mod Tests
use openers_performance_dash.Prelude.{
  ℕ, suc, ◌+◌, ◌-◌, ◌*◌, Bool, true, false, not, Option, none, some, List, [], ◌∷◌, ◌++◌, map, leb,
  ◌==◌, if◌then◌else◌, or_else, any, is_none, length,
}
use openers_performance_dash.Prelude.Table.{find, select_where}

pub data ℤ : Type 0 where
  pos negsuc : ℕ → ℤ

pub record MetricTotals : Type 0 where
  pub calls : ℕ
  pub logged_in_seconds : ℕ
  pub talk_seconds : ℕ
  pub wrap_seconds : ℕ

pub record ComparableMetric : Type 0 where
  pub agent_profile_id : ℕ
  pub source_agent_name : ℕ
  pub totals : MetricTotals

abbrev pub no_totals : MetricTotals
no_totals = record { calls = 0; logged_in_seconds = 0; talk_seconds = 0; wrap_seconds = 0 }

abbrev pub plus : MetricTotals → MetricTotals → MetricTotals
plus t u = record {
  calls = t.calls + u.calls;
  logged_in_seconds = t.logged_in_seconds + u.logged_in_seconds;
  talk_seconds = t.talk_seconds + u.talk_seconds;
  wrap_seconds = t.wrap_seconds + u.wrap_seconds;
}

abbrev total_from : MetricTotals → List ComparableMetric → MetricTotals
total_from t [] = t
total_from t (m ∷ ms) = total_from (plus t m.totals) ms

-- `totalsForMetrics`.
unfoldable pub totals_for_metrics : List ComparableMetric → MetricTotals
totals_for_metrics ms = total_from no_totals ms

pub record MetricDifference : Type 0 where
  pub before : ℕ
  pub after : ℕ
  pub difference : ℤ
  pub percentage_difference : Option (ℤ × ℕ)

abbrev subtract : ℕ → ℕ → ℤ
subtract a b = if leb b a then pos (a - b) else negsuc (b - a - 1)

-- `difference`.
unfoldable pub difference_of : ℕ → ℕ → MetricDifference
difference_of before after = record {
  before = before;
  after = after;
  difference = subtract after before;
  percentage_difference =
      if before == 0 then none else some (subtract (after * 100) (before * 100), before);
}

-- An entry of the map of totals.
pub record AgentTotals : Type 0 where
  pub agent_profile_id : ℕ
  pub agent_name : ℕ
  pub totals : MetricTotals

abbrev pub add_metric : ComparableMetric → List AgentTotals → List AgentTotals
add_metric m [] =
    record {
      agent_profile_id = m.agent_profile_id;
      agent_name = m.source_agent_name;
      totals = plus no_totals m.totals;
    }
    ∷ []
add_metric m (a ∷ rest) =
    if a.agent_profile_id == m.agent_profile_id
    then record a { totals = plus a.totals m.totals } ∷ rest
    else a ∷ add_metric m rest

-- `agentTotals`.
unfoldable pub agent_totals : List ComparableMetric → List AgentTotals → List AgentTotals
agent_totals [] table = table
agent_totals (m ∷ ms) table = agent_totals ms (add_metric m table)

abbrev pub get_totals : ℕ → List AgentTotals → Option AgentTotals
get_totals id table = find (λ (a : AgentTotals). a.agent_profile_id == id) table

abbrev pub totals_of : Option AgentTotals → MetricTotals
totals_of none = no_totals
totals_of (some a) = a.totals

abbrev name_of : Option AgentTotals → Option AgentTotals → ℕ → ℕ
name_of after before id = or_else (name after) (or_else (name before) id)
  where
    name : Option AgentTotals → Option ℕ
    name none = none
    name (some a) = some a.agent_name

pub record AgentMetricDifference : Type 0 where
  pub agent_profile_id : ℕ
  pub agent_name : ℕ
  pub calls : MetricDifference
  pub logged_in_seconds : MetricDifference
  pub talk_seconds : MetricDifference
  pub wrap_seconds : MetricDifference

abbrev pub row_of : List AgentTotals → List AgentTotals → ℕ → AgentMetricDifference
row_of current uploaded id =
    let before = totals_of (get_totals id current) in
    let after = totals_of (get_totals id uploaded) in
    record {
      agent_profile_id = id;
      agent_name = name_of (get_totals id uploaded) (get_totals id current) id;
      calls = difference_of before.calls after.calls;
      logged_in_seconds = difference_of before.logged_in_seconds after.logged_in_seconds;
      talk_seconds = difference_of before.talk_seconds after.talk_seconds;
      wrap_seconds = difference_of before.wrap_seconds after.wrap_seconds;
    }

abbrev pub absent_from : List AgentTotals → AgentTotals → Bool
absent_from table a = is_none (get_totals a.agent_profile_id table)

abbrev pub id_of : AgentTotals → ℕ
id_of a = a.agent_profile_id

-- `allAgentIds`: the current ones, then the new ones.
abbrev pub all_agent_ids : List AgentTotals → List AgentTotals → List ℕ
all_agent_ids current uploaded =
    map id_of current ++ map id_of (select_where (absent_from current) uploaded)

pub record ImportComparison : Type 0 where
  pub current_agent_count : ℕ
  pub matched_agent_count : ℕ
  pub new_agents : List ℕ
  pub missing_agents : List ℕ
  pub calls : MetricDifference
  pub logged_in_seconds : MetricDifference
  pub talk_seconds : MetricDifference
  pub wrap_seconds : MetricDifference
  pub agents : List AgentMetricDifference

-- `compareMetrics`.
unfoldable pub compare_metrics : (current uploaded : List ComparableMetric) → ImportComparison
compare_metrics current uploaded =
    let before = totals_for_metrics current in
    let after = totals_for_metrics uploaded in
    let olds = agent_totals current [] in
    let news = agent_totals uploaded [] in
    record {
      current_agent_count = length olds;
      matched_agent_count = length news;
      new_agents = map (λ (a : AgentTotals). a.agent_name) (select_where (absent_from olds) news);
      missing_agents =
          map (λ (a : AgentTotals). a.agent_name) (select_where (absent_from news) olds);
      calls = difference_of before.calls after.calls;
      logged_in_seconds = difference_of before.logged_in_seconds after.logged_in_seconds;
      talk_seconds = difference_of before.talk_seconds after.talk_seconds;
      wrap_seconds = difference_of before.wrap_seconds after.wrap_seconds;
      agents = map (row_of olds news) (all_agent_ids olds news);
    }
