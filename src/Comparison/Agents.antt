-- ===== src/Comparison/Agents.antt =====
-- The rows of a comparison, src/import/versioning.ts, against sums over the metrics themselves.
use openers_performance_dash.Prelude.{
  ℕ, ◌≡◌, refl, inl, inr, ◌⊎◌, true, false, List, [], ◌∷◌, map, arith, ◌==◌, if◌then◌else◌, In,
  In-map, In-left, In-right, Bool-cases, Option-cases, is_none,
}
use openers_performance_dash.Prelude.Table.{find-In, select_where, In-select_where}
use openers_performance_dash.Comparison.{
  MetricTotals, ComparableMetric, no_totals, plus, AgentTotals, add_metric, agent_totals,
  get_totals, totals_of, row_of, all_agent_ids, id_of, absent_from, AgentMetricDifference,
  difference_of, compare_metrics,
}

-- The sum of an agent's metrics.
abbrev pub sum_of : ℕ → List ComparableMetric → MetricTotals → MetricTotals
sum_of id [] t = t
sum_of id (m ∷ ms) t = sum_of id ms (if m.agent_profile_id == id then plus t m.totals else t)

add_metric-totals :
    (id : ℕ) (m : ComparableMetric) (table : List AgentTotals)
    → totals_of (get_totals id (add_metric m table)) ≡ (
        if m.agent_profile_id == id
        then plus (totals_of (get_totals id table)) m.totals
        else totals_of (get_totals id table))
add_metric-totals id m [] = elim (Bool-cases (m.agent_profile_id == id)) [
  | inl t ↦ rw t refl
  | inr f ↦ rw f refl
]
add_metric-totals id m (a ∷ table) = ground (arith, add_metric-totals id m table)

agent_totals-sum :
    (id : ℕ) (ms : List ComparableMetric) (table : List AgentTotals)
    → totals_of (get_totals id (agent_totals ms table))
      ≡ sum_of id ms (totals_of (get_totals id table))
unfolding agent_totals
agent_totals-sum id [] table = refl
agent_totals-sum id (m ∷ ms) table =
    rw (agent_totals-sum id ms (add_metric m table), add_metric-totals id m table) refl

-- An agent with a metric has an entry.
add_metric-keeps :
    (id : ℕ) (m : ComparableMetric) (table : List AgentTotals)
    → is_none (get_totals id table) ≡ false
    → is_none (get_totals id (add_metric m table)) ≡ false
add_metric-keeps id m [] e = cc e
add_metric-keeps id m (a ∷ table) e = ground (arith, e, add_metric-keeps id m table)

add_metric-has :
    (m : ComparableMetric) (table : List AgentTotals)
    → is_none (get_totals m.agent_profile_id (add_metric m table)) ≡ false
add_metric-has m [] = ground arith
add_metric-has m (a ∷ table) = ground (arith, add_metric-has m table)

agent_totals-keeps :
    (id : ℕ) (ms : List ComparableMetric) (table : List AgentTotals)
    → is_none (get_totals id table) ≡ false
    → is_none (get_totals id (agent_totals ms table)) ≡ false
unfolding agent_totals
agent_totals-keeps id [] table e = e
agent_totals-keeps id (m ∷ ms) table e =
    agent_totals-keeps id ms (add_metric m table) (add_metric-keeps id m table e)

agent_totals-has :
    (m : ComparableMetric) (ms : List ComparableMetric) (table : List AgentTotals)
    → In m ms
    → is_none (get_totals m.agent_profile_id (agent_totals ms table)) ≡ false
unfolding agent_totals
agent_totals-has m [] table n = elim n [ ]
agent_totals-has m (w ∷ ms) table (inl e) =
    rw e (agent_totals-keeps w.agent_profile_id ms (add_metric w table) (add_metric-has w table))
agent_totals-has m (w ∷ ms) table (inr n) = agent_totals-has m ms (add_metric w table) n

-- An entry is in the table, under its agent.
entry :
    (id : ℕ) (table : List AgentTotals)
    → is_none (get_totals id table) ≡ false
    → (a : AgentTotals) × In a table × (a.agent_profile_id ≡ id)
entry id table e = elim (Option-cases (get_totals id table)) [
  | inl n ↦ absurd (cc (rw n at e))
  | inr (a, f) ↦
      let (m, t) = find-In (λ (a : AgentTotals). a.agent_profile_id == id) table a f in
      (a, m, ground (arith, t))
]

listed_current :
    (id : ℕ) (current uploaded : List AgentTotals)
    → is_none (get_totals id current) ≡ false
    → In id (all_agent_ids current uploaded)
listed_current id current uploaded e =
    let (a, m, q) = entry id current e in
    rw q at (
      In-left (map id_of current) (map id_of (select_where (absent_from current) uploaded))
        (id_of a) (In-map id_of a current m))

listed :
    (id : ℕ) (current uploaded : List AgentTotals)
    → is_none (get_totals id current) ≡ false ⊎ (is_none (get_totals id uploaded) ≡ false)
    → In id (all_agent_ids current uploaded)
listed id current uploaded (inl e) = listed_current id current uploaded e
listed id current uploaded (inr e) = elim (Bool-cases (is_none (get_totals id current))) [
  | inr f ↦ listed_current id current uploaded f
  | inl t ↦
      let (a, m, q) = entry id uploaded e in
      let absent : absent_from current a ≡ true = rw q t in
      rw q at (
        In-right (map id_of current) (map id_of (select_where (absent_from current) uploaded))
          (id_of a)
          (In-map id_of a (select_where (absent_from current) uploaded)
            (In-select_where (absent_from current) uploaded a m absent)))
]

-- What a row compares.
pub record IsRowOf (current uploaded : List ComparableMetric) (r : AgentMetricDifference)
    : Type 0 where
  pub before : MetricTotals
  pub after : MetricTotals
  pub sum_before : before ≡ sum_of r.agent_profile_id current no_totals
  pub sum_after : after ≡ sum_of r.agent_profile_id uploaded no_totals
  pub calls : r.calls ≡ difference_of before.calls after.calls
  pub logged_in_seconds :
      r.logged_in_seconds ≡ difference_of before.logged_in_seconds after.logged_in_seconds
  pub talk_seconds : r.talk_seconds ≡ difference_of before.talk_seconds after.talk_seconds
  pub wrap_seconds : r.wrap_seconds ≡ difference_of before.wrap_seconds after.wrap_seconds

-- Every agent with a current or an uploaded metric has a row in the comparison, and it compares the
-- sums of that agent's current and uploaded metrics.
pub compare_metrics-IsRowOf :
    (current uploaded : List ComparableMetric) (m : ComparableMetric)
    → In m current ⊎ In m uploaded
    → (r : AgentMetricDifference) × In r (compare_metrics current uploaded).agents
      × (r.agent_profile_id ≡ m.agent_profile_id)
      × IsRowOf current uploaded r
unfolding compare_metrics
compare_metrics-IsRowOf current uploaded m n =
    let id = m.agent_profile_id in
    let olds = agent_totals current [] in
    let news = agent_totals uploaded [] in
    let there : In id (all_agent_ids olds news) = listed id olds news (elim n [
      | inl i ↦ inl (agent_totals-has m current [] i)
      | inr i ↦ inr (agent_totals-has m uploaded [] i)
    ]) in
    (
      row_of olds news id,
      In-map (row_of olds news) id (all_agent_ids olds news) there,
      refl,
      record {
        before = totals_of (get_totals id olds);
        after = totals_of (get_totals id news);
        sum_before = agent_totals-sum id current [];
        sum_after = agent_totals-sum id uploaded [];
        calls = refl;
        logged_in_seconds = refl;
        talk_seconds = refl;
        wrap_seconds = refl;
      },
    )
