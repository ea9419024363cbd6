-- ===== src/Flags.antt =====
-- Flags of agents, src/flags/domain.ts, with the weeks of src/coaching/week.ts. A date is its day's
-- number, from a Monday on: the code's texts of dates, year first, are in the order of their days. A rate
-- is a fraction, its numerator first; the code compares the nearest double-precision number.
pub mod Weeks
pub mod Rows
mod Tests
use openers_performance_dash.Prelude.{
  ℕ, zero, suc, ◌+◌, ◌-◌, ◌*◌, ◌%◌, min, Bool, true, false, not, ◌&&◌, ◌||◌, Option, none, some,
  List, [], ◌∷◌, ◌++◌, map, ltb, leb, ◌==◌, if◌then◌else◌, or_else,
}
use openers_performance_dash.Prelude.Table.{find}

pub data TransferFlagClassification : Type 0 where
  strong improvement unflagged : TransferFlagClassification

unfoldable pub classify_transfer_flag : ℕ → TransferFlagClassification
classify_transfer_flag closed_deals =
    if leb closed_deals 1 then strong else (if closed_deals == 2 then improvement else unflagged)

pub record TransferFlag : Type 0 where
  pub closed_deals : Option ℕ
  pub classification : Option TransferFlagClassification

-- `transferFlagFromSource`.
unfoldable pub transfer_flag_from_source : Bool → Option ℕ → TransferFlag
transfer_flag_from_source false deals = record { closed_deals = none; classification = none }
transfer_flag_from_source true deals = record {
  closed_deals = some (or_else deals 0);
  classification = some (classify_transfer_flag (or_else deals 0));
}

pub record Week : Type 0 where
  pub start : ℕ
  pub end : ℕ
  pub through : ℕ

-- `normalizeWeekStart`.
abbrev pub normalize_week_start : ℕ → ℕ
normalize_week_start day = day - day % 7

abbrev pub week_of : ℕ → ℕ → Week
week_of start last = record {
  start = start;
  end = start + 6;
  through = if ltb (start + 6) last then start + 6 else last;
}

-- The loop, with fuel; `none` where it has not ended.
unfoldable pub week_loop : (fuel start last : ℕ) → Option (List Week)
week_loop zero start last = none
week_loop (suc fuel) start last =
    let rest = week_loop fuel (start + 7) last in
    if leb start last
    then elim rest [ none ↦ none | some ws ↦ some (week_of start last ∷ ws) ]
    else some []

abbrev least : ℕ → List ℕ → ℕ
least d [] = d
least d (e ∷ ds) = min d (least e ds)

-- The earliest of some days.
abbrev earliest : List ℕ → Option ℕ
earliest [] = none
earliest (d ∷ ds) = some (least d ds)

pub record DateWindow : Type 0 where
  pub from : Option ℕ
  pub to : Option ℕ

abbrev pub first_date : DateWindow → List ℕ → ℕ → ℕ
first_date w days today = or_else w.from (or_else (earliest days) today)

abbrev pub last_date : DateWindow → ℕ → ℕ
last_date w today = or_else w.to today

-- `splitTransferFlagWeeks`.
unfoldable pub split_transfer_flag_weeks :
    (fuel : ℕ) → DateWindow → (available_deal_dates : List ℕ) → (today : ℕ) → Option (List Week)
split_transfer_flag_weeks fuel w days today =
    if ltb (last_date w today) (first_date w days today)
    then some []
    else week_loop fuel (normalize_week_start (first_date w days today)) (last_date w today)

pub record Agent : Type 0 where
  pub id : ℕ
  pub name : ℕ
  pub team_names : List ℕ

pub record Deal : Type 0 where
  pub agent_id : ℕ
  pub date : ℕ

-- An entry of the map of counts, whose key joins the agent and the week.
pub record Count : Type 0 where
  pub agent_id : ℕ
  pub week_start : ℕ
  pub deals : ℕ

abbrev pub has_key : ℕ → ℕ → Count → Bool
has_key agent week c = c.agent_id == agent && c.week_start == week

abbrev pub is_within : ℕ → Week → Bool
is_within date w = leb w.start date && leb date w.through

-- `counts.set(key, n)`, in its place where the key is there.
abbrev pub set_count : ℕ → ℕ → ℕ → List Count → List Count
set_count agent week n [] = record { agent_id = agent; week_start = week; deals = n } ∷ []
set_count agent week n (c ∷ cs) =
    if has_key agent week c then record c { deals = n } ∷ cs else c ∷ set_count agent week n cs

abbrev pub get_count : ℕ → ℕ → List Count → Option ℕ
get_count agent week [] = none
get_count agent week (c ∷ cs) =
    if has_key agent week c then some c.deals else get_count agent week cs

abbrev zero_weeks : ℕ → List Week → List Count → List Count
zero_weeks agent [] cs = cs
zero_weeks agent (w ∷ ws) cs = zero_weeks agent ws (set_count agent w.start 0 cs)

unfoldable pub zero_counts : List Agent → List Week → List Count → List Count
zero_counts [] ws cs = cs
zero_counts (a ∷ agents) ws cs = zero_counts agents ws (zero_weeks a.id ws cs)

unfoldable pub count_deal : List Week → Deal → List Count → List Count
count_deal ws d cs = elim (find (is_within d.date) ws) [
  | none ↦ cs
  | some w ↦ elim (get_count d.agent_id w.start cs) [
    | none ↦ cs
    | some n ↦ set_count d.agent_id w.start (n + 1) cs
  ]
]

unfoldable pub count_deals : List Week → List Deal → List Count → List Count
count_deals ws [] cs = cs
count_deals ws (d ∷ ds) cs = count_deals ws ds (count_deal ws d cs)

pub record FlagRow : Type 0 where
  pub agent : Agent
  pub start : ℕ
  pub end : ℕ
  pub closed_deals : ℕ
  pub classification : TransferFlagClassification

abbrev is_flagged : TransferFlagClassification → Bool
is_flagged unflagged = false
is_flagged flag = true

abbrev pub row_of : Agent → Week → ℕ → List FlagRow
row_of a w n =
    if is_flagged (classify_transfer_flag n)
    then record {
      agent = a;
      start = w.start;
      end = w.through;
      closed_deals = n;
      classification = classify_transfer_flag n;
    }
      ∷ []
    else []

-- The rows of each agent and week, by a count of their deals.
abbrev pub agent_rows : (ℕ → Week → ℕ) → Agent → List Week → List FlagRow
agent_rows count a [] = []
agent_rows count a (w ∷ ws) = row_of a w (count a.id w) ++ agent_rows count a ws

abbrev pub flag_rows : (ℕ → Week → ℕ) → List Agent → List Week → List FlagRow
flag_rows count [] ws = []
flag_rows count (a ∷ agents) ws = agent_rows count a ws ++ flag_rows count agents ws

abbrev pub counted : List Count → ℕ → Week → ℕ
counted cs agent w = or_else (get_count agent w.start cs) 0

-- `buildTransferFlagRows`.
unfoldable pub build_transfer_flag_rows : List Agent → List Deal → List Week → List FlagRow
build_transfer_flag_rows agents deals ws =
    flag_rows (counted (count_deals ws deals (zero_counts agents ws []))) agents ws

-- Seconds on calls.
pub record Seconds : Type 0 where
  pub talk : ℕ
  pub wrap : ℕ
  pub ready : ℕ
  pub paused : ℕ

abbrev pub net_counted_seconds : Seconds → ℕ
net_counted_seconds s = s.talk + s.wrap + s.ready

abbrev fraction : ℕ → ℕ → Option (ℕ × ℕ)
fraction n d = if ltb 0 d then some (n, d) else none

-- `wrapMinutesPerTalkHour` and `pauseMinutesPerNetHour` of src/coaching/domain.ts.
abbrev pub wrap_minutes_per_talk_hour : Seconds → Option (ℕ × ℕ)
wrap_minutes_per_talk_hour s = fraction (s.wrap * 60) s.talk

abbrev pub pause_minutes_per_net_hour : Seconds → Option (ℕ × ℕ)
pause_minutes_per_net_hour s = fraction (s.paused * 60) (net_counted_seconds s)

abbrev exceeds : ℕ → Option (ℕ × ℕ) → Bool
exceeds limit none = false
exceeds limit (some (n, d)) = ltb (limit * d) n

pub record PerformanceFlags : Type 0 where
  pub wrap_flag : Bool
  pub pause_flag : Bool

-- The flags of `calculatePerformanceFlags`.
unfoldable pub calculate_performance_flags : Seconds → PerformanceFlags
calculate_performance_flags s = record {
  wrap_flag = exceeds 7 (wrap_minutes_per_talk_hour s);
  pause_flag = exceeds 8 (pause_minutes_per_net_hour s);
}
