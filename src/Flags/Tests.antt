-- ===== src/Flags/Tests.antt =====
-- Two weeks of one agent's deals, and the theorems at them.
use openers_performance_dash.Prelude.{◌≡◌, refl, true, false, some, List, [], ◌∷◌}
use openers_performance_dash.Flags.{
  TransferFlagClassification, Week, DateWindow, week_loop, split_transfer_flag_weeks, Agent, Deal,
  flag_rows, zero_counts, count_deal, count_deals, classify_transfer_flag, build_transfer_flag_rows,
  calculate_performance_flags,
}
use openers_performance_dash.Flags.Weeks.{IsWeekly, Splits-IsWeekly, week_loop-Splits}
use openers_performance_dash.Flags.Rows.{deals_in, build_transfer_flag_rows-counts}

-- From a Wednesday to the Tuesday after.
abbrev range : DateWindow
range = record { from = some 2; to = some 8 }

abbrev two_weeks : List Week
two_weeks =
    record { start = 0; end = 6; through = 6 } ∷ record { start = 7; end = 13; through = 8 } ∷ []

split_example : split_transfer_flag_weeks 3 range [] 20 ≡ some two_weeks
unfolding split_transfer_flag_weeks week_loop
split_example = refl

abbrev agents : List Agent
agents = record { id = 1; name = 11; team_names = [] } ∷ []

abbrev deals : List Deal
deals =
    record { agent_id = 1; date = 8 }
    ∷ record { agent_id = 1; date = 3 }
    ∷ record { agent_id = 2; date = 3 }
    ∷ record { agent_id = 1; date = 7 }
    ∷ []

rows_example :
    build_transfer_flag_rows agents deals two_weeks
    ≡ record {
      agent = record { id = 1; name = 11; team_names = [] };
      start = 0;
      end = 6;
      closed_deals = 1;
      classification = TransferFlagClassification.strong;
    }
      ∷ record {
        agent = record { id = 1; name = 11; team_names = [] };
        start = 7;
        end = 8;
        closed_deals = 2;
        classification = TransferFlagClassification.improvement;
      }
      ∷ []
unfolding build_transfer_flag_rows zero_counts count_deals count_deal classify_transfer_flag
rows_example = refl

flags_example :
    calculate_performance_flags (record { talk = 3600; wrap = 421; ready = 0; paused = 0 })
    ≡ record { wrap_flag = true; pause_flag = false }
unfolding calculate_performance_flags
flags_example = refl

two_weeks-IsWeekly : IsWeekly 2 8 two_weeks
unfolding split_transfer_flag_weeks week_loop
two_weeks-IsWeekly = Splits-IsWeekly 2 8 two_weeks (week_loop-Splits 3 0 8 two_weeks refl)

build_transfer_flag_rows-counts_example :
    build_transfer_flag_rows agents deals two_weeks ≡ flag_rows (deals_in deals) agents two_weeks
build_transfer_flag_rows-counts_example =
    build_transfer_flag_rows-counts 2 8 two_weeks two_weeks-IsWeekly agents deals
