-- ===== src/Leaderboard/Tests.antt =====
-- Three rows, ranked and sorted, and the theorems at them.
use openers_performance_dash.Prelude.{ℕ, ◌≡◌, refl, none, some, List, [], ◌∷◌, map}
use mathlib.Core.List.{Perm}
use openers_performance_dash.Prelude.Sort.{sort, Ordered}
use openers_performance_dash.Leaderboard.{
  LeaderboardRow, rank_leaderboard_rows, SortState, conversion, descending,
  sort_leaderboard_display_rows, next_leaderboard_sort, transfers,
}
use openers_performance_dash.Leaderboard.Ranked.{
  RanksBefore, unranked, CountsFrom, rank_leaderboard_rows-Ordered,
}
use openers_performance_dash.Leaderboard.Shown.{ShownBefore, sort_leaderboard_display_rows-Ordered}

abbrev row : ℕ → ℕ → ℕ → ℕ → LeaderboardRow
row id name calls deals = record {
  profile_id = id;
  american_name = name;
  transfer_count = calls;
  closed_deals = deals;
  rank = none;
}

abbrev rows : List LeaderboardRow
rows = row 1 30 10 4 ∷ row 2 20 0 4 ∷ row 3 10 5 3 ∷ []

abbrev by_conversion : SortState
by_conversion = record { column = conversion; direction = descending }

ranked_example :
    rank_leaderboard_rows rows
    ≡ record (row 2 20 0 4) { rank = some 1 }
      ∷ record (row 1 30 10 4) { rank = some 2 }
      ∷ record (row 3 10 5 3) { rank = some 3 }
      ∷ []
unfolding rank_leaderboard_rows sort
ranked_example = refl

shown_example :
    sort_leaderboard_display_rows rows (some by_conversion)
    ≡ row 3 10 5 3 ∷ row 1 30 10 4 ∷ row 2 20 0 4 ∷ []
unfolding sort_leaderboard_display_rows sort
shown_example = refl

cycle_example :
    next_leaderboard_sort
      (next_leaderboard_sort (next_leaderboard_sort none transfers) transfers)
      transfers
    ≡ none
unfolding next_leaderboard_sort
cycle_example = refl

rank_leaderboard_rows-Ordered_example :
    Perm (map unranked (rank_leaderboard_rows rows)) (map unranked rows)
    × Ordered RanksBefore (rank_leaderboard_rows rows)
    × CountsFrom 1 (rank_leaderboard_rows rows)
rank_leaderboard_rows-Ordered_example = rank_leaderboard_rows-Ordered rows

sort_leaderboard_display_rows-Ordered_example :
    Perm (sort_leaderboard_display_rows rows (some by_conversion)) rows
    × Ordered
        (ShownBefore conversion descending)
        (sort_leaderboard_display_rows rows (some by_conversion))
sort_leaderboard_display_rows-Ordered_example =
    sort_leaderboard_display_rows-Ordered rows by_conversion
