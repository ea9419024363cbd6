-- ===== src/Leaderboard.antt =====
-- The order of leaderboards, src/leaderboard/ranking.ts and src/leaderboard/sorting.ts. An American name
-- is its place among all names as localeCompare orders them, so that names it takes for equal have one
-- place. A conversion is the fraction of closed deals and transfers; the code compares the nearest
-- double-precision number.
pub mod Ranked
pub mod Fractions
pub mod Shown
mod Tests
use openers_performance_dash.Prelude.{
  ℕ, ◌+◌, ◌*◌, Bool, true, false, not, ◌&&◌, ◌||◌, Option, none, some, List, [], ◌∷◌, ltb, leb,
  ◌==◌, if◌then◌else◌, or_else,
}
use openers_performance_dash.Prelude.Sort.{sort}

-- The columns of a row that its order reads or sets.
pub record LeaderboardRow : Type 0 where
  pub profile_id : ℕ
  pub american_name : ℕ
  pub transfer_count : ℕ
  pub closed_deals : ℕ
  pub rank : Option ℕ

-- The comparison of `rankLeaderboardRows`: the left row does not come after the right one.
abbrev pub is_ranked_before : LeaderboardRow → LeaderboardRow → Bool
is_ranked_before left right =
    ltb right.closed_deals left.closed_deals
    || (right.closed_deals == left.closed_deals && leb left.american_name right.american_name)

abbrev pub number_from : ℕ → List LeaderboardRow → List LeaderboardRow
number_from n [] = []
number_from n (r ∷ rs) = record r { rank = some n } ∷ number_from (n + 1) rs

-- `rankLeaderboardRows`.
unfoldable pub rank_leaderboard_rows : List LeaderboardRow → List LeaderboardRow
rank_leaderboard_rows rows = number_from 1 (sort is_ranked_before rows)

pub data SortColumn : Type 0 where
  transfers closed_deals conversion : SortColumn

pub data SortDirection : Type 0 where
  ascending descending : SortDirection

pub record SortState : Type 0 where
  pub column : SortColumn
  pub direction : SortDirection

abbrev is_same_column : SortColumn → SortColumn → Bool
is_same_column transfers transfers = true
is_same_column SortColumn.closed_deals SortColumn.closed_deals = true
is_same_column conversion conversion = true
is_same_column c d = false

-- `nextLeaderboardSort`.
unfoldable pub next_leaderboard_sort : Option SortState → SortColumn → Option SortState
next_leaderboard_sort none c = some (record { column = c; direction = descending })
next_leaderboard_sort (some s) c =
    if not (is_same_column s.column c)
    then some (record { column = c; direction = descending })
    else elim s.direction [
      | descending ↦ some (record { column = c; direction = ascending })
      | ascending ↦ none
    ]

-- A number or a fraction, its denominator second.
abbrev pub value_of : SortColumn → LeaderboardRow → Option (ℕ × ℕ)
value_of transfers r = some (r.transfer_count, 1)
value_of SortColumn.closed_deals r = some (r.closed_deals, 1)
value_of conversion r =
    if ltb 0 r.transfer_count then some (r.closed_deals * 100, r.transfer_count) else none

abbrev max_safe_integer : ℕ
max_safe_integer = 9007199254740991

abbrev pub rank_order : LeaderboardRow → LeaderboardRow → Bool
rank_order left right =
    leb (or_else left.rank max_safe_integer) (or_else right.rank max_safe_integer)

-- Fractions in a direction: the left one comes first, or is equal.
abbrev pub comes_first : SortDirection → ℕ × ℕ → ℕ × ℕ → Bool
comes_first ascending (a, b) (c, d) = ltb (a * d) (c * b)
comes_first descending (a, b) (c, d) = ltb (c * b) (a * d)

abbrev pub is_equal : ℕ × ℕ → ℕ × ℕ → Bool
is_equal (a, b) (c, d) = a * d == c * b

-- `compareNullableNumber(…) || rankOrder(…)`: the left row does not come after the right one.
abbrev pub is_shown_before_by : SortDirection → Option (ℕ × ℕ) → Option (ℕ × ℕ) → Bool → Bool
is_shown_before_by direction none none tie = tie
is_shown_before_by direction none (some v) tie = false
is_shown_before_by direction (some v) none tie = true
is_shown_before_by direction (some v) (some w) tie =
    comes_first direction v w || (is_equal v w && tie)

abbrev pub is_shown_before : SortState → LeaderboardRow → LeaderboardRow → Bool
is_shown_before s left right =
    is_shown_before_by s.direction (value_of s.column left) (value_of s.column right)
      (rank_order left right)

-- `sortLeaderboardDisplayRows`.
unfoldable pub sort_leaderboard_display_rows :
    List LeaderboardRow → Option SortState → List LeaderboardRow
sort_leaderboard_display_rows rows none = rows
sort_leaderboard_display_rows rows (some s) = sort (is_shown_before s) rows
