-- ===== src/Leaderboard/Ranked.antt =====
-- What src/leaderboard/ranking.ts makes of rows.
use openers_performance_dash.Prelude.{
  ℕ, ◌+◌, ◌≡◌, ◌<◌, ◌≤◌, ◌⊎◌, refl, ap, true, false, Option, none, some, List, [], ◌∷◌, map, arith,
  All,
}
use mathlib.Core.List.{Perm}
use mathlib.Core.List.Perm
use openers_performance_dash.Prelude.Sort.{
  sort, sort-Perm, IsSorted, Ordered, IsSorted-Ordered, sort-IsSorted,
}
use openers_performance_dash.Leaderboard.{
  LeaderboardRow, is_ranked_before, number_from, rank_leaderboard_rows,
}

abbrev pub unranked : LeaderboardRow → LeaderboardRow
unranked r = record r { rank = none }

-- Ranks from a number on.
abbrev pub CountsFrom : ℕ → List LeaderboardRow → Type 0
CountsFrom n [] = Unit
CountsFrom n (r ∷ rs) = (r.rank ≡ some n) × CountsFrom (n + 1) rs

number_from-unranked :
    (n : ℕ) (rs : List LeaderboardRow) → map unranked (number_from n rs) ≡ map unranked rs
number_from-unranked n [] = refl
number_from-unranked n (r ∷ rs) = ap (λ x. unranked r ∷ x) (number_from-unranked (n + 1) rs)

number_from-CountsFrom : (n : ℕ) (rs : List LeaderboardRow) → CountsFrom n (number_from n rs)
number_from-CountsFrom n [] = tt
number_from-CountsFrom n (r ∷ rs) = (refl, number_from-CountsFrom (n + 1) rs)

number_from-All :
    (n : ℕ) (x : LeaderboardRow) (k : Option ℕ) (rs : List LeaderboardRow)
    → All (λ y. is_ranked_before x y ≡ true) rs
    → All (λ y. is_ranked_before (record x { rank = k }) y ≡ true) (number_from n rs)
number_from-All n x k [] h = tt
number_from-All n x k (r ∷ rs) h = (h.0, number_from-All (n + 1) x k rs h.1)

number_from-IsSorted :
    (n : ℕ) (rs : List LeaderboardRow)
    → IsSorted is_ranked_before rs
    → IsSorted is_ranked_before (number_from n rs)
number_from-IsSorted n [] h = tt
number_from-IsSorted n (r ∷ rs) h =
    (number_from-All (n + 1) r (some n) rs h.0, number_from-IsSorted (n + 1) rs h.1)

ranked_total : (x y : LeaderboardRow) → is_ranked_before x y ≡ false → is_ranked_before y x ≡ true
ranked_total x y e = ground (arith, e)

ranked_trans :
    (x y z : LeaderboardRow)
    → is_ranked_before x y ≡ true
    → is_ranked_before y z ≡ true
    → is_ranked_before x z ≡ true
ranked_trans x y z e f = ground (arith, e, f)

-- More closed deals, or as many and a name that is not later.
abbrev pub RanksBefore : LeaderboardRow → LeaderboardRow → Type 0
RanksBefore left right =
    (right.closed_deals < left.closed_deals)
    ⊎ ((left.closed_deals ≡ right.closed_deals) × (left.american_name ≤ right.american_name))

ranked_means : (x y : LeaderboardRow) → is_ranked_before x y ≡ true → RanksBefore x y
ranked_means x y e = ground (arith, e)

-- The ranking has the same rows, but for their ranks; every row has more closed deals than each later
-- row, or as many and a name that is not after that row's; and the ranks count from one.
pub rank_leaderboard_rows-Ordered :
    (rows : List LeaderboardRow)
    → Perm (map unranked (rank_leaderboard_rows rows)) (map unranked rows)
      × Ordered RanksBefore (rank_leaderboard_rows rows)
      × CountsFrom 1 (rank_leaderboard_rows rows)
unfolding rank_leaderboard_rows
rank_leaderboard_rows-Ordered rows = (
  rw (number_from-unranked 1 (sort is_ranked_before rows))
      (Perm.map unranked (sort-Perm is_ranked_before rows)),
  IsSorted-Ordered is_ranked_before RanksBefore ranked_means _
      (number_from-IsSorted 1 _ (sort-IsSorted is_ranked_before ranked_total ranked_trans rows)),
  number_from-CountsFrom 1 _,
)
