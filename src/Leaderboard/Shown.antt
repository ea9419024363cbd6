-- ===== src/Leaderboard/Shown.antt =====
-- The orders by which src/leaderboard/sorting.ts sorts the rows that are shown.
use openers_performance_dash.Prelude.{
  ℕ, ◌*◌, ◌≡◌, ◌<◌, ◌≤◌, refl, inl, inr, ◌⊎◌, Bool, true, false, ◌&&◌, ◌||◌, Option, none, some,
  List, arith, ltb, ◌==◌, Bool-cases, or_else,
}
use mathlib.Core.List.{Perm}
use openers_performance_dash.Prelude.Sort.{sort-Perm, Ordered, IsSorted-Ordered, sort-IsSorted}
use openers_performance_dash.Leaderboard.{
  LeaderboardRow, SortColumn, SortDirection, SortState, conversion, transfers, ascending,
  descending, is_shown_before, is_shown_before_by, rank_order, value_of,
  sort_leaderboard_display_rows,
}
use openers_performance_dash.Leaderboard.Fractions.{cross_lt_le, cross_le_lt, cross_le}

abbrev IsFraction : Option (ℕ × ℕ) → Type 0
IsFraction none = Unit
IsFraction (some (a, b)) = 0 < b

value_of-IsFraction : (c : SortColumn) (r : LeaderboardRow) → IsFraction (value_of c r)
value_of-IsFraction transfers r = omega arith
value_of-IsFraction SortColumn.closed_deals r = omega arith
value_of-IsFraction conversion r = elim (Bool-cases (ltb 0 r.transfer_count)) [
  | inl t ↦ rw t (ground (arith, t))
  | inr f ↦ rw f tt
]

shown_by_total :
    (d : SortDirection) (v w : Option (ℕ × ℕ)) (t u : Bool)
    → (t ≡ false → u ≡ true)
    → is_shown_before_by d v w t ≡ false
    → is_shown_before_by d w v u ≡ true
shown_by_total d none none t u h e = h e
shown_by_total d none (some w) t u h e = refl
shown_by_total d (some v) none t u h e = cc e
shown_by_total ascending (some (a, b)) (some (c, d)) t u h e = ground (arith, h, e)
shown_by_total descending (some (a, b)) (some (c, d)) t u h e = ground (arith, h, e)

-- What a comparison of fractions says of their cross products.
smaller :
    (x y : ℕ) (t : Bool) → (ltb x y || ((x == y) && t)) ≡ true → (x < y) ⊎ ((x ≡ y) × (t ≡ true))
smaller x y t e = ground (arith, e)

smaller_of :
    (x y : ℕ) (t : Bool) → (x < y) ⊎ ((x ≡ y) × (t ≡ true)) → (ltb x y || ((x == y) && t)) ≡ true
smaller_of x y t e = ground (arith, e)

cross_trans :
    (a b c d e f : ℕ) (t u v : Bool)
    → 0 < b
    → 0 < d
    → 0 < f
    → (t ≡ true → u ≡ true → v ≡ true)
    → (ltb (a * d) (c * b) || ((a * d == c * b) && t)) ≡ true
    → (ltb (c * f) (e * d) || ((c * f == e * d) && u)) ≡ true
    → (ltb (a * f) (e * b) || ((a * f == e * b) && v)) ≡ true
cross_trans a b c d e f t u v hb hd hf h x y =
    smaller_of (a * f) (e * b) v (elim (smaller (a * d) (c * b) t x) [
      | inl p ↦ elim (smaller (c * f) (e * d) u y) [
        | inl q ↦ inl (cross_lt_le a b c d e f hf p (omega (arith, q)))
        | inr (q, k) ↦ inl (cross_lt_le a b c d e f hf p (omega (arith, q)))
      ]
      | inr (p, j) ↦ elim (smaller (c * f) (e * d) u y) [
        | inl q ↦ inl (cross_le_lt a b c d e f hb (omega (arith, p)) q)
        | inr (q, k) ↦
            let one : a * f ≤ e * b =
              cross_le a b c d e f hd (omega (arith, p)) (omega (arith, q)) in
            let two : e * b ≤ a * f =
              cross_le e f c d a b hd (omega (arith, q)) (omega (arith, p)) in
            inr (omega (arith, one, two), h j k)
      ]
    ])

turned :
    (x y : ℕ) (t : Bool) → (ltb x y || ((y == x) && t)) ≡ true → (ltb x y || ((x == y) && t)) ≡ true
turned x y t e = ground (arith, e)

shown_by_trans :
    (d : SortDirection) (v w x : Option (ℕ × ℕ)) (t u r : Bool)
    → IsFraction v
    → IsFraction w
    → IsFraction x
    → (t ≡ true → u ≡ true → r ≡ true)
    → is_shown_before_by d v w t ≡ true
    → is_shown_before_by d w x u ≡ true
    → is_shown_before_by d v x r ≡ true
shown_by_trans d none none none t u r i j k h e f = h e f
shown_by_trans d none (some w) x t u r i j k h e f = cc e
shown_by_trans d none none (some x) t u r i j k h e f = cc f
shown_by_trans d (some v) w none t u r i j k h e f = refl
shown_by_trans d (some v) none (some x) t u r i j k h e f = cc f
shown_by_trans ascending (some (a, b)) (some (c, d)) (some (m, n)) t u r i j k h e f =
    cross_trans a b c d m n t u r i j k h e f
shown_by_trans descending (some (a, b)) (some (c, d)) (some (m, n)) t u r i j k h e f =
    back (m * b) (a * n) r (
      cross_trans m n c d a b u t r k j i (λ p q. h q p) (turned (m * d) (c * n) u f)
        (turned (c * b) (a * d) t e))
  where
    back :
        (x y : ℕ) (t : Bool)
        → (ltb x y || ((x == y) && t)) ≡ true
        → (ltb x y || ((y == x) && t)) ≡ true
    back x y t e = ground (arith, e)

-- A row without a rank stands behind all ranks that a row can have.
abbrev place : Option ℕ → ℕ
place none = 9007199254740991
place (some n) = n

-- A smaller number in the direction that is asked for, or the same and a rank that is not later.
abbrev Before : SortDirection → ℕ → ℕ → (ranked : Type 0) → Type 0
Before ascending a b ranked = (a < b) ⊎ ((a ≡ b) × ranked)
Before descending a b ranked = (b < a) ⊎ ((a ≡ b) × ranked)

-- How two rows may follow each other. Two conversions compare as the fractions of closed deals and
-- transfers do, by their cross products.
abbrev pub ShownBefore : SortColumn → SortDirection → LeaderboardRow → LeaderboardRow → Type 0
ShownBefore transfers d x y =
    Before d x.transfer_count y.transfer_count (place x.rank ≤ place y.rank)
ShownBefore SortColumn.closed_deals d x y =
    Before d x.closed_deals y.closed_deals (place x.rank ≤ place y.rank)
ShownBefore conversion d x y =
    ((0 < x.transfer_count) × (y.transfer_count ≡ 0))
    ⊎ (((x.transfer_count ≡ 0) × (y.transfer_count ≡ 0) × (place x.rank ≤ place y.rank))
        ⊎ ((0 < x.transfer_count)
            × (0 < y.transfer_count)
            × Before d (x.closed_deals * y.transfer_count) (y.closed_deals * x.transfer_count)
                (place x.rank ≤ place y.rank)))

place-or_else : (o : Option ℕ) → or_else o 9007199254740991 ≡ place o
place-or_else none = refl
place-or_else (some n) = refl

-- The comparison of two conversions, which are percentages.
rates_mean :
    (d : SortDirection) (m n p q : ℕ) (tie : Bool) (ranked : Type 0)
    → (tie ≡ true → ranked)
    → is_shown_before_by d (some (m * 100, n)) (some (p * 100, q)) tie ≡ true
    → Before d (m * q) (p * n) ranked
rates_mean ascending m n p q tie ranked h e = elim (smaller (m * 100 * q) (p * 100 * n) tie e) [
  | inl l ↦ inl (omega (arith, l))
  | inr (k, r) ↦ inr (omega (arith, k), h r)
]
rates_mean descending m n p q tie ranked h e =
    elim (smaller (p * 100 * n) (m * 100 * q) tie (turned (p * 100 * n) (m * 100 * q) tie e)) [
      | inl l ↦ inl (omega (arith, l))
      | inr (k, r) ↦ inr (omega (arith, k), h r)
    ]

shown_means :
    (c : SortColumn) (d : SortDirection) (x y : LeaderboardRow)
    → is_shown_before (record { column = c; direction = d }) x y ≡ true
    → ShownBefore c d x y
shown_means transfers ascending x y e =
    ground (arith, e, place-or_else x.rank, place-or_else y.rank)
shown_means transfers descending x y e =
    ground (arith, e, place-or_else x.rank, place-or_else y.rank)
shown_means SortColumn.closed_deals ascending x y e =
    ground (arith, e, place-or_else x.rank, place-or_else y.rank)
shown_means SortColumn.closed_deals descending x y e =
    ground (arith, e, place-or_else x.rank, place-or_else y.rank)
shown_means conversion d x y e = elim (Bool-cases (ltb 0 x.transfer_count)) [
  | inr f ↦ elim (Bool-cases (ltb 0 y.transfer_count)) [
    | inl u ↦ absurd (cc (rw (f, u) at e))
    | inr g ↦ inr (inl (ground (arith, f), ground (arith, g), ranked (rw (f, g) at e)))
  ]
  | inl t ↦ elim (Bool-cases (ltb 0 y.transfer_count)) [
    | inr g ↦ inl (ground (arith, t), ground (arith, g))
    | inl u ↦ inr (
        inr (
          ground (arith, t),
          ground (arith, u),
          rates_mean d x.closed_deals x.transfer_count y.closed_deals y.transfer_count
              (rank_order x y) _ ranked (rw (t, u) at e),
        ))
  ]
]
  where
    ranked : rank_order x y ≡ true → place x.rank ≤ place y.rank
    ranked r = ground (arith, r, place-or_else x.rank, place-or_else y.rank)

-- Sorting by a column keeps the rows. Before each later row stands, by transfers or closed deals, one
-- with a smaller number in the direction asked for; by conversion, one with a conversion if the later
-- has none, or else with a smaller one in that direction; rows with equal values, or both without a
-- conversion, follow their ranks.
pub sort_leaderboard_display_rows-Ordered :
    (rows : List LeaderboardRow) (s : SortState)
    → Perm (sort_leaderboard_display_rows rows (some s)) rows
      × Ordered (ShownBefore s.column s.direction) (sort_leaderboard_display_rows rows (some s))
unfolding sort_leaderboard_display_rows
sort_leaderboard_display_rows-Ordered rows s = (
  sort-Perm (is_shown_before s) rows,
  IsSorted-Ordered (is_shown_before s) (ShownBefore s.column s.direction)
      (shown_means s.column s.direction) _
      (sort-IsSorted (is_shown_before s)
        (λ x y.
          shown_by_total s.direction (value_of s.column x) (value_of s.column y) (rank_order x y)
            (rank_order y x) (λ e. ground (arith, e)))
        (λ x y z.
          shown_by_trans s.direction (value_of s.column x) (value_of s.column y)
            (value_of s.column z) (rank_order x y) (rank_order y z) (rank_order x z)
            (value_of-IsFraction s.column x) (value_of-IsFraction s.column y)
            (value_of-IsFraction s.column z) (λ e f. ground (arith, e, f)))
        rows),
)
