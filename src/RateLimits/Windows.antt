-- ===== src/RateLimits/Windows.antt =====
-- How many requests a window of src/auth/rate-limit.ts lets through.
use openers_performance_dash.Prelude.{
  ℕ, ◌+◌, ◌-◌, ◌≤◌, ◌≡◌, refl, true, ◌&&◌, inl, inr, Option, none, some, List, [], ◌∷◌, map, arith,
  leb, if◌then◌else◌, or_else, Bool-cases, ◌⊎◌,
}
use openers_performance_dash.RateLimits.{
  RateLimitInput, RateLimitRecord, Window, window_of, is_same_window, count_request, count_requests,
  count_of, answer_of, consume_rate_limits, RateLimitResult,
}

-- The requests of a window, and those of them that are let through by a limit of at most `limit`.
abbrev requests_in : (ℕ → ℕ) → Window → List RateLimitInput → ℕ
requests_in hash w [] = 0
requests_in hash w (i ∷ is) =
    let rest = requests_in hash w is in
    if is_same_window w (window_of hash i) then rest + 1 else rest

abbrev pub granted_in :
    (ℕ → ℕ) → Window → (limit : ℕ) → List RateLimitInput → List RateLimitResult → ℕ
granted_in hash w limit [] answers = 0
granted_in hash w limit (i ∷ is) [] = 0
granted_in hash w limit (i ∷ is) (a ∷ answers) =
    let rest = granted_in hash w limit is answers in
    if is_same_window w (window_of hash i) && leb i.limit limit && a.allowed then rest + 1 else rest

-- The calls of a time, one after the other.
unfoldable pub granted :
    (ℕ → ℕ) → Window → (limit : ℕ) → List (List RateLimitInput) → List RateLimitRecord → ℕ
granted hash w limit [] rs = 0
granted hash w limit (is ∷ calls) rs =
    let (answers, rs') = consume_rate_limits hash is rs in
    granted_in hash w limit is answers + granted hash w limit calls rs'

abbrev count_now : Window → List RateLimitRecord → ℕ
count_now w rs = or_else (count_of w rs) 0

count_request-adds :
    (hash : ℕ → ℕ) (w : Window) (i : RateLimitInput) (rs : List RateLimitRecord)
    → count_of w (count_request hash i rs)
      ≡ (if is_same_window w (window_of hash i) then some (count_now w rs + 1) else count_of w rs)
count_request-adds hash w i [] = ground arith
count_request-adds hash w i (r ∷ rs) = ground (arith, count_request-adds hash w i rs)

count_requests-adds :
    (hash : ℕ → ℕ) (w : Window) (is : List RateLimitInput) (rs : List RateLimitRecord)
    → count_now w (count_requests hash is rs) ≡ count_now w rs + requests_in hash w is
count_requests-adds hash w [] rs = omega arith
count_requests-adds hash w (i ∷ is) rs =
    rw (count_requests-adds hash w is (count_request hash i rs), count_request-adds hash w i rs)
      (ground arith)

count_of-same :
    (v w : Window) (rs : List RateLimitRecord)
    → is_same_window v w ≡ true
    → count_of v rs ≡ count_of w rs
count_of-same v w [] e = refl
count_of-same v w (r ∷ rs) e = ground (arith, e, count_of-same v w rs e)

-- One more answer.
one_more :
    (count : Option ℕ) (own limit g r : ℕ)
    → g ≤ r
    → (g ≡ 0) ⊎ (or_else count 0 ≤ limit)
    → ((if leb own limit && leb (or_else count (own + 1)) own then g + 1 else g) ≤ r + 1)
      × (((if leb own limit && leb (or_else count (own + 1)) own then g + 1 else g) ≡ 0)
          ⊎ (or_else count 0 ≤ limit))
one_more none own limit g r a b = (ground (arith, a), inr (omega arith))
one_more (some c) own limit g r a b = elim (Bool-cases (leb own limit && leb c own)) [
  | inl t ↦ rw t (omega (arith, a), inr (ground (arith, t)))
  | inr f ↦ rw f (omega (arith, a), b)
]

-- The answers of one call let no more through than it asks, and none where the limit is passed.
granted_in-bound :
    (hash : ℕ → ℕ) (w : Window) (limit : ℕ) (is : List RateLimitInput) (rs : List RateLimitRecord)
    → (granted_in hash w limit is (map (answer_of hash rs) is) ≤ requests_in hash w is)
      × ((granted_in hash w limit is (map (answer_of hash rs) is) ≡ 0) ⊎ (count_now w rs ≤ limit))
granted_in-bound hash w limit [] rs = (omega arith, inl refl)
granted_in-bound hash w limit (i ∷ is) rs =
    let (a, b) = granted_in-bound hash w limit is rs in
    elim (Bool-cases (is_same_window w (window_of hash i))) [
      | inr f ↦ rw f (a, b)
      | inl t ↦
          let same = count_of-same w (window_of hash i) rs t in
          rw (t, ← same) (one_more (count_of w rs) i.limit limit _ _ a b)
    ]

-- The calls of any time together let no more requests of a window through, by limits of at most
-- `limit`, than `limit` less those that the window has counted.
pub granted-bound :
    (hash : ℕ → ℕ) (w : Window) (limit : ℕ) (calls : List (List RateLimitInput))
    (rs : List RateLimitRecord)
    → granted hash w limit calls rs ≤ limit - or_else (count_of w rs) 0
unfolding granted consume_rate_limits
granted-bound hash w limit [] rs = omega arith
granted-bound hash w limit (is ∷ calls) rs =
    let (a, b) = granted_in-bound hash w limit is (count_requests hash is rs) in
    let c = count_requests-adds hash w is rs in
    let ih = granted-bound hash w limit calls (count_requests hash is rs) in
    elim b [ inl n ↦ omega (arith, a, n, c, ih) | inr n ↦ omega (arith, a, n, c, ih) ]
