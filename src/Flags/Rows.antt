-- ===== src/Flags/Rows.antt =====
-- The map of counts in src/flags/domain.ts counts each deal once, in its week.
use openers_performance_dash.Prelude.{
  ℕ, ◌+◌, ◌≡◌, ◌∙◌, refl, ap, true, false, ◌&&◌, inl, inr, none, some, List, [], ◌∷◌, arith, ◌==◌,
  ==_iff, if◌then◌else◌, In, Bool-cases, Option-cases,
}
use openers_performance_dash.Prelude.Table.{find, find-In, find-none, IsKeyed-eq}
use openers_performance_dash.Flags.{
  Week, Agent, Deal, Count, is_within, set_count, get_count, zero_counts, zero_weeks, count_deal,
  count_deals, agent_rows, flag_rows, build_transfer_flag_rows,
}
use openers_performance_dash.Flags.Weeks.{IsWeekly}

-- The deals of an agent in a week.
abbrev pub deals_in : List Deal → ℕ → Week → ℕ
deals_in [] agent w = 0
deals_in (d ∷ ds) agent w =
    let rest = deals_in ds agent w in
    if d.agent_id == agent && is_within d.date w then rest + 1 else rest

-- An entry that is set.
get_count-set_same :
    (agent week n : ℕ) (cs : List Count) → get_count agent week (set_count agent week n cs) ≡ some n
get_count-set_same agent week n [] = ground arith
get_count-set_same agent week n (c ∷ cs) = ground (arith, get_count-set_same agent week n cs)

-- The others stay.
get_count-set_other :
    (agent week agent' week' n : ℕ) (cs : List Count)
    → (agent' == agent && week' == week) ≡ false
    → get_count agent week (set_count agent' week' n cs) ≡ get_count agent week cs
get_count-set_other agent week agent' week' n [] e = ground (arith, e)
get_count-set_other agent week agent' week' n (c ∷ cs) e =
    ground (arith, e, get_count-set_other agent week agent' week' n cs e)

-- One more in an entry that is there.
get_count-more :
    (agent week agent' week' n : ℕ) (cs : List Count)
    → get_count agent week cs ≡ some n
    → get_count agent week (elim (get_count agent' week' cs) [
      | none ↦ cs
      | some k ↦ set_count agent' week' (k + 1) cs
    ])
      ≡ some (if agent' == agent && week' == week then n + 1 else n)
get_count-more agent week agent' week' n cs e =
    elim (Bool-cases (agent' == agent && week' == week)) [
      | inl s ↦
          let a : agent' ≡ agent = ground (arith, s) in
          let b : week' ≡ week = ground (arith, s) in
          let here : get_count agent' week' cs ≡ some n = rw (a, b) e in
          rw (s, here, a, b) (get_count-set_same agent week (n + 1) cs)
      | inr s ↦ elim (Option-cases (get_count agent' week' cs)) [
        | inl f ↦ rw (s, f) e
        | inr (k, f) ↦ rw (s, f) (get_count-set_other agent week agent' week' (k + 1) cs s ∙ e)
      ]
    ]

-- Every agent's count of every week begins at zero.
zero_weeks-keeps :
    (agent week agent' : ℕ) (ws : List Week) (cs : List Count)
    → get_count agent week cs ≡ some 0
    → get_count agent week (zero_weeks agent' ws cs) ≡ some 0
zero_weeks-keeps agent week agent' [] cs e = e
zero_weeks-keeps agent week agent' (w ∷ ws) cs e =
    zero_weeks-keeps agent week agent' ws (set_count agent' w.start 0 cs)
      (set_zero agent week agent' w.start cs e)
  where
    set_zero :
        (agent week agent' week' : ℕ) (cs : List Count)
        → get_count agent week cs ≡ some 0
        → get_count agent week (set_count agent' week' 0 cs) ≡ some 0
    set_zero agent week agent' week' [] e = cc e
    set_zero agent week agent' week' (c ∷ cs) e =
        ground (arith, e, set_zero agent week agent' week' cs)

zero_weeks-In :
    (agent : ℕ) (w : Week) (ws : List Week) (cs : List Count)
    → In w ws
    → get_count agent w.start (zero_weeks agent ws cs) ≡ some 0
zero_weeks-In agent w [] cs m = elim m [ ]
zero_weeks-In agent w (v ∷ ws) cs (inl e) =
    rw e (zero_weeks-keeps agent v.start agent ws _ (get_count-set_same agent v.start 0 cs))
zero_weeks-In agent w (v ∷ ws) cs (inr m) = zero_weeks-In agent w ws _ m

zero_counts-keeps :
    (agent week : ℕ) (agents : List Agent) (ws : List Week) (cs : List Count)
    → get_count agent week cs ≡ some 0
    → get_count agent week (zero_counts agents ws cs) ≡ some 0
unfolding zero_counts
zero_counts-keeps agent week [] ws cs e = e
zero_counts-keeps agent week (a ∷ agents) ws cs e =
    zero_counts-keeps agent week agents ws _ (zero_weeks-keeps agent week a.id ws cs e)

zero_counts-In :
    (a : Agent) (w : Week) (agents : List Agent) (ws : List Week) (cs : List Count)
    → In a agents
    → In w ws
    → get_count a.id w.start (zero_counts agents ws cs) ≡ some 0
unfolding zero_counts
zero_counts-In a w [] ws cs m n = elim m [ ]
zero_counts-In a w (b ∷ agents) ws cs (inl e) n =
    rw e (zero_counts-keeps b.id w.start agents ws _ (zero_weeks-In b.id w ws cs n))
zero_counts-In a w (b ∷ agents) ws cs (inr m) n = zero_counts-In a w agents ws _ m n

module _ (first last : ℕ) (ws : List Week) (weekly : IsWeekly first last ws) where
  -- A deal adds to the count of its agent and week, and to no other.
  count_deal-adds :
      (d : Deal) (agent n : ℕ) (w : Week) (cs : List Count)
      → In w ws
      → get_count agent w.start cs ≡ some n
      → get_count agent w.start (count_deal ws d cs)
        ≡ some (if d.agent_id == agent && is_within d.date w then n + 1 else n)
  unfolding count_deal
  count_deal-adds d agent n w cs m e = elim (Option-cases (find (is_within d.date) ws)) [
    | inl f ↦ rw (count_deal, f) (ground (arith, e, find-none (is_within d.date) ws w f m))
    | inr (v, f) ↦
        let (i, t) = find-In (is_within d.date) ws v f in
        rw (count_deal, f, same_week v i t) (get_count-more agent w.start d.agent_id v.start n cs e)
  ]
    where
      same_week :
          (v : Week)
          → In v ws
          → is_within d.date v ≡ true
          → is_within d.date w ≡ (v.start == w.start)
      same_week v i t = elim (Bool-cases (v.start == w.start)) [
        | inl s ↦
            let same : v ≡ w =
              IsKeyed-eq (λ (w : Week). w.start) ws v w weekly.keyed i m
                ((==_iff v.start w.start).0 s) in
            rw (s, ← same) t
        | inr s ↦ elim (Bool-cases (is_within d.date w)) [
          | inr u ↦ rw (s, u) refl
          | inl u ↦
              let same = ap (λ (w : Week). w.start) (weekly.apart d.date v w i m t u) in
              absurd (ground (arith, s, same))
        ]
      ]

  count_deals-adds :
      (ds : List Deal) (agent n : ℕ) (w : Week) (cs : List Count)
      → In w ws
      → get_count agent w.start cs ≡ some n
      → get_count agent w.start (count_deals ws ds cs) ≡ some (n + deals_in ds agent w)
  unfolding count_deals
  count_deals-adds [] agent n w cs m e = rw e (ap some (omega arith))
  count_deals-adds (d ∷ ds) agent n w cs m e =
      elim (Bool-cases (d.agent_id == agent && is_within d.date w)) [
        | inl t ↦
            let ih =
              count_deals-adds ds agent (n + 1) w (count_deal ws d cs) m
                (rw t at (count_deal-adds d agent n w cs m e)) in
            rw (t, ih) (ap some (omega arith))
        | inr t ↦
            let ih =
              count_deals-adds ds agent n w (count_deal ws d cs) m
                (rw t at (count_deal-adds d agent n w cs m e)) in
            rw (t, ih) refl
      ]

  agent_rows-agree :
      (f g : ℕ → Week → ℕ) (a : Agent) (vs : List Week)
      → ((w : Week) → In w vs → f a.id w ≡ g a.id w)
      → agent_rows f a vs ≡ agent_rows g a vs
  agent_rows-agree f g a [] same = refl
  agent_rows-agree f g a (w ∷ vs) same =
      rw (same w (inl refl), agent_rows-agree f g a vs (λ v m. same v (inr m))) refl

  flag_rows-agree :
      (f g : ℕ → Week → ℕ) (agents : List Agent)
      → ((a : Agent) (w : Week) → In a agents → In w ws → f a.id w ≡ g a.id w)
      → flag_rows f agents ws ≡ flag_rows g agents ws
  flag_rows-agree f g [] same = refl
  flag_rows-agree f g (a ∷ agents) same =
      rw
        (
          agent_rows-agree f g a ws (λ w m. same a w (inl refl) m),
          flag_rows-agree f g agents (λ b w m n. same b w (inr m) n),
        )
        refl

  -- For weeks that part a range of days, the rows of flags are those of the deals of each agent
  -- in each week, counted one by one.
  pub build_transfer_flag_rows-counts :
      (agents : List Agent) (deals : List Deal)
      → build_transfer_flag_rows agents deals ws ≡ flag_rows (deals_in deals) agents ws
  unfolding build_transfer_flag_rows
  build_transfer_flag_rows-counts agents deals =
      flag_rows-agree _ (deals_in deals) agents λ a w m n.
        rw
          (count_deals-adds deals a.id 0 w (zero_counts agents ws []) n
            (zero_counts-In a w agents ws [] m n))
          (omega arith)
