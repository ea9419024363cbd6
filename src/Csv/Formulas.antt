-- ===== src/Csv/Formulas.antt =====
-- What a spreadsheet would take for a formula in the CSV exports (src/dashboard/csv.ts and the
-- others).
use openers_performance_dash.Prelude.{
  ℕ, ◌≡◌, ◌≢◌, ◌⊎◌, ◌≤◌, refl, In, any, Bool, true, false, ◌||◌, List, [], ◌∷◌, map, arith, ◌==◌,
  All, Bool-cases, inl, inr,
}
use openers_performance_dash.Prelude.Text.{is_space}
use openers_performance_dash.Csv.{
  Cell, text, number, absent, Style, guarded, teams, dashboard, commission, audit, plain, shown,
  starts_formula, blank_formula, is_dashboard_blank, csv_text, guard, apostrophe,
}
use openers_performance_dash.Csv.Reader.{read_csv}
use openers_performance_dash.Csv.RoundTrip.{IsRow, read_csv-csv_text}

-- The blanks that a file looks behind: tabs and line breaks, spaces too, or all that `\s` matches.
abbrev pub blanks : Style → List ℕ
blanks dashboard = 9 ∷ 10 ∷ 13 ∷ 32 ∷ []
blanks commission =
    9 ∷ 10 ∷ 11 ∷ 12 ∷ 13 ∷ 32 ∷ 160 ∷ 5760 ∷ 8192 ∷ 8193 ∷ 8194 ∷ 8195 ∷ 8196 ∷ 8197 ∷ 8198 ∷ 8199
    ∷ 8200 ∷ 8201 ∷ 8202 ∷ 8232 ∷ 8233 ∷ 8239 ∷ 8287 ∷ 12288 ∷ 65279 ∷ []
blanks other = 9 ∷ 13 ∷ []

-- The signs with which a spreadsheet begins a formula.
abbrev signs : List ℕ
signs = b'=' ∷ b'+' ∷ b'-' ∷ b'@' ∷ []

-- A text that begins, after blanks, with such a sign.
abbrev pub BeginsFormula : List ℕ → List ℕ → Type 0
BeginsFormula blanks [] = ⊥
BeginsFormula blanks (c ∷ cs) = In c signs ⊎ (In c blanks × BeginsFormula blanks cs)

-- The text of a number that is not negative.
abbrev BeginsDigit : List ℕ → Type 0
BeginsDigit [] = ⊥
BeginsDigit (c ∷ cs) = (48 ≤ c) × (c ≤ 57)

-- What a file is given: anything, but no negative numbers (no number that begins with a sign) where
-- it leaves numbers unguarded.
abbrev pub IsGiven : Style → Cell → Type 0
IsGiven dashboard (number t) = BeginsDigit t
IsGiven commission (number t) = BeginsDigit t
IsGiven style c = Unit

-- The same blanks, as the code tests them.
abbrev blank_in : Style → ℕ → Bool
blank_in dashboard c = is_dashboard_blank c
blank_in commission c = is_space c
blank_in other c = c == 9 || c == 13

any_In : (bl : List ℕ) (c : ℕ) → In c bl → any (λ b. b == c) bl ≡ true
any_In [] c m = elim m [ ]
any_In (b ∷ bl) c (inl e) = ground (arith, e)
any_In (b ∷ bl) c (inr m) = ground (arith, any_In bl c m)

blanks-blank_in : (style : Style) (c : ℕ) → In c (blanks style) → blank_in style c ≡ true
unfolding is_space
blanks-blank_in dashboard c m = ground (arith, any_In (blanks dashboard) c m)
blanks-blank_in commission c m = ground (arith, any_In (blanks commission) c m)
blanks-blank_in guarded c m = ground (arith, any_In (blanks guarded) c m)
blanks-blank_in teams c m = ground (arith, any_In (blanks teams) c m)
blanks-blank_in audit c m = ground (arith, any_In (blanks audit) c m)
blanks-blank_in plain c m = ground (arith, any_In (blanks plain) c m)

BeginsFormula-blank_formula :
    (style : Style) (t : List ℕ)
    → BeginsFormula (blanks style) t
    → blank_formula (blank_in style) t ≡ true
unfolding blank_formula
BeginsFormula-blank_formula style [] h = elim h [ ]
BeginsFormula-blank_formula style (c ∷ cs) (inl m) = ground (arith, any_In signs c m)
BeginsFormula-blank_formula style (c ∷ cs) (inr (m, h)) =
    ground (arith, blanks-blank_in style c m, BeginsFormula-blank_formula style cs h)

digit-harmless :
    (blank : ℕ → Bool) (t : List ℕ)
    → ((c : ℕ) → 48 ≤ c → c ≤ 57 → blank c ≡ false)
    → BeginsDigit t
    → blank_formula blank t ≡ false
unfolding blank_formula
digit-harmless blank [] h d = elim d [ ]
digit-harmless blank (c ∷ cs) h d = ground (arith, h c d.0 d.1, d.0, d.1)

starts-blank :
    (t : List ℕ) → starts_formula t ≡ false → blank_formula (λ c. c == 9 || c == 13) t ≡ false
unfolding blank_formula
starts-blank [] h = refl
starts-blank (c ∷ cs) h = ground (arith, h)

guard_harmless :
    (t : List ℕ) → blank_formula (λ c. c == 9 || c == 13) (guard (starts_formula t) t) ≡ false
unfolding blank_formula
guard_harmless t = elim (Bool-cases (starts_formula t)) [
  | inl u ↦ rw u refl
  | inr u ↦ rw u (starts-blank t u)
]

guard_blank :
    (blank : ℕ → Bool) (t : List ℕ)
    → blank apostrophe ≡ false
    → blank_formula blank (guard (blank_formula blank t) t) ≡ false
unfolding blank_formula
guard_blank blank t e = elim (Bool-cases (blank_formula blank t)) [
  | inl u ↦ rw u (ground (arith, e))
  | inr u ↦ rw u u
]

shown-harmless :
    (style : Style) (c : Cell)
    → style ≢ plain
    → IsGiven style c
    → blank_formula (blank_in style) (shown style c) ≡ false
unfolding shown blank_formula is_space
shown-harmless guarded absent n h = refl
shown-harmless guarded (text t) n h = guard_harmless t
shown-harmless guarded (number t) n h = guard_harmless t
shown-harmless teams absent n h = refl
shown-harmless teams (text t) n h = guard_harmless t
shown-harmless teams (number t) n h = guard_harmless t
shown-harmless dashboard absent n h = refl
shown-harmless dashboard (text t) n h = guard_blank is_dashboard_blank t refl
shown-harmless dashboard (number t) n h =
    digit-harmless is_dashboard_blank t (λ c a b. ground (arith, a, b)) h
shown-harmless commission absent n h = refl
shown-harmless commission (text t) n h = guard_blank is_space t refl
shown-harmless commission (number t) n h =
    digit-harmless is_space t (λ c a b. ground (arith, a, b)) h
shown-harmless audit absent n h = refl
shown-harmless audit (text t) n h = guard_harmless t
shown-harmless audit (number t) n h = guard_harmless t
shown-harmless plain c n h = absurd (n refl)

map-All :
    {A B : Type 0} (P : B → Type 0) (Q : A → Type 0) (f : A → B) (xs : List A)
    → ((x : A) → Q x → P (f x))
    → All Q xs
    → All P (map f xs)
map-All P Q f [] g h = tt
map-All P Q f (x ∷ xs) g h = (g x h.0, map-All P Q f xs g h.1)

-- In an export of a file that guards its cells, from any rows that each have a cell, but with only
-- numbers that begin with a digit where that file leaves numbers unguarded, no cell that a reader
-- finds begins, after the blanks that the file looks behind, with "=", "+", "-" or "@".
pub csv_text-harmless :
    (style : Style) (header : List Cell) (rows : List (List Cell))
    → style ≢ plain
    → All IsRow (header ∷ rows)
    → All (All (IsGiven style)) (header ∷ rows)
    → All (All (λ t. ¬ BeginsFormula (blanks style) t)) (read_csv (csv_text style (header ∷ rows)))
csv_text-harmless style header rows guards h g = rw (read_csv-csv_text style header rows h) (
    map-All (All (λ t. ¬ BeginsFormula (blanks style) t)) (All (IsGiven style)) (map (shown style))
      (header ∷ rows)
      (λ r k.
        map-All (λ t. ¬ BeginsFormula (blanks style) t) (IsGiven style) (shown style) r
          (λ c e f.
            let harmless = shown-harmless style c guards e in
            absurd (cc (harmless, BeginsFormula-blank_formula style (shown style c) f)))
          k)
      g)
