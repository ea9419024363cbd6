-- ===== src/Csv/RoundTrip.antt =====
-- Reading back what the CSV exports write (src/dashboard/csv.ts and the others).
use mathlib.Core.List.{append_assoc, append-nil}
use openers_performance_dash.Prelude.{
  ℕ, ◌≡◌, ◌≢◌, refl, sym, ap, ◌∙◌, false, ◌||◌, List, [], ◌∷◌, ◌++◌, map, arith, inl, inr, ◌⊎◌,
  ◌==◌, ==_iff, any, All, Bool-cases,
}
use openers_performance_dash.Csv.{
  Cell, Style, shown, double_quotes, quote, is_special, quotes_always, csv_cell, csv_line, csv_text,
}
use openers_performance_dash.Csv.Reader.{
  Mark, quote_mark, comma, return, line_feed, other_mark, mark, Mode, fresh, within, quoted,
  closing, Sheet, add_char, new_cell, new_row, step, read, read_csv,
}

abbrev prepend : List ℕ → Sheet → Sheet
prepend [] s = s
prepend (c ∷ cs) s = add_char c (prepend cs s)

prepend-cell :
    (t : List ℕ) (row : List (List ℕ)) (rows : Sheet)
    → prepend t (([] ∷ row) ∷ rows) ≡ (t ∷ row) ∷ rows
prepend-cell [] row rows = refl
prepend-cell (c ∷ cs) row rows = ap (add_char c) (prepend-cell cs row rows)

mark-plain : (c : ℕ) → is_special c ≡ false → mark c ≡ other_mark
unfolding mark
mark-plain c h = ground (arith, h)

step-quoted :
    (m : Mark) (c : ℕ) (k : Mode → Sheet)
    → m ≢ quote_mark
    → step quoted m c k ≡ add_char c (k quoted)
step-quoted quote_mark c k h = absurd (h refl)
step-quoted comma c k h = refl
step-quoted return c k h = refl
step-quoted line_feed c k h = refl
step-quoted other_mark c k h = refl

mark-unquoted : (c : ℕ) → (c == 34) ≡ false → mark c ≢ quote_mark
unfolding mark
mark-unquoted c h = ground (arith, h)

read-quoted :
    (t rest : List ℕ) → read quoted (double_quotes t ++ 34 ∷ rest) ≡ prepend t (read closing rest)
unfolding read double_quotes mark
read-quoted [] rest = refl
read-quoted (c ∷ cs) rest = elim (Bool-cases (c == 34)) [
  | inl u ↦ rw (u, (==_iff c 34).0 u, mark) (ap (add_char 34) (read-quoted cs rest))
  | inr u ↦ rw u (
      step-quoted (mark c) c (λ n. read n (double_quotes cs ++ 34 ∷ rest)) (mark-unquoted c u)
      ∙ ap (add_char c) (read-quoted cs rest))
]

read-plain :
    (t rest : List ℕ)
    → any is_special t ≡ false
    → read within (t ++ rest) ≡ prepend t (read within rest)
unfolding read
read-plain [] rest h = refl
read-plain (c ∷ cs) rest h =
    rw (mark-plain c (ground (arith, h))) (ap (add_char c) (read-plain cs rest (ground (arith, h))))

-- What may follow a cell.
abbrev Ends : List ℕ → Type 0
Ends [] = Unit
Ends (c ∷ cs) = (c ≡ 44) ⊎ (c ≡ 13)

read-Ends :
    (rest : List ℕ)
    → Ends rest
    → (read closing rest ≡ read fresh rest) × (read within rest ≡ read fresh rest)
unfolding read mark
read-Ends [] h = (refl, refl)
read-Ends (c ∷ cs) (inl e) = rw e (refl, refl)
read-Ends (c ∷ cs) (inr e) = rw e (refl, refl)

read-unquoted :
    (t rest : List ℕ)
    → any is_special t ≡ false
    → Ends rest
    → read fresh (t ++ rest) ≡ prepend t (read fresh rest)
unfolding read
read-unquoted [] rest e h = refl
read-unquoted (c ∷ cs) rest e h = rw (mark-plain c (ground (arith, e))) (
    ap (add_char c) (read-plain cs rest (ground (arith, e)) ∙ ap (prepend cs) (read-Ends rest h).1))

read-quote :
    (t rest : List ℕ) → Ends rest → read fresh (quote t ++ rest) ≡ prepend t (read fresh rest)
unfolding read mark
read-quote t rest h =
    ap (read quoted) (append_assoc (double_quotes t) (34 ∷ []) rest)
    ∙ read-quoted t rest
    ∙ ap (prepend t) (read-Ends rest h).0

read-cell :
    (style : Style) (c : Cell) (rest : List ℕ)
    → Ends rest
    → read fresh (csv_cell style c ++ rest) ≡ prepend (shown style c) (read fresh rest)
unfolding csv_cell
read-cell style c rest h =
    elim (Bool-cases (quotes_always style || any is_special (shown style c))) [
      | inl u ↦ rw u (read-quote (shown style c) rest h)
      | inr u ↦ rw u (read-unquoted (shown style c) rest (ground (arith, u)) h)
    ]

-- A line before what reads as a row with an empty cell and further rows.
read-line :
    (style : Style) (c : Cell) (cs : List Cell) (rest : List ℕ) (rows : Sheet)
    → Ends rest
    → read fresh rest ≡ ([] ∷ []) ∷ rows
    → read fresh (csv_line style (c ∷ cs) ++ rest) ≡ map (shown style) (c ∷ cs) ∷ rows
unfolding csv_line read mark
read-line style c [] rest rows h e =
    read-cell style c rest h ∙ ap (prepend (shown style c)) e ∙ prepend-cell (shown style c) [] rows
read-line style c (d ∷ ds) rest rows h e =
    ap (read fresh) (append_assoc (csv_cell style c) (44 ∷ csv_line style (d ∷ ds)) rest)
    ∙ read-cell style c (44 ∷ csv_line style (d ∷ ds) ++ rest) (inl refl)
    ∙ ap (λ s. prepend (shown style c) (new_cell s)) (read-line style d ds rest rows h e)
    ∙ prepend-cell (shown style c) (map (shown style) (d ∷ ds)) rows

-- A row has a cell, and a file has a header.
abbrev pub IsRow : List Cell → Type 0
IsRow [] = ⊥
IsRow (c ∷ cs) = Unit

-- A reader of comma-separated values finds in an export of rows that each have a cell exactly the rows
-- and texts that were written, whatever characters they have.
pub read_csv-csv_text :
    (style : Style) (header : List Cell) (rows : List (List Cell))
    → All IsRow (header ∷ rows)
    → read_csv (csv_text style (header ∷ rows)) ≡ map (map (shown style)) (header ∷ rows)
unfolding csv_text read mark
read_csv-csv_text style (c ∷ cs) [] h =
    ap (read fresh) (sym (append-nil (csv_line style (c ∷ cs))))
    ∙ read-line style c cs [] [] tt refl
read_csv-csv_text style (c ∷ cs) (r ∷ rs) h =
    read-line style c cs (13 ∷ 10 ∷ csv_text style (r ∷ rs)) (map (map (shown style)) (r ∷ rs))
      (inr refl) (ap new_row (read_csv-csv_text style r rs h.1))
read_csv-csv_text style [] rows h = elim h.0 [ ]
