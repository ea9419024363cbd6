-- ===== src/Csv/Reader.antt =====
-- A reader of comma-separated values as RFC 4180 describes them, against which the exports
-- (src/dashboard/csv.ts and the others) are held.
use openers_performance_dash.Prelude.{ℕ, List, [], ◌∷◌, ◌==◌, if◌then◌else◌}

pub data Mark : Type 0 where
  quote_mark comma return line_feed other_mark : Mark

unfoldable pub mark : ℕ → Mark
mark c =
    if c == 34
    then quote_mark
    else (if c == 44
        then comma
        else (if c == 13 then return else (if c == 10 then line_feed else other_mark)))

-- At a cell's start, within it, within quotes, after a quote within quotes, and after a CR.
pub data Mode : Type 0 where
  fresh within quoted closing returned : Mode

abbrev pub Sheet : Type 0
Sheet = List (List (List ℕ))

abbrev pub one : Sheet
one = ([] ∷ []) ∷ []

-- A character, a cell and a row put before what was read.
abbrev pub add_char : ℕ → Sheet → Sheet
add_char c [] = ((c ∷ []) ∷ []) ∷ []
add_char c ([] ∷ rows) = ((c ∷ []) ∷ []) ∷ rows
add_char c ((cell ∷ row) ∷ rows) = ((c ∷ cell) ∷ row) ∷ rows

abbrev pub new_cell : Sheet → Sheet
new_cell [] = ([] ∷ []) ∷ []
new_cell (row ∷ rows) = ([] ∷ row) ∷ rows

abbrev pub new_row : Sheet → Sheet
new_row rows = ([] ∷ []) ∷ rows

abbrev pub step : Mode → Mark → ℕ → (Mode → Sheet) → Sheet
step fresh quote_mark c k = k quoted
step quoted quote_mark c k = k closing
step quoted m c k = add_char c (k quoted)
step closing quote_mark c k = add_char 34 (k quoted)
step returned line_feed c k = new_row (k fresh)
step returned m c k = add_char 13 (add_char c (k within))
step m comma c k = new_cell (k fresh)
step m return c k = k returned
step m other c k = add_char c (k within)

unfoldable pub read : Mode → List ℕ → Sheet
read returned [] = add_char 13 one
read m [] = one
read m (c ∷ cs) = step m (mark c) c (λ n. read n cs)

-- The rows of a document.
abbrev pub read_csv : List ℕ → Sheet
read_csv cs = read fresh cs
