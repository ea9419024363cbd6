-- ===== src/Csv.antt =====
-- The CSV exports: the five ways in which the files src/dashboard/csv.ts, src/commissions/csv.ts,
-- src/admin/audit-csv.ts, src/performance/csv.ts and those like src/leaderboard/csv.ts write a cell, and
-- the lines that they join. Texts are their UTF-16 code units.
pub mod Reader
pub mod RoundTrip
pub mod Formulas
mod Tests
use openers_performance_dash.Prelude.{
  ℕ, Bool, true, false, not, ◌&&◌, ◌||◌, List, [], ◌∷◌, ◌++◌, map, leb, ◌==◌, if◌then◌else◌, any,
}
use openers_performance_dash.Prelude.Text.{codes, is_space}

-- A value of a cell: a string, a number by its decimal text, or `null`.
pub data Cell : Type 0 where
  text number : List ℕ → Cell
  absent : Cell

-- How a file writes its cells: `guarded` stands for the seven files with the same function.
pub data Style : Type 0 where
  guarded teams dashboard commission audit plain : Style

-- `=`, `+`, `-` or `@`.
abbrev pub is_formula_sign : ℕ → Bool
is_formula_sign c = c == b'=' || c == b'+' || c == b'-' || c == b'@'

-- `/^[=+\-@\t\r]/`.
abbrev pub starts_formula : List ℕ → Bool
starts_formula [] = false
starts_formula (c ∷ cs) = is_formula_sign c || c == 9 || c == 13

-- `/^[\t\r\n ]*[=+\-@]/`, or with another class of blanks.
unfoldable pub blank_formula : (ℕ → Bool) → List ℕ → Bool
blank_formula blank [] = false
blank_formula blank (c ∷ cs) = is_formula_sign c || (blank c && blank_formula blank cs)

abbrev pub is_dashboard_blank : ℕ → Bool
is_dashboard_blank c = c == 9 || c == 13 || c == 10 || c == 32

abbrev pub apostrophe : ℕ
apostrophe = 39

abbrev pub guard : Bool → List ℕ → List ℕ
guard true t = apostrophe ∷ t
guard false t = t

abbrev pub unavailable : List ℕ
unavailable = codes "Unavailable"

-- What a cell shows.
unfoldable pub shown : Style → Cell → List ℕ
shown guarded absent = unavailable
shown guarded (text t) = guard (starts_formula t) t
shown guarded (number t) = guard (starts_formula t) t
shown teams absent = []
shown teams (text t) = guard (starts_formula t) t
shown teams (number t) = guard (starts_formula t) t
shown dashboard absent = unavailable
shown dashboard (text t) = guard (blank_formula is_dashboard_blank t) t
shown dashboard (number t) = t
shown commission absent = []
shown commission (text t) = guard (blank_formula is_space t) t
shown commission (number t) = t
shown audit absent = []
shown audit (text t) = guard (starts_formula t) t
shown audit (number t) = guard (starts_formula t) t
shown plain absent = unavailable
shown plain (text t) = t
shown plain (number t) = t

-- `text.replaceAll('"', '""')`.
unfoldable pub double_quotes : List ℕ → List ℕ
double_quotes [] = []
double_quotes (c ∷ cs) = let rest = double_quotes cs in if c == 34 then 34 ∷ 34 ∷ rest else c ∷ rest

abbrev pub quote : List ℕ → List ℕ
quote t = 34 ∷ double_quotes t ++ 34 ∷ []

-- `/[",\r\n]/`.
abbrev pub is_special : ℕ → Bool
is_special c = c == 34 || c == 44 || c == 13 || c == 10

abbrev pub quotes_always : Style → Bool
quotes_always dashboard = true
quotes_always audit = true
quotes_always other = false

unfoldable pub csv_cell : Style → Cell → List ℕ
csv_cell style c =
    let t = shown style c in if quotes_always style || any is_special t then quote t else t

-- `row.map(csvCell).join(",")`, and the lines joined by CR LF.
unfoldable pub csv_line : Style → List Cell → List ℕ
csv_line style [] = []
csv_line style (c ∷ []) = csv_cell style c
csv_line style (c ∷ d ∷ ds) = csv_cell style c ++ 44 ∷ csv_line style (d ∷ ds)

unfoldable pub csv_text : Style → List (List Cell) → List ℕ
csv_text style [] = []
csv_text style (r ∷ []) = csv_line style r
csv_text style (r ∷ s ∷ ss) = csv_line style r ++ 13 ∷ 10 ∷ csv_text style (s ∷ ss)
