-- ===== src/Csv/Tests.antt =====
-- A small export, and instances of the theorems on exports.
use openers_performance_dash.Prelude.{◌≡◌, refl, arith, List, [], ◌∷◌, map, All}
use openers_performance_dash.Prelude.Text.{codes}
use openers_performance_dash.Csv.{
  Cell, text, number, absent, guarded, dashboard, shown, csv_cell, csv_line, csv_text,
  double_quotes,
}
use openers_performance_dash.Csv.Reader.{read_csv}
use openers_performance_dash.Csv.RoundTrip.{read_csv-csv_text}
use openers_performance_dash.Csv.Formulas.{BeginsFormula, blanks, csv_text-harmless}

abbrev header : List Cell
header = text (codes "Agent") ∷ text (codes "Deals") ∷ []

abbrev rows : List (List Cell)
rows = (text (codes "=Smith, \"Al\"") ∷ number (codes "12") ∷ []) ∷ (text [] ∷ absent ∷ []) ∷ []

quotes_and_guards :
    csv_text guarded (header ∷ rows)
    ≡ codes "Agent,Deals\r\n\"'=Smith, \"\"Al\"\"\",12\r\n,Unavailable"
unfolding csv_text csv_line csv_cell shown double_quotes
quotes_and_guards = refl

read_csv-csv_text_example :
    read_csv (csv_text guarded (header ∷ rows)) ≡ map (map (shown guarded)) (header ∷ rows)
read_csv-csv_text_example = read_csv-csv_text guarded header rows (tt, (tt, (tt, tt)))

-- The same from a file that leaves numbers as they are.
csv_text-harmless_example :
    All
      (All (λ t. ¬ BeginsFormula (blanks dashboard) t))
      (read_csv (csv_text dashboard (header ∷ rows)))
csv_text-harmless_example =
    csv_text-harmless dashboard header rows (λ e. cc e) (tt, (tt, (tt, tt)))
      ((tt, (tt, tt)), ((tt, ((omega arith, omega arith), tt)), ((tt, (tt, tt)), tt)))
