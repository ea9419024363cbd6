-- ===== src/Prelude/Text.antt =====
-- Texts by their code points, and the tests of them that the program makes.
use Prim.Native.Nat.{ℕ, ◌+◌, Ordering}
use Prim.Native.Char.{code}
use Prim.Native.String.{String, compare as compare_text}
use mathlib.Core.Bool.{Bool, true, false, ◌&&◌, ◌||◌}
use mathlib.Core.List.{List, [], ◌∷◌, map}
use openers_performance_dash.Prelude.Tests.{leb, ◌==◌, if◌then◌else◌}

abbrev pub codes : String → List ℕ
codes String.[] = []
codes (String.◌∷◌ c s) = code c ∷ codes s

abbrev pub to_lower : ℕ → ℕ
to_lower c = if leb b'A' c && leb c b'Z' then c + 32 else c

abbrev pub is_prefix : List ℕ → List ℕ → Bool
is_prefix [] ys = true
is_prefix (x ∷ xs) [] = false
is_prefix (x ∷ xs) (y ∷ ys) = x == y && is_prefix xs ys

-- Whether the first text stands somewhere in the second.
abbrev pub includes : List ℕ → List ℕ → Bool
includes needle [] = is_prefix needle []
includes needle (y ∷ ys) = is_prefix needle (y ∷ ys) || includes needle ys

-- `/needle/i.test(text)` for a needle of plain lower-case letters and spaces.
abbrev pub matches_i : String → String → Bool
matches_i needle text = includes (codes needle) (map to_lower (codes text))

-- The white space of ECMAScript's `trim` and `\s`, by UTF-16 code unit.
unfoldable pub is_space : ℕ → Bool
is_space c =
    (leb 9 c && leb c 13)
    || c == 32
    || c == 160
    || c == 0x1680
    || (leb 0x2000 c && leb c 0x200a)
    || c == 0x2028
    || c == 0x2029
    || c == 0x202f
    || c == 0x205f
    || c == 0x3000
    || c == 0xfeff

unfoldable pub trim_start : List ℕ → List ℕ
unfolding is_space
trim_start [] = []
trim_start (c ∷ cs) = let rest = trim_start cs in if is_space c then rest else c ∷ cs

unfoldable pub trim_end : List ℕ → List ℕ
unfolding is_space
trim_end [] = []
trim_end (c ∷ cs) = elim (trim_end cs) [
  | [] ↦ if is_space c then [] else c ∷ []
  | d ∷ ds ↦ c ∷ d ∷ ds
]

-- `text.trim()`.
unfoldable pub trim : List ℕ → List ℕ
unfolding trim_start trim_end
trim cs = trim_end (trim_start cs)

-- `===` on texts.
abbrev pub same_text : String → String → Bool
same_text a b = elim (compare_text a b) [ Ordering.eq ↦ true | _ ↦ false ]
