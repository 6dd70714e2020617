-- ===== src/Worker/Output.antt =====
-- workers/judge/internal/domain/output.go: how the output of a program is compared with the expected
-- one.
pub mod LineEnds
pub mod Laws
use go_judge_system.Prelude.{
  ℕ, ◌==◌, Text, text_eq, is_empty, Bool, true, false, ◌&&◌, ◌||◌, List, [], ◌∷◌, ◌++◌, map,
  if◌then◌else◌,
}

abbrev pub line_feed : ℕ
line_feed = 10

abbrev pub carriage_return : ℕ
carriage_return = 13

unfoldable pub starts_line_feed : Text → Bool
starts_line_feed [] = false
starts_line_feed (c ∷ s) = c == line_feed

-- `strings.ReplaceAll(value, "\r\n", "\n")`: a return before a line feed goes.
unfoldable pub replace_crlf : Text → Text
replace_crlf [] = []
replace_crlf (c ∷ s) =
    let rest = replace_crlf s in
    if c == carriage_return && starts_line_feed s then rest else c ∷ rest

-- `strings.ReplaceAll(value, "\r", "\n")`.
unfoldable pub replace_cr : Text → Text
replace_cr [] = []
replace_cr (c ∷ s) = (if c == carriage_return then line_feed else c) ∷ replace_cr s

unfoldable pub push_byte : ℕ → List Text → List Text
push_byte c [] = (c ∷ []) ∷ []
push_byte c (l ∷ ls) = (c ∷ l) ∷ ls

-- `strings.Split(value, "\n")`.
unfoldable pub split_lines : Text → List Text
split_lines [] = [] ∷ []
split_lines (c ∷ s) =
    let rest = split_lines s in if c == line_feed then [] ∷ rest else push_byte c rest

-- `strings.Join(lines, "\n")`.
unfoldable pub join_lines : List Text → Text
join_lines [] = []
join_lines (l ∷ []) = l
join_lines (l ∷ m ∷ ls) = l ++ line_feed ∷ join_lines (m ∷ ls)

-- `strings.TrimRight`, with a test for its cut set.
unfoldable pub trim_right : (ℕ → Bool) → Text → Text
trim_right cut [] = []
trim_right cut (c ∷ s) =
    let rest = trim_right cut s in if cut c && is_empty rest then [] else c ∷ rest

unfoldable pub is_blank : ℕ → Bool
is_blank c = c == 32 || c == 9

unfoldable pub is_line_feed : ℕ → Bool
is_line_feed c = c == line_feed

-- `NormalizeOutput`.
unfoldable pub normalize_output : Text → Text
normalize_output value =
    let lines = split_lines (replace_cr (replace_crlf value)) in
    trim_right is_line_feed (join_lines (map (trim_right is_blank) lines))

-- `OutputEqual`.
unfoldable pub output_equal : Text → Text → Bool
output_equal actual expected = text_eq (normalize_output actual) (normalize_output expected)
