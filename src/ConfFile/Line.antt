-- ===== src/ConfFile/Line.antt =====
-- The text functions of ConfFile::LoadFile: lines, comments, TrimString.
use http2serv.Prelude.{ℕ, Bool, ◌==◌, ◌||◌, if◌then◌else◌}
use http2serv.Prelude.{List, [], ◌∷◌, Option, none, some}

-- " \t"
unfoldable pub is_blank : ℕ → Bool
is_blank c = c == 32 || c == 9

-- " \t\r\n"
unfoldable pub is_blank_or_end : ℕ → Bool
is_blank_or_end c = c == 32 || (c == 9 || (c == 13 || c == 10))

-- "#;\r\n"
unfoldable pub ends_line : ℕ → Bool
ends_line c = c == b'#' || (c == b';' || (c == 13 || c == 10))

unfoldable pub trim_right : List ℕ → List ℕ
unfolding is_blank_or_end
trim_right [] = []
trim_right (c ∷ cs) = elim (trim_right cs) [
  | [] ↦ if is_blank_or_end c then [] else c ∷ []
  | d ∷ ds ↦ c ∷ d ∷ ds
]

unfoldable pub trim_left : List ℕ → List ℕ
unfolding is_blank
trim_left [] = []
trim_left (c ∷ cs) = if is_blank c then trim_left cs else c ∷ cs

unfoldable pub trim_string : List ℕ → List ℕ
unfolding trim_right trim_left
trim_string text = trim_left (trim_right text)

unfoldable pub without_comment : List ℕ → List ℕ
unfolding ends_line
without_comment [] = []
without_comment (c ∷ cs) = if ends_line c then [] else c ∷ without_comment cs

-- What getline takes, until the end of the file: the last line may be empty.
unfoldable pub lines : List ℕ → List (List ℕ)
lines [] = [] ∷ []
lines (c ∷ cs) =
    let rest = lines cs in
    if c == 10 then [] ∷ rest else elim rest [ [] ↦ (c ∷ []) ∷ [] | l ∷ ls ↦ (c ∷ l) ∷ ls ]

-- The last character, `none` in an empty line.
unfoldable pub last_char : List ℕ → Option ℕ
last_char [] = none
last_char (c ∷ []) = some c
last_char (c ∷ d ∷ ds) = last_char (d ∷ ds)

unfoldable pub without_last : List ℕ → List ℕ
without_last [] = []
without_last (c ∷ []) = []
without_last (c ∷ d ∷ ds) = c ∷ without_last (d ∷ ds)

-- The text in front of the first `=` and behind it.
unfoldable pub split_at_equals : List ℕ → Option (List ℕ × List ℕ)
split_at_equals [] = none
split_at_equals (c ∷ cs) =
    let rest = split_at_equals cs in
    if c == b'='
    then some ([], cs)
    else elim rest [ none ↦ none | some (key, value) ↦ some (c ∷ key, value) ]
