-- ===== src/HttpServ/Request/Accepted.antt =====
-- The requests that OnDataReceived does not refuse.
use http2serv.Prelude.{
  ℕ, suc, ◌≡◌, ◌⊎◌, Bool, true, false, ◌==◌, ◌||◌, if◌then◌else◌, map, Option, none, some, List, [],
  ◌∷◌, ◌++◌,
}
use http2serv.Hpack.HeadList.{HeadList, to_lower}
use http2serv.ConfFile.Line.{trim_string}
use http2serv.HttpServ.Request.{
  starts_with, Parsed, refused, undefined, parsed, add_to_last, header_lines,
}

unfoldable pub has_colon : List ℕ → Bool
has_colon [] = false
has_colon (c ∷ cs) = c == b':' || has_colon cs

unfoldable pub colon_lines : List (List ℕ) → ℕ
unfolding has_colon
colon_lines [] = 0
colon_lines (line ∷ ls) = if has_colon line then suc (colon_lines ls) else colon_lines ls

-- A line with a colon, or one that starts with a blank and a tab.
abbrev pub IsHeaderLine : List ℕ → Type 0
IsHeaderLine line = (has_colon line ≡ true) ⊎ (starts_with (32 ∷ 9 ∷ []) line ≡ true)

is_there : Option (List ℕ × List ℕ) → Bool
is_there none = false
is_there (some p) = true

-- What header_lines does with a line, by the place of its first colon.
after_split : Bool → HeadList → List ℕ → List (List ℕ) → Option (List ℕ × List ℕ) → Parsed
after_split has_last done line ls o = elim o [
  | some (name, value) ↦
      header_lines true (done ++ ((map to_lower name, trim_string value) ∷ [])) ls
  | none ↦
      if starts_with (32 ∷ 9 ∷ []) line
      then if has_last then header_lines true (add_to_last line done) ls else undefined
      else refused
]

-- What header_of does behind the first line.
rest_of : List (List ℕ) → Parsed → Parsed
rest_of ls p = elim p [
  | refused ↦ refused
  | undefined ↦ undefined
  | parsed fields ↦ header_lines false fields ls
]
