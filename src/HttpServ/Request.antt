-- ===== src/HttpServ/Request.antt =====
-- The header of an HTTP/1 request, as OnDataReceived in HttpServ.cpp reads it.
pub mod Text
pub mod Length
pub mod FirstLine
pub mod RoundTrip
pub mod Accepted
use http2serv.Prelude.{
  ℕ, zero, suc, Bool, true, false, not, ◌==◌, ◌&&◌, if◌then◌else◌, codes, map, Option, none, some,
  List, [], ◌∷◌, ◌++◌, length, drop,
}
use http2serv.Hpack.HeadList.{HeadList, to_lower}
use http2serv.ConfFile.Line.{trim_string}

unfoldable pub starts_with : List ℕ → List ℕ → Bool
starts_with [] text = true
starts_with (c ∷ cs) [] = false
starts_with (c ∷ cs) (d ∷ ds) = d == c && starts_with cs ds

abbrev pub crlf : List ℕ
crlf = 13 ∷ 10 ∷ []

-- The text in front of the first empty line and behind it.
unfoldable pub end_of_header : List ℕ → Option (List ℕ × List ℕ)
end_of_header [] = none
end_of_header (c ∷ cs) =
    let rest = end_of_header cs in
    if starts_with (crlf ++ crlf) (c ∷ cs)
    then some ([], drop 3 cs)
    else elim rest [ none ↦ none | some (head, body) ↦ some (c ∷ head, body) ]

unfoldable pub put_front : ℕ → List (List ℕ) → List (List ℕ)
put_front c [] = (c ∷ []) ∷ []
put_front c (l ∷ ls) = (c ∷ l) ∷ ls

-- The pieces between the separators; an empty one at the end is left out.
unfoldable pub lines_of : List ℕ → List (List ℕ)
lines_of [] = [] ∷ []
lines_of (c ∷ []) = (c ∷ []) ∷ []
lines_of (c ∷ d ∷ ds) =
    let rest = lines_of (d ∷ ds) in
    let behind = lines_of ds in
    if c == 13 && d == 10 then [] ∷ elim ds [ [] ↦ [] | e ∷ es ↦ behind ] else put_front c rest

unfoldable pub tokens_of : List ℕ → List (List ℕ)
tokens_of [] = [] ∷ []
tokens_of (c ∷ cs) =
    let rest = tokens_of cs in
    if c == 32 then [] ∷ elim cs [ [] ↦ [] | d ∷ ds ↦ rest ] else put_front c rest

-- A part of the first line, unless its token is empty or missing.
unfoldable pub take_part : List ℕ → HeadList × List (List ℕ) → HeadList × List (List ℕ)
take_part name (done, []) = (done, [])
take_part name (done, [] ∷ ts) = (done, [] ∷ ts)
take_part name (done, (c ∷ cs) ∷ ts) = (done ++ ((name, c ∷ cs) ∷ []), ts)

-- `erase(0, find_first_of('.') + 1)`: a text with no point stays as it is.
unfoldable pub behind_point : List ℕ → Option (List ℕ)
behind_point [] = none
behind_point (c ∷ cs) = if c == b'.' then some cs else behind_point cs

unfoldable pub version_of : List ℕ → List ℕ
version_of text = elim (behind_point text) [ none ↦ text | some rest ↦ rest ]

unfoldable pub take_version : HeadList × List (List ℕ) → HeadList
take_version (done, []) = done
take_version (done, [] ∷ ts) = done
take_version (done, (c ∷ cs) ∷ ts) = done ++ ((codes ":version", version_of (c ∷ cs)) ∷ [])

-- The answer 400, a use of an iterator into an empty vector, or the header.
pub data Parsed : Type 0 where
  refused : Parsed
  undefined : Parsed
  parsed : HeadList → Parsed

unfoldable pub first_line : List ℕ → Parsed
first_line line =
    let fields =
      take_version (take_part (codes ":path") (take_part (codes ":method") ([], tokens_of line))) in
    if length fields == 3 then parsed fields else refused

unfoldable pub split_at_colon : List ℕ → Option (List ℕ × List ℕ)
split_at_colon [] = none
split_at_colon (c ∷ cs) =
    let rest = split_at_colon cs in
    if c == b':'
    then some ([], cs)
    else elim rest [ none ↦ none | some (name, value) ↦ some (c ∷ name, value) ]

-- `parLastHeader->second += " " + line`, with the line as it is: the edits are of temporary copies.
unfoldable pub add_to_last : List ℕ → HeadList → HeadList
add_to_last line [] = []
add_to_last line ((n, v) ∷ []) = (n, v ++ (32 ∷ line)) ∷ []
add_to_last line (f ∷ g ∷ gs) = f ∷ add_to_last line (g ∷ gs)

-- The lines behind the first one. `has_last` says that parLastHeader is a field of the list; before
-- that it is the end of the empty vector, which differs from the end of the list.
unfoldable pub header_lines : Bool → HeadList → List (List ℕ) → Parsed
header_lines has_last done [] = parsed done
header_lines has_last done (line ∷ ls) = elim (split_at_colon line) [
  | some (name, value) ↦
      header_lines true (done ++ ((map to_lower name, trim_string value) ∷ [])) ls
  | none ↦
      if starts_with (32 ∷ 9 ∷ []) line
      then if has_last then header_lines true (add_to_last line done) ls else undefined
      else refused
]

unfoldable pub header_of : List (List ℕ) → Parsed
header_of [] = parsed []
header_of (line ∷ ls) = elim (first_line line) [
  | refused ↦ refused
  | undefined ↦ undefined
  | parsed fields ↦ header_lines false fields ls
]

-- The header and the bytes behind it; `none` while its end has not arrived.
unfoldable pub read_request : List ℕ → Option (Parsed × List ℕ)
read_request buffer = elim (end_of_header buffer) [
  | none ↦ none
  | some (head, body) ↦ some (header_of (lines_of head), body)
]
