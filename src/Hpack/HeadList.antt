-- ===== src/Hpack/HeadList.antt =====
-- HeadList of HPack.h: the fields of a header in the order in which they came.
use http2serv.Prelude.{ℕ, ◌+◌, List, [], ◌∷◌, Option, none, some, leb, if◌then◌else◌, ◌&&◌, map}
use http2serv.Prelude.{bytes_eq}

abbrev pub HeadList : Type 0
HeadList = List (List ℕ × List ℕ)

-- `find` compares names as they are; the result is the value of the first field.
unfoldable pub find : List ℕ → HeadList → Option (List ℕ)
find name [] = none
find name ((n, v) ∷ fs) = if bytes_eq name n then some v else find name fs

-- `::tolower` on a byte, in the "C" locale.
unfoldable pub to_lower : ℕ → ℕ
to_lower c = if leb b'A' c && leb c b'Z' then c + 32 else c

-- `ifind` compares names in lower case.
unfoldable pub ifind : List ℕ → HeadList → Option (List ℕ)
unfolding to_lower
ifind name [] = none
ifind name ((n, v) ∷ fs) =
    if bytes_eq (map to_lower name) (map to_lower n) then some v else ifind name fs
