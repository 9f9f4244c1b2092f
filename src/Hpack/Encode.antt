-- ===== src/Hpack/Encode.antt =====
-- HPackEncode of HPack.cpp.
pub mod StaticEntries
pub mod Front
pub mod RoundTrip
use http2serv.Prelude.{ℕ, ◌-◌, ◌==◌, codes, Bool, map}
use http2serv.Prelude.{List, [], ◌∷◌, ◌++◌, Option, none, some, if◌then◌else◌, ◌&&◌, ◌||◌, bytes_eq}
use http2serv.Prelude.{length}
use http2serv.Hpack.StaticTable.{HeaderEntry, static_header_list}
use http2serv.Hpack.HeadList.{to_lower}
use http2serv.Hpack.Integer.{encode_integer}
use http2serv.Hpack.Text.{encode_string}

-- `_stricmp(a, b) == 0`
unfoldable pub same_ignoring_case : List ℕ → List ℕ → Bool
unfolding to_lower
same_ignoring_case a b = bytes_eq (map to_lower a) (map to_lower b)

-- The first static entry of the name whose value is empty or the one to send.
unfoldable pub static_match : List HeaderEntry → List ℕ → List ℕ → Option HeaderEntry
unfolding same_ignoring_case
static_match [] name value = none
static_match (e ∷ es) name value =
    if same_ignoring_case e.name name && (bytes_eq e.value [] || bytes_eq e.value value)
    then some e
    else static_match es name value

-- A string behind what is already written, in what is left of the buffer.
unfoldable pub then_string : ℕ → List ℕ → Option (List ℕ) → Option (List ℕ)
then_string size s none = none
then_string size s (some front) = elim (encode_string (size - length front) s) [
  | none ↦ none
  | some back ↦ some (front ++ back)
]

unfoldable pub encode_matched : ℕ → List ℕ → List ℕ → Option HeaderEntry → Option (List ℕ)
unfolding then_string
encode_matched size name value none =
    then_string size value (then_string size name (encode_integer size 0 0x0f 0x00))
encode_matched size name value (some e) =
    if bytes_eq e.value []
    then then_string size value (encode_integer size e.index 0x0f 0x00)
    else encode_integer size e.index 0x7f 0x80

unfoldable pub hpack_encode : ℕ → List ℕ → List ℕ → Option (List ℕ)
unfolding static_match encode_matched
hpack_encode size name value =
    encode_matched size name value (static_match static_header_list name value)
