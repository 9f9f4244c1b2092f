-- ===== src/Hpack/Header.antt =====
-- HPackDecode and Http2DecodeHeader of HPack.cpp.
use http2serv.Prelude.{ℕ, ◌+◌, ◌-◌, ◌%◌, ◌^◌, bit_and, codes, Bool, false}
use http2serv.Prelude.{List, [], ◌∷◌, Option, none, some, ltb, leb, ◌==◌, if◌then◌else◌, ◌||◌}
use http2serv.Prelude.{◌&&◌, not, bytes_eq, get_elem?}
use http2serv.Hpack.Result.{Result, ok, throw, fault, ◌>>=◌}
use http2serv.Hpack.Result.{
  compression_error, dyntable_update, false_pseudo_header, uppercase_header, invalid_header,
}
use http2serv.Hpack.Integer.{decode_index}
use http2serv.Hpack.Text.{decode_string}
use http2serv.Hpack.StaticTable.{HeaderEntry, static_header_list}

abbrev pub static_size : ℕ
static_size = 61

-- A decoded field; the name is empty for a table size update. `table` is qDynTable, `count` is
-- nHeaderCount and `rest` the bytes behind the field.
pub record Decoded : Type 0 where
  pub name : List ℕ
  pub value : List ℕ
  pub table : List HeaderEntry
  pub count : ℕ
  pub rest : List ℕ

-- `none` for SIZE_MAX.
unfoldable pub bit_mask : ℕ → Option ℕ
bit_mask byte =
    if bit_and byte 0x80 == 0x80
    then some 0x7f
    else if bit_and byte 0xc0 == 0x40
    then some 0x3f
    else if bit_and byte 0xf0 == 0x00
    then some 0x0f
    else if bit_and byte 0xf0 == 0x10
    then some 0x0f
    else if bit_and byte 0xe0 == 0x20
    then some 0x1f
    else none

unfoldable pub with_index : ℕ → Option HeaderEntry → Option HeaderEntry
with_index i none = none
with_index i (some e) = if e.index == i then some e else none

-- The entry at `i`, which counts from 1 on and through the static list into the dynamic table.
unfoldable pub table_entry : List HeaderEntry → ℕ → Option HeaderEntry
unfolding with_index
table_entry table i =
    if ltb static_size i
    then get_elem? table (i - static_size - 1)
    else with_index i (get_elem? static_header_list (i - 1))

unfoldable pub indexed_field : List HeaderEntry → ℕ → List ℕ → Option HeaderEntry → Option Decoded
indexed_field table count rest none = none
indexed_field table count rest (some e) =
    some (record { name = e.name; value = e.value; table = table; count = count; rest = rest })

unfoldable pub decode_indexed : List HeaderEntry → ℕ → ℕ → List ℕ → Result (Option Decoded)
unfolding indexed_field
decode_indexed table count i rest =
    if i == 0
    then throw compression_error
    else ok (indexed_field table count rest (table_entry table i))

-- `nHeaderCount--` wraps at 0, and the caller's `++nHeaderCount` brings it back.
unfoldable pub decode_size_update : List HeaderEntry → ℕ → ℕ → ℕ → List ℕ → Result (Option Decoded)
decode_size_update table count limit i rest =
    if not (count == 0)
    then throw dyntable_update
    else if ltb limit i
    then throw dyntable_update
    else ok (
        some (record {
          name = [];
          value = [];
          table = if i == 0 then [] else table;
          count = (count + 2 ^ 32 - 1) % 2 ^ 32;
          rest = rest;
        }))

unfoldable pub is_pseudo : List ℕ → Bool
is_pseudo [] = false
is_pseudo (c ∷ cs) = c == b':'

unfoldable pub in_static_list : List ℕ → List HeaderEntry → Bool
in_static_list name [] = false
in_static_list name (e ∷ es) = bytes_eq name e.name || in_static_list name es

-- `islower` in the "C" locale.
unfoldable pub has_lower : List ℕ → Bool
has_lower [] = false
has_lower (c ∷ cs) = (leb b'a' c && leb c b'z') || has_lower cs

-- The name of a literal field that brings its own, and its value.
unfoldable pub new_name : List ℕ → Result (List ℕ × List ℕ × List ℕ)
unfolding is_pseudo in_static_list has_lower
new_name bytes = do
  (name, rest) ← decode_string bytes
  let value = decode_string rest
  if is_pseudo name && not (in_static_list name static_header_list)
      then throw false_pseudo_header
      else if not (has_lower name)
      then throw uppercase_header
      else if bytes_eq name (codes "connection")
      then throw invalid_header
      else (do (v, rest') ← value; ok (name, v, rest'))

unfoldable pub literal_field :
    Bool → List HeaderEntry → ℕ → List ℕ → List ℕ → List ℕ → Option Decoded
literal_field keep table count name value rest = some (record {
  name = name;
  value = value;
  table = if keep then record { index = 0; name = name; value = value } ∷ table else table;
  count = count;
  rest = rest;
})

unfoldable pub named_field :
    Bool → List HeaderEntry → ℕ → List ℕ → List ℕ → Option HeaderEntry → Option Decoded
unfolding literal_field
named_field keep table count value rest none = none
named_field keep table count value rest (some e) = literal_field keep table count e.name value rest

unfoldable pub decode_literal : Bool → List HeaderEntry → ℕ → ℕ → List ℕ → Result (Option Decoded)
unfolding new_name named_field
decode_literal keep table count i bytes =
    if i == 0
    then (do
      (name, value, rest) ← new_name bytes
      ok (literal_field keep table count name value rest))
    else (do
      (value, rest) ← decode_string bytes
      ok (named_field keep table count value rest (table_entry table i)))

-- The three kinds of fields, by the mask.
unfoldable pub decode_field : List HeaderEntry → ℕ → ℕ → List ℕ → Option ℕ → Result (Option Decoded)
unfolding decode_indexed decode_size_update decode_literal
decode_field table count limit bytes none = ok none
decode_field table count limit bytes (some mask) = do
  (i, rest) ← decode_index mask bytes
  if mask == 0x7f
      then decode_indexed table count i rest
      else if mask == 0x1f
      then decode_size_update table count limit i rest
      else decode_literal (mask == 0x3f) table count i rest

-- `limit` is HEADER_TABLE_SIZE of the settings. With no byte left the read of `*szBuf` is outside.
unfoldable pub hpack_decode : List HeaderEntry → ℕ → ℕ → List ℕ → Result (Option Decoded)
unfolding bit_mask decode_field
hpack_decode table count limit [] = fault
hpack_decode table count limit (b ∷ bs) = decode_field table count limit (b ∷ bs) (bit_mask b)
