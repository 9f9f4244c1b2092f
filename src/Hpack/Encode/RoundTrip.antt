-- ===== src/Hpack/Encode/RoundTrip.antt =====
-- HPackDecode reads back the field that HPackEncode wrote.
use http2serv.Prelude.{ℕ, ◌+◌, ◌-◌, ◌^◌, ◌≤◌, ◌<◌, ◌≡◌, refl, sym, ap, ◌∙◌, arith, map}
use http2serv.Prelude.{false, Bool-cases, inl, inr, ◌⊎◌}
use http2serv.Prelude.{List, [], ◌++◌, Option, some, none, bytes_eq}
use http2serv.Prelude.{length, length-append, All, IsByte, bytes_eq_refl}
use mathlib.Core.List.{append_assoc}
use mathlib.Core.Bool.{false≢true}
use http2serv.Hpack.Result.{ok}
use http2serv.Hpack.StaticTable.{HeaderEntry, static_header_list}
use http2serv.Hpack.HeadList.{to_lower}
use http2serv.Hpack.Integer.{encode_integer}
use http2serv.Hpack.Integer.Bounds.{integer_bytes, length-integer_bytes_le}
use http2serv.Hpack.Integer.RoundTrip.{
  decode_index-encode_integer, indexed-IsPrefix, literal-IsPrefix,
}
use http2serv.Hpack.Text.{decode_string, encode_string}
use http2serv.Hpack.Text.RoundTrip.{string_round_trip}
use http2serv.Hpack.Header.{
  hpack_decode, table_entry, new_name, decode_literal, decode_indexed, named_field, literal_field,
  indexed_field,
}
use http2serv.Hpack.Encode.{hpack_encode, encode_matched, then_string, static_match}
use http2serv.Hpack.Encode.StaticEntries.{
  IsEntry, IsMatch, static_header_list-IsMatch, table_entry-static,
}
use http2serv.Hpack.Encode.Front.{
  IsSendable, sent_field, first_mask-indexed, first_mask-literal, decode_front, indexed_front,
  literal_front,
}

-- The bytes decode to the field, in front of anything and under any table.
abbrev pub Sends : List ℕ → List ℕ → List ℕ → Type 0
Sends name value bytes =
    (table : List HeaderEntry) (count limit : ℕ) (rest : List ℕ)
    → hpack_decode table count limit (bytes ++ rest)
      ≡ ok (some (sent_field name value table count rest))

then_string-some :
    (size : ℕ) (s front back : List ℕ)
    → encode_string (size - length front) s ≡ some back
    → then_string size s (some front) ≡ some (front ++ back)
unfolding then_string
then_string-some size s front back h = rw (h, then_string) refl

-- An entry of the static list, read back under its index.
entry_read :
    (e : HeaderEntry) (name : List ℕ) (table : List HeaderEntry)
    → IsEntry e
    → map to_lower e.name ≡ name
    → (f : HeaderEntry) × (table_entry table e.index ≡ some f)
      × (f.name ≡ name)
      × (f.value ≡ e.value)
entry_read e name table v n = (
  v.found,
  table_entry-static table e.index v.upper_bound ∙ v.at_index,
  v.same_name ∙ sym v.lower_case ∙ n,
  v.same_value,
)

Sends-indexed :
    (size : ℕ) (e : HeaderEntry) (name : List ℕ)
    → IsEntry e
    → map to_lower e.name ≡ name
    → 6 ≤ size
    → Sends name e.value (integer_bytes e.index 0x7f 0x80)
unfolding decode_indexed indexed_field
Sends-indexed size e name v n hs table count limit rest =
    let (f, at, fn, fv) = entry_read e name table v n in
    decode_front table count limit 0x7f e.index (integer_bytes e.index 0x7f 0x80) rest
      (first_mask-indexed e.index v.upper_bound)
      (decode_index-encode_integer size e.index 0x7f 0x80 (integer_bytes e.index 0x7f 0x80) rest
        indexed-IsPrefix (omega (arith, v.upper_bound))
        (indexed_front size e.index v.upper_bound hs))
    ∙ rw at (ground (arith, v.lower_bound, fn, fv))

-- The front of a literal field, for any index of the static list or 0.
literal_read :
    (size i : ℕ) (table : List HeaderEntry) (count limit : ℕ) (rest : List ℕ)
    → i ≤ 61
    → 6 ≤ size
    → hpack_decode table count limit (integer_bytes i 0x0f 0x00 ++ rest)
      ≡ decode_literal false table count i rest
literal_read size i table count limit rest h hs =
    decode_front table count limit 0x0f i (integer_bytes i 0x0f 0x00) rest (first_mask-literal i) (
      decode_index-encode_integer size i 0x0f 0x00 (integer_bytes i 0x0f 0x00) rest literal-IsPrefix
        (omega arith) (literal_front size i h hs))

Sends-named :
    (size : ℕ) (e : HeaderEntry) (name value back : List ℕ)
    → IsEntry e
    → map to_lower e.name ≡ name
    → 6 ≤ size
    → ((rest : List ℕ) → decode_string (back ++ rest) ≡ ok (value, rest))
    → Sends name value (integer_bytes e.index 0x0f 0x00 ++ back)
unfolding decode_literal named_field literal_field
Sends-named size e name value back v n hs d table count limit rest =
    let (f, at, fn, fv) = entry_read e name table v n in
    rw append_assoc (
      literal_read size e.index table count limit (back ++ rest) v.upper_bound hs
      ∙ rw (d rest, at) (ground (arith, v.lower_bound, fn)))

Sends-new :
    (size : ℕ) (name value nb vb : List ℕ)
    → IsSendable name
    → 6 ≤ size
    → ((rest : List ℕ) → decode_string (nb ++ rest) ≡ ok (name, rest))
    → ((rest : List ℕ) → decode_string (vb ++ rest) ≡ ok (value, rest))
    → Sends name value ((integer_bytes 0 0x0f 0x00 ++ nb) ++ vb)
unfolding decode_literal literal_field new_name
Sends-new size name value nb vb ok_name hs dn dv table count limit rest =
    rw (append_assoc, append_assoc)
      (literal_read size 0 table count limit (nb ++ (vb ++ rest)) (omega arith) hs
        ∙ rw (dn (vb ++ rest), dv rest, ok_name.known, ok_name.letter, ok_name.allowed) refl)

the_value : (v value : List ℕ) → bytes_eq v [] ≡ false → (v ≡ []) ⊎ (v ≡ value) → v ≡ value
the_value v value h (inl e) =
    absurd (false≢true (sym h ∙ ap (λ l. bytes_eq l []) e ∙ bytes_eq_refl []))
the_value v value h (inr e) = e

new_trip :
    (size : ℕ) (name value : List ℕ)
    → IsSendable name
    → All IsByte name
    → All IsByte value
    → length name < 2 ^ 31
    → length value < 2 ^ 31
    → length name + length value + 18 ≤ size
    → (bytes : List ℕ) × (encode_matched size name value none ≡ some bytes)
      × (length bytes ≤ length name + length value + 18)
      × Sends name value bytes
unfolding encode_matched
new_trip size name value v hn hv ln lv h =
    let front : List ℕ = integer_bytes 0 0x0f 0x00 in
    let short : length front ≤ 6 = length-integer_bytes_le 0 0x0f 0x00 (omega arith) in
    let (nb, en, sn, dn) = string_round_trip (size - length front) name hn ln (omega arith) in
    let both : length (front ++ nb) ≡ length front + length nb = length-append front nb in
    let (vb, ev, sv, dv) =
      string_round_trip (size - length (front ++ nb)) value hv lv (omega arith) in
    (
      (front ++ nb) ++ vb,
      ap (λ o. then_string size value (then_string size name o))
            (literal_front size 0 (omega arith) (omega arith))
          ∙ ap (then_string size value) (then_string-some size name front nb en)
          ∙ then_string-some size value (front ++ nb) vb ev,
      omega (arith, length-append (front ++ nb) vb, both, short, sn, sv),
      Sends-new size name value nb vb v (omega arith) dn dv,
    )

named_trip :
    (size : ℕ) (e : HeaderEntry) (name value : List ℕ)
    → IsEntry e
    → map to_lower e.name ≡ name
    → All IsByte value
    → length value < 2 ^ 31
    → length value + 18 ≤ size
    → (bytes : List ℕ) × (then_string size value (encode_integer size e.index 0x0f 0x00)
        ≡ some bytes)
      × (length bytes ≤ length name + length value + 18)
      × Sends name value bytes
named_trip size e name value v n hv lv h =
    let front : List ℕ = integer_bytes e.index 0x0f 0x00 in
    let short : length front ≤ 6 =
      length-integer_bytes_le e.index 0x0f 0x00 (omega (arith, v.upper_bound)) in
    let (vb, ev, sv, dv) = string_round_trip (size - length front) value hv lv (omega arith) in
    (
      front ++ vb,
      ap (then_string size value) (literal_front size e.index v.upper_bound (omega arith))
          ∙ then_string-some size value front vb ev,
      omega (arith, length-append front vb, short, sv),
      Sends-named size e name value vb v n (omega arith) dv,
    )

matched_trip :
    (size : ℕ) (e : HeaderEntry) (name value : List ℕ)
    → IsMatch e name value
    → map to_lower name ≡ name
    → All IsByte value
    → length value < 2 ^ 31
    → length value + 18 ≤ size
    → (bytes : List ℕ) × (encode_matched size name value (some e) ≡ some bytes)
      × (length bytes ≤ length name + length value + 18)
      × Sends name value bytes
unfolding encode_matched
matched_trip size e name value m lower hv lv h = elim (Bool-cases (bytes_eq e.value [])) [
  | inl empty ↦ rw empty (named_trip size e name value m.entry (m.names ∙ lower) hv lv h)
  | inr full ↦
      (let same : e.value ≡ value = the_value e.value value full m.values in
        rw full (
          integer_bytes e.index 0x7f 0x80,
          indexed_front size e.index m.entry.upper_bound (omega arith),
          omega (
            arith,
            length-integer_bytes_le e.index 0x7f 0x80 (omega (arith, m.entry.upper_bound)),
          ),
          rw (← same) (Sends-indexed size e name m.entry (m.names ∙ lower) (omega arith)),
        ))
]

pub hpack_encode-Sends :
    (size : ℕ) (name value : List ℕ)
    → IsSendable name
    → All IsByte name
    → All IsByte value
    → length name < 2 ^ 31
    → length value < 2 ^ 31
    → length name + length value + 18 ≤ size
    → (bytes : List ℕ) × (hpack_encode size name value ≡ some bytes)
      × (length bytes ≤ length name + length value + 18)
      × Sends name value bytes
unfolding hpack_encode
hpack_encode-Sends size name value v hn hv ln lv h =
    trip (static_match static_header_list name value) (static_header_list-IsMatch name value)
  where
    trip :
        (o : Option HeaderEntry)
        → ((e : HeaderEntry) → o ≡ some e → IsMatch e name value)
        → (bytes : List ℕ) × (encode_matched size name value o ≡ some bytes)
          × (length bytes ≤ length name + length value + 18)
          × Sends name value bytes
    trip none m = new_trip size name value v hn hv ln lv h
    trip (some e) m = matched_trip size e name value (m e refl) v.lower hv lv (omega arith)

-- On a name and a value of bytes, both shorter than 2 ^ 31, with 18 bytes of room beside them,
-- HPackEncode succeeds, and HPackDecode reads the name and the value back from what it wrote, and
-- leaves the dynamic table and what follows as they are; the name has a letter and no upper case one,
-- is not "connection", and is a pseudo header only if the static list has it (IsSendable).
pub hpack_round_trip :
    (size : ℕ) (name value : List ℕ)
    → IsSendable name
    → All IsByte name
    → All IsByte value
    → length name < 2 ^ 31
    → length value < 2 ^ 31
    → length name + length value + 18 ≤ size
    → (bytes : List ℕ) × (hpack_encode size name value ≡ some bytes) × Sends name value bytes
hpack_round_trip size name value v hn hv ln lv h =
    let (bytes, e, le, sends) = hpack_encode-Sends size name value v hn hv ln lv h in
    (bytes, e, sends)
