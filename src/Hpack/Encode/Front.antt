-- ===== src/Hpack/Encode/Front.antt =====
-- How a field that HPackEncode wrote begins, and what HPackDecode makes of it.
use http2serv.Prelude.{ℕ, ◌%◌, ◌≤◌, ◌<◌, ◌≡◌, refl, arith, bit_or, map}
use http2serv.Prelude.{Bool, true, false, ltb, ◌==◌, if◌then◌else◌, ◌&&◌, not, Bool-cases, inl, inr}
use http2serv.Prelude.{List, [], ◌∷◌, ◌++◌, Option, some, none, bytes_eq}
use http2serv.Prelude.{codes, all_below, all_below_each}
use http2serv.Hpack.Result.{ok}
use http2serv.Hpack.StaticTable.{HeaderEntry, static_header_list}
use http2serv.Hpack.HeadList.{to_lower}
use http2serv.Hpack.Integer.{encode_integer, decode_index}
use http2serv.Hpack.Integer.Bounds.{integer_bytes, encode_integer_lem, length-integer_bytes_le}
use http2serv.Hpack.Header.{
  Decoded, hpack_decode, decode_field, bit_mask, is_pseudo, in_static_list, has_lower,
  decode_literal, decode_indexed, decode_size_update,
}

-- A name that HPackDecode accepts in a literal field: in lower case, with a letter, not "connection",
-- and known if it is a pseudo header.
pub record IsSendable (name : List ℕ) : Type 0 where
  pub lower : map to_lower name ≡ name
  pub letter : has_lower name ≡ true
  pub allowed : bytes_eq name (codes "connection") ≡ false
  pub known : (is_pseudo name && not (in_static_list name static_header_list)) ≡ false

-- The field as it is decoded, with nothing added to the table.
abbrev pub sent_field : List ℕ → List ℕ → List HeaderEntry → ℕ → List ℕ → Decoded
sent_field name value table count rest = record {
  name = name;
  value = value;
  table = table;
  count = count;
  rest = rest;
}

abbrev pub first_mask : List ℕ → Option ℕ
first_mask [] = none
first_mask (b ∷ bs) = bit_mask b

is_mask : ℕ → Option ℕ → Bool
is_mask m none = false
is_mask m (some n) = n == m

is_mask→eq : (m : ℕ) (o : Option ℕ) → is_mask m o ≡ true → o ≡ some m
unfolding is_mask
is_mask→eq m none h = cc
is_mask→eq m (some n) h = ground arith

indexed_table : all_below 127 (λ n. is_mask 0x7f (bit_mask (bit_or n 0x80 % 256))) ≡ true
unfolding all_below is_mask bit_mask
indexed_table = refl

literal_table : all_below 16 (λ n. is_mask 0x0f (bit_mask (bit_or n 0x00 % 256))) ≡ true
unfolding all_below is_mask bit_mask
literal_table = refl

pub first_mask-indexed : (i : ℕ) → i ≤ 61 → first_mask (integer_bytes i 0x7f 0x80) ≡ some 0x7f
unfolding integer_bytes
first_mask-indexed i h = ground (
  arith,
  is_mask→eq 0x7f (bit_mask (bit_or i 0x80 % 256)) (
      all_below_each 127 (λ n. is_mask 0x7f (bit_mask (bit_or n 0x80 % 256))) i indexed_table
        (omega arith)),
)

literal_mask : (i : ℕ) → i < 16 → bit_mask (bit_or i 0x00 % 256) ≡ some 0x0f
literal_mask i h =
    is_mask→eq 0x0f (bit_mask (bit_or i 0x00 % 256))
      (all_below_each 16 (λ n. is_mask 0x0f (bit_mask (bit_or n 0x00 % 256))) i literal_table h)

pub first_mask-literal : (i : ℕ) → first_mask (integer_bytes i 0x0f 0x00) ≡ some 0x0f
unfolding integer_bytes
first_mask-literal i = elim (Bool-cases (ltb i 0x0f)) [
  | inl e ↦ rw e (literal_mask i (ground arith))
  | inr e ↦ rw e (literal_mask 0x0f (omega arith))
]

-- A field begins with its index.
pub decode_front :
    (table : List HeaderEntry) (count limit mask i : ℕ) (front rest : List ℕ)
    → first_mask front ≡ some mask
    → decode_index mask (front ++ rest) ≡ ok (i, rest)
    → hpack_decode table count limit (front ++ rest) ≡ (
        if mask == 0x7f
        then decode_indexed table count i rest
        else if mask == 0x1f
        then decode_size_update table count limit i rest
        else decode_literal (mask == 0x3f) table count i rest)
unfolding hpack_decode decode_field
decode_front table count limit mask i [] rest m h = cc
decode_front table count limit mask i (b ∷ bs) rest m h = rw (m, h) refl

-- The index of an entry written in front, for the two kinds of field.
pub indexed_front :
    (size i : ℕ)
    → i ≤ 61
    → 6 ≤ size
    → encode_integer size i 0x7f 0x80 ≡ some (integer_bytes i 0x7f 0x80)
indexed_front size i h hs =
    ground (
      arith,
      encode_integer_lem size i 0x7f 0x80,
      length-integer_bytes_le i 0x7f 0x80 (omega arith),
    )

pub literal_front :
    (size i : ℕ)
    → i ≤ 61
    → 6 ≤ size
    → encode_integer size i 0x0f 0x00 ≡ some (integer_bytes i 0x0f 0x00)
literal_front size i h hs =
    ground (
      arith,
      encode_integer_lem size i 0x0f 0x00,
      length-integer_bytes_le i 0x0f 0x00 (omega arith),
    )
