-- ===== src/Hpack/Huffman.antt =====
-- HufmanEncode and HufmanDecode of HPack.cpp.
pub mod Bits
pub mod Decode
pub mod Tables
pub mod RoundTrip
pub mod Written
pub mod Encode
pub mod Total
use http2serv.Prelude.{ℕ, zero, suc, ◌+◌, ◌-◌, ◌*◌, ◌/◌, ◌%◌, ◌^◌, ◌≡◌, refl, bit_or, codes, Bool}
use http2serv.Prelude.{List, [], ◌∷◌, ◌++◌, Option, none, some, ltb, ◌==◌, if◌then◌else◌, ◌&&◌, not}
use http2serv.Prelude.{length, take, drop, true, false}
use http2serv.Hpack.Codes.{huff_codes}

-- `(n / 8) + ((n % 8) != 0 ? 1 : 0)`
unfoldable pub whole_bytes : ℕ → ℕ
whole_bytes bits = bits / 8 + (if bits % 8 == 0 then 0 else 1)

-- `HUFFCODES.begin() + c`; the table has an entry for every byte.
unfoldable pub code_at : List (ℕ × ℕ) → ℕ → ℕ × ℕ
code_at [] c = (0, 0)
code_at (e ∷ es) zero = e
code_at (e ∷ es) (suc c) = code_at es c

-- The bytes `i`, `i + 1`, … of the bit field, `count` of them.
unfoldable pub field_bytes : ℕ → ℕ → ℕ → List ℕ
field_bytes zero i field = []
field_bytes (suc count) i field = (field / 2 ^ (56 - i * 8) % 256) ∷ field_bytes count (i + 1) field

-- The first byte of the field is or-ed into the byte that is partly written.
unfoldable pub merge_first : ℕ → List ℕ → List ℕ
merge_first cur [] = []
merge_first cur (b ∷ bs) = bit_or cur b ∷ bs

unfoldable pub head_or_zero : List ℕ → ℕ
head_or_zero [] = 0
head_or_zero (b ∷ bs) = b

unfoldable pub append_to : List ℕ → Option (List ℕ) → Option (List ℕ)
append_to bs none = none
append_to bs (some rest) = some (bs ++ rest)

-- The loop over the characters: `total` is nTotalBits and `cur` the byte at szBuf, of which
-- `total % 8` bits are written. The result are the bytes from szBuf on, `none` for SIZE_MAX.
unfoldable pub encode_loop : ℕ → ℕ → ℕ → List ℕ → Option (List ℕ)
encode_loop size total cur [] =
    if total % 8 == 0 then some [] else some (bit_or cur (0xff / 2 ^ (total % 8)) ∷ [])
encode_loop size total cur (c ∷ s) =
    let code = (code_at huff_codes c).0 in
    let bits = (code_at huff_codes c).1 in
    let used = total % 8 in
    let all_bits = used + bits in
    let count = whole_bytes all_bits in
    let field = code * 2 ^ (64 - bits - used) % 2 ^ 64 in
    let written = merge_first cur (field_bytes count 0 field) in
    let done = all_bits / 8 in
    let rest = encode_loop size (total + bits) (head_or_zero (drop done written)) s in
    if ltb size (whole_bytes (total + bits))
    then none
    else if ltb size (total / 8 + count)
    then none
    else append_to (take done written) rest

unfoldable pub huffman_encode : ℕ → List ℕ → Option (List ℕ)
unfolding encode_loop whole_bytes code_at field_bytes merge_first head_or_zero append_to
huffman_encode size s = encode_loop size 0 0 s

abbrev pub bit_numbers : List ℕ
bit_numbers =
    5 ∷ 6 ∷ 7 ∷ 8 ∷ 10 ∷ 11 ∷ 12 ∷ 13 ∷ 14 ∷ 15 ∷ 19 ∷ 20 ∷ 21 ∷ 22 ∷ 23 ∷ 24 ∷ 25 ∷ 26 ∷ 27 ∷ 28
    ∷ 30 ∷ []

-- `n1 |= byte << (56 - e * 8)` for the first `count` bytes; the bytes take different bits, so the
-- sum is their "or".
unfoldable pub gather : ℕ → ℕ → List ℕ → ℕ
gather zero e bytes = 0
gather (suc count) e [] = 0
gather (suc count) e (b ∷ bs) = b * 2 ^ (56 - e * 8) + gather count (e + 1) bs

-- `find_if` over HUFFCODES: the position of the first entry with this code and this length.
unfoldable pub find_code : List (ℕ × ℕ) → ℕ → ℕ → ℕ → Option ℕ
find_code [] pos n bits = none
find_code ((code, len) ∷ es) pos n bits =
    let rest = find_code es (pos + 1) n bits in if code == n && len == bits then some pos else rest

-- The loop over BITNUMBERS: the position found and the length of its code.
unfoldable pub decode_symbol : List ℕ → ℕ → List ℕ → Option (ℕ × ℕ)
unfolding whole_bytes gather find_code
decode_symbol [] used bytes = none
decode_symbol (bits ∷ more) used bytes =
    let all_bits = used + bits in
    let count = whole_bytes all_bits in
    let n = gather count 0 bytes / 2 ^ (64 - all_bits) % 2 ^ bits in
    let rest = decode_symbol more used bytes in
    let found : Option (ℕ × ℕ) = elim (find_code huff_codes 0 n bits) [
      | some pos ↦ some (pos, bits)
      | none ↦ rest
    ] in
    if ltb (length bytes) count then none else if n == 2 ^ bits - 1 then rest else found

-- Whether the bits of the only byte left are all 1.
unfoldable pub is_padding : ℕ → List ℕ → Bool
is_padding used (b ∷ []) = b * 2 ^ used % 256 == 0xff * 2 ^ used % 256
is_padding used bytes = false

pub record Decoding : Type 0 where
  pub out : List ℕ
  pub used : ℕ
  pub left : List ℕ

-- `while (nLen > (nAnzBit != 0 && (8 - nAnzBit) < 5 ? 1 : 0))`
unfoldable pub has_more : ℕ → List ℕ → Bool
has_more used bytes = ltb (if not (used == 0) && ltb (8 - used) 5 then 1 else 0) (length bytes)

-- One round of the loop: the next state and whether the loop goes on.
unfoldable pub accept : List ℕ → ℕ → List ℕ → ℕ → ℕ → Decoding
accept out used bytes pos bits = record {
  out = if ltb pos 256 then out ++ (pos ∷ []) else out;
  used = (used + bits) % 8;
  left = drop ((used + bits) / 8) bytes;
}

unfoldable pub decode_loop : ℕ → List ℕ → ℕ → List ℕ → Decoding
decode_loop zero out used bytes = record { out = out; used = used; left = bytes }
decode_loop (suc fuel) out used bytes =
    let stop : Decoding = record { out = out; used = used; left = bytes } in
    let next : Decoding = elim (decode_symbol bit_numbers used bytes) [
      | none ↦ stop
      | some (pos, bits) ↦
          (let st = accept out used bytes pos bits in
            if pos == 256 then st else decode_loop fuel st.out st.used st.left)
    ] in
    if has_more used bytes then (if is_padding used bytes then stop else next) else stop

-- iError: 1 for a last byte that is not padded with ones, 2 for more than one byte left.
unfoldable pub huffman_error : Decoding → ℕ
unfolding is_padding
huffman_error d =
    if length d.left == 1 && not (is_padding d.used d.left)
    then 1
    else if ltb 1 (length d.left)
    then 2
    else 0

-- The text decoded and iError. Every code has at least five bits, so the fuel is enough.
unfoldable pub huffman_decode : List ℕ → List ℕ × ℕ
unfolding decode_loop huffman_error accept has_more decode_symbol
huffman_decode bytes = let d = decode_loop (8 * length bytes) [] 0 bytes in (d.out, huffman_error d)
