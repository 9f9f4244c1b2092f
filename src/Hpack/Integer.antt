-- ===== src/Hpack/Integer.antt =====
-- EncodeInteger, DecodeInteger and DecodeIndex of HPack.cpp.
-- A buffer to write is its size, and the bytes written are the result, `none` for SIZE_MAX.
-- A buffer to read is the list of the bytes from the pointer on; its length is the counter.
pub mod RoundTrip
pub mod Bounds
use http2serv.Prelude.{ℕ, zero, suc, ◌+◌, ◌-◌, ◌*◌, ◌/◌, ◌%◌, ◌^◌, bit_and, bit_or}
use http2serv.Prelude.{List, [], ◌∷◌, Option, none, some, ltb, leb, ◌==◌, if◌then◌else◌}
use http2serv.Hpack.Result.{Result, ok, throw, fault, ◌>>=◌, buffsize_error}

-- The last group, if there is room for one byte more.
last_group : ℕ → ℕ → ℕ → Option (List ℕ)
last_group size ret n = if ltb size (ret + 1) then none else some (n % 256 ∷ [])

cons_byte : ℕ → Option (List ℕ) → Option (List ℕ)
cons_byte b none = none
cons_byte b (some bs) = some (b ∷ bs)

-- `while (nIndex > 0x7f)`, and the group after it; `n` rounds of fuel are enough for `n`.
encode_groups : ℕ → ℕ → ℕ → ℕ → Option (List ℕ)
unfolding last_group cons_byte
encode_groups zero size ret n = last_group size ret n
encode_groups (suc fuel) size ret n =
    let rest = encode_groups fuel size (ret + 1) (n / 0x80) in
    if ltb 0x7f n
    then (if ltb size (ret + 1) then none else cons_byte (bit_or (n % 0x80) 0x80) rest)
    else last_group size ret n

unfoldable pub encode_integer : ℕ → ℕ → ℕ → ℕ → Option (List ℕ)
unfolding encode_groups cons_byte
encode_integer size n mask rep =
    if ltb size 1
    then none
    else if ltb n mask
    then some (bit_or n rep % 256 ∷ [])
    else cons_byte (bit_or mask rep) (encode_groups (n - mask) size 1 (n - mask))

-- `nRet += (b & 0x7f) * (1 << nBitCount)`: the shift and the product are of type int, the sum is of
-- type uint32_t.
unfoldable pub decode_integer : List ℕ → ℕ → ℕ → Result (ℕ × List ℕ)
decode_integer [] ret bits = throw buffsize_error
decode_integer (b ∷ bs) ret bits =
    let group = bit_and b 0x7f * 2 ^ bits in
    let ret' = (ret + group) % 2 ^ 32 in
    let more = decode_integer bs ret' (bits + 7) in
    if ltb 30 bits
    then fault
    else if leb (2 ^ 31) group
    then fault
    else if bit_and b 0x80 == 0x80
    then more
    else ok (ret', bs)

unfoldable pub decode_index : ℕ → List ℕ → Result (ℕ × List ℕ)
decode_index mask [] = throw buffsize_error
decode_index mask (b ∷ bs) =
    let index = bit_and b mask in
    if bit_and index mask == mask
    then (do (n, rest) ← decode_integer bs 0 0; ok (index + n, rest))
    else ok (index, bs)
