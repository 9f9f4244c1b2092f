-- ===== src/Hpack/Integer/RoundTrip.antt =====
-- DecodeIndex and DecodeInteger read back what EncodeInteger wrote.
use http2serv.Prelude.{
  ℕ, zero, suc, ◌+◌, ◌-◌, ◌*◌, ◌/◌, ◌%◌, ◌^◌, ◌≤◌, ◌<◌, ◌≡◌, refl, ap, bit_and, bit_or, arith,
}
use http2serv.Prelude.{List, ◌∷◌, ◌++◌, some, low_seven, top_bit}
use http2serv.Prelude.{all_below, agree→eq}
use native.Mathlib.Nat.{div-add-mod}
use native.Mathlib.Numerals.{towards_suc}
use http2serv.Hpack.Result.{ok}
use http2serv.Hpack.Integer.{decode_integer, decode_index, encode_integer}
use http2serv.Hpack.Integer.Bounds.{groups, integer_bytes, encode_integer_lem}

last_byte :
    (w ret bits : ℕ) (rest : List ℕ)
    → w < 128
    → bits ≤ 30
    → w * 2 ^ bits < 2 ^ 31
    → ret + w * 2 ^ bits < 2 ^ 32
    → decode_integer (w ∷ rest) ret bits ≡ ok (ret + w * 2 ^ bits, rest)
unfolding decode_integer
last_byte w ret bits rest hw hb fits sum = ground (arith, low_seven w, top_bit w)

inner_byte :
    (g ret bits : ℕ) (rest : List ℕ)
    → g < 128
    → bits ≤ 30
    → g * 2 ^ bits < 2 ^ 31
    → ret + g * 2 ^ bits < 2 ^ 32
    → decode_integer ((g + 128) ∷ rest) ret bits
      ≡ decode_integer rest (ret + g * 2 ^ bits) (bits + 7)
unfolding decode_integer
inner_byte g ret bits rest hg hb fits sum = ground (arith, low_seven (g + 128), top_bit (g + 128))

-- The next group weighs 128 times as much.
next_weight : (bits : ℕ) → 128 * 2 ^ bits ≡ 2 ^ (bits + 7)
next_weight bits = simp towards_suc (omega arith)

pow_step : (k : ℕ) → 128 ^ suc k ≡ 128 * 128 ^ k
pow_step k = omega arith

peel_group : (n bits : ℕ) → n / 128 * 2 ^ (bits + 7) + n % 128 * 2 ^ bits ≡ n * 2 ^ bits
peel_group n bits = omega (
  arith,
  ap (λ weight. n / 128 * weight) (next_weight bits),
  ap (λ m. m * 2 ^ bits) (div-add-mod n 128),
)

-- The last group, and a group before it, as `groups` writes them.
final_group :
    (n ret bits : ℕ) (rest : List ℕ)
    → n < 128
    → bits ≤ 30
    → n * 2 ^ bits < 2 ^ 31
    → ret + n * 2 ^ bits < 2 ^ 32
    → decode_integer (n % 256 ∷ rest) ret bits ≡ ok (ret + n * 2 ^ bits, rest)
final_group n ret bits rest hn hb fits sum =
    let e : n % 256 ≡ n = omega arith in rw e (last_byte n ret bits rest hn hb fits sum)

-- `k` groups may still follow; `n` counts from bit `bits` on.
decode_integer-groups :
    (k fuel n ret bits : ℕ) (rest : List ℕ)
    → bits + 7 * k ≡ 28
    → n < 8 * 128 ^ k
    → n ≤ fuel
    → n * 2 ^ bits < 2 ^ 31
    → ret + n * 2 ^ bits < 2 ^ 32
    → decode_integer (groups fuel n ++ rest) ret bits ≡ ok (ret + n * 2 ^ bits, rest)
unfolding groups
decode_integer-groups k zero n ret bits rest hb hn hf fits sum =
    final_group n ret bits rest (omega arith) (omega arith) fits sum
decode_integer-groups zero (suc fuel) n ret bits rest hb hn hf fits sum =
    ground (arith, final_group n ret bits rest)
decode_integer-groups (suc k) (suc fuel) n ret bits rest hb hn hf fits sum = ground (
  arith,
  final_group n ret bits rest,
  peel_group n bits,
  inner_byte (n % 128) ret bits (groups fuel (n / 128) ++ rest),
  decode_integer-groups k fuel (n / 128) (ret + n % 128 * 2 ^ bits) (bits + 7) rest,
  pow_step k,
)

-- A prefix mask and the representation bits above it.
pub record IsPrefix (mask rep : ℕ) : Type 0 where
  pub keeps : (n : ℕ) → n < suc mask → bit_and n mask ≡ n
  pub reads : (n : ℕ) → n < suc mask → bit_and (bit_or n rep % 256) mask ≡ n
  pub small : bit_or mask rep < 256

-- DecodeIndex reads back a number that EncodeInteger wrote under the same mask, and leaves what
-- follows, if the number is less than 2 ^ 31 above the mask and the representation bits leave the
-- bits of the mask alone (IsPrefix).
pub decode_index-encode_integer :
    (size n mask rep : ℕ) (bytes rest : List ℕ)
    → IsPrefix mask rep
    → n < mask + 2 ^ 31
    → encode_integer size n mask rep ≡ some bytes
    → decode_index mask (bytes ++ rest) ≡ ok (n, rest)
unfolding decode_index integer_bytes
decode_index-encode_integer size n mask rep bytes rest p hn h = ground (
  arith,
  encode_integer_lem size n mask rep,
  p.keeps n,
  p.reads n,
  p.keeps mask,
  p.reads mask,
  p.small,
  decode_integer-groups 4 (n - mask) (n - mask) 0 0 rest,
)

-- The three prefixes that the encoder writes.
pub indexed-IsPrefix : IsPrefix 0x7f 0x80
unfolding all_below
indexed-IsPrefix = record {
  keeps = agree→eq (λ n. bit_and n 0x7f) (λ n. n) 128 refl;
  reads = agree→eq (λ n. bit_and (bit_or n 0x80 % 256) 0x7f) (λ n. n) 128 refl;
  small = omega arith;
}

pub plain-IsPrefix : IsPrefix 0x7f 0x00
unfolding all_below
plain-IsPrefix = record {
  keeps = agree→eq (λ n. bit_and n 0x7f) (λ n. n) 128 refl;
  reads = agree→eq (λ n. bit_and (bit_or n 0x00 % 256) 0x7f) (λ n. n) 128 refl;
  small = omega arith;
}

pub literal-IsPrefix : IsPrefix 0x0f 0x00
unfolding all_below
literal-IsPrefix = record {
  keeps = agree→eq (λ n. bit_and n 0x0f) (λ n. n) 16 refl;
  reads = agree→eq (λ n. bit_and (bit_or n 0x00 % 256) 0x0f) (λ n. n) 16 refl;
  small = omega arith;
}
