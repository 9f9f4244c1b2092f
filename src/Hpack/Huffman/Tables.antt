-- ===== src/Hpack/Huffman/Tables.antt =====
-- Facts about the table HUFFCODES, checked by evaluation over all 256 bytes.
use http2serv.Prelude.{ℕ, zero, suc, ◌≤◌, ◌<◌, ◌≡◌, refl, arith}
use http2serv.Prelude.{
  Bool, true, false, ◌&&◌, leb, ◌==◌, if◌then◌else◌, Bool-cases, inl, inr, &&-parts,
}
use http2serv.Prelude.{List, [], ◌∷◌, ◌++◌, length, length-append, drop, Option, none, some}
use http2serv.Prelude.{all_below, all_below_each, leb→le}
use mathlib.Core.Bool.{false≢true}
use http2serv.Hpack.Codes.{huff_codes}
use http2serv.Hpack.Huffman.{code_at, find_code, bit_numbers, is_padding}
use http2serv.Hpack.Huffman.Bits.{bits_of, value, length-bits_of, take-append_left}
use http2serv.Hpack.Huffman.Decode.{symbol_of}

unfoldable pub code_length : ℕ → ℕ
code_length c = (code_at huff_codes c).1

-- The code of a byte as bits.
unfoldable pub code_bits : ℕ → List ℕ
code_bits c = bits_of (code_at huff_codes c).1 (code_at huff_codes c).0

unfoldable pub all_ones : List ℕ → Bool
all_ones [] = true
all_ones (b ∷ bs) = b == 1 && all_ones bs

is_symbol : ℕ → Option (ℕ × ℕ) → Bool
is_symbol c none = false
is_symbol c (some (pos, n)) = pos == c && n == code_length c

-- The walk through BITNUMBERS finds exactly this byte, the length is between 5 and 30, and no code is
-- all ones.
row_holds : ℕ → Bool
row_holds c =
    is_symbol c (symbol_of bit_numbers (code_bits c))
    && (leb 5 (code_length c)
        && (leb (code_length c) 30 && (if all_ones (code_bits c) then false else true)))

rows : all_below 256 row_holds ≡ true
unfolding row_holds all_below is_symbol symbol_of code_bits code_length find_code value all_ones
    bits_of code_at huff_codes
rows = refl

row : (c : ℕ) → c < 256 → row_holds c ≡ true
row c h = all_below_each 256 row_holds c rows h

is_symbol→eq : (c : ℕ) (o : Option (ℕ × ℕ)) → is_symbol c o ≡ true → o ≡ some (c, code_length c)
unfolding is_symbol
is_symbol→eq c none h = cc
is_symbol→eq c (some (pos, n)) h = ground arith

row_parts :
    (c : ℕ)
    → c < 256
    → (is_symbol c (symbol_of bit_numbers (code_bits c)) ≡ true)
      × (leb 5 (code_length c) ≡ true)
      × (leb (code_length c) 30 ≡ true)
      × ((if all_ones (code_bits c) then false else true) ≡ true)
unfolding row_holds
row_parts c h =
    let (a, r) = &&-parts (is_symbol c (symbol_of bit_numbers (code_bits c))) _ (row c h) in
    let (b, r') = &&-parts (leb 5 (code_length c)) _ r in
    let (d, e) = &&-parts (leb (code_length c) 30) _ r' in (a, b, d, e)

pub symbol_of-code_bits :
    (c : ℕ) → c < 256 → symbol_of bit_numbers (code_bits c) ≡ some (c, code_length c)
symbol_of-code_bits c h = is_symbol→eq c (symbol_of bit_numbers (code_bits c)) (row_parts c h).0

pub code_length_bounds : (c : ℕ) → c < 256 → (5 ≤ code_length c) × (code_length c ≤ 30)
code_length_bounds c h =
    (leb→le 5 (code_length c) (row_parts c h).1, leb→le (code_length c) 30 (row_parts c h).2)

pub all_ones-code_bits : (c : ℕ) → c < 256 → all_ones (code_bits c) ≡ false
all_ones-code_bits c h = elim (Bool-cases (all_ones (code_bits c))) [
  | inl p ↦ absurd (false≢true (rw p at (row_parts c h).3))
  | inr p ↦ p
]

pub length-code_bits : (c : ℕ) → length (code_bits c) ≡ code_length c
unfolding code_bits code_length
length-code_bits c = length-bits_of (code_at huff_codes c).1 (code_at huff_codes c).0

-- More bits behind do not change the symbol found.
pub symbol_of-append :
    (ns bs more : List ℕ) {x : ℕ × ℕ}
    → symbol_of ns bs ≡ some x
    → symbol_of ns (bs ++ more) ≡ some x
unfolding symbol_of
symbol_of-append [] bs more h = cc
symbol_of-append (n ∷ ns) bs more {x} h =
    ground (
      arith,
      take-append_left n bs more,
      length-append bs more,
      symbol_of-append ns bs more {x = x},
    )

-- The end of the text: fewer than eight bits, all 1.
unfoldable pub ones : ℕ → List ℕ
ones zero = []
ones (suc n) = 1 ∷ ones n

padding_row : ℕ → ℕ → Bool
unfolding is_padding
padding_row u b =
    if is_padding u (b ∷ [])
    then all_ones (drop u (bits_of 8 b))
    else (if all_ones (drop u (bits_of 8 b)) then false else true)

padding_rows : all_below 8 (λ u. all_below 256 (padding_row u)) ≡ true
unfolding padding_row all_below bits_of all_ones
padding_rows = refl

-- `is_padding` sees exactly whether the bits left are all 1.
pub is_padding-all_ones :
    (u b : ℕ) → u < 8 → b < 256 → is_padding u (b ∷ []) ≡ all_ones (drop u (bits_of 8 b))
is_padding-all_ones u b hu hb =
    same (is_padding u (b ∷ [])) (all_ones (drop u (bits_of 8 b))) (unfold padding_row in r)
  where
    r : padding_row u b ≡ true
    r =
        all_below_each 256 (padding_row u) b
          (all_below_each 8 (λ v. all_below 256 (padding_row v)) u padding_rows hu) hb

    same : (p q : Bool) → (if p then q else (if q then false else true)) ≡ true → p ≡ q
    same true true h = refl
    same true false h = cc
    same false true h = cc
    same false false h = refl
