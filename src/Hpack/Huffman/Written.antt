-- ===== src/Hpack/Huffman/Written.antt =====
-- The bits that one round of HufmanEncode writes, checked by evaluation for every byte and every
-- number of bits already used.
use http2serv.Prelude.{
  ℕ, zero, suc, ◌+◌, ◌-◌, ◌*◌, ◌/◌, ◌%◌, ◌^◌, ◌≤◌, ◌<◌, ◌≡◌, refl, sym, ap, ◌∙◌,
}
use http2serv.Prelude.{arith, bit_or, Bool, true, false, ◌&&◌, ltb, ltb→lt}
use http2serv.Prelude.{List, [], ◌∷◌, ◌++◌, length, take, drop, All, IsByte}
use http2serv.Prelude.{all_below, all_below_each, bytes_eq, bytes_eq→eq, bytes_eq_refl, &&-parts}
use mathlib.Core.List.{append_assoc}
use http2serv.Hpack.Codes.{huff_codes}
use http2serv.Hpack.Huffman.{code_at, whole_bytes, field_bytes, merge_first, head_or_zero}
use http2serv.Hpack.Huffman.Bits.{bits_of, bytes_bits, drop-append_left, length-bits_of}
use http2serv.Hpack.Huffman.Tables.{code_bits, code_length, ones}

unfoldable pub zeros : ℕ → List ℕ
zeros zero = []
zeros (suc n) = 0 ∷ zeros n

-- The bit field of a byte behind `used` bits, as HufmanEncode writes it.
unfoldable pub field_of : ℕ → ℕ → List ℕ
field_of used c =
    field_bytes (whole_bytes (used + code_length c)) 0
      ((code_at huff_codes c).0 * 2 ^ (64 - code_length c - used) % 2 ^ 64)

unfoldable pub padding_bits : ℕ → ℕ → ℕ
padding_bits used c = 8 * whole_bytes (used + code_length c) - (used + code_length c)

field_row : ℕ → ℕ → Bool
field_row u c =
    bytes_eq (bytes_bits (field_of u c)) (zeros u ++ (code_bits c ++ zeros (padding_bits u c)))
    && ltb (head_or_zero (field_of u c)) (2 ^ (8 - u))

field_rows : all_below 8 (λ u. all_below 256 (field_row u)) ≡ true
unfolding field_row all_below field_of code_length code_bits padding_bits bytes_bits zeros bytes_eq
    field_bytes whole_bytes head_or_zero bits_of code_at huff_codes
field_rows = refl

or_byte : ℕ → ℕ → ℕ → Bool
or_byte u cur b =
    bytes_eq (bits_of 8 (bit_or cur b)) (take u (bits_of 8 cur) ++ drop u (bits_of 8 b))
    && ltb (bit_or cur b) 256

or_row : ℕ → ℕ → Bool
or_row u cur = elim (bytes_eq (drop u (bits_of 8 cur)) (zeros (8 - u))) [
  | true ↦ all_below (2 ^ (8 - u)) (or_byte u cur)
  | false ↦ true
]

or_rows : all_below 8 (λ u. all_below 256 (or_row u)) ≡ true
unfolding or_row or_byte all_below bits_of zeros bytes_eq
or_rows = refl

end_row : ℕ → ℕ → Bool
end_row u cur =
    bytes_eq (bits_of 8 (bit_or cur (0xff / 2 ^ u))) (take u (bits_of 8 cur) ++ ones (8 - u))
    && ltb (bit_or cur (0xff / 2 ^ u)) 256

end_rows : all_below 8 (λ u. all_below 256 (end_row u)) ≡ true
unfolding end_row all_below bits_of ones bytes_eq
end_rows = refl

table_row :
    (row : ℕ → ℕ → Bool)
    → all_below 8 (λ u. all_below 256 (row u)) ≡ true
    → (u c : ℕ) → u < 8
    → c < 256
    → row u c ≡ true
table_row row h u c hu hc =
    all_below_each 256 (row u) c (all_below_each 8 (λ v. all_below 256 (row v)) u h hu) hc

pub field_of-bits :
    (u c : ℕ)
    → u < 8
    → c < 256
    → (bytes_bits (field_of u c) ≡ zeros u ++ (code_bits c ++ zeros (padding_bits u c)))
      × (head_or_zero (field_of u c) < 2 ^ (8 - u))
unfolding field_row
field_of-bits u c hu hc =
    let (e, l) =
      &&-parts
        (bytes_eq (bytes_bits (field_of u c))
          (zeros u ++ (code_bits c ++ zeros (padding_bits u c))))
        (ltb (head_or_zero (field_of u c)) (2 ^ (8 - u)))
        (table_row field_row field_rows u c hu hc) in
    (bytes_eq→eq _ _ e, ltb→lt _ _ l)

-- A byte of which only the first `u` bits are written, and what is or-ed into it.
pub or_byte_bits :
    (u cur b : ℕ)
    → u < 8
    → cur < 256
    → drop u (bits_of 8 cur) ≡ zeros (8 - u)
    → b < 2 ^ (8 - u)
    → (bits_of 8 (bit_or cur b) ≡ take u (bits_of 8 cur) ++ drop u (bits_of 8 b))
      × (bit_or cur b < 256)
unfolding or_row or_byte
or_byte_bits u cur b hu hc hz hb =
    let r : or_row u cur ≡ true = table_row or_row or_rows u cur hu hc in
    let full : all_below (2 ^ (8 - u)) (or_byte u cur) ≡ true =
      rw (or_row, hz, bytes_eq_refl) at r in
    let (e, l) =
      &&-parts
        (bytes_eq (bits_of 8 (bit_or cur b)) (take u (bits_of 8 cur) ++ drop u (bits_of 8 b)))
        (ltb (bit_or cur b) 256) (all_below_each (2 ^ (8 - u)) (or_byte u cur) b full hb) in
    (bytes_eq→eq _ _ e, ltb→lt _ _ l)

pub end_byte_bits :
    (u cur : ℕ)
    → u < 8
    → cur < 256
    → (bits_of 8 (bit_or cur (0xff / 2 ^ u)) ≡ take u (bits_of 8 cur) ++ ones (8 - u))
      × (bit_or cur (0xff / 2 ^ u) < 256)
unfolding end_row
end_byte_bits u cur hu hc =
    let (e, l) =
      &&-parts
        (bytes_eq (bits_of 8 (bit_or cur (0xff / 2 ^ u))) (take u (bits_of 8 cur) ++ ones (8 - u)))
        (ltb (bit_or cur (0xff / 2 ^ u)) 256) (table_row end_row end_rows u cur hu hc) in
    (bytes_eq→eq _ _ e, ltb→lt _ _ l)

pub length-zeros : (n : ℕ) → length (zeros n) ≡ n
unfolding zeros
length-zeros zero = refl
length-zeros (suc n) = ap suc (length-zeros n)

drop-zeros : (n : ℕ) (xs : List ℕ) → drop n (zeros n ++ xs) ≡ xs
unfolding zeros
drop-zeros zero xs = refl
drop-zeros (suc n) xs = drop-zeros n xs

length-field_bytes : (count i field : ℕ) → length (field_bytes count i field) ≡ count
unfolding field_bytes
length-field_bytes zero i field = refl
length-field_bytes (suc count) i field = ap suc (length-field_bytes count (i + 1) field)

field_bytes-IsByte : (count i field : ℕ) → All IsByte (field_bytes count i field)
unfolding field_bytes
field_bytes-IsByte zero i field = tt
field_bytes-IsByte (suc count) i field = (omega arith, field_bytes-IsByte count (i + 1) field)

pub field_of-shape :
    (u c : ℕ)
    → c < 256
    → (length (field_of u c) ≡ whole_bytes (u + code_length c)) × All IsByte (field_of u c)
unfolding field_of
field_of-shape u c hc = (length-field_bytes _ 0 _, field_bytes-IsByte _ 0 _)

-- What is written: as many bytes as the bits take.
pub merged :
    (u cur : ℕ) (field tail : List ℕ)
    → u < 8
    → cur < 256
    → drop u (bits_of 8 cur) ≡ zeros (8 - u)
    → head_or_zero field < 2 ^ (8 - u)
    → 1 ≤ length field
    → All IsByte field
    → bytes_bits field ≡ zeros u ++ tail
    → (bytes_bits (merge_first cur field) ≡ take u (bits_of 8 cur) ++ tail)
      × (length (merge_first cur field) ≡ length field)
      × All IsByte (merge_first cur field)
unfolding merge_first head_or_zero bytes_bits
merged u cur [] tail hu hc hz hb l a e = absurd (omega arith)
merged u cur (b ∷ bs) tail hu hc hz hb l a e =
    let (o, small) = or_byte_bits u cur b hu hc hz hb in
    (
      ap (λ l. l ++ bytes_bits bs) o
          ∙ append_assoc (take u (bits_of 8 cur)) (drop u (bits_of 8 b)) (bytes_bits bs)
          ∙ ap (λ l. take u (bits_of 8 cur) ++ l)
              (sym (
                  drop-append_left u (bits_of 8 b) (bytes_bits bs)
                    (omega (arith, length-bits_of 8 b)))
                ∙ ap (drop u) e
                ∙ drop-zeros u tail),
      refl,
      (small, a.1),
    )
