-- ===== src/Hpack/Huffman/Encode.antt =====
-- HufmanEncode writes the codes of the text, one behind the other, and pads with ones.
use http2serv.Prelude.{
  ℕ, zero, suc, ◌+◌, ◌-◌, ◌*◌, ◌/◌, ◌%◌, ◌^◌, ◌≤◌, ◌<◌, ◌≡◌, refl, sym, ap, ◌∙◌,
}
use http2serv.Prelude.{
  bit_or, arith, Bool, true, false, Option, ◌==◌, if◌then◌else◌, Bool-cases, inl, inr, ◌⊎◌,
}
use http2serv.Prelude.{
  List, [], ◌∷◌, ◌++◌, length, length-append, take, drop, All, IsByte, some, none,
}
use http2serv.Prelude.{take-append-drop, drop-append, take-append, length-take, length-drop}
use mathlib.Core.List.{append_assoc, append-nil}
use http2serv.Hpack.Huffman.{
  encode_loop, huffman_encode, huffman_decode, append_to, whole_bytes, head_or_zero, merge_first,
}
use http2serv.Hpack.Huffman.Bits.{
  bits_of, bytes_bits, bytes_bits-append, length-bytes_bits, All-drop, All-take, All-append,
  length-bits_of,
}
use http2serv.Hpack.Huffman.Tables.{
  code_bits, code_length, ones, length-code_bits, code_length_bounds,
}
use http2serv.Hpack.Huffman.Written.{
  zeros, field_of, field_of-bits, field_of-shape, padding_bits, merged, end_byte_bits,
}
use http2serv.Hpack.Huffman.RoundTrip.{text_bits, decode_loop-text}

take-append_right : (k : ℕ) (xs ys : List ℕ) → take (length xs + k) (xs ++ ys) ≡ xs ++ take k ys
take-append_right k [] ys = let e : 0 + k ≡ k = omega arith in ap (λ n. take n ys) e
take-append_right k (x ∷ xs) ys =
    let e : suc (length xs) + k ≡ suc (length xs + k) = omega arith in
    rw e (ap (λ l. x ∷ l) (take-append_right k xs ys))

drop-append_right : (k : ℕ) (xs ys : List ℕ) → drop (length xs + k) (xs ++ ys) ≡ drop k ys
drop-append_right k [] ys = let e : 0 + k ≡ k = omega arith in ap (λ n. drop n ys) e
drop-append_right k (x ∷ xs) ys =
    let e : suc (length xs) + k ≡ suc (length xs + k) = omega arith in
    rw e (drop-append_right k xs ys)

whole_bytes_rest :
    (n : ℕ) → ((n % 8 ≡ 0) × (whole_bytes n ≡ n / 8)) ⊎ ((0 < n % 8) × (whole_bytes n ≡ n / 8 + 1))
unfolding whole_bytes
whole_bytes_rest n = ground arith

single_byte : (b : ℕ) → bytes_bits (b ∷ []) ≡ bits_of 8 b
unfolding bytes_bits
single_byte b = append-nil (bits_of 8 b)

-- No byte, or one byte, is only partly written.
split_even :
    (n : ℕ) (front xs : List ℕ)
    → n % 8 ≡ 0
    → bytes_bits (front ++ []) ≡ xs ++ zeros 0
    → (bytes_bits front ++ take (n % 8) (bits_of 8 0) ≡ xs)
      × (drop (n % 8) (bits_of 8 0) ≡ zeros (8 - n % 8))
unfolding bits_of zeros
split_even n front xs r e =
    rw (r, append-nil) (ap bytes_bits (sym (append-nil front)) ∙ e ∙ append-nil xs, refl)

split_odd :
    (n b : ℕ) (front xs : List ℕ)
    → length (bytes_bits front) + n % 8 ≡ length xs
    → bytes_bits (front ++ (b ∷ [])) ≡ xs ++ zeros (8 - n % 8)
    → (bytes_bits front ++ take (n % 8) (bits_of 8 b) ≡ xs)
      × (drop (n % 8) (bits_of 8 b) ≡ zeros (8 - n % 8))
split_odd n b front xs l e = (
  sym (take-append_right (n % 8) (bytes_bits front) (bits_of 8 b))
      ∙ (λ i. take (l i) (whole i))
      ∙ take-append xs (zeros (8 - n % 8)),
  sym (drop-append_right (n % 8) (bytes_bits front) (bits_of 8 b))
      ∙ (λ i. drop (l i) (whole i))
      ∙ drop-append xs (zeros (8 - n % 8)),
)
  where
    whole : bytes_bits front ++ bits_of 8 b ≡ xs ++ zeros (8 - n % 8)
    whole =
        ap (λ t. bytes_bits front ++ t) (sym (single_byte b))
        ∙ sym (bytes_bits-append front (b ∷ []))
        ∙ e

-- The finished bytes, and the byte that is partly written.
split_written :
    (n : ℕ) (front back xs : List ℕ)
    → length front ≡ n / 8
    → length back ≡ whole_bytes n - n / 8
    → All IsByte back
    → length xs ≡ n
    → bytes_bits (front ++ back) ≡ xs ++ zeros (8 * whole_bytes n - n)
    → (bytes_bits front ++ take (n % 8) (bits_of 8 (head_or_zero back)) ≡ xs)
      × (drop (n % 8) (bits_of 8 (head_or_zero back)) ≡ zeros (8 - n % 8))
      × (head_or_zero back < 256)
unfolding head_or_zero
split_written n front [] xs lf lb a lx e =
    let z : 8 * whole_bytes n - n ≡ 0 = omega (arith, whole_bytes_rest n) in
    let (p, q) = split_even n front xs (omega (arith, whole_bytes_rest n)) (rw z at e) in
    (p, q, omega arith)
split_written n front (b ∷ []) xs lf lb a lx e =
    let z : 8 * whole_bytes n - n ≡ 8 - n % 8 = omega (arith, whole_bytes_rest n) in
    let (p, q) = split_odd n b front xs (omega (arith, length-bytes_bits front)) (rw z at e) in
    (p, q, a.0)
split_written n front (b ∷ c ∷ bs) xs lf lb a lx e = absurd (omega (arith, whole_bytes_rest n))

-- What the loop writes for one byte.
written_for : ℕ → ℕ → ℕ → List ℕ
written_for u cur c = merge_first cur (field_of u c)

both_guards :
    (a b : Bool) (front : List ℕ) (o : Option (List ℕ)) {bytes : List ℕ}
    → (if a then none else if b then none else append_to front o) ≡ some bytes
    → (rest : List ℕ) × (o ≡ some rest) × (bytes ≡ front ++ rest)
unfolding append_to
both_guards true b front o h = cc
both_guards false true front o h = cc
both_guards false false front none h = cc
both_guards false false front (some rest) h = (rest, refl, cc)

encode_loop-step :
    (size total cur c : ℕ) (s bytes : List ℕ)
    → encode_loop size total cur (c ∷ s) ≡ some bytes
    → (rest : List ℕ) × (encode_loop size
          (total + code_length c)
          (head_or_zero (drop ((total % 8 + code_length c) / 8) (written_for (total % 8) cur c)))
          s
        ≡ some rest)
      × (bytes ≡ take ((total % 8 + code_length c) / 8) (written_for (total % 8) cur c) ++ rest)
unfolding encode_loop written_for field_of code_length
encode_loop-step size total cur c s bytes h = both_guards _ _ _ _ h

-- The bits of a text, behind those already written, and the padding.
record IsWritten (u cur : ℕ) (s bytes : List ℕ) : Type 0 where
  pad : ℕ
  short : pad < 8
  bits : bytes_bits bytes ≡ take u (bits_of 8 cur) ++ (text_bits s ++ ones pad)
  bytes_ok : All IsByte bytes

encode_loop-end :
    (size total cur : ℕ) (bytes : List ℕ)
    → cur < 256
    → encode_loop size total cur [] ≡ some bytes
    → IsWritten (total % 8) cur [] bytes
unfolding encode_loop text_bits bytes_bits ones
encode_loop-end size total cur bytes hc h = elim (Bool-cases (total % 8 == 0)) [
  | inl e ↦
      (let z : total % 8 ≡ 0 = ground arith in
        let b : bytes ≡ [] = ground arith in
        record { pad = 0; short = omega arith; bits = rw (b, z) refl; bytes_ok = rw b tt })
  | inr e ↦
      (let u : ℕ = total % 8 in
        let b : bytes ≡ bit_or cur (0xff / 2 ^ u) ∷ [] = ground arith in
        let (bits, small) = end_byte_bits u cur (omega arith) hc in
        record {
          pad = 8 - u;
          short = ground arith;
          bits = rw b (append-nil (bits_of 8 (bit_or cur (0xff / 2 ^ u))) ∙ bits);
          bytes_ok = rw b (small, tt);
        })
]

-- One byte: the finished bytes and the next byte that is partly written.
record Round (u cur c : ℕ) : Type 0 where
  front : List ℕ
  next : ℕ
  bits :
      bytes_bits front ++ take ((u + code_length c) % 8) (bits_of 8 next)
      ≡ take u (bits_of 8 cur) ++ code_bits c
  free : drop ((u + code_length c) % 8) (bits_of 8 next) ≡ zeros (8 - (u + code_length c) % 8)
  small : next < 256
  bytes_ok : All IsByte front

written_round :
    (u cur c : ℕ)
    → u < 8
    → c < 256
    → cur < 256
    → drop u (bits_of 8 cur) ≡ zeros (8 - u)
    → (r : Round u cur c) × (r.front ≡ take ((u + code_length c) / 8) (written_for u cur c))
      × (r.next ≡ head_or_zero (drop ((u + code_length c) / 8) (written_for u cur c)))
unfolding written_for padding_bits
written_round u cur c hu hc hcur hz =
    let n : ℕ = u + code_length c in
    let (fb, first) = field_of-bits u c hu hc in
    let (fl, fa) = field_of-shape u c hc in
    let (wb, wl, wa) =
      merged u cur (field_of u c) (code_bits c ++ zeros (padding_bits u c)) hu hcur hz first
        (omega (arith, fl, whole_bytes_rest n, code_length_bounds c hc)) fa fb in
    let w : List ℕ = merge_first cur (field_of u c) in
    let front : List ℕ = take (n / 8) w in
    let back : List ℕ = drop (n / 8) w in
    let (p, q, r) =
      split_written n front back (take u (bits_of 8 cur) ++ code_bits c)
        (omega (arith, length-take (n / 8) w, wl, fl, whole_bytes_rest n))
        (omega (arith, length-drop (n / 8) w, wl, fl)) (All-drop IsByte (n / 8) w wa)
        (omega (
          arith,
          length-append (take u (bits_of 8 cur)) (code_bits c),
          length-take u (bits_of 8 cur),
          length-bits_of 8 cur,
          length-code_bits c,
        ))
        (rw take-append-drop (
          wb
          ∙ sym
              (append_assoc (take u (bits_of 8 cur)) (code_bits c) (zeros (padding_bits u c))))) in
    (
      record {
        front = front;
        next = head_or_zero back;
        bits = p;
        free = q;
        small = r;
        bytes_ok = All-take IsByte (n / 8) w wa;
      },
      refl,
      refl,
    )

join_bits :
    (front rest next old code text pad : List ℕ)
    → bytes_bits rest ≡ next ++ (text ++ pad)
    → bytes_bits front ++ next ≡ old ++ code
    → bytes_bits (front ++ rest) ≡ old ++ ((code ++ text) ++ pad)
join_bits front rest next old code text pad h e =
    bytes_bits-append front rest
    ∙ ap (λ t. bytes_bits front ++ t) h
    ∙ sym (append_assoc (bytes_bits front) next (text ++ pad))
    ∙ ap (λ t. t ++ (text ++ pad)) e
    ∙ simp append_assoc

encode_loop-text :
    (s : List ℕ) (size total cur : ℕ) (bytes : List ℕ)
    → All IsByte s
    → cur < 256
    → drop (total % 8) (bits_of 8 cur) ≡ zeros (8 - total % 8)
    → encode_loop size total cur s ≡ some bytes
    → IsWritten (total % 8) cur s bytes
unfolding text_bits
encode_loop-text [] size total cur bytes hs hc hz h = encode_loop-end size total cur bytes hc h
encode_loop-text (c ∷ s) size total cur bytes hs hc hz h =
    let u : ℕ = total % 8 in
    let (rest, hr, eb) = encode_loop-step size total cur c s bytes h in
    let (r, ef, en) = written_round u cur c (omega arith) hs.0 hc hz in
    let m : (total + code_length c) % 8 ≡ (u + code_length c) % 8 = omega arith in
    let ih : IsWritten ((total + code_length c) % 8) r.next s rest =
      encode_loop-text s size (total + code_length c) r.next rest hs.1 r.small (rw m r.free)
        (rw en hr) in
    record {
      pad = ih.pad;
      short = ih.short;
      bits =
          rw (eb, ← ef)
            (join_bits r.front rest (take ((u + code_length c) % 8) (bits_of 8 r.next))
              (take u (bits_of 8 cur)) (code_bits c) (text_bits s) (ones ih.pad) (rw m at ih.bits)
              r.bits);
      bytes_ok = rw (eb, ← ef) (All-append IsByte r.front rest r.bytes_ok ih.bytes_ok);
    }

length-text_bits : (s : List ℕ) → All IsByte s → 5 * length s ≤ length (text_bits s)
unfolding text_bits
length-text_bits [] h = omega arith
length-text_bits (c ∷ s) h = omega (
  arith,
  length-append (code_bits c) (text_bits s),
  length-code_bits c,
  code_length_bounds c h.0,
  length-text_bits s h.1,
)

length-ones : (p : ℕ) → length (ones p) ≡ p
unfolding ones
length-ones zero = refl
length-ones (suc p) = ap suc (length-ones p)

-- HufmanDecode reads back every text that HufmanEncode wrote, and reports no error.
pub huffman_decode-huffman_encode :
    (size : ℕ) (s bytes : List ℕ)
    → All IsByte s
    → huffman_encode size s ≡ some bytes
    → huffman_decode bytes ≡ (s, 0)
unfolding huffman_encode huffman_decode zeros bits_of
huffman_decode-huffman_encode size s bytes hs h =
    let w : IsWritten 0 0 s bytes = encode_loop-text s size 0 0 bytes hs (omega arith) refl h in
    let long : length (bytes_bits bytes) ≡ length (text_bits s) + w.pad =
      ap length w.bits
      ∙ length-append (text_bits s) (ones w.pad)
      ∙ ap (λ n. length (text_bits s) + n) (length-ones w.pad) in
    let (out, err) =
      decode_loop-text s (8 * length bytes) [] 0 bytes w.pad hs w.bytes_ok (omega arith) w.short
        (omega (arith, long, length-text_bits s hs, length-bytes_bits bytes)) w.bits in
    λ i. (out i, err i)

-- The number of bytes written is that of the bits, with the last byte filled up.
pub huffman_encode-length :
    (size : ℕ) (s bytes : List ℕ)
    → All IsByte s
    → huffman_encode size s ≡ some bytes
    → length bytes ≡ whole_bytes (length (text_bits s))
unfolding huffman_encode zeros bits_of
huffman_encode-length size s bytes hs h =
    let w : IsWritten 0 0 s bytes = encode_loop-text s size 0 0 bytes hs (omega arith) refl h in
    omega (
      arith,
      ap length w.bits,
      length-append (text_bits s) (ones w.pad),
      length-ones w.pad,
      length-bytes_bits bytes,
      whole_bytes_rest (length (text_bits s)),
      w.short,
    )
