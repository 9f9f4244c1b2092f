-- ===== src/Hpack/Huffman/Total.antt =====
-- HufmanEncode succeeds whenever its output fits the buffer.
use http2serv.Prelude.{ℕ, ◌+◌, ◌/◌, ◌%◌, ◌≤◌, ◌≡◌, arith, ap, ◌∙◌, ◌^◌}
use http2serv.Prelude.{ltb, ◌==◌, if◌then◌else◌, Bool-cases, inl, inr, Option, some, none}
use http2serv.Prelude.{List, [], ◌∷◌, ◌++◌, length, length-append, take, drop, All, IsByte, bit_or}
use native.Mathlib.Nat.{zero-add}
use http2serv.Hpack.Huffman.{
  encode_loop, huffman_encode, huffman_decode, append_to, whole_bytes, head_or_zero, merge_first,
}
use http2serv.Hpack.Huffman.Tables.{code_bits, code_length, length-code_bits}
use http2serv.Hpack.Huffman.RoundTrip.{text_bits}
use http2serv.Hpack.Huffman.Written.{field_of}
use http2serv.Hpack.Huffman.Encode.{huffman_decode-huffman_encode, huffman_encode-length}

fits : (size a b : ℕ) → whole_bytes (a + b) ≤ size → whole_bytes a ≤ size
unfolding whole_bytes
fits size a b h = ground arith

pass_guards :
    (size total n : ℕ) (front : List ℕ) (o : Option (List ℕ)) (rest : List ℕ)
    → whole_bytes (total + n) ≤ size
    → o ≡ some rest
    → (if ltb size (whole_bytes (total + n))
        then none
        else if ltb size (total / 8 + whole_bytes (total % 8 + n))
        then none
        else append_to front o)
      ≡ some (front ++ rest)
unfolding whole_bytes append_to
pass_guards size total n front o rest h e = ground arith

encode_loop-total :
    (s : List ℕ) (size total cur : ℕ)
    → whole_bytes (total + length (text_bits s)) ≤ size
    → (bytes : List ℕ) × (encode_loop size total cur s ≡ some bytes)
unfolding encode_loop text_bits field_of code_length
encode_loop-total [] size total cur h = elim (Bool-cases (total % 8 == 0)) [
  | inl e ↦ ([], rw e)
  | inr e ↦ (bit_or cur (0xff / 2 ^ (total % 8)) ∷ [], rw e)
]
encode_loop-total (c ∷ s) size total cur h =
    let n : ℕ = code_length c in
    let w : List ℕ = merge_first cur (field_of (total % 8) c) in
    let all : length (code_bits c ++ text_bits s) ≡ n + length (text_bits s) =
      length-append (code_bits c) (text_bits s)
      ∙ ap (λ k. k + length (text_bits s)) (length-code_bits c) in
    let e : total + n + length (text_bits s) ≡ total + length (code_bits c ++ text_bits s) =
      omega (arith, all) in
    let (rest, he) =
      encode_loop-total s size (total + n) (head_or_zero (drop ((total % 8 + n) / 8) w)) (rw e h) in
    (
      take ((total % 8 + n) / 8) w ++ rest,
      pass_guards size total n _ _ rest (fits size (total + n) (length (text_bits s)) (rw e h)) he,
    )

-- On every text of bytes and with room for the bits of its codes HufmanEncode succeeds, its output
-- has just as many bytes as these bits take, and HufmanDecode reads the text back with no error.
pub huffman_round_trip :
    (size : ℕ) (s : List ℕ)
    → All IsByte s
    → whole_bytes (length (text_bits s)) ≤ size
    → (bytes : List ℕ) × (huffman_encode size s ≡ some bytes)
      × (length bytes ≡ whole_bytes (length (text_bits s)))
      × (huffman_decode bytes ≡ (s, 0))
unfolding huffman_encode
huffman_round_trip size s hs h =
    let (bytes, e) = encode_loop-total s size 0 0 (rw zero-add h) in
    (
      bytes,
      e,
      huffman_encode-length size s bytes hs e,
      huffman_decode-huffman_encode size s bytes hs e,
    )
