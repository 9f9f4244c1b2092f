-- ===== src/Hpack/Text/RoundTrip.antt =====
-- DecodeString reads back what EncodeString wrote, in either form.
use http2serv.Prelude.{ℕ, ◌+◌, ◌%◌, ◌^◌, ◌≤◌, ◌<◌, ◌≡◌, refl, ap, ◌∙◌, arith}
use http2serv.Prelude.{bit_and, bit_or, Bool, true, false, ltb, ◌==◌, if◌then◌else◌}
use http2serv.Prelude.{some, Option-cases, Bool-cases, inl, inr, all_below, all_below_each, ltb→lt}
use http2serv.Prelude.{List, [], ◌∷◌, ◌++◌, length, length-append, All, IsByte}
use http2serv.Prelude.{take-append, drop-append}
use mathlib.Core.List.{append_assoc}
use http2serv.Hpack.Result.{Result, ok, ◌>>=◌}
use http2serv.Hpack.Integer.{encode_integer, decode_index}
use http2serv.Hpack.Integer.Bounds.{integer_bytes, encode_integer_lem, length-integer_bytes_le}
use http2serv.Hpack.Integer.RoundTrip.{
  decode_index-encode_integer, indexed-IsPrefix, plain-IsPrefix,
}
use http2serv.Hpack.Huffman.{huffman_encode, huffman_decode}
use http2serv.Hpack.Huffman.Encode.{huffman_decode-huffman_encode}
use http2serv.Hpack.Text.{
  decode_string, string_contents, decode_length, with_length, encode_plain, choose_shorter,
  encode_string,
}

-- The first byte of a length keeps the bit that tells the two forms apart.
abbrev coded_bit : List ℕ → Bool
coded_bit [] = false
coded_bit (b ∷ bs) = bit_and b 0x80 == 0x80

coded_table : all_below 128 (λ n. bit_and (bit_or n 0x80 % 256) 0x80 == 0x80) ≡ true
unfolding all_below
coded_table = refl

plain_table :
    all_below 128 (λ n. if bit_and (bit_or n 0x00 % 256) 0x80 == 0x80 then false else true) ≡ true
unfolding all_below
plain_table = refl

coded_bit_huffman : (n : ℕ) → coded_bit (integer_bytes n 0x7f 0x80) ≡ true
unfolding integer_bytes
coded_bit_huffman n =
    ground
      (arith, all_below_each 128 (λ n. bit_and (bit_or n 0x80 % 256) 0x80 == 0x80) n coded_table)

coded_bit_plain : (n : ℕ) → coded_bit (integer_bytes n 0x7f 0x00) ≡ false
unfolding integer_bytes
coded_bit_plain n = ground (
  arith,
  all_below_each 128 (λ n. if bit_and (bit_or n 0x00 % 256) 0x80 == 0x80 then false else true) n
      plain_table,
)

decode_length-decode_index :
    (b : ℕ) (bs : List ℕ) → decode_length (bit_and b 0x7f) bs ≡ decode_index 0x7f (b ∷ bs)
unfolding decode_length decode_index
decode_length-decode_index b bs = refl

decode_string-cons :
    (b : ℕ) (bs : List ℕ)
    → decode_string (b ∷ bs)
      ≡ (decode_index 0x7f (b ∷ bs) >>= λ p. string_contents (bit_and b 0x80 == 0x80) p.0 p.1)
unfolding decode_string
decode_string-cons b bs =
    ap (λ (r : Result (ℕ × List ℕ)). r >>= λ p. string_contents (bit_and b 0x80 == 0x80) p.0 p.1)
      (decode_length-decode_index b bs)

-- A length in front of its bytes.
decode_with_length :
    (n : ℕ) (encoded : Bool) (prefix body rest : List ℕ)
    → ((tail : List ℕ) → decode_index 0x7f (prefix ++ tail) ≡ ok (n, tail))
    → coded_bit prefix ≡ encoded
    → decode_string ((prefix ++ body) ++ rest) ≡ string_contents encoded n (body ++ rest)
unfolding decode_index
decode_with_length n encoded [] body rest d c = cc (d [])
decode_with_length n encoded (b ∷ bs) body rest d c =
    rw (append_assoc) (decode_string-cons b (bs ++ (body ++ rest)) ∙ rw (d (body ++ rest), c) refl)

contents_plain : (s rest : List ℕ) → string_contents false (length s) (s ++ rest) ≡ ok (s, rest)
unfolding string_contents
contents_plain s rest = ground (arith, length-append s rest, take-append s rest, drop-append s rest)

contents_huffman :
    (coded s rest : List ℕ)
    → huffman_decode coded ≡ (s, 0)
    → string_contents true (length coded) (coded ++ rest) ≡ ok (s, rest)
unfolding string_contents
contents_huffman coded s rest h =
    rw (take-append coded rest, drop-append coded rest, h)
      (ground (arith, length-append coded rest))

-- A prefix and what it announces, written and read.
reads_prefix :
    (size n rep : ℕ) (prefix : List ℕ)
    → n < 2 ^ 31
    → encode_integer size n 0x7f rep ≡ some prefix
    → prefix ≡ integer_bytes n 0x7f rep
reads_prefix size n rep prefix hn h = ground (arith, encode_integer_lem size n 0x7f rep)

plain_round_trip :
    (size : ℕ) (s : List ℕ)
    → length s < 2 ^ 31
    → length s + 6 ≤ size
    → (bytes : List ℕ) × (encode_plain size s ≡ some bytes)
      × (length bytes ≤ length s + 6)
      × ((rest : List ℕ) → decode_string (bytes ++ rest) ≡ ok (s, rest))
unfolding encode_plain with_length
plain_round_trip size s hn h =
    let prefix : List ℕ = integer_bytes (length s) 0x7f 0x00 in
    let e : encode_integer size (length s) 0x7f 0x00 ≡ some prefix = ground (
      arith,
      encode_integer_lem size (length s) 0x7f 0x00,
      length-integer_bytes_le (length s) 0x7f 0x00,
    ) in
    (
      prefix ++ s,
      rw e (ground (arith, length-integer_bytes_le (length s) 0x7f 0x00 hn)),
      omega (arith, length-append prefix s, length-integer_bytes_le (length s) 0x7f 0x00 hn),
      λ rest.
          decode_with_length (length s) false prefix s rest
            (λ tail.
              decode_index-encode_integer size (length s) 0x7f 0x00 prefix tail plain-IsPrefix
                (omega arith) e)
            (coded_bit_plain (length s))
          ∙ contents_plain s rest,
    )

huffman_form :
    (size : ℕ) (s coded : List ℕ)
    → All IsByte s
    → huffman_encode (length s) s ≡ some coded
    → length coded < length s
    → length s < 2 ^ 31
    → length s + 6 ≤ size
    → (bytes : List ℕ) × (with_length size (encode_integer size (length coded) 0x7f 0x80) coded
        ≡ some bytes)
      × (length bytes ≤ length s + 6)
      × ((rest : List ℕ) → decode_string (bytes ++ rest) ≡ ok (s, rest))
unfolding with_length
huffman_form size s coded hs hc hl hn h =
    let prefix : List ℕ = integer_bytes (length coded) 0x7f 0x80 in
    let e : encode_integer size (length coded) 0x7f 0x80 ≡ some prefix = ground (
      arith,
      encode_integer_lem size (length coded) 0x7f 0x80,
      length-integer_bytes_le (length coded) 0x7f 0x80 (omega arith),
    ) in
    (
      prefix ++ coded,
      rw e (ground (arith, length-integer_bytes_le (length coded) 0x7f 0x80 (omega arith))),
      omega (
        arith,
        length-append prefix coded,
        length-integer_bytes_le (length coded) 0x7f 0x80 (omega arith),
      ),
      λ rest.
          decode_with_length (length coded) true prefix coded rest
            (λ tail.
              decode_index-encode_integer size (length coded) 0x7f 0x80 prefix tail indexed-IsPrefix
                (omega arith) e)
            (coded_bit_huffman (length coded))
          ∙ contents_huffman coded s rest (huffman_decode-huffman_encode (length s) s coded hs hc),
    )

-- EncodeString succeeds on every text of bytes shorter than 2 ^ 31, with six bytes of room beside it,
-- and DecodeString reads the text back and leaves what follows. It takes six bytes more at most.
pub string_round_trip :
    (size : ℕ) (s : List ℕ)
    → All IsByte s
    → length s < 2 ^ 31
    → length s + 6 ≤ size
    → (bytes : List ℕ) × (encode_string size s ≡ some bytes)
      × (length bytes ≤ length s + 6)
      × ((rest : List ℕ) → decode_string (bytes ++ rest) ≡ ok (s, rest))
unfolding encode_string choose_shorter
string_round_trip size s hs hn h = elim (Option-cases (huffman_encode (length s) s)) [
  | inl e ↦ rw e (plain_round_trip size s hn h)
  | inr (coded, e) ↦ elim (Bool-cases (ltb (length coded) (length s))) [
    | inl shorter ↦ rw (e, shorter) (huffman_form size s coded hs e (ltb→lt _ _ shorter) hn h)
    | inr longer ↦ rw (e, longer) (plain_round_trip size s hn h)
  ]
]
