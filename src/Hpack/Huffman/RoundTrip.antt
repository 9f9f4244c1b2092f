-- ===== src/Hpack/Huffman/RoundTrip.antt =====
-- `decode_loop` reads back a text from its code bits.
use http2serv.Prelude.{ℕ, zero, suc, ◌+◌, ◌*◌, ◌/◌, ◌%◌, ◌≤◌, ◌<◌, ◌≡◌, refl, sym, ap, ◌∙◌, arith}
use http2serv.Prelude.{true, false, ◌==◌, if◌then◌else◌, Option-cases, inl, inr}
use http2serv.Prelude.{List, [], ◌∷◌, ◌++◌, length, length-append, drop, drop-append, Option}
use http2serv.Prelude.{none, some, All, IsByte, length-drop}
use mathlib.Core.List.{append_assoc, append-nil}
use http2serv.Hpack.Huffman.{
  bit_numbers, decode_symbol, decode_loop, Decoding, has_more, is_padding, accept, huffman_error,
}
use http2serv.Hpack.Huffman.Bits.{bits_of, bytes_bits, drop-drop, length-bytes_bits, All-drop}
use http2serv.Hpack.Huffman.Decode.{decode_symbol-symbol_of}
use http2serv.Hpack.Huffman.Tables.{
  code_bits, code_length, code_length_bounds, length-code_bits, symbol_of-code_bits,
  symbol_of-append, all_ones, all_ones-code_bits, ones, is_padding-all_ones,
}

unfoldable pub text_bits : List ℕ → List ℕ
text_bits [] = []
text_bits (c ∷ s) = code_bits c ++ text_bits s

bytes_bits-drop :
    (k : ℕ) (bytes : List ℕ) → bytes_bits (drop k bytes) ≡ drop (8 * k) (bytes_bits bytes)
unfolding bytes_bits bits_of
bytes_bits-drop zero bytes = refl
bytes_bits-drop (suc k) [] = let e : 8 * suc k ≡ suc (7 + 8 * k) = omega arith in rw e refl
bytes_bits-drop (suc k) (b ∷ bs) =
    let e : 8 * suc k ≡ suc (suc (suc (suc (suc (suc (suc (suc (8 * k)))))))) = omega arith in
    rw e (bytes_bits-drop k bs)

length-ones : (p : ℕ) → length (ones p) ≡ p
unfolding ones
length-ones zero = refl
length-ones (suc p) = ap suc (length-ones p)

all_ones-ones : (p : ℕ) → all_ones (ones p) ≡ true
unfolding ones all_ones
all_ones-ones zero = refl
all_ones-ones (suc p) = all_ones-ones p

all_ones-append_false : (xs ys : List ℕ) → all_ones xs ≡ false → all_ones (xs ++ ys) ≡ false
unfolding all_ones
all_ones-append_false [] ys h = cc
all_ones-append_false (x ∷ xs) ys h = ground (arith, all_ones-append_false xs ys)

-- What is left when the loop stops where it is.
stopped : List ℕ → ℕ → List ℕ → Decoding
stopped out used bytes = record { out = out; used = used; left = bytes }

last_is_padding :
    (used b p : ℕ)
    → b < 256
    → used < 8
    → drop used (bytes_bits (b ∷ [])) ≡ ones p
    → is_padding used (b ∷ []) ≡ true
unfolding bytes_bits
last_is_padding used b p hb hu h =
    is_padding-all_ones used b hu hb
    ∙ ap (λ l. all_ones (drop used l)) (sym (append-nil (bits_of 8 b)))
    ∙ ap all_ones h
    ∙ all_ones-ones p

next_state : ℕ → List ℕ → ℕ → List ℕ → Option (ℕ × ℕ) → Decoding
next_state fuel out used bytes none = stopped out used bytes
next_state fuel out used bytes (some (pos, bits)) =
    let st = accept out used bytes pos bits in
    if pos == 256 then st else decode_loop fuel st.out st.used st.left

-- The loop, one round.
step_equation :
    (fuel : ℕ) (out : List ℕ) (used : ℕ) (bytes : List ℕ)
    → decode_loop (suc fuel) out used bytes ≡ (
        if has_more used bytes
        then (if is_padding used bytes
            then stopped out used bytes
            else next_state fuel out used bytes (decode_symbol bit_numbers used bytes))
        else stopped out used bytes)
unfolding decode_loop next_state stopped
step_equation fuel out used bytes = elim (Option-cases (decode_symbol bit_numbers used bytes)) [
  | inl e ↦ rw e refl
  | inr ((pos, bits), e) ↦ rw e refl
]

-- The decoder at the end of the text.
decode_loop-end :
    (fuel : ℕ) (out : List ℕ) (used : ℕ) (bytes : List ℕ) (p : ℕ)
    → All IsByte bytes
    → used < 8
    → p < 8
    → drop used (bytes_bits bytes) ≡ ones p
    → (decode_loop fuel out used bytes ≡ stopped out used bytes)
      × (huffman_error (stopped out used bytes) ≡ 0)
unfolding stopped decode_loop huffman_error has_more bytes_bits
decode_loop-end zero out used [] p a hu hp h = (refl, refl)
decode_loop-end (suc fuel) out used [] p a hu hp h = (ground arith, refl)
decode_loop-end zero out used (b ∷ []) p a hu hp h =
    (refl, ground (arith, last_is_padding used b p a.0 hu h))
decode_loop-end (suc fuel) out used (b ∷ []) p a hu hp h = (
  ground (arith, last_is_padding used b p a.0 hu h),
  ground (arith, last_is_padding used b p a.0 hu h),
)
decode_loop-end fuel out used (b ∷ c ∷ bs) p a hu hp h = absurd (
    omega (
      arith,
      ap length h,
      length-ones p,
      length-drop used (bytes_bits (b ∷ c ∷ bs)),
      length-bytes_bits (b ∷ c ∷ bs),
    ))

-- In the middle of the text: the byte, and the state behind it.
more_bits :
    (c used : ℕ) (bytes rest : List ℕ)
    → c < 256
    → used < 8
    → drop used (bytes_bits bytes) ≡ code_bits c ++ rest
    → used + code_length c + length rest ≡ 8 * length bytes
more_bits c used bytes rest hc hu h = omega (
  arith,
  ap length h,
  length-append (code_bits c) rest,
  length-code_bits c,
  code_length_bounds c hc,
  length-drop used (bytes_bits bytes),
  length-bytes_bits bytes,
)

has_more_text :
    (c used : ℕ) (bytes rest : List ℕ)
    → c < 256
    → used < 8
    → drop used (bytes_bits bytes) ≡ code_bits c ++ rest
    → has_more used bytes ≡ true
unfolding has_more
has_more_text c used bytes rest hc hu h =
    ground (arith, more_bits c used bytes rest hc hu h, code_length_bounds c hc)

not_padding :
    (c used : ℕ) (bytes rest : List ℕ)
    → c < 256
    → used < 8
    → All IsByte bytes
    → drop used (bytes_bits bytes) ≡ code_bits c ++ rest
    → is_padding used bytes ≡ false
unfolding is_padding bytes_bits
not_padding c used [] rest hc hu a h = refl
not_padding c used (b ∷ []) rest hc hu a h =
    is_padding-all_ones used b hu a.0
    ∙ ap (λ l. all_ones (drop used l)) (sym (append-nil (bits_of 8 b)))
    ∙ ap all_ones h
    ∙ all_ones-append_false (code_bits c) rest (all_ones-code_bits c hc)
not_padding c used (b ∷ d ∷ bs) rest hc hu a h = refl

symbol_here :
    (c used : ℕ) (bytes rest : List ℕ)
    → c < 256
    → used < 8
    → All IsByte bytes
    → drop used (bytes_bits bytes) ≡ code_bits c ++ rest
    → decode_symbol bit_numbers used bytes ≡ some (c, code_length c)
symbol_here c used bytes rest hc hu a h =
    decode_symbol-symbol_of bit_numbers used bytes (omega arith) hu a
    ∙ rw h (symbol_of-append bit_numbers (code_bits c) rest (symbol_of-code_bits c hc))

-- The bits behind the byte that was read.
bits_behind :
    (c used : ℕ) (bytes rest : List ℕ)
    → drop used (bytes_bits bytes) ≡ code_bits c ++ rest
    → drop ((used + code_length c) % 8) (bytes_bits (drop ((used + code_length c) / 8) bytes))
      ≡ rest
bits_behind c used bytes rest h =
    let n : ℕ = used + code_length c in
    ap (drop (n % 8)) (bytes_bits-drop (n / 8) bytes)
    ∙ drop-drop (n % 8) (8 * (n / 8)) (bytes_bits bytes)
    ∙ ap (λ k. drop k (bytes_bits bytes)) (omega arith)
    ∙ sym (drop-drop (code_length c) used (bytes_bits bytes))
    ∙ ap (drop (code_length c)) h
    ∙ ap (λ k. drop k (code_bits c ++ rest)) (sym (length-code_bits c))
    ∙ drop-append (code_bits c) rest

decode_loop-step :
    (fuel : ℕ) (out : List ℕ) (c used : ℕ) (bytes rest : List ℕ)
    → c < 256
    → used < 8
    → All IsByte bytes
    → drop used (bytes_bits bytes) ≡ code_bits c ++ rest
    → decode_loop (suc fuel) out used bytes
      ≡ decode_loop fuel
          (out ++ (c ∷ []))
          ((used + code_length c) % 8)
          (drop ((used + code_length c) / 8) bytes)
unfolding next_state accept
decode_loop-step fuel out c used bytes rest hc hu a h =
    rw
      (
        step_equation fuel out used bytes,
        has_more_text c used bytes rest hc hu h,
        not_padding c used bytes rest hc hu a h,
        symbol_here c used bytes rest hc hu a h,
      )
      (ground arith)

-- With a round for every byte of the text, the text is read back, and with no error.
pub decode_loop-text :
    (s : List ℕ) (fuel : ℕ) (out : List ℕ) (used : ℕ) (bytes : List ℕ) (p : ℕ)
    → All IsByte s
    → All IsByte bytes
    → used < 8
    → p < 8
    → length s ≤ fuel
    → drop used (bytes_bits bytes) ≡ text_bits s ++ ones p
    → ((decode_loop fuel out used bytes).out ≡ out ++ s)
      × (huffman_error (decode_loop fuel out used bytes) ≡ 0)
unfolding text_bits stopped
decode_loop-text [] fuel out used bytes p hs a hu hp hf h =
    let (e, z) = decode_loop-end fuel out used bytes p a hu hp h in rw (e, append-nil) (refl, z)
decode_loop-text (c ∷ s) zero out used bytes p hs a hu hp hf h = absurd (omega arith)
decode_loop-text (c ∷ s) (suc fuel) out used bytes p hs a hu hp hf h =
    let h' : drop used (bytes_bits bytes) ≡ code_bits c ++ (text_bits s ++ ones p) =
      h ∙ append_assoc (code_bits c) (text_bits s) (ones p) in
    rw (decode_loop-step fuel out c used bytes (text_bits s ++ ones p) hs.0 hu a h') (
      rw (append_assoc out (c ∷ []) s) at (
        decode_loop-text s fuel (out ++ (c ∷ [])) ((used + code_length c) % 8)
          (drop ((used + code_length c) / 8) bytes) p hs.1
          (All-drop IsByte ((used + code_length c) / 8) bytes a) (omega arith) hp (omega arith)
          (bits_behind c used bytes (text_bits s ++ ones p) h')))
