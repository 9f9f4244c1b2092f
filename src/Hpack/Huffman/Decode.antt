-- ===== src/Hpack/Huffman/Decode.antt =====
-- The decoder on bits: what it reads from the bytes, symbol by symbol.
use http2serv.Prelude.{
  ℕ, zero, suc, ◌+◌, ◌-◌, ◌*◌, ◌/◌, ◌%◌, ◌^◌, ◌≤◌, ◌<◌, ◌≡◌, refl, sym, ap, ◌∙◌, arith,
}
use http2serv.Prelude.{List, [], ◌∷◌, ◌++◌, length, length-append, take, drop, All, IsByte}
use http2serv.Prelude.{
  Option, none, some, ltb, ◌==◌, if◌then◌else◌, Bool-cases, inl, inr, ltb-false→le,
}
use http2serv.Prelude.{take-append-drop, length-take, length-drop}
use native.Mathlib.Nat.{
  mul-div-mul_right, div-eq_of_lt-le, mod-eq_of_lt, mul-add-mod_self_right, zero-add,
}
use http2serv.Hpack.Codes.{huff_codes}
use http2serv.Hpack.Huffman.{gather, whole_bytes, find_code, decode_symbol}
use http2serv.Hpack.Huffman.Bits.{
  bits_of, value, bytes_bits, pow-add, pow_pos, value-append, value-lt, value-byte,
  length-bytes_bits, bytes_bits-append, bytes_bits-IsBit, IsBit, All-drop, All-take,
  take-append_left, drop-append_left,
}

gather_step :
    (count e b : ℕ) (bs : List ℕ)
    → e + suc count ≤ 8
    → suc count ≤ suc (length bs)
    → b < 256
    → gather count (e + 1) bs ≡ value (bytes_bits (take count bs)) * 2 ^ (64 - 8 * (e + suc count))
    → b * 2 ^ (56 - e * 8) + gather count (e + 1) bs
      ≡ value (bits_of 8 b ++ bytes_bits (take count bs)) * 2 ^ (64 - 8 * (e + suc count))
gather_step count e b bs h l hb r =
    let s : length (bytes_bits (take count bs)) ≡ 8 * count =
      omega (arith, length-bytes_bits (take count bs), length-take count bs) in
    let f : 56 - e * 8 ≡ 8 * count + (64 - 8 * (e + suc count)) = omega arith in
    rw
      (
        value-append (bits_of 8 b) (bytes_bits (take count bs)),
        value-byte b hb,
        s,
        r,
        f,
        pow-add (8 * count) (64 - 8 * (e + suc count)),
      )
      (grind arith)

-- The first `count` bytes, in the upper bits of 64.
gather-value :
    (count e : ℕ) (bytes : List ℕ)
    → e + count ≤ 8
    → count ≤ length bytes
    → All IsByte bytes
    → gather count e bytes ≡ value (bytes_bits (take count bytes)) * 2 ^ (64 - 8 * (e + count))
unfolding gather bytes_bits
gather-value zero e bytes h l a = unfold value in omega arith
gather-value (suc count) e [] h l a = absurd (omega arith)
gather-value (suc count) e (b ∷ bs) h l a = gather_step count e b bs h l a.0 (
    let f : e + suc count ≡ e + 1 + count = omega arith in
    rw f (gather-value count (e + 1) bs (omega arith) (omega arith) a.1))

-- What is shifted out below a number, and what was shifted in below that.
shift_out : (x r t s : ℕ) → r < 2 ^ t → (x * 2 ^ t + r) * 2 ^ s / 2 ^ (t + s) ≡ x
shift_out x r t s h =
    rw (pow-add t s, mul-div-mul_right (x * 2 ^ t + r) (2 ^ t) (pow_pos s))
      (div-eq_of_lt-le (2 ^ t) (omega arith) (grind arith))

-- A bit string in three parts.
value_parts :
    (xs ys zs : List ℕ)
    → value (xs ++ (ys ++ zs)) ≡ (value xs * 2 ^ length ys + value ys) * 2 ^ length zs + value zs
value_parts xs ys zs =
    rw
      (
        value-append xs (ys ++ zs),
        value-append ys zs,
        length-append ys zs,
        pow-add (length ys) (length zs),
      )
      (grind arith)

-- The `n` bits between two parts, in the upper bits of 64.
middle_part :
    (k : ℕ) (xs ys zs : List ℕ)
    → All IsBit ys
    → All IsBit zs
    → length xs + length ys + length zs ≡ 8 * k
    → k ≤ 8
    → value (xs ++ (ys ++ zs))
        * 2 ^ (64 - 8 * k)
        / 2 ^ (64 - (length xs + length ys))
        % 2 ^ length ys
      ≡ value ys
middle_part k xs ys zs hy hz l hk =
    let e : 64 - (length xs + length ys) ≡ length zs + (64 - 8 * k) = omega arith in
    rw
      (
        value_parts xs ys zs,
        e,
        shift_out (value xs * 2 ^ length ys + value ys) (value zs) (length zs) (64 - 8 * k)
            (value-lt zs hz),
      )
      (mul-add-mod_self_right (value xs) (2 ^ length ys) (value ys) ∙ mod-eq_of_lt (value-lt ys hy))

whole_bytes_bounds : (bits : ℕ) → (bits ≤ 8 * whole_bytes bits) × (8 * whole_bytes bits ≤ bits + 7)
unfolding whole_bytes
whole_bytes_bounds bits = ground arith

-- The `n` bits behind the first `u`, in the upper bits of 64.
middle_bits :
    (u n k : ℕ) (bs : List ℕ)
    → All IsBit bs
    → length bs ≡ 8 * k
    → k ≤ 8
    → u + n ≤ 8 * k
    → value bs * 2 ^ (64 - 8 * k) / 2 ^ (64 - (u + n)) % 2 ^ n ≡ value (take n (drop u bs))
middle_bits u n k bs a l hk fits =
    rw (cut, front, middle) at
      (middle_part k (take u bs) (take n (drop u bs)) (drop n (drop u bs))
        (All-take IsBit n (drop u bs) (All-drop IsBit u bs a))
        (All-drop IsBit n (drop u bs) (All-drop IsBit u bs a))
        (omega (arith, front, middle, length-drop n (drop u bs), length-drop u bs)) hk)
  where
    cut : take u bs ++ (take n (drop u bs) ++ drop n (drop u bs)) ≡ bs
    cut = rw (take-append-drop n (drop u bs)) (take-append-drop u bs)

    front : length (take u bs) ≡ u
    front = omega (arith, length-take u bs)

    middle : length (take n (drop u bs)) ≡ n
    middle = omega (arith, length-take n (drop u bs), length-drop u bs)

-- Bits near the front of the bytes are those of the first bytes.
front_bits :
    (u n k : ℕ) (bytes : List ℕ)
    → k ≤ length bytes
    → u + n ≤ 8 * k
    → take n (drop u (bytes_bits (take k bytes))) ≡ take n (drop u (bytes_bits bytes))
front_bits u n k bytes hk fits = sym (
    ap (λ l. take n (drop u (bytes_bits l))) (sym (take-append-drop k bytes))
    ∙ ap (λ l. take n (drop u l)) (bytes_bits-append (take k bytes) (drop k bytes))
    ∙ ap (take n) (drop-append_left u front back (omega (arith, full)))
    ∙ take-append_left n (drop u front) back (omega (arith, full, length-drop u front)))
  where
    front : List ℕ
    front = bytes_bits (take k bytes)

    back : List ℕ
    back = bytes_bits (drop k bytes)

    full : length front ≡ 8 * k
    full = omega (arith, length-bytes_bits (take k bytes), length-take k bytes)

-- The decoder on a bit string: as `decode_symbol`, over the bits that are left.
unfoldable pub symbol_of : List ℕ → List ℕ → Option (ℕ × ℕ)
symbol_of [] bs = none
symbol_of (n ∷ more) bs =
    let v = value (take n bs) in
    let rest = symbol_of more bs in
    let found : Option (ℕ × ℕ) = elim (find_code huff_codes 0 v n) [
      | some pos ↦ some (pos, n)
      | none ↦ rest
    ] in
    if ltb (length bs) n then none else if v == 2 ^ n - 1 then rest else found

gathered_bits :
    (u n k : ℕ) (bytes : List ℕ)
    → All IsByte bytes
    → k ≤ 8
    → k ≤ length bytes
    → u + n ≤ 8 * k
    → gather k 0 bytes / 2 ^ (64 - (u + n)) % 2 ^ n ≡ value (take n (drop u (bytes_bits bytes)))
gathered_bits u n k bytes a hk fits h =
    ap (λ (v : ℕ). v / 2 ^ (64 - (u + n)) % 2 ^ n) (gather-value k 0 bytes (omega arith) fits a)
    ∙ rw (zero-add) (
        middle_bits u n k (bytes_bits (take k bytes)) (bytes_bits-IsBit (take k bytes))
          (omega (arith, length-bytes_bits (take k bytes), length-take k bytes)) hk h)
    ∙ ap value (front_bits u n k bytes fits h)

-- The bits that one step of `decode_symbol` looks at.
step_value :
    (u n : ℕ) (bytes : List ℕ)
    → All IsByte bytes
    → u < 8
    → n < 31
    → whole_bytes (u + n) ≤ length bytes
    → gather (whole_bytes (u + n)) 0 bytes / 2 ^ (64 - (u + n)) % 2 ^ n
      ≡ value (take n (drop u (bytes_bits bytes)))
step_value u n bytes a hu hn fits =
    gathered_bits u n (whole_bytes (u + n)) bytes a (omega (arith, whole_bytes_bounds (u + n))) fits
      (omega (arith, whole_bytes_bounds (u + n)))

enough_bytes :
    (u n : ℕ) (bytes : List ℕ)
    → 0 < n
    → u < 8
    → ltb (length bytes) (whole_bytes (u + n)) ≡ ltb (length (drop u (bytes_bits bytes))) n
unfolding whole_bytes
enough_bytes u n bytes h hu =
    grind (arith, length-drop u (bytes_bits bytes), length-bytes_bits bytes)

abbrev symbol_step : ℕ → ℕ → Option (ℕ × ℕ) → Option (ℕ × ℕ)
symbol_step v n rest =
    if v == 2 ^ n - 1
    then rest
    else (elim (find_code huff_codes 0 v n) [ some pos ↦ some (pos, n) | none ↦ rest ])

-- `decode_symbol` reads the bits behind the used ones.
pub decode_symbol-symbol_of :
    (ns : List ℕ) (u : ℕ) (bytes : List ℕ)
    → All (λ n. (0 < n) × (n < 31)) ns
    → u < 8
    → All IsByte bytes
    → decode_symbol ns u bytes ≡ symbol_of ns (drop u (bytes_bits bytes))
unfolding symbol_of decode_symbol
decode_symbol-symbol_of [] u bytes h hu a = refl
decode_symbol-symbol_of (n ∷ ns) u bytes h hu a =
    elim (Bool-cases (ltb (length bytes) (whole_bytes (u + n)))) [
      | inl short ↦ rw (← enough_bytes u n bytes h.0.0 hu, short) refl
      | inr long ↦
          rw (← enough_bytes u n bytes h.0.0 hu, long)
            (λ i.
              symbol_step (step_value u n bytes a hu h.0.1 (ltb-false→le _ _ long) i) n
                (decode_symbol-symbol_of ns u bytes h.1 hu a i))
    ]
