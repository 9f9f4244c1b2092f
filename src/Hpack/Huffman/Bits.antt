-- ===== src/Hpack/Huffman/Bits.antt =====
-- Bit strings as lists of the digits 0 and 1, the first bit first, and the bits of bytes.
use http2serv.Prelude.{ℕ, zero, suc, ◌+◌, ◌*◌, ◌/◌, ◌%◌, ◌^◌, ◌≤◌, ◌<◌, ◌≡◌, refl, ap, ◌∙◌, arith}
use http2serv.Prelude.{List, [], ◌∷◌, ◌++◌, length, length-append, take, drop, All}
use http2serv.Prelude.{all_below, agree→eq}
use native.Mathlib.Nat.{pow-suc, mul_comm}

unfoldable pub bits_of : ℕ → ℕ → List ℕ
bits_of zero v = []
bits_of (suc w) v = (v / 2 ^ w % 2) ∷ bits_of w v

unfoldable pub value : List ℕ → ℕ
value [] = 0
value (b ∷ bs) = b * 2 ^ length bs + value bs

unfoldable pub bytes_bits : List ℕ → List ℕ
unfolding bits_of
bytes_bits [] = []
bytes_bits (b ∷ bs) = bits_of 8 b ++ bytes_bits bs

abbrev pub IsBit : ℕ → Type 0
IsBit b = b < 2

pub pow_suc : (a : ℕ) → 2 ^ suc a ≡ 2 * 2 ^ a
pow_suc a = pow-suc 2 a ∙ mul_comm (2 ^ a) 2

pub pow-add : (a b : ℕ) → 2 ^ (a + b) ≡ 2 ^ a * 2 ^ b
pow-add zero b = let e : zero + b ≡ b = omega arith in rw e (omega arith)
pow-add (suc a) b =
    let e : suc a + b ≡ suc (a + b) = omega arith in
    rw e (grind (arith, pow_suc (a + b), pow_suc a, pow-add a b))

pub pow_pos : (a : ℕ) → 0 < 2 ^ a
pow_pos zero = omega arith
pow_pos (suc a) = omega (arith, pow_suc a, pow_pos a)

pub value-append : (xs ys : List ℕ) → value (xs ++ ys) ≡ value xs * 2 ^ length ys + value ys
unfolding value
value-append [] ys = omega arith
value-append (x ∷ xs) ys =
    rw (length-append xs ys, pow-add (length xs) (length ys)) (grind (arith, value-append xs ys))

pub value-lt : (xs : List ℕ) → All IsBit xs → value xs < 2 ^ length xs
unfolding value
value-lt [] h = omega arith
value-lt (x ∷ xs) h = grind (arith, value-lt xs h.1)

pub length-bits_of : (w v : ℕ) → length (bits_of w v) ≡ w
unfolding bits_of
length-bits_of zero v = refl
length-bits_of (suc w) v = ap suc (length-bits_of w v)

pub bits_of-IsBit : (w v : ℕ) → All IsBit (bits_of w v)
unfolding bits_of
bits_of-IsBit zero v = tt
bits_of-IsBit (suc w) v = (omega arith, bits_of-IsBit w v)

pub value-byte : (b : ℕ) → b < 256 → value (bits_of 8 b) ≡ b
unfolding all_below value bits_of
value-byte = agree→eq (λ b. value (bits_of 8 b)) (λ b. b) 256 refl

pub length-bytes_bits : (bs : List ℕ) → length (bytes_bits bs) ≡ 8 * length bs
unfolding bytes_bits
length-bytes_bits [] = omega arith
length-bytes_bits (b ∷ bs) = omega (arith, length-bytes_bits bs)

pub bytes_bits-append : (xs ys : List ℕ) → bytes_bits (xs ++ ys) ≡ bytes_bits xs ++ bytes_bits ys
unfolding bytes_bits
bytes_bits-append [] ys = refl
bytes_bits-append (x ∷ xs) ys = ap (λ l. bits_of 8 x ++ l) (bytes_bits-append xs ys)

pub All-append {ℓ κ} :
    {A : Type ℓ} (P : A → Type κ) (xs ys : List A) → All P xs → All P ys → All P (xs ++ ys)
All-append P [] ys px py = py
All-append P (x ∷ xs) ys px py = (px.0, All-append P xs ys px.1 py)

pub bytes_bits-IsBit : (bs : List ℕ) → All IsBit (bytes_bits bs)
unfolding bytes_bits
bytes_bits-IsBit [] = tt
bytes_bits-IsBit (b ∷ bs) =
    All-append IsBit (bits_of 8 b) (bytes_bits bs) (bits_of-IsBit 8 b) (bytes_bits-IsBit bs)

pub All-drop {ℓ κ} :
    {A : Type ℓ} (P : A → Type κ) (n : ℕ) (xs : List A) → All P xs → All P (drop n xs)
All-drop P zero xs h = h
All-drop P (suc n) [] h = h
All-drop P (suc n) (x ∷ xs) h = All-drop P n xs h.1

pub All-take {ℓ κ} :
    {A : Type ℓ} (P : A → Type κ) (n : ℕ) (xs : List A) → All P xs → All P (take n xs)
All-take P zero xs h = tt
All-take P (suc n) [] h = tt
All-take P (suc n) (x ∷ xs) h = (h.0, All-take P n xs h.1)

-- Lists cut at a length.
module _ {ℓ} {A : Type ℓ} where
  pub take-append_left : (n : ℕ) (xs ys : List A) → n ≤ length xs → take n (xs ++ ys) ≡ take n xs
  take-append_left zero xs ys h = refl
  take-append_left (suc n) [] ys h = absurd (omega arith)
  take-append_left (suc n) (x ∷ xs) ys h = ap (λ l. x ∷ l) (take-append_left n xs ys (omega arith))

  pub drop-append_left :
      (n : ℕ) (xs ys : List A) → n ≤ length xs → drop n (xs ++ ys) ≡ drop n xs ++ ys
  drop-append_left zero xs ys h = refl
  drop-append_left (suc n) [] ys h = absurd (omega arith)
  drop-append_left (suc n) (x ∷ xs) ys h = drop-append_left n xs ys (omega arith)

  pub drop-drop : (n m : ℕ) (xs : List A) → drop n (drop m xs) ≡ drop (m + n) xs
  drop-drop n zero xs = let e : zero + n ≡ n = omega arith in rw e refl
  drop-drop zero (suc m) [] = let e : suc m + zero ≡ suc m = omega arith in rw e refl
  drop-drop (suc n) (suc m) [] = let e : suc m + suc n ≡ suc (m + suc n) = omega arith in rw e refl
  drop-drop n (suc m) (x ∷ xs) =
      let e : suc m + n ≡ suc (m + n) = omega arith in rw e (drop-drop n m xs)
