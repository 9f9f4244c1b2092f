-- ===== src/CommonLib/Base64/RoundTrip.antt =====
-- Base64::Decode on what Base64::Encode wrote.
use http2serv.Prelude.{ℕ, ◌*◌, ◌%◌, ◌<◌, ◌≡◌, refl, ap, ◌∙◌, arith, bit_and, Bool, true, false}
use http2serv.Prelude.{
  List, [], ◌∷◌, ◌++◌, Option, none, some, if◌then◌else◌, ◌==◌, not, ◌&&◌, Bool-cases, inl, inr,
}
use http2serv.Prelude.{All, IsByte, all_below, all_below_each}
use http2serv.CommonLib.Base64.{
  base64chr, char_at, first_six, second_six, third_six, encode, find_char, first_byte, second_byte,
  third_byte, unless_zero, decode_rest, prepend, decode_chars, decode,
}
use http2serv.CommonLib.Base64.Masks.{
  low_two, low_four, low_six, high_six, high_four, middle_two, middle_four, first_six_less,
  second_six_less, third_six_less, first_back, second_back, third_back,
}

-- A text whose last group has two bytes, the second of them with no bit in its lower half.
unfoldable pub loses : List ℕ → Bool
loses [] = false
loses (a ∷ []) = false
loses (a ∷ b ∷ []) = b % 16 == 0
loses (a ∷ b ∷ c ∷ rest) = loses rest

is_found : Option ℕ → ℕ → Bool
is_found none i = false
is_found (some k) i = k == i

found : (o : Option ℕ) (i : ℕ) → is_found o i ≡ true → o ≡ some i
unfolding is_found
found none i h = cc
found (some k) i h = ground (arith, h)

readable : Bool → ℕ → Bool
readable url i =
    is_found (find_char (base64chr url) 0 (char_at url i)) i && not (char_at url i == b'=')

readable_all : (url : Bool) → all_below 64 (readable url) ≡ true
unfolding readable is_found find_char char_at all_below
readable_all true = refl
readable_all false = refl

find_char-char_at :
    (url : Bool) (i : ℕ) → i < 64 → find_char (base64chr url) 0 (char_at url i) ≡ some i
unfolding readable
find_char-char_at url i h =
    found _ i (ground (arith, all_below_each 64 (readable url) i (readable_all url) h))

no_end : (url : Bool) (i : ℕ) → i < 64 → (char_at url i == b'=') ≡ false
unfolding readable
no_end url i h = ground (arith, all_below_each 64 (readable url) i (readable_all url) h)

-- A character joins the group.
module _ (url : Bool) (i : ℕ) (h : i < 64) (xs : List ℕ) where
  joins_empty : decode_chars url [] (char_at url i ∷ xs) ≡ decode_chars url (i ∷ []) xs
  unfolding decode_chars
  joins_empty = rw (no_end url i h, find_char-char_at url i h) refl

  joins_one :
      (p : ℕ) → decode_chars url (p ∷ []) (char_at url i ∷ xs) ≡ decode_chars url (p ∷ i ∷ []) xs
  unfolding decode_chars
  joins_one p = rw (no_end url i h, find_char-char_at url i h) refl

  joins_two :
      (p q : ℕ)
      → decode_chars url (p ∷ q ∷ []) (char_at url i ∷ xs) ≡ decode_chars url (p ∷ q ∷ i ∷ []) xs
  unfolding decode_chars
  joins_two p q = rw (no_end url i h, find_char-char_at url i h) refl

  fills :
      (p q r : ℕ)
      → decode_chars url (p ∷ q ∷ r ∷ []) (char_at url i ∷ xs)
        ≡ prepend (first_byte p q ∷ second_byte q r ∷ third_byte r i ∷ []) (decode_chars url [] xs)
  unfolding decode_chars
  fills p q r = rw (no_end url i h, find_char-char_at url i h) refl

two_joined :
    (url : Bool) (i j : ℕ) (xs : List ℕ)
    → i < 64
    → j < 64
    → decode_chars url [] (char_at url i ∷ char_at url j ∷ xs) ≡ decode_chars url (i ∷ j ∷ []) xs
two_joined url i j xs h k = joins_empty url i h (char_at url j ∷ xs) ∙ joins_one url j k xs i

full_group :
    (url : Bool) (i j k l : ℕ) (xs : List ℕ)
    → i < 64
    → j < 64
    → k < 64
    → l < 64
    → decode_chars url [] (char_at url i ∷ char_at url j ∷ char_at url k ∷ char_at url l ∷ xs)
      ≡ prepend (first_byte i j ∷ second_byte j k ∷ third_byte k l ∷ []) (decode_chars url [] xs)
full_group url i j k l xs hi hj hk hl =
    two_joined url i j (char_at url k ∷ char_at url l ∷ xs) hi hj
    ∙ (joins_two url k hk (char_at url l ∷ xs) i j ∙ fills url l hl xs i j k)

nothing : (url : Bool) → decode_chars url [] [] ≡ some []
unfolding decode_chars decode_rest
nothing url = refl

-- The ends of a text.
module _ (url : Bool) (p q : ℕ) where
  ends_two :
      decode_chars url (p ∷ q ∷ []) (b'=' ∷ b'=' ∷ [])
      ≡ some (first_byte p q ∷ unless_zero (second_byte q 0))
  unfolding decode_chars decode_rest
  ends_two = refl

  ends_short : decode_chars url (p ∷ q ∷ []) (b'=' ∷ []) ≡ none
  unfolding decode_chars decode_rest
  ends_short = refl

  ends_three :
      (r : ℕ)
      → decode_chars url (p ∷ q ∷ r ∷ []) (b'=' ∷ [])
        ≡ some (first_byte p q ∷ (unless_zero (second_byte q r) ++ unless_zero (third_byte r 0)))
  unfolding decode_chars decode_rest
  ends_three r = refl

one_byte_back : (a : ℕ) → a < 256 → first_byte (first_six a) (bit_and a 0x03 * 16) ≡ a
one_byte_back a h = omega (
  arith,
  high_six a h,
  low_two a h,
  middle_two (bit_and a 0x03 * 16) (omega (arith, low_two a h)),
)

no_second : (a : ℕ) → a < 256 → second_byte (bit_and a 0x03 * 16) 0 ≡ 0
no_second a h = omega (
  arith,
  low_two a h,
  low_four (bit_and a 0x03 * 16) (omega (arith, low_two a h)),
  middle_four 0 (omega arith),
)

one_byte :
    (url : Bool) (a : ℕ) → a < 256 → decode_chars url [] (encode url (a ∷ [])) ≡ some (a ∷ [])
unfolding encode
one_byte url a h =
    two_joined url (first_six a) (bit_and a 0x03 * 16) (b'=' ∷ b'=' ∷ []) (first_six_less a h)
      (omega (arith, low_two a h))
    ∙ (ends_two url (first_six a) (bit_and a 0x03 * 16)
        ∙ rw (one_byte_back a h, no_second a h) refl)

two_bytes_back :
    (a b : ℕ) → a < 256 → b < 256 → second_byte (second_six a b) (bit_and b 0x0f * 4) ≡ b
two_bytes_back a b h k = omega (
  arith,
  low_two a h,
  high_four b k,
  low_four b k,
  low_four (second_six a b) (omega (arith, second_six_less a b h k)),
  middle_four (bit_and b 0x0f * 4) (omega (arith, low_four b k)),
)

no_third : (b : ℕ) → b < 256 → third_byte (bit_and b 0x0f * 4) 0 ≡ 0
no_third b k =
    omega (arith, low_four b k, low_two (bit_and b 0x0f * 4) (omega (arith, low_four b k)))

third_is_zero : (b : ℕ) → b < 256 → (bit_and b 0x0f * 4 == 0) ≡ (b % 16 == 0)
third_is_zero b k = ground (arith, low_four b k)

byte_is_zero : (b : ℕ) → (b % 16 == 0) ≡ false → (b == 0) ≡ false
byte_is_zero b h = ground (arith, h)

two_bytes :
    (url : Bool) (a b : ℕ)
    → a < 256
    → b < 256
    → decode_chars url [] (encode url (a ∷ b ∷ []))
      ≡ (if b % 16 == 0 then none else some (a ∷ b ∷ []))
unfolding encode
two_bytes url a b h k = elim (Bool-cases (b % 16 == 0)) [
  | inl z ↦
      rw (third_is_zero b k, z)
        (two_joined url (first_six a) (second_six a b) (b'=' ∷ []) (first_six_less a h)
            (second_six_less a b h k)
          ∙ ends_short url (first_six a) (second_six a b))
  | inr n ↦
      rw (third_is_zero b k, n)
        (two_joined url (first_six a) (second_six a b)
            (char_at url (bit_and b 0x0f * 4) ∷ b'=' ∷ []) (first_six_less a h)
            (second_six_less a b h k)
          ∙ (joins_two url (bit_and b 0x0f * 4) (omega (arith, low_four b k)) (b'=' ∷ [])
                (first_six a) (second_six a b)
              ∙ (ends_three url (first_six a) (second_six a b) (bit_and b 0x0f * 4)
                  ∙ rw (first_back a b h k, two_bytes_back a b h k, no_third b k, byte_is_zero b n)
                      refl)))
]

prepend_if :
    (bytes s : List ℕ) (lost : Bool)
    → prepend bytes (if lost then none else some s) ≡ (if lost then none else some (bytes ++ s))
unfolding prepend
prepend_if bytes s true = refl
prepend_if bytes s false = refl

encoded :
    (url : Bool) (s : List ℕ)
    → All IsByte s
    → decode_chars url [] (encode url s) ≡ (if loses s then none else some s)
unfolding loses encode
encoded url [] h = nothing url
encoded url (a ∷ []) h = one_byte url a h.0
encoded url (a ∷ b ∷ []) h = two_bytes url a b h.0 h.1.0
encoded url (a ∷ b ∷ c ∷ rest) h =
    full_group url (first_six a) (second_six a b) (third_six b c) (bit_and c 0x3f) (encode url rest)
      (first_six_less a h.0) (second_six_less a b h.0 h.1.0) (third_six_less b c h.1.0 h.1.1.0)
      (omega (arith, low_six c h.1.1.0))
    ∙ (rw
        (
          first_back a b h.0 h.1.0,
          second_back a b c h.0 h.1.0 h.1.1.0,
          third_back b c h.1.0 h.1.1.0,
          encoded url rest h.1.1.1,
        )
        (prepend_if (a ∷ b ∷ c ∷ []) rest (loses rest)))

-- Decode returns the text of bytes that Encode was given, in both alphabets; but it returns the empty
-- text if the last group of the text has two bytes and the second of them has no bit in its lower
-- half.
pub decode-encode :
    (url : Bool) (s : List ℕ)
    → All IsByte s
    → decode url (encode url s) ≡ (if loses s then [] else s)
unfolding decode
decode-encode url s h =
    elim (loses s)
        as (λ b.
          decode_chars url [] (encode url s) ≡ (if b then none else some s)
          → decode url (encode url s) ≡ (if b then [] else s)) [
            | true ↦ λ e. ap (λ o. elim o [ some bytes ↦ bytes | none ↦ [] ]) e
            | false ↦ λ e. ap (λ o. elim o [ some bytes ↦ bytes | none ↦ [] ]) e
          ]
      (encoded url s h)
