-- ===== src/CommonLib/UrlCode.antt =====
-- url_encode of CommonLib/UrlCode.cpp, on the bytes of a text.
use http2serv.Prelude.{
  ℕ, ◌+◌, ◌-◌, ◌*◌, ◌/◌, ◌%◌, ◌<◌, ◌≡◌, refl, arith, Bool, true, false, ltb, leb, ◌==◌,
}
use http2serv.Prelude.{
  List, [], ◌∷◌, if◌then◌else◌, ◌&&◌, ◌||◌, IsByte, All, Bool-cases, inl, inr, ap,
}

-- `isalnum` in the "C" locale.
unfoldable pub isalnum : ℕ → Bool
isalnum c = (leb b'0' c && leb c b'9') || ((leb b'A' c && leb c b'Z') || (leb b'a' c && leb c b'z'))

-- The characters that stay as they are.
unfoldable pub is_kept : ℕ → Bool
unfolding isalnum
is_kept c =
    (ltb 32 c && (ltb c 127 && isalnum c))
    || (c == b'-'
        || (c == b'_'
            || (c == b'.'
                || (c == b'~' || (c == b'/' || (c == b':' || (c == b'?' || c == b'&')))))))

-- An upper case digit to the base 16.
unfoldable pub hex_digit : ℕ → ℕ
hex_digit d = if ltb d 10 then b'0' + d else b'A' + d - 10

unfoldable pub url_encode : List ℕ → List ℕ
unfolding is_kept hex_digit
url_encode [] = []
url_encode (c ∷ cs) =
    if is_kept c
    then c ∷ url_encode cs
    else b'%' ∷ hex_digit (c / 16) ∷ hex_digit (c % 16) ∷ url_encode cs

-- A decoder of percent codes, to compare with.
unfoldable pub hex_value : ℕ → ℕ
hex_value d = if leb d b'9' then d - b'0' else d - b'A' + 10

unfoldable pub percent_decode : List ℕ → List ℕ
unfolding hex_value
percent_decode [] = []
percent_decode (c ∷ []) = c ∷ []
percent_decode (c ∷ x ∷ []) = c ∷ percent_decode (x ∷ [])
percent_decode (c ∷ x ∷ y ∷ rest) =
    if c == b'%'
    then (hex_value x * 16 + hex_value y) ∷ percent_decode rest
    else c ∷ percent_decode (x ∷ y ∷ rest)

not_percent : (c : ℕ) → is_kept c ≡ true → (c == b'%') ≡ false
unfolding is_kept
not_percent c h = ground arith

percent_decode-kept :
    (c : ℕ) (rest : List ℕ) → is_kept c ≡ true → percent_decode (c ∷ rest) ≡ c ∷ percent_decode rest
unfolding percent_decode
percent_decode-kept c [] h = refl
percent_decode-kept c (x ∷ []) h = refl
percent_decode-kept c (x ∷ y ∷ rest) h = rw (not_percent c h) refl

hex_value-hex_digit : (d : ℕ) → d < 16 → hex_value (hex_digit d) ≡ d
unfolding hex_value hex_digit
hex_value-hex_digit d h = ground arith

-- A decoder of percent codes reads every text of bytes back from what url_encode wrote for it.
pub percent_decode-url_encode :
    (text : List ℕ) → All IsByte text → percent_decode (url_encode text) ≡ text
unfolding percent_decode url_encode
percent_decode-url_encode [] h = refl
percent_decode-url_encode (c ∷ cs) h = elim (Bool-cases (is_kept c)) [
  | inl kept ↦
      rw (kept, percent_decode-kept c (url_encode cs) kept, percent_decode-url_encode cs h.1) refl
  | inr coded ↦
      rw
        (
          coded,
          hex_value-hex_digit (c / 16) (omega (arith, h.0)),
          hex_value-hex_digit (c % 16) (omega arith),
          percent_decode-url_encode cs h.1,
        )
        (ap (λ b. b ∷ cs) (omega arith))
]
