-- ===== src/CommonLib/Base64.antt =====
-- Base64::Encode and Base64::Decode of CommonLib/Base64.h, on lists of bytes.
pub mod Masks
pub mod RoundTrip
use http2serv.Prelude.{
  ℕ, zero, suc, ◌+◌, ◌-◌, ◌*◌, ◌/◌, ◌%◌, ◌≡◌, refl, bit_and, codes, Bool, true, false,
}
use http2serv.Prelude.{
  List, [], ◌∷◌, ◌++◌, Option, none, some, if◌then◌else◌, ◌==◌, not, ◌&&◌, ltb, length, get_elem?,
}

unfoldable pub base64chr : Bool → List ℕ
base64chr url_save =
    codes "ABCDEFGHIJKLMNOPQRSTUVWXYZabcdefghijklmnopqrstuvwxyz0123456789"
    ++ (if url_save then codes "-_" else codes "+/")

-- `base64chr[i]`; every index that occurs is below 64.
unfoldable pub char_at : Bool → ℕ → ℕ
unfolding base64chr
char_at url_save i = elim (get_elem? (base64chr url_save) i) [ some c ↦ c | none ↦ 0 ]

-- The first six bits of `a`, the two last of `a` with four of `b`, and so on.
abbrev pub first_six : ℕ → ℕ
first_six a = bit_and a 0xfc / 4

abbrev pub second_six : ℕ → ℕ → ℕ
second_six a b = bit_and a 0x03 * 16 + bit_and b 0xf0 / 16

abbrev pub third_six : ℕ → ℕ → ℕ
third_six b c = bit_and b 0x0f * 4 + bit_and c 0xc0 / 64

-- Base64::Encode. The third character of a last group of two bytes is left out if it stands for 0.
unfoldable pub encode : Bool → List ℕ → List ℕ
unfolding char_at
encode url_save [] = []
encode url_save (a ∷ []) =
    char_at url_save (first_six a) ∷ char_at url_save (bit_and a 0x03 * 16) ∷ b'=' ∷ b'=' ∷ []
encode url_save (a ∷ b ∷ []) =
    char_at url_save (first_six a)
    ∷ char_at url_save (second_six a b)
    ∷ (if bit_and b 0x0f * 4 == 0
        then b'=' ∷ []
        else char_at url_save (bit_and b 0x0f * 4) ∷ b'=' ∷ [])
encode url_save (a ∷ b ∷ c ∷ rest) =
    char_at url_save (first_six a)
    ∷ char_at url_save (second_six a b)
    ∷ char_at url_save (third_six b c)
    ∷ char_at url_save (bit_and c 0x3f)
    ∷ encode url_save rest

-- `base64chr.find(c)`, counted from `pos` on.
unfoldable pub find_char : List ℕ → ℕ → ℕ → Option ℕ
find_char [] pos c = none
find_char (x ∷ xs) pos c = let rest = find_char xs (pos + 1) c in if x == c then some pos else rest

-- The three bytes of four characters.
abbrev pub first_byte : ℕ → ℕ → ℕ
first_byte c1 c2 = (c1 * 4 + bit_and c2 0x30 / 16) % 256

abbrev pub second_byte : ℕ → ℕ → ℕ
second_byte c2 c3 = (bit_and c2 0xf * 16 + bit_and c3 0x3c / 4) % 256

abbrev pub third_byte : ℕ → ℕ → ℕ
third_byte c3 c4 = (bit_and c3 0x3 * 64 + c4) % 256

abbrev pub unless_zero : ℕ → List ℕ
unless_zero b = if b == 0 then [] else b ∷ []

-- What is left of a group that is not full, `left` being the characters from the first "=" on.
unfoldable pub decode_rest : List ℕ → ℕ → Option (List ℕ)
decode_rest group left = if ltb 0 left && not (left == 4 - length group) then none else elim group [
  | [] ↦ some []
  | c1 ∷ cs ↦ elim cs [
    | [] ↦ some (first_byte c1 0 ∷ [])
    | c2 ∷ ds ↦ elim ds [
      | [] ↦ some (first_byte c1 c2 ∷ unless_zero (second_byte c2 0))
      | c3 ∷ es ↦
          some
            (first_byte c1 c2 ∷ (unless_zero (second_byte c2 c3) ++ unless_zero (third_byte c3 0)))
    ]
  ]
]

unfoldable pub prepend : List ℕ → Option (List ℕ) → Option (List ℕ)
prepend bytes none = none
prepend bytes (some rest) = some (bytes ++ rest)

-- The loop, with the values of the characters of the group that is being read; `none` where the
-- function returns the empty string at once.
unfoldable pub decode_chars : Bool → List ℕ → List ℕ → Option (List ℕ)
unfolding base64chr find_char decode_rest prepend
decode_chars url_save group [] = decode_rest group 0
decode_chars url_save group (x ∷ xs) =
    let more = λ (g : List ℕ). decode_chars url_save g xs in
    if x == b'='
    then decode_rest group (suc (length xs))
    else elim (find_char (base64chr url_save) 0 x) [
      | none ↦ none
      | some c ↦ elim group [
        | [] ↦ more (c ∷ [])
        | c1 ∷ cs ↦ elim cs [
          | [] ↦ more (c1 ∷ c ∷ [])
          | c2 ∷ ds ↦ elim ds [
            | [] ↦ more (c1 ∷ c2 ∷ c ∷ [])
            | c3 ∷ es ↦
                prepend (first_byte c1 c2 ∷ second_byte c2 c3 ∷ third_byte c3 c ∷ []) (more [])
          ]
        ]
      ]
    ]

-- Base64::Decode.
unfoldable pub decode : Bool → List ℕ → List ℕ
unfolding decode_chars
decode url_save text = elim (decode_chars url_save [] text) [ some bytes ↦ bytes | none ↦ [] ]
