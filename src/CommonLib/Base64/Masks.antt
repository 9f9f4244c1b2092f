-- ===== src/CommonLib/Base64/Masks.antt =====
-- The masks and shifts of CommonLib/Base64.h as arithmetic.
use http2serv.Prelude.{ℕ, ◌/◌, ◌%◌, ◌<◌, ◌≡◌, refl, arith, bit_and, agree→eq, all_below}
use http2serv.CommonLib.Base64.{
  first_six, second_six, third_six, first_byte, second_byte, third_byte,
}

pub low_two : (x : ℕ) → x < 256 → bit_and x 0x03 ≡ x % 4
unfolding all_below
low_two = agree→eq (λ x. bit_and x 0x03) (λ x. x % 4) 256 refl

pub low_four : (x : ℕ) → x < 256 → bit_and x 0x0f ≡ x % 16
unfolding all_below
low_four = agree→eq (λ x. bit_and x 0x0f) (λ x. x % 16) 256 refl

pub low_six : (x : ℕ) → x < 256 → bit_and x 0x3f ≡ x % 64
unfolding all_below
low_six = agree→eq (λ x. bit_and x 0x3f) (λ x. x % 64) 256 refl

pub high_six : (x : ℕ) → x < 256 → bit_and x 0xfc / 4 ≡ x / 4
unfolding all_below
high_six = agree→eq (λ x. bit_and x 0xfc / 4) (λ x. x / 4) 256 refl

pub high_four : (x : ℕ) → x < 256 → bit_and x 0xf0 / 16 ≡ x / 16
unfolding all_below
high_four = agree→eq (λ x. bit_and x 0xf0 / 16) (λ x. x / 16) 256 refl

pub high_two : (x : ℕ) → x < 256 → bit_and x 0xc0 / 64 ≡ x / 64
unfolding all_below
high_two = agree→eq (λ x. bit_and x 0xc0 / 64) (λ x. x / 64) 256 refl

pub middle_two : (x : ℕ) → x < 64 → bit_and x 0x30 / 16 ≡ x / 16
unfolding all_below
middle_two = agree→eq (λ x. bit_and x 0x30 / 16) (λ x. x / 16) 64 refl

pub middle_four : (x : ℕ) → x < 64 → bit_and x 0x3c / 4 ≡ x / 4
unfolding all_below
middle_four = agree→eq (λ x. bit_and x 0x3c / 4) (λ x. x / 4) 64 refl

pub first_six_less : (a : ℕ) → a < 256 → first_six a < 64
first_six_less a h = omega (arith, high_six a h)

pub second_six_less : (a b : ℕ) → a < 256 → b < 256 → second_six a b < 64
second_six_less a b h k = omega (arith, low_two a h, high_four b k)

pub third_six_less : (b c : ℕ) → b < 256 → c < 256 → third_six b c < 64
third_six_less b c h k = omega (arith, low_four b h, high_two c k)

pub first_back : (a b : ℕ) → a < 256 → b < 256 → first_byte (first_six a) (second_six a b) ≡ a
first_back a b h k = omega (
  arith,
  high_six a h,
  low_two a h,
  high_four b k,
  middle_two (second_six a b) (second_six_less a b h k),
)

pub second_back :
    (a b c : ℕ) → a < 256 → b < 256 → c < 256 → second_byte (second_six a b) (third_six b c) ≡ b
second_back a b c h k l = omega (
  arith,
  low_two a h,
  high_four b k,
  low_four b k,
  high_two c l,
  low_four (second_six a b) (omega (arith, second_six_less a b h k)),
  middle_four (third_six b c) (third_six_less b c k l),
)

pub third_back : (b c : ℕ) → b < 256 → c < 256 → third_byte (third_six b c) (bit_and c 0x3f) ≡ c
third_back b c k l = omega (
  arith,
  low_four b k,
  high_two c l,
  low_six c l,
  low_two (third_six b c) (omega (arith, third_six_less b c k l)),
)
