-- ===== src/HttpServ/Request/Length.antt =====
-- The fields expect and content-length of an HTTP/1 request, as OnDataReceived in HttpServ.cpp takes
-- them.
use http2serv.Prelude.{
  ℕ, zero, suc, ◌+◌, ◌-◌, ◌*◌, ◌/◌, ◌%◌, ◌^◌, ◌≤◌, ◌<◌, ◌≡◌, refl, ap, ◌∙◌, arith, Bool, true,
  false, ltb, ltb→lt, leb, ◌==◌, ◌||◌, ◌&&◌, if◌then◌else◌, Bool-cases, inl, inr, codes, Option,
  none, some, List, [], ◌∷◌, ◌++◌, bytes_eq, bytes_eq→eq, All, length, length-append,
}
use http2serv.HttpServ.Response.Fields.{All-append}
use http2serv.Hpack.HeadList.{HeadList, find}
use http2serv.HttpServ.Response.{digits, to_string}

-- The white space that stoll passes over, in the "C" locale.
unfoldable pub skip_space : List ℕ → List ℕ
skip_space [] = []
skip_space (c ∷ cs) = if c == 32 || (leb 9 c && leb c 13) then skip_space cs else c ∷ cs

unfoldable pub is_digit : ℕ → Bool
is_digit c = leb b'0' c && leb c b'9'

-- The value of the digits in front, behind digits of the value `n`; what follows is not looked at.
unfoldable pub read_digits : ℕ → List ℕ → ℕ
unfolding is_digit
read_digits n [] = n
read_digits n (c ∷ cs) = if is_digit c then read_digits (n * 10 + (c - b'0')) cs else n

-- At least one digit, or the exception invalid_argument.
unfoldable pub read_number : List ℕ → Option ℕ
unfolding is_digit
read_number [] = none
read_number (c ∷ cs) = if is_digit c then some (read_digits 0 (c ∷ cs)) else none

-- The exceptions of stoll and a number below 0 are answered by 400; otherwise stoull has the same value.
unfoldable pub at_most : ℕ → Option ℕ → Option ℕ
at_most limit none = none
at_most limit (some n) = if leb n limit then some n else none

unfoldable pub stoll_positive : List ℕ → Option ℕ
stoll_positive [] = none
stoll_positive (c ∷ cs) =
    if c == b'-'
    then at_most 0 (read_number cs)
    else at_most (2 ^ 63 - 1) (if c == b'+' then read_number cs else read_number (c ∷ cs))

-- `none` is the answer 400; the greatest uint64_t counts as no field.
unfoldable pub content_length : HeadList → Option ℕ
content_length fields = elim (find (codes "content-length") fields) [
  | none ↦ some 0
  | some text ↦
      if bytes_eq text (codes "18446744073709551615")
      then some 0
      else stoll_positive (skip_space text)
]

-- The field expect: `false` is the answer 417.
unfoldable pub expects_continue : HeadList → Bool
expects_continue fields = elim (find (codes "expect") fields) [
  | none ↦ true
  | some text ↦ bytes_eq text (codes "100-continue")
]

abbrev IsDigits : List ℕ → Type 0
IsDigits text = All (λ c. is_digit c ≡ true) text

tens : ℕ → ℕ
tens zero = 1
tens (suc n) = 10 * tens n

digit_test : (d : ℕ) → d < 10 → is_digit (b'0' + d) ≡ true
unfolding is_digit
digit_test d h = ground arith

digits-IsDigits : (fuel n : ℕ) → IsDigits (digits fuel n)
unfolding digits
digits-IsDigits zero n = tt
digits-IsDigits (suc fuel) n = elim (Bool-cases (ltb n 10)) [
  | inl small ↦ rw small (digit_test n (ltb→lt n 10 small), tt)
  | inr big ↦ rw big (
      All-append (λ c. is_digit c ≡ true) (digits fuel (n / 10)) ((b'0' + n % 10) ∷ [])
        (digits-IsDigits fuel (n / 10)) (digit_test (n % 10) (omega arith), tt))
]

read_digits-append :
    (n : ℕ) (xs : List ℕ) (d : ℕ)
    → IsDigits xs
    → d < 10
    → read_digits n (xs ++ ((b'0' + d) ∷ [])) ≡ read_digits n xs * 10 + d
unfolding read_digits
read_digits-append n [] d h k = rw (digit_test d k) (omega arith)
read_digits-append n (c ∷ cs) d h k = rw (h.0) (read_digits-append (n * 10 + (c - b'0')) cs d h.1 k)

read_digits-digits : (fuel m : ℕ) → m < tens fuel → read_digits 0 (digits fuel m) ≡ m
unfolding tens digits read_digits
read_digits-digits zero m h = omega (arith, h)
read_digits-digits (suc fuel) m h = elim (Bool-cases (ltb m 10)) [
  | inl small ↦ rw small (read_digits-append 0 [] m tt (ltb→lt m 10 small) ∙ omega arith)
  | inr big ↦ rw big (
      read_digits-append 0 (digits fuel (m / 10)) (m % 10) (digits-IsDigits fuel (m / 10))
        (omega arith)
      ∙ ap (λ v. v * 10 + m % 10) (read_digits-digits fuel (m / 10) (omega (arith, h)))
      ∙ omega arith)
]

no_space : (c : ℕ) → is_digit c ≡ true → (c == 32 || (leb 9 c && leb c 13)) ≡ false
unfolding is_digit
no_space c h = ground (arith, h)

no_minus : (c : ℕ) → is_digit c ≡ true → (c == b'-') ≡ false
unfolding is_digit
no_minus c h = ground (arith, h)

no_plus : (c : ℕ) → is_digit c ≡ true → (c == b'+') ≡ false
unfolding is_digit
no_plus c h = ground (arith, h)

-- A text of digits is read as a number.
stoll_digits :
    (c : ℕ) (cs : List ℕ)
    → IsDigits (c ∷ cs)
    → stoll_positive (skip_space (c ∷ cs)) ≡ at_most (2 ^ 63 - 1) (some (read_digits 0 (c ∷ cs)))
unfolding stoll_positive skip_space read_number
stoll_digits c cs h = rw (no_space c h.0, no_minus c h.0, no_plus c h.0, h.0) refl

stoll_text :
    (text : List ℕ)
    → IsDigits text
    → 1 ≤ length text
    → stoll_positive (skip_space text) ≡ at_most (2 ^ 63 - 1) (some (read_digits 0 text))
stoll_text [] h k = let no : ⊥ = omega (arith, k) in elim no [ ]
stoll_text (c ∷ cs) h k = stoll_digits c cs h

digits-some : (fuel n : ℕ) → 1 ≤ length (digits (suc fuel) n)
unfolding digits
digits-some fuel n = elim (Bool-cases (ltb n 10)) [
  | inl small ↦ rw small (omega arith)
  | inr big ↦ rw big (omega (arith, length-append (digits fuel (n / 10)) ((b'0' + n % 10) ∷ [])))
]

read_digits-to_string : (n : ℕ) → n < 2 ^ 64 → read_digits 0 (to_string n) ≡ n
unfolding to_string tens
read_digits-to_string n h = read_digits-digits 20 n (omega (arith, h))

greatest : read_digits 0 (codes "18446744073709551615") ≡ 2 ^ 64 - 1
unfolding read_digits is_digit
greatest = refl

not_greatest :
    (n : ℕ) → n < 2 ^ 64 - 1 → bytes_eq (to_string n) (codes "18446744073709551615") ≡ false
not_greatest n h = elim (Bool-cases (bytes_eq (to_string n) (codes "18446744073709551615"))) [
  | inl same ↦
      let e = ap (read_digits 0) (bytes_eq→eq (to_string n) (codes "18446744073709551615") same) in
      let no : ⊥ = omega (arith, h, read_digits-to_string n (omega (arith, h)), e, greatest) in
      elim no [ ]
  | inr other ↦ other
]

stoll-to_string :
    (n : ℕ)
    → n < 2 ^ 64 - 1
    → stoll_positive (skip_space (to_string n)) ≡ (if leb n (2 ^ 63 - 1) then some n else none)
unfolding to_string at_most
stoll-to_string n h =
    stoll_text (to_string n) (digits-IsDigits 20 n) (digits-some 19 n)
    ∙ ap (λ v. if leb v (2 ^ 63 - 1) then some v else none)
        (read_digits-to_string n (omega (arith, h)))

-- The field with a number below 2 ^ 63 in decimal digits is accepted with that number, and one with a
-- number of 64 bits from there on, but for the greatest, is refused.
pub content_length-to_string :
    (n : ℕ) (fields : HeadList)
    → n < 2 ^ 64 - 1
    → find (codes "content-length") fields ≡ some (to_string n)
    → content_length fields ≡ (if leb n (2 ^ 63 - 1) then some n else none)
unfolding content_length
content_length-to_string n fields h e =
    ap
      (λ o. elim o [
        | none ↦ some 0
        | some text ↦
            if bytes_eq text (codes "18446744073709551615")
            then some 0
            else stoll_positive (skip_space text)
      ])
      e
    ∙ ap (λ b. if b then some 0 else stoll_positive (skip_space (to_string n))) (not_greatest n h)
    ∙ stoll-to_string n h
