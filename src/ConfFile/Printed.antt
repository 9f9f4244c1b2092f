-- ===== src/ConfFile/Printed.antt =====
-- Lines of a configuration as they are printed, to compare with.
use http2serv.Prelude.{ℕ, ◌≡◌, ◌≢◌, refl, ap, ◌∙◌, arith, Bool, false, ◌==◌, if◌then◌else◌}
use http2serv.Prelude.{List, [], ◌∷◌, ◌++◌, some, All}
use http2serv.ConfFile.{Entry, Sections}
use http2serv.ConfFile.Line.{
  is_blank, is_blank_or_end, ends_line, trim_right, trim_left, trim_string, without_comment, lines,
  last_char, without_last, split_at_equals,
}

abbrev pub print_entries : List Entry → List ℕ → List ℕ
print_entries [] rest = rest
print_entries ((k, v) ∷ es) rest = k ++ (b'=' ∷ (v ++ (10 ∷ print_entries es rest)))

abbrev pub print : Sections → List ℕ
print [] = []
print ((n, es) ∷ rest) = b'[' ∷ (n ++ (b']' ∷ 10 ∷ print_entries es (print rest)))

abbrev pub starts_blank : List ℕ → Bool
starts_blank [] = false
starts_blank (c ∷ cs) = is_blank c

-- Texts that a line can hold: no comment or end of a line, and no blank at either end.
abbrev pub IsPlain : List ℕ → Type 0
IsPlain text =
    All (λ c. ends_line c ≡ false) text × (trim_right text ≡ text) × (starts_blank text ≡ false)

abbrev pub starts_section : List ℕ → Bool
starts_section [] = false
starts_section (c ∷ cs) = c == b'['

abbrev pub IsEntry : Entry → Type 0
IsEntry e =
    (e.0 ≢ [])
    × IsPlain e.0
    × IsPlain e.1
    × All (λ c. (c == b'=') ≡ false) e.0
    × (starts_section e.0 ≡ false)

not_newline : (c : ℕ) → ends_line c ≡ false → (c == 10) ≡ false
unfolding ends_line
not_newline c h = ground arith

pub lines-append :
    (l rest : List ℕ) → All (λ c. ends_line c ≡ false) l → lines (l ++ (10 ∷ rest)) ≡ l ∷ lines rest
unfolding lines
lines-append [] rest h = refl
lines-append (c ∷ cs) rest h = rw (not_newline c h.0, lines-append cs rest h.1) refl

without_comment-plain : (l : List ℕ) → All (λ c. ends_line c ≡ false) l → without_comment l ≡ l
unfolding without_comment
without_comment-plain [] h = refl
without_comment-plain (c ∷ cs) h = rw (h.0, without_comment-plain cs h.1) refl

trim_right-cons :
    (x : ℕ) (t : List ℕ) (e : ℕ) (es : List ℕ)
    → trim_right t ≡ e ∷ es
    → trim_right (x ∷ t) ≡ x ∷ e ∷ es
unfolding trim_right
trim_right-cons x t e es h =
    ap (λ l. elim l [ [] ↦ if is_blank_or_end x then [] else x ∷ [] | d ∷ ds ↦ x ∷ d ∷ ds ]) h

-- Nothing is cut off behind a text that ends as `d ∷ ds` does.
trim_right-append :
    (xs : List ℕ) (d : ℕ) (ds : List ℕ)
    → trim_right (d ∷ ds) ≡ d ∷ ds
    → trim_right (xs ++ (d ∷ ds)) ≡ xs ++ (d ∷ ds)
unfolding trim_right
trim_right-append [] d ds h = h
trim_right-append (x ∷ []) d ds h = trim_right-cons x (d ∷ ds) d ds h
trim_right-append (x ∷ y ∷ xs) d ds h =
    trim_right-cons x (y ∷ (xs ++ (d ∷ ds))) y (xs ++ (d ∷ ds)) (trim_right-append (y ∷ xs) d ds h)

trim_left-kept : (t : List ℕ) → starts_blank t ≡ false → trim_left t ≡ t
unfolding trim_left
trim_left-kept [] h = refl
trim_left-kept (c ∷ cs) h = rw h refl

pub trim_string-plain : (t : List ℕ) → IsPlain t → trim_string t ≡ t
unfolding trim_string
trim_string-plain t h = rw (h.1) (trim_left-kept t h.2)

no_end-append :
    (xs ys : List ℕ)
    → All (λ c. ends_line c ≡ false) xs
    → All (λ c. ends_line c ≡ false) ys
    → All (λ c. ends_line c ≡ false) (xs ++ ys)
no_end-append [] ys h k = k
no_end-append (x ∷ xs) ys h k = (h.0, no_end-append xs ys h.1 k)

pub last_char-append : (xs : List ℕ) (d : ℕ) → last_char (xs ++ (d ∷ [])) ≡ some d
unfolding last_char
last_char-append [] d = refl
last_char-append (x ∷ []) d = refl
last_char-append (x ∷ y ∷ xs) d = last_char-append (y ∷ xs) d

pub without_last-append : (xs : List ℕ) (d : ℕ) → without_last (xs ++ (d ∷ [])) ≡ xs
unfolding without_last
without_last-append [] d = refl
without_last-append (x ∷ []) d = refl
without_last-append (x ∷ y ∷ xs) d = ap (λ l. x ∷ l) (without_last-append (y ∷ xs) d)

pub split_at_equals-append :
    (k v : List ℕ)
    → All (λ c. (c == b'=') ≡ false) k
    → split_at_equals (k ++ (b'=' ∷ v)) ≡ some (k, v)
unfolding split_at_equals
split_at_equals-append [] v h = refl
split_at_equals-append (c ∷ cs) v h = rw (h.0, split_at_equals-append cs v h.1) refl

-- The line of a section is left as it is.
pub section_line-IsPlain : (n : List ℕ) → IsPlain n → IsPlain (b'[' ∷ (n ++ (b']' ∷ [])))
unfolding ends_line trim_right is_blank is_blank_or_end
section_line-IsPlain n h = (
  (refl, no_end-append n (b']' ∷ []) h.0 (refl, tt)),
  trim_right-append (b'[' ∷ n) b']' [] refl,
  refl,
)

ends_equals : (v : List ℕ) → trim_right v ≡ v → trim_right (b'=' ∷ v) ≡ b'=' ∷ v
unfolding trim_right is_blank_or_end
ends_equals [] h = refl
ends_equals (c ∷ cs) h = trim_right-cons b'=' (c ∷ cs) c cs h

pub entry_line-IsPlain : (e : Entry) → IsEntry e → IsPlain (e.0 ++ (b'=' ∷ e.1))
unfolding ends_line
entry_line-IsPlain ([], v) h = absurd (h.0 refl)
entry_line-IsPlain ((c ∷ cs), v) h = (
  no_end-append (c ∷ cs) (b'=' ∷ v) h.1.0 (refl, h.2.0),
  trim_right-append (c ∷ cs) b'=' v (ends_equals v h.2.1),
  h.1.2,
)

pub clean_line : (l : List ℕ) → IsPlain l → trim_string (without_comment l) ≡ l
clean_line l h = ap trim_string (without_comment-plain l h.0) ∙ trim_string-plain l h
