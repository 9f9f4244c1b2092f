-- ===== src/ConfFile/Tables.antt =====
-- Sections that are found and extended behind the others.
use http2serv.Prelude.{
  ℕ, ◌≡◌, refl, ◌∙◌, arith, true, false, if◌then◌else◌, bytes_eq, bytes_eq_refl,
}
use http2serv.Prelude.{List, [], ◌∷◌, ◌++◌, none, some, All}
use http2serv.ConfFile.{Entry, Sections, find_section}
use http2serv.ConfFile.Load.{add_entry}

pub bytes_eq_sym : (xs ys : List ℕ) → bytes_eq xs ys ≡ bytes_eq ys xs
unfolding bytes_eq
bytes_eq_sym [] [] = refl
bytes_eq_sym [] (y ∷ ys) = refl
bytes_eq_sym (x ∷ xs) [] = refl
bytes_eq_sym (x ∷ xs) (y ∷ ys) = ground (arith, bytes_eq_sym xs ys)

-- A name that is not found is not the first, and not among the others.
pub not_found :
    (n k : List ℕ) (es : List Entry) (rest : Sections)
    → find_section n ((k, es) ∷ rest) ≡ none
    → (bytes_eq k n ≡ false) × (find_section n rest ≡ none)
unfolding find_section
not_found n k es rest =
    elim (bytes_eq k n)
      as (λ b.
        (if b then some es else find_section n rest) ≡ none
        → (b ≡ false) × (find_section n rest ≡ none)) [ true ↦ λ h. cc | false ↦ λ h. (refl, h) ]

pub find_section-append :
    (n : List ℕ) (done : Sections) (m : List ℕ) (es : List Entry)
    → find_section n done ≡ none
    → bytes_eq m n ≡ false
    → find_section n (done ++ ((m, es) ∷ [])) ≡ none
unfolding find_section
find_section-append n [] m es h e = rw e refl
find_section-append n ((k, x) ∷ done) m es h e =
    let parts = not_found n k x done h in rw (parts.0) (find_section-append n done m es parts.1 e)

pub add_entry-append :
    (n : List ℕ) (done : Sections) (es : List Entry) (e : Entry)
    → find_section n done ≡ none
    → add_entry n e (done ++ ((n, es) ∷ [])) ≡ done ++ ((n, es ++ (e ∷ [])) ∷ [])
unfolding add_entry
add_entry-append n [] es e h = rw (bytes_eq_refl n) refl
add_entry-append n ((k, x) ∷ done) es e h =
    let parts = not_found n k x done h in rw (parts.0, add_entry-append n done es e parts.1) refl

-- None of the names is found.
abbrev pub NoneFound : Sections → Sections → Type 0
NoneFound done rest = All (λ s. find_section s.0 done ≡ none) rest

pub NoneFound-append :
    (done rest : Sections) (n : List ℕ) (es : List Entry)
    → NoneFound done rest
    → find_section n rest ≡ none
    → NoneFound (done ++ ((n, es) ∷ [])) rest
NoneFound-append done [] n es h k = tt
NoneFound-append done ((m, x) ∷ rest) n es h k =
    let parts = not_found n m x rest k in
    (
      find_section-append m done n es h.0 (bytes_eq_sym n m ∙ parts.0),
      NoneFound-append done rest n es h.1 parts.1,
    )
