-- ===== src/Hpack/Fields/Added.antt =====
-- Well-formed header lists, and what another field or another cookie does to them.
use http2serv.Prelude.{ℕ, ◌≡◌, refl, ◌∙◌, arith, codes}
use http2serv.Prelude.{Bool, true, false, ◌&&◌, ◌||◌, not, if◌then◌else◌, Bool-cases, inl, inr}
use http2serv.Prelude.{List, [], ◌∷◌, ◌++◌, bytes_eq, bytes_eq→eq, bytes_eq_refl}
use http2serv.Hpack.HeadList.{HeadList, find}
use http2serv.Hpack.Header.{is_pseudo}
use http2serv.Hpack.Fields.{append_value, has_field, has_regular}

unfoldable pub has_pseudo : HeadList → Bool
has_pseudo [] = false
has_pseudo ((n, v) ∷ fs) = is_pseudo n || has_pseudo fs

-- Pseudo headers stand first, each only once, and "te" is only ever "trailers".
abbrev pub PseudoFirst : HeadList → Type 0
PseudoFirst [] = Unit {0}
PseudoFirst ((n, v) ∷ fs) = (is_pseudo n ≡ false → has_pseudo fs ≡ false) × PseudoFirst fs

abbrev pub PseudoOnce : HeadList → Type 0
PseudoOnce [] = Unit {0}
PseudoOnce ((n, v) ∷ fs) = (is_pseudo n ≡ true → has_field n fs ≡ false) × PseudoOnce fs

abbrev pub TeTrailers : HeadList → Type 0
TeTrailers [] = Unit {0}
TeTrailers ((n, v) ∷ fs) =
    (bytes_eq n (codes "te") ≡ true → bytes_eq v (codes "trailers") ≡ true) × TeTrailers fs

pub record IsHeader (fields : HeadList) : Type 0 where
  pub pseudo_first : PseudoFirst fields
  pub pseudo_once : PseudoOnce fields
  pub te_trailers : TeTrailers fields

-- A field at the end.
module _ (n v : List ℕ) where
  pub has_pseudo-snoc :
      (fs : HeadList) → has_pseudo (fs ++ ((n, v) ∷ [])) ≡ (has_pseudo fs || is_pseudo n)
  unfolding has_pseudo
  has_pseudo-snoc [] = ground arith
  has_pseudo-snoc ((m, w) ∷ fs) = ground (arith, has_pseudo-snoc fs)

  pub PseudoFirst-snoc :
      (fs : HeadList)
      → (is_pseudo n && has_regular fs) ≡ false
      → PseudoFirst fs
      → PseudoFirst (fs ++ ((n, v) ∷ []))
  unfolding has_pseudo has_regular
  PseudoFirst-snoc [] h p = (λ e. refl, tt)
  PseudoFirst-snoc ((m, w) ∷ fs) h p =
      (λ e. ground (arith, has_pseudo-snoc fs, p.0), PseudoFirst-snoc fs (ground arith) p.1)

  pub has_field-snoc :
      (k : List ℕ) (fs : HeadList)
      → has_field k (fs ++ ((n, v) ∷ [])) ≡ (has_field k fs || bytes_eq k n)
  unfolding has_field find
  has_field-snoc k [] = ground arith
  has_field-snoc k ((m, w) ∷ fs) = ground (arith, has_field-snoc k fs)

  same_name :
      (m : List ℕ)
      → (is_pseudo n && bytes_eq n m) ≡ false
      → is_pseudo m ≡ true
      → bytes_eq m n ≡ false
  same_name m h e = elim (Bool-cases (bytes_eq m n)) [
    | inl t ↦ ground (arith, bytes_eq→eq m n t, bytes_eq_refl n)
    | inr f ↦ f
  ]

  pub PseudoOnce-snoc :
      (fs : HeadList)
      → (is_pseudo n && has_field n fs) ≡ false
      → PseudoOnce fs
      → PseudoOnce (fs ++ ((n, v) ∷ []))
  unfolding has_field find
  PseudoOnce-snoc [] h p = (λ e. refl, tt)
  PseudoOnce-snoc ((m, w) ∷ fs) h p = (
    λ e. ground (arith, has_field-snoc m fs, p.0 e, same_name m (ground arith) e),
    PseudoOnce-snoc fs (ground arith) p.1,
  )

  pub TeTrailers-snoc :
      (fs : HeadList)
      → (bytes_eq n (codes "te") && not (bytes_eq v (codes "trailers"))) ≡ false
      → TeTrailers fs
      → TeTrailers (fs ++ ((n, v) ∷ []))
  TeTrailers-snoc [] h p = (λ e. ground (arith, e, h), tt)
  TeTrailers-snoc ((m, w) ∷ fs) h p = (p.0, TeTrailers-snoc fs h p.1)

-- append_value keeps the names.
module _ (k value : List ℕ) where
  pub has_pseudo-append_value :
      (fs : HeadList) → has_pseudo (append_value k value fs) ≡ has_pseudo fs
  unfolding has_pseudo append_value
  has_pseudo-append_value [] = refl
  has_pseudo-append_value ((n, v) ∷ fs) = ground (arith, has_pseudo-append_value fs)

  pub has_field-append_value :
      (m : List ℕ) (fs : HeadList) → has_field m (append_value k value fs) ≡ has_field m fs
  unfolding has_field find append_value
  has_field-append_value m [] = refl
  has_field-append_value m ((n, v) ∷ fs) = ground (arith, has_field-append_value m fs)

  pub PseudoFirst-append_value :
      (fs : HeadList) → PseudoFirst fs → PseudoFirst (append_value k value fs)
  unfolding append_value
  PseudoFirst-append_value [] p = tt
  PseudoFirst-append_value ((n, v) ∷ fs) p =
      elim (bytes_eq k n)
        as (λ b.
          PseudoFirst (
            if b then (n, v ++ (codes "; " ++ value)) ∷ fs else (n, v) ∷ append_value k value fs)) [
              | true ↦ p
              | false ↦ (λ e. has_pseudo-append_value fs ∙ p.0 e, PseudoFirst-append_value fs p.1)
            ]

  pub PseudoOnce-append_value :
      (fs : HeadList) → PseudoOnce fs → PseudoOnce (append_value k value fs)
  unfolding append_value
  PseudoOnce-append_value [] p = tt
  PseudoOnce-append_value ((n, v) ∷ fs) p =
      elim (bytes_eq k n)
        as (λ b.
          PseudoOnce (
            if b then (n, v ++ (codes "; " ++ value)) ∷ fs else (n, v) ∷ append_value k value fs)) [
              | true ↦ p
              | false ↦ (λ e. has_field-append_value n fs ∙ p.0 e, PseudoOnce-append_value fs p.1)
            ]

  pub TeTrailers-append_value :
      bytes_eq k (codes "te") ≡ false
      → (fs : HeadList) → TeTrailers fs
      → TeTrailers (append_value k value fs)
  unfolding append_value
  TeTrailers-append_value h [] p = tt
  TeTrailers-append_value h ((n, v) ∷ fs) p =
      elim (bytes_eq k n)
          as (λ b.
            bytes_eq k n ≡ b
            → TeTrailers (
                if b
                then (n, v ++ (codes "; " ++ value)) ∷ fs
                else (n, v) ∷ append_value k value fs)) [
                  | true ↦ λ t. (λ e. absurd (ground (arith, bytes_eq→eq k n t, h, e)), p.1)
                  | false ↦ λ f. (p.0, TeTrailers-append_value h fs p.1)
                ]
        refl
