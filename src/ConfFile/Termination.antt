-- ===== src/ConfFile/Termination.antt =====
-- The recursion of LoadFile over included files.
use http2serv.Prelude.{
  ℕ, zero, suc, ◌<◌, ◌≡◌, refl, ap, ◌∙◌, arith, true, false, ◌==◌, if◌then◌else◌,
}
use http2serv.Prelude.{List, [], ◌∷◌, Option, none, some, All}
use http2serv.ConfFile.Line.{trim_string, without_comment, without_last, lines}
use http2serv.ConfFile.Load.{
  Loaded, Progress, open_section, put_entry, is_section, entry_of, other_line, handle_line,
  load_lines, Disk, stamp, load_recursive,
}

-- A line that includes a file of a smaller rank, or no file.
abbrev pub Falls : (List ℕ → ℕ) → ℕ → List ℕ → Type 0
Falls rank r [] = Unit {0}
Falls rank r (c ∷ cs) = (c == b'@') ≡ true → rank (trim_string cs) < r

abbrev pub LineFalls : (List ℕ → ℕ) → ℕ → List ℕ → Type 0
LineFalls rank r l = Falls rank r (trim_string (without_comment l))

-- A result.
abbrev pub Given {ℓ} : {A : Type ℓ} → Option A → Type ℓ
Given {A = A} o = (a : A) × (o ≡ some a)

module _ (include : List ℕ → Loaded → Option Loaded) (rank : List ℕ → ℕ) (r : ℕ)
    (given : (t : List ℕ) (file : Loaded) → rank t < r → Given (include t file)) where
  other_line-Given :
      (c : ℕ) (cs : List ℕ) (last : Option (List ℕ)) (file : Loaded)
      → Falls rank r (c ∷ cs)
      → Given (other_line include c cs last file)
  unfolding other_line
  other_line-Given c cs last file h =
      elim (c == b'@')
          as (λ b.
            (b ≡ true → rank (trim_string cs) < r)
            → Given {A = Progress} (
                if b
                then elim (include (trim_string cs) file) [
                  | none ↦ none
                  | some file ↦ some (none, file)
                ]
                else some (last, file))) [
                  | true ↦ λ f.
                      let g = given (trim_string cs) file (f refl) in
                      (
                        (none, g.0),
                        ap (λ o. elim o [ none ↦ none | some file ↦ some (none, file) ]) g.1,
                      )
                  | false ↦ λ f. ((last, file), refl)
                ]
        h

  handle_line-Given :
      (l : List ℕ) (last : Option (List ℕ)) (file : Loaded)
      → Falls rank r l
      → Given (handle_line include l last file)
  unfolding handle_line
  handle_line-Given [] last file h = ((last, file), refl)
  handle_line-Given (c ∷ cs) last file h =
      elim (is_section (c ∷ cs))
        as (λ b. Given {A = Progress} (
          if b
          then some (open_section (trim_string (without_last cs)) file)
          else elim (entry_of (c ∷ cs) last) [
            | some (section, key, value) ↦
                some (last, put_entry section (trim_string key) (trim_string value) file)
            | none ↦ other_line include c cs last file
          ])) [
            | true ↦ (open_section (trim_string (without_last cs)) file, refl)
            | false ↦
                elim (entry_of (c ∷ cs) last)
                  as (λ o. Given {A = Progress} (elim o [
                    | some (section, key, value) ↦
                        some (last, put_entry section (trim_string key) (trim_string value) file)
                    | none ↦ other_line include c cs last file
                  ])) [
                    | some (section, key, value) ↦ (_, refl)
                    | none ↦ other_line-Given c cs last file h
                  ]
          ]

  load_lines-Given :
      (ls : List (List ℕ)) (last : Option (List ℕ)) (file : Loaded)
      → All (LineFalls rank r) ls
      → Given (load_lines include ls last file)
  unfolding load_lines
  load_lines-Given [] last file h = (file, refl)
  load_lines-Given (l ∷ ls) last file h =
      let step = handle_line-Given (trim_string (without_comment l)) last file h.0 in
      let rest = load_lines-Given ls step.0.0 step.0.1 h.1 in
      (
        rest.0,
        ap (λ o. elim o [ none ↦ none | some (last, file) ↦ load_lines include ls last file ])
              step.1
            ∙ rest.1,
      )

-- The recursion of LoadFile ends if the files have ranks that fall from a file to every file it
-- includes, with a depth above the rank of the first file.
pub load_recursive-total :
    (disk : Disk) (rank : List ℕ → ℕ)
    → ((name text : List ℕ)
        → disk.contents name ≡ some text
        → All (LineFalls rank (rank name)) (lines text))
    → (fuel : ℕ) (name : List ℕ) (file : Loaded) → rank name < fuel
    → (loaded : Loaded) × (load_recursive disk fuel name file ≡ some loaded)
unfolding load_recursive
load_recursive-total disk rank ranked zero name file h = absurd (omega (arith, h))
load_recursive-total disk rank ranked (suc fuel) name file h =
    elim (disk.contents name)
        as (λ o.
          ((text : List ℕ) → o ≡ some text → All (LineFalls rank (rank name)) (lines text))
          → Given (elim o [
            | none ↦ some file
            | some text ↦ elim (load_lines (load_recursive disk fuel) (lines text) none file) [
              | none ↦ none
              | some file ↦ some (stamp disk name file)
            ]
          ])) [
            | none ↦ λ f. (file, refl)
            | some text ↦ λ f.
                let inner =
                  load_lines-Given (load_recursive disk fuel) rank (rank name)
                    (λ t file lt.
                      load_recursive-total disk rank ranked fuel t file (omega (arith, lt, h)))
                    (lines text) none file (f text refl) in
                (
                  stamp disk name inner.0,
                  ap (λ o. elim o [ none ↦ none | some file ↦ some (stamp disk name file) ])
                      inner.1,
                )
          ]
      (ranked name)
