-- ===== src/ConfFile/WellFormed.antt =====
-- The sections that LoadFile makes, whatever the files hold.
use http2serv.Prelude.{
  ℕ, zero, suc, ◌≡◌, ◌≢◌, refl, ◌∙◌, true, false, ◌==◌, if◌then◌else◌, bytes_eq,
}
use http2serv.Prelude.{List, [], ◌∷◌, ◌++◌, Option, none, some, All}
use http2serv.ConfFile.{Entry, Sections, find_section}
use http2serv.ConfFile.Line.{trim_string, without_comment, without_last, lines}
use http2serv.ConfFile.Load.{
  Loaded, add_entry, Progress, open_section, put_entry, is_section, entry_of, other_line,
  handle_line, load_lines, Disk, stamp, load_recursive, load_file,
}
use mathlib.Core.Path.{subst}
use http2serv.ConfFile.Tables.{bytes_eq_sym, not_found, find_section-append}

-- Every section has a name, no two have the same, and every entry has a key.
abbrev pub IsWellFormed : Sections → Type 0
IsWellFormed [] = Unit {0}
IsWellFormed ((n, es) ∷ rest) =
    (n ≢ []) × (find_section n rest ≡ none) × All (λ e. e.0 ≢ []) es × IsWellFormed rest

new_section-IsWellFormed :
    (s : Sections) (n : List ℕ)
    → IsWellFormed s
    → n ≢ []
    → find_section n s ≡ none
    → IsWellFormed (s ++ ((n, []) ∷ []))
unfolding find_section
new_section-IsWellFormed [] n h k e = (k, refl, tt, tt)
new_section-IsWellFormed ((m, es) ∷ rest) n h k e =
    let parts = not_found n m es rest e in
    (
      h.0,
      find_section-append m rest n [] h.1 (bytes_eq_sym n m ∙ parts.0),
      h.2,
      new_section-IsWellFormed rest n h.3 k parts.1,
    )

All-snoc :
    (es : List Entry) (e : Entry)
    → All (λ e. e.0 ≢ []) es
    → e.0 ≢ []
    → All (λ e. e.0 ≢ []) (es ++ (e ∷ []))
All-snoc [] e h k = (k, tt)
All-snoc (x ∷ xs) e h k = (h.0, All-snoc xs e h.1 k)

find_section-add_entry :
    (m n : List ℕ) (e : Entry) (s : Sections)
    → find_section m s ≡ none
    → find_section m (add_entry n e s) ≡ none
unfolding find_section add_entry
find_section-add_entry m n e [] h = refl
find_section-add_entry m n e ((k, es) ∷ rest) h =
    let parts = not_found m k es rest h in
    elim (bytes_eq k n)
      as (λ b.
        find_section m (if b then (k, es ++ (e ∷ [])) ∷ rest else (k, es) ∷ add_entry n e rest)
        ≡ none) [
          | true ↦ rw (parts.0) (parts.1)
          | false ↦ rw (parts.0) (find_section-add_entry m n e rest parts.1)
        ]

add_entry-IsWellFormed :
    (n : List ℕ) (e : Entry) (s : Sections)
    → e.0 ≢ []
    → IsWellFormed s
    → IsWellFormed (add_entry n e s)
unfolding add_entry
add_entry-IsWellFormed n e [] k h = tt
add_entry-IsWellFormed n e ((m, es) ∷ rest) k h =
    elim (bytes_eq m n)
      as (λ b.
        IsWellFormed (if b then (m, es ++ (e ∷ [])) ∷ rest else (m, es) ∷ add_entry n e rest)) [
          | true ↦ (h.0, h.1, All-snoc es e h.2 k, h.3)
          | false ↦ (
            h.0,
            find_section-add_entry m n e rest h.1,
            h.2,
            add_entry-IsWellFormed n e rest k h.3,
          )
        ]

open_section-IsWellFormed :
    (n : List ℕ) (file : Loaded)
    → IsWellFormed file.sections
    → IsWellFormed (open_section n file).1.sections
unfolding open_section
open_section-IsWellFormed [] file h = h
open_section-IsWellFormed (c ∷ cs) file h =
    elim (find_section (c ∷ cs) file.sections)
        as (λ o.
          find_section (c ∷ cs) file.sections ≡ o
          → IsWellFormed (
              Loaded.sections (
                snd_of (elim o [
                  | some entries ↦ (none, file)
                  | none ↦ (
                    some (c ∷ cs),
                    record file { sections = file.sections ++ ((c ∷ cs, []) ∷ []) },
                  )
                ])))) [
                  | some entries ↦ λ e. h
                  | none ↦ λ e. new_section-IsWellFormed file.sections (c ∷ cs) h (λ q. cc) e
                ]
      refl
  where
    snd_of : Progress → Loaded
    snd_of p = p.1

put_entry-IsWellFormed :
    (section key value : List ℕ) (file : Loaded)
    → IsWellFormed file.sections
    → IsWellFormed (put_entry section key value file).sections
unfolding put_entry
put_entry-IsWellFormed section [] value file h = h
put_entry-IsWellFormed section (c ∷ cs) value file h =
    add_entry-IsWellFormed section (c ∷ cs, value) file.sections (λ q. cc) h

-- A result, if there is one, that has the property.
abbrev Loads : Option Loaded → Type 0
Loads none = Unit {0}
Loads (some file) = IsWellFormed file.sections

abbrev Goes : Option Progress → Type 0
Goes none = Unit {0}
Goes (some p) = IsWellFormed p.1.sections

module _ (include : List ℕ → Loaded → Option Loaded)
    (keeps : (t : List ℕ) (file : Loaded)
      → IsWellFormed file.sections
      → Loads (include t file)) where
  handle_line-Goes :
      (l : List ℕ) (last : Option (List ℕ)) (file : Loaded)
      → IsWellFormed file.sections
      → Goes (handle_line include l last file)
  unfolding handle_line other_line
  handle_line-Goes [] last file h = h
  handle_line-Goes (c ∷ cs) last file h =
      elim (is_section (c ∷ cs))
        as (λ b. Goes (
          if b
          then some (open_section (trim_string (without_last cs)) file)
          else elim (entry_of (c ∷ cs) last) [
            | some (section, key, value) ↦
                some (last, put_entry section (trim_string key) (trim_string value) file)
            | none ↦ other_line include c cs last file
          ])) [
            | true ↦ open_section-IsWellFormed (trim_string (without_last cs)) file h
            | false ↦
                elim (entry_of (c ∷ cs) last)
                  as (λ o. Goes (elim o [
                    | some (section, key, value) ↦
                        some (last, put_entry section (trim_string key) (trim_string value) file)
                    | none ↦ other_line include c cs last file
                  ])) [
                    | some (section, key, value) ↦
                        put_entry-IsWellFormed section (trim_string key) (trim_string value) file h
                    | none ↦
                        elim (c == b'@')
                          as (λ b. Goes (
                            if b
                            then elim (include (trim_string cs) file) [
                              | none ↦ none
                              | some file ↦ some (none, file)
                            ]
                            else some (last, file))) [
                              | true ↦
                                  elim (include (trim_string cs) file)
                                      as (λ o.
                                        Loads o
                                        → Goes (elim o [
                                          | none ↦ none
                                          | some file ↦ some (none, file)
                                        ])) [ none ↦ λ q. tt | some file ↦ λ q. q ]
                                    (keeps (trim_string cs) file h)
                              | false ↦ h
                            ]
                  ]
          ]

  load_lines-Loads :
      (ls : List (List ℕ)) (last : Option (List ℕ)) (file : Loaded)
      → IsWellFormed file.sections
      → Loads (load_lines include ls last file)
  unfolding load_lines
  load_lines-Loads [] last file h = h
  load_lines-Loads (l ∷ ls) last file h =
      elim (handle_line include (trim_string (without_comment l)) last file)
          as (λ o.
            Goes o
            → Loads
                (elim o [ none ↦ none | some (last, file) ↦ load_lines include ls last file ])) [
                  | none ↦ λ q. tt
                  | some p ↦ λ q. load_lines-Loads ls p.0 p.1 q
                ]
        (handle_line-Goes (trim_string (without_comment l)) last file h)

stamp-IsWellFormed :
    (disk : Disk) (name : List ℕ) (file : Loaded)
    → IsWellFormed file.sections
    → IsWellFormed (stamp disk name file).sections
unfolding stamp
stamp-IsWellFormed disk name file h =
    elim (disk.mtime name)
      as (λ o. IsWellFormed (
        Loaded.sections (elim o [
          | none ↦ file
          | some time ↦ record file { file_time = time; last_check = disk.now }
        ]))) [ none ↦ h | some time ↦ h ]

load_recursive-Loads :
    (disk : Disk) (fuel : ℕ) (name : List ℕ) (file : Loaded)
    → IsWellFormed file.sections
    → Loads (load_recursive disk fuel name file)
unfolding load_recursive
load_recursive-Loads disk zero name file h = tt
load_recursive-Loads disk (suc fuel) name file h =
    elim (disk.contents name)
      as (λ o. Loads (elim o [
        | none ↦ some file
        | some text ↦ elim (load_lines (load_recursive disk fuel) (lines text) none file) [
          | none ↦ none
          | some file ↦ some (stamp disk name file)
        ]
      ])) [
        | none ↦ h
        | some text ↦
            elim (load_lines (load_recursive disk fuel) (lines text) none file)
                as (λ o.
                  Loads o
                  → Loads (elim o [ none ↦ none | some file ↦ some (stamp disk name file) ])) [
                    | none ↦ λ q. tt
                    | some file ↦ λ q. stamp-IsWellFormed disk name file q
                  ]
              (load_lines-Loads (load_recursive disk fuel)
                (λ t f. load_recursive-Loads disk fuel t f) (lines text) none file h)
      ]

-- Whatever the files hold, the sections that LoadFile leaves are well formed: every section has a name,
-- no two sections have the same, and every entry has a key.
pub load_file-IsWellFormed :
    (disk : Disk) (fuel : ℕ) (name : List ℕ) (file loaded : Loaded)
    → load_file disk fuel name file ≡ some loaded
    → IsWellFormed loaded.sections
unfolding load_file
load_file-IsWellFormed disk fuel name file loaded h =
    subst Loads h (load_recursive-Loads disk fuel name (record file { sections = [] }) tt)
