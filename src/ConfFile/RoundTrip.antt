-- ===== src/ConfFile/RoundTrip.antt =====
-- LoadFile on a printed configuration.
use http2serv.Prelude.{ℕ, suc, ◌≡◌, ◌≢◌, refl, sym, ap, ◌∙◌, true, false, ◌==◌, if◌then◌else◌}
use http2serv.Prelude.{List, [], ◌∷◌, ◌++◌, Option, none, some, All}
use mathlib.Core.List.{append_assoc, append-nil}
use http2serv.ConfFile.{Entry, Sections, find_section}
use http2serv.ConfFile.Line.{trim_string, without_comment, lines, last_char, without_last}
use http2serv.ConfFile.Load.{
  Loaded, add_entry, open_section, put_entry, is_section, entry_of, other_line, handle_line,
  load_lines, Disk, stamp, load_recursive, load_file,
}
use http2serv.ConfFile.Printed.{
  print_entries, print, IsPlain, IsEntry, lines-append, last_char-append, without_last-append,
  split_at_equals-append, trim_string-plain, section_line-IsPlain, entry_line-IsPlain, clean_line,
}
use http2serv.ConfFile.Tables.{add_entry-append, NoneFound, NoneFound-append}

abbrev pub IsConfig : Sections → Type 0
IsConfig [] = Unit {0}
IsConfig ((n, es) ∷ rest) =
    (n ≢ []) × IsPlain n × All IsEntry es × (find_section n rest ≡ none) × IsConfig rest

abbrev with_sections : Loaded → Sections → Loaded
with_sections file s = record file { sections = s }

not_section : (c : ℕ) (cs : List ℕ) → (c == b'[') ≡ false → is_section (c ∷ cs) ≡ false
unfolding is_section
not_section c cs h =
    elim (last_char (c ∷ cs))
      as (λ o.
        (elim o [ none ↦ false | some d ↦ if c == b'[' then d == b']' else false ]) ≡ false) [
          | none ↦ refl
          | some d ↦ rw h refl
        ]

section_line : (n : List ℕ) → is_section (b'[' ∷ (n ++ (b']' ∷ []))) ≡ true
unfolding is_section
section_line n =
    ap (λ o. elim o [ none ↦ false | some d ↦ if b'[' == b'[' then d == b']' else false ])
      (last_char-append (b'[' ∷ n) b']')

module _ (include : List ℕ → Loaded → Option Loaded) where
  load_line :
      (l : List ℕ) (ls : List (List ℕ)) (last next : Option (List ℕ)) (file after : Loaded)
      → handle_line include (trim_string (without_comment l)) last file ≡ some (next, after)
      → load_lines include (l ∷ ls) last file ≡ load_lines include ls next after
  unfolding load_lines
  load_line l ls last next file after h =
      ap (λ o. elim o [ none ↦ none | some (last, file) ↦ load_lines include ls last file ]) h

  open_fresh :
      (n : List ℕ) (file : Loaded)
      → n ≢ []
      → find_section n file.sections ≡ none
      → open_section n file ≡ (some n, with_sections file (file.sections ++ ((n, []) ∷ [])))
  unfolding open_section
  open_fresh [] file h k = absurd (h refl)
  open_fresh (c ∷ cs) file h k =
      ap
        (λ o. elim o [
          | some entries ↦ (none, file)
          | none ↦ (some (c ∷ cs), record file { sections = file.sections ++ ((c ∷ cs, []) ∷ []) })
        ])
        k

  handle_section :
      (n : List ℕ) (last : Option (List ℕ)) (file : Loaded)
      → n ≢ []
      → IsPlain n
      → find_section n file.sections ≡ none
      → handle_line include (b'[' ∷ (n ++ (b']' ∷ []))) last file
        ≡ some (some n, with_sections file (file.sections ++ ((n, []) ∷ [])))
  unfolding handle_line
  handle_section n last file h p k =
      ap
        (λ b.
          if b
          then some (open_section (trim_string (without_last (n ++ (b']' ∷ [])))) file)
          else elim (entry_of (b'[' ∷ (n ++ (b']' ∷ []))) last) [
            | some (section, key, value) ↦
                some (last, put_entry section (trim_string key) (trim_string value) file)
            | none ↦ other_line include b'[' (n ++ (b']' ∷ [])) last file
          ])
        (section_line n)
      ∙ ap (λ t. some (open_section t file))
          (ap trim_string (without_last-append n b']') ∙ trim_string-plain n p)
      ∙ ap some (open_fresh n file h k)

  handle_entry :
      (n : List ℕ) (e : Entry) (file : Loaded)
      → IsEntry e
      → handle_line include (e.0 ++ (b'=' ∷ e.1)) (some n) file
        ≡ some (some n, with_sections file (add_entry n e file.sections))
  unfolding handle_line entry_of put_entry
  handle_entry n ([], v) file h = absurd (h.0 refl)
  handle_entry n ((c ∷ cs), v) file h =
      rw
        (
          not_section c (cs ++ (b'=' ∷ v)) h.4,
          split_at_equals-append (c ∷ cs) v h.3,
          trim_string-plain (c ∷ cs) h.1,
          trim_string-plain v h.2,
        )
        refl

  entries_read :
      (n : List ℕ) (es before : List Entry) (done : Sections) (rest : List ℕ) (file : Loaded)
      → All IsEntry es
      → find_section n done ≡ none
      → load_lines include
          (lines (print_entries es rest))
          (some n)
          (with_sections file (done ++ ((n, before) ∷ [])))
        ≡ load_lines include
            (lines rest)
            (some n)
            (with_sections file (done ++ ((n, before ++ es) ∷ [])))
  entries_read n [] before done rest file h k =
      ap
        (λ b. load_lines include (lines rest) (some n) (with_sections file (done ++ ((n, b) ∷ []))))
        (sym (append-nil before))
  entries_read n (e ∷ es) before done rest file h k =
      let l = e.0 ++ (b'=' ∷ e.1) in
      let plain = entry_line-IsPlain e h.0 in
      let tail = print_entries es rest in
      let old = with_sections file (done ++ ((n, before) ∷ [])) in
      ap (λ ls. load_lines include ls (some n) old)
        (ap lines (sym (append_assoc e.0 (b'=' ∷ e.1) (10 ∷ tail))) ∙ lines-append l tail plain.0)
      ∙ load_line l (lines tail) (some n) (some n) old _ (
          ap (λ t. handle_line include t (some n) old) (clean_line l plain)
          ∙ handle_entry n e old h.0)
      ∙ ap (λ s. load_lines include (lines tail) (some n) (with_sections file s))
          (add_entry-append n done before e k)
      ∙ entries_read n es (before ++ (e ∷ [])) done rest file h.1 k
      ∙ ap
          (λ b.
            load_lines include (lines rest) (some n) (with_sections file (done ++ ((n, b) ∷ []))))
          (append_assoc before (e ∷ []) es)

  sections_read :
      (config done : Sections) (last : Option (List ℕ)) (file : Loaded)
      → IsConfig config
      → NoneFound done config
      → load_lines include (lines (print config)) last (with_sections file done)
        ≡ some (with_sections file (done ++ config))
  unfolding load_lines lines handle_line
  sections_read [] done last file h k =
      ap (λ s. some (with_sections file s)) (sym (append-nil done))
  sections_read ((n, es) ∷ rest) done last file h k =
      let l = b'[' ∷ (n ++ (b']' ∷ [])) in
      let plain = section_line-IsPlain n h.1 in
      let tail = print_entries es (print rest) in
      let old = with_sections file done in
      ap (λ ls. load_lines include ls last old)
        (ap lines (sym (append_assoc (b'[' ∷ n) (b']' ∷ []) (10 ∷ tail)))
          ∙ lines-append l tail plain.0)
      ∙ load_line l (lines tail) last (some n) old _ (
          ap (λ t. handle_line include t last old) (clean_line l plain)
          ∙ handle_section n last old h.0 h.1 k.0)
      ∙ entries_read n es [] done (print rest) file h.2 k.0
      ∙ sections_read rest (done ++ ((n, es) ∷ [])) (some n) file h.4
          (NoneFound-append done rest n es k.1 h.3)
      ∙ ap (λ s. some (with_sections file s)) (append_assoc done ((n, es) ∷ []) rest)

all_fresh : (config : Sections) → NoneFound [] config
unfolding find_section
all_fresh [] = tt
all_fresh (s ∷ rest) = (refl, all_fresh rest)

stamp-sections :
    (disk : Disk) (name : List ℕ) (file : Loaded) → (stamp disk name file).sections ≡ file.sections
unfolding stamp
stamp-sections disk name file =
    elim (disk.mtime name)
      as (λ o.
        Loaded.sections (elim o [
          | none ↦ file
          | some time ↦ record file { file_time = time; last_check = disk.now }
        ])
        ≡ file.sections) [ none ↦ refl | some time ↦ refl ]

-- LoadFile reads the sections and entries back from the file that a configuration was printed to: a
-- header in brackets for each section and a line with `=` for each of its entries. The names of the
-- sections differ, names and keys are not empty, no text has a blank at an end or one of the characters
-- that end a line or begin a comment, and a key has no `=` and does not begin with a bracket.
pub load_file-print :
    (disk : Disk) (fuel : ℕ) (name : List ℕ) (file : Loaded) (config : Sections)
    → IsConfig config
    → disk.contents name ≡ some (print config)
    → (loaded : Loaded) × (load_file disk (suc fuel) name file ≡ some loaded)
      × (loaded.sections ≡ config)
unfolding load_file load_recursive
load_file-print disk fuel name file config h there = (
  stamp disk name (with_sections file config),
  ap
        (λ o. elim o [
          | none ↦ some (with_sections file [])
          | some text ↦
              elim (load_lines (load_recursive disk fuel) (lines text) none
                (with_sections file [])) [ none ↦ none | some file ↦ some (stamp disk name file) ]
        ])
        there
      ∙ ap (λ o. elim o [ none ↦ none | some file ↦ some (stamp disk name file) ])
          (sections_read (load_recursive disk fuel) config [] none file h (all_fresh config)),
  stamp-sections disk name (with_sections file config),
)
