-- ===== src/ConfFile/Load.antt =====
-- ConfFile::LoadFile, AreFilesModified and CheckFileLoaded. The files, their times and the clock are
-- parameters; a file is its characters after the decoding of UTF-8.
use http2serv.Prelude.{ℕ, zero, suc, ◌-◌, Bool, true, false, ltb, ◌==◌, if◌then◌else◌, bytes_eq}
use http2serv.Prelude.{List, [], ◌∷◌, ◌++◌, Option, none, some}
use http2serv.ConfFile.{Entry, Sections, find_section}
use http2serv.ConfFile.Line.{
  trim_string, without_comment, lines, last_char, without_last, split_at_equals,
}

-- m_mSections, m_tFileTime and m_tLastCheck, in milliseconds.
pub record Loaded : Type 0 where
  pub sections : Sections
  pub file_time : ℕ
  pub last_check : ℕ

-- A new entry of a section.
unfoldable pub add_entry : List ℕ → Entry → Sections → Sections
add_entry name entry [] = []
add_entry name entry ((n, entries) ∷ rest) =
    if bytes_eq n name
    then (n, entries ++ (entry ∷ [])) ∷ rest
    else (n, entries) ∷ add_entry name entry rest

-- LastSection, by its name, and what is loaded.
abbrev pub Progress : Type 0
Progress = Option (List ℕ) × Loaded

-- The line of a section, by the text between its brackets.
unfoldable pub open_section : List ℕ → Loaded → Progress
unfolding find_section
open_section [] file = (none, file)
open_section (c ∷ cs) file = elim (find_section (c ∷ cs) file.sections) [
  | some entries ↦ (none, file)
  | none ↦ (some (c ∷ cs), record file { sections = file.sections ++ ((c ∷ cs, []) ∷ []) })
]

-- The line of an entry, by its key and its value.
unfoldable pub put_entry : List ℕ → List ℕ → List ℕ → Loaded → Loaded
unfolding add_entry
put_entry section [] value file = file
put_entry section (c ∷ cs) value file = record file {
  sections = add_entry section (c ∷ cs, value) file.sections;
}

unfoldable pub is_section : List ℕ → Bool
unfolding last_char
is_section [] = false
is_section (c ∷ cs) = elim (last_char (c ∷ cs)) [
  | none ↦ false
  | some d ↦ if c == b'[' then d == b']' else false
]

-- The text of an entry, if the line has a `=` and a section is open.
unfoldable pub entry_of : List ℕ → Option (List ℕ) → Option (List ℕ × List ℕ × List ℕ)
unfolding split_at_equals
entry_of line last = elim last [
  | none ↦ none
  | some section ↦ elim (split_at_equals line) [
    | none ↦ none
    | some (key, value) ↦ some (section, key, value)
  ]
]

-- The functions that load a file, with the one that loads an included file. `none` is a recursion that
-- does not end.
module _ (include : List ℕ → Loaded → Option Loaded) where
  unfoldable pub other_line : ℕ → List ℕ → Option (List ℕ) → Loaded → Option Progress
  unfolding trim_string
  other_line c cs last file =
      if c == b'@'
      then elim (include (trim_string cs) file) [ none ↦ none | some file ↦ some (none, file) ]
      else some (last, file)

  unfoldable pub handle_line : List ℕ → Option (List ℕ) → Loaded → Option Progress
  unfolding trim_string is_section without_last open_section entry_of put_entry other_line
  handle_line [] last file = some (last, file)
  handle_line (c ∷ cs) last file =
      if is_section (c ∷ cs)
      then some (open_section (trim_string (without_last cs)) file)
      else elim (entry_of (c ∷ cs) last) [
        | some (section, key, value) ↦
            some (last, put_entry section (trim_string key) (trim_string value) file)
        | none ↦ other_line c cs last file
      ]

  unfoldable pub load_lines : List (List ℕ) → Option (List ℕ) → Loaded → Option Loaded
  unfolding trim_string without_comment handle_line
  load_lines [] last file = some file
  load_lines (l ∷ ls) last file = elim (handle_line (trim_string (without_comment l)) last file) [
    | none ↦ none
    | some (last, file) ↦ load_lines ls last file
  ]

-- The files by their names, the times of their last change, and the clock.
pub record Disk : Type 0 where
  pub contents : List ℕ → Option (List ℕ)
  pub mtime : List ℕ → Option ℕ
  pub now : ℕ

unfoldable pub stamp : Disk → List ℕ → Loaded → Loaded
stamp disk name file = elim (disk.mtime name) [
  | none ↦ file
  | some time ↦ record file { file_time = time; last_check = disk.now }
]

-- fnLoadFileRecursive, with the depth of the recursion as its fuel.
unfoldable pub load_recursive : Disk → ℕ → List ℕ → Loaded → Option Loaded
unfolding lines load_lines stamp
load_recursive disk zero name file = none
load_recursive disk (suc fuel) name file = elim (disk.contents name) [
  | none ↦ some file
  | some text ↦ elim (load_lines (load_recursive disk fuel) (lines text) none file) [
    | none ↦ none
    | some file ↦ some (stamp disk name file)
  ]
]

unfoldable pub load_file : Disk → ℕ → List ℕ → Loaded → Option Loaded
unfolding load_recursive
load_file disk fuel name file = load_recursive disk fuel name (record file { sections = [] })

-- AreFilesModified: the answer and the new state.
unfoldable pub are_files_modified : Disk → List ℕ → Loaded → Bool × Loaded
are_files_modified disk name file =
    if file.file_time == 0
    then (true, file)
    else if ltb (disk.now - file.last_check) 1000
    then (false, file)
    else elim (disk.mtime name) [
      | none ↦ (true, file)
      | some time ↦
          if time == file.file_time
          then (false, record file { last_check = disk.now })
          else (true, file)
    ]

unfoldable pub check_file_loaded : Disk → ℕ → List ℕ → Loaded → Option Loaded
unfolding are_files_modified load_file
check_file_loaded disk fuel name file = elim file.sections [
  | [] ↦ load_file disk fuel name file
  | s ∷ ss ↦
      let checked = are_files_modified disk name file in
      if checked.0 then load_file disk fuel name checked.1 else some checked.1
]
