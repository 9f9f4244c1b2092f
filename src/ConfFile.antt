-- ===== src/ConfFile.antt =====
-- The class ConfFile of ConfFile.h and ConfFile.cpp: the sections of a configuration file. A wstring is
-- the list of its characters. The order of the unordered maps is that of the insertion here, and a
-- parameter where a result depends on it.
use http2serv.Prelude.{ℕ, Bool, true, false, not, ◌==◌, ◌||◌, ◌&&◌, if◌then◌else◌, bytes_eq}
use http2serv.Prelude.{List, [], ◌∷◌, ◌++◌, Option, none, some, map}
pub mod Line
pub mod Load
pub mod Printed
pub mod Tables
pub mod RoundTrip
pub mod Termination
pub mod Reload
pub mod Lookup
pub mod WellFormed

-- An entry of a section: the key and the value.
abbrev pub Entry : Type 0
Entry = List ℕ × List ℕ

-- m_mSections: the entries of each section.
abbrev pub Sections : Type 0
Sections = List (List ℕ × List Entry)

unfoldable pub find_section : List ℕ → Sections → Option (List Entry)
find_section name [] = none
find_section name ((n, entries) ∷ rest) =
    if bytes_eq n name then some entries else find_section name rest

-- The values of a key, in the order of the insertion.
unfoldable pub values_of : List ℕ → List Entry → List (List ℕ)
values_of key [] = []
values_of key ((k, v) ∷ rest) =
    let more = values_of key rest in if bytes_eq k key then v ∷ more else more

unfoldable pub is_among : List ℕ → List (List ℕ) → Bool
is_among x [] = false
is_among x (y ∷ ys) = bytes_eq y x || is_among x ys

-- The names of the sections: get().
unfoldable pub get_sections : Sections → List (List ℕ)
get_sections = map (λ s. s.0)

-- Every key once.
unfoldable pub keys_once : List (List ℕ) → List Entry → List (List ℕ)
unfolding is_among
keys_once seen [] = seen
keys_once seen ((k, v) ∷ rest) = keys_once (if is_among k seen then seen else seen ++ (k ∷ [])) rest

-- get(strSektion): the keys of a section.
unfoldable pub get_keys : Sections → List ℕ → List (List ℕ)
unfolding find_section keys_once
get_keys sections name = elim (find_section name sections) [
  | none ↦ []
  | some entries ↦ keys_once [] entries
]

-- The entry that the loop in getUnique stops at: the last of the range.
unfoldable pub last_or_empty : List (List ℕ) → List ℕ
last_or_empty [] = []
last_or_empty (v ∷ []) = v
last_or_empty (v ∷ w ∷ rest) = last_or_empty (w ∷ rest)

-- The order of the values of one key in equal_range, as the standard library chooses it.
module _ (equal_range : List (List ℕ) → List (List ℕ)) where
  -- get(strSektion, strValue): the values of a key.
  unfoldable pub get_values : Sections → List ℕ → List ℕ → List (List ℕ)
  unfolding find_section values_of
  get_values sections name key = elim (find_section name sections) [
    | none ↦ []
    | some entries ↦ equal_range (values_of key entries)
  ]

  unfoldable pub get_unique : Sections → List ℕ → List ℕ → List ℕ
  unfolding find_section values_of last_or_empty
  get_unique sections name key = elim (find_section name sections) [
    | none ↦ []
    | some entries ↦ last_or_empty (equal_range (values_of key entries))
  ]
