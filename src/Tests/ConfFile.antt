-- ===== src/Tests/ConfFile.antt =====
-- Runs of the configuration file.
use http2serv.Prelude.{ℕ, ◌≡◌, ◌≢◌, refl, arith, codes, true, false, if◌then◌else◌, ◌⊎◌}
use http2serv.Prelude.{List, [], ◌∷◌, ◌++◌, Option, none, some, All, bytes_eq}
use mathlib.Core.List.{Mem, reverse, reverse_perm}
use mathlib.Core.Path.{subst}
use http2serv.ConfFile.{Entry, Sections, find_section, values_of, get_unique}
use http2serv.ConfFile.Line.{lines, trim_string, without_comment}
use http2serv.ConfFile.Load.{Loaded, Disk, load_recursive, load_file, check_file_loaded}
use http2serv.ConfFile.Printed.{print, IsPlain, IsEntry}
use http2serv.ConfFile.RoundTrip.{IsConfig, load_file-print}
use http2serv.ConfFile.Termination.{LineFalls, load_recursive-total}
use http2serv.ConfFile.Reload.{IsCached, IsCurrent, check_file_loaded-answers}
use http2serv.ConfFile.Lookup.{get_unique-Mem}
use http2serv.ConfFile.WellFormed.{IsWellFormed, load_file-IsWellFormed}

abbrev common : List ℕ
common = codes "common"

abbrev port : List ℕ
port = codes "Port"

abbrev config : Sections
config = (common, (port, codes "80") ∷ (port, codes "443") ∷ []) ∷ []

abbrev nothing_loaded : Loaded
nothing_loaded = record { sections = []; file_time = 0; last_check = 0 }

abbrev main_file : List ℕ
main_file = codes "serv.cfg"

abbrev printed_disk : Disk
printed_disk = record { contents = λ name. some (print config); mtime = λ name. some 7; now = 5000 }

trimmed : trim_string (codes "  a b \t") ≡ codes "a b"
unfolding trim_string
trimmed = refl

-- Comments, blanks, and an entry in front of the first section.
abbrev written_disk : Disk
written_disk = record printed_disk {
  contents = λ name. some (codes "x = 1\n[ common ] # all\nPort = 80 ; one\n\nPort=443");
}

written :
    load_file written_disk 1 main_file nothing_loaded
    ≡ some (record { sections = config; file_time = 7; last_check = 5000 })
unfolding load_file bytes_eq
written = refl

-- The second header of a section discards the entries behind it.
abbrev twice_disk : Disk
twice_disk = record printed_disk { contents = λ name. some (codes "[a]\n[b]\n[a]\nk=v") }

twice :
    load_file twice_disk 1 main_file nothing_loaded
    ≡ some (record {
      sections = (codes "a", []) ∷ (codes "b", []) ∷ [];
      file_time = 7;
      last_check = 5000;
    })
unfolding load_file bytes_eq
twice = refl

-- A file that includes itself.
abbrev loop_disk : Disk
loop_disk = record printed_disk { contents = λ name. some (codes "@serv.cfg") }

loops : load_file loop_disk 20 main_file nothing_loaded ≡ none
unfolding load_file
loops = refl

common-IsPlain : IsPlain common
unfolding http2serv.ConfFile.Line.ends_line http2serv.ConfFile.Line.trim_right
    http2serv.ConfFile.Line.is_blank
common-IsPlain = ((refl, (refl, (refl, (refl, (refl, (refl, tt)))))), refl, refl)

port-IsEntry : (v : List ℕ) → IsPlain v → IsEntry (port, v)
unfolding http2serv.ConfFile.Line.ends_line http2serv.ConfFile.Line.trim_right
    http2serv.ConfFile.Line.is_blank
port-IsEntry v h = (
  λ e. cc,
  ((refl, (refl, (refl, (refl, tt)))), refl, refl),
  h,
  (refl, (refl, (refl, (refl, tt)))),
  refl,
)

config-IsConfig : IsConfig config
unfolding http2serv.ConfFile.Line.ends_line http2serv.ConfFile.Line.trim_right
    http2serv.ConfFile.Line.is_blank find_section
config-IsConfig = (
  λ e. cc,
  common-IsPlain,
  (
    port-IsEntry (codes "80") ((refl, (refl, tt)), refl, refl),
    (port-IsEntry (codes "443") ((refl, (refl, (refl, tt))), refl, refl), tt),
  ),
  refl,
  tt,
)

load_file-print_example :
    (loaded : Loaded) × (load_file printed_disk 1 main_file nothing_loaded ≡ some loaded)
    × (loaded.sections ≡ config)
load_file-print_example =
    load_file-print printed_disk 0 main_file nothing_loaded config config-IsConfig refl

load_file-IsWellFormed_example : IsWellFormed ((codes "a", []) ∷ (codes "b", []) ∷ [])
load_file-IsWellFormed_example =
    load_file-IsWellFormed twice_disk 1 main_file nothing_loaded _ twice

-- A file that includes another, by ranks.
abbrev more_disk : Disk
more_disk = record printed_disk {
  contents = λ name. if bytes_eq name main_file then some (codes "@more") else none;
}

abbrev rank : List ℕ → ℕ
rank name = if bytes_eq name main_file then 1 else 0

BelowRank : ℕ → Option (List ℕ) → Type 0
BelowRank r none = Unit
BelowRank r (some text) = All (LineFalls rank r) (lines text)

more_ranked :
    (name text : List ℕ)
    → more_disk.contents name ≡ some text
    → All (LineFalls rank (rank name)) (lines text)
unfolding BelowRank lines trim_string without_comment bytes_eq
more_ranked name text =
    elim (bytes_eq name main_file)
      as (λ b.
        (if b then some (codes "@more") else none) ≡ some text
        → All (LineFalls rank (if b then 1 else 0)) (lines text)) [
          | true ↦ λ e. subst (BelowRank 1) e ((λ q. omega arith), tt)
          | false ↦ λ e. cc
        ]

load_recursive-total_example :
    (loaded : Loaded) × (load_recursive more_disk 2 main_file nothing_loaded ≡ some loaded)
unfolding bytes_eq
load_recursive-total_example =
    load_recursive-total more_disk rank more_ranked 2 main_file nothing_loaded (omega arith)

abbrev some_loaded : Loaded
some_loaded = record { sections = config; file_time = 7; last_check = 4500 }

check_file_loaded-answers_example :
    ((¬ ((some_loaded.sections ≢ []) × IsCurrent printed_disk main_file some_loaded))
      × (check_file_loaded printed_disk 1 main_file some_loaded
          ≡ load_file printed_disk 1 main_file some_loaded))
    ⊎ ((some_loaded.sections ≢ [])
        × IsCurrent printed_disk main_file some_loaded
        × (after : Loaded) × (check_file_loaded printed_disk 1 main_file some_loaded ≡ some after)
        × IsCached printed_disk main_file some_loaded after)
check_file_loaded-answers_example = check_file_loaded-answers printed_disk 1 main_file some_loaded

get_unique-Mem_example :
    Mem
      (get_unique reverse config common port)
      (values_of port ((port, codes "80") ∷ (port, codes "443") ∷ []))
    × (front : List (List ℕ)) × (reverse
          (values_of port ((port, codes "80") ∷ (port, codes "443") ∷ []))
        ≡ front ++ (get_unique reverse config common port ∷ []))
unfolding find_section values_of bytes_eq
get_unique-Mem_example =
    get_unique-Mem reverse reverse_perm config common port
      ((port, codes "80") ∷ (port, codes "443") ∷ []) refl (λ e. cc)
