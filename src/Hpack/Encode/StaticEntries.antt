-- ===== src/Hpack/Encode/StaticEntries.antt =====
-- The static list, checked entry by entry: an entry is found under its index, and its name is in lower
-- case.
use http2serv.Prelude.{ℕ, ◌≤◌, ◌≡◌, refl, arith, map}
use http2serv.Prelude.{Bool, true, false, leb, ◌&&◌, ◌||◌, Bool-cases, inl, inr}
use http2serv.Prelude.{List, [], ◌∷◌, Option, some, none, bytes_eq, bytes_eq→eq, &&-parts}
use http2serv.Prelude.{leb→le, ◌⊎◌}
use http2serv.Hpack.StaticTable.{HeaderEntry, static_header_list}
use http2serv.Hpack.HeadList.{to_lower}
use http2serv.Hpack.Header.{table_entry}
use http2serv.Hpack.Encode.{static_match, same_ignoring_case}

same_entry : HeaderEntry → Option HeaderEntry → Bool
same_entry e none = false
same_entry e (some f) = bytes_eq f.name e.name && bytes_eq f.value e.value

entry_row : HeaderEntry → Bool
entry_row e =
    same_entry e (table_entry [] e.index)
    && (leb 1 e.index && (leb e.index 61 && bytes_eq (map to_lower e.name) e.name))

all_rows : List HeaderEntry → Bool
all_rows [] = true
all_rows (e ∷ es) = entry_row e && all_rows es

static_rows : all_rows static_header_list ≡ true
unfolding all_rows entry_row same_entry static_header_list table_entry bytes_eq to_lower
static_rows = refl

pub record IsEntry (e : HeaderEntry) : Type 0 where
  pub found : HeaderEntry
  pub at_index : table_entry [] e.index ≡ some found
  pub same_name : found.name ≡ e.name
  pub same_value : found.value ≡ e.value
  pub lower_bound : 1 ≤ e.index
  pub upper_bound : e.index ≤ 61
  pub lower_case : map to_lower e.name ≡ e.name

same_entry-found :
    (e : HeaderEntry) (o : Option HeaderEntry)
    → same_entry e o ≡ true
    → (f : HeaderEntry) × (o ≡ some f) × (f.name ≡ e.name) × (f.value ≡ e.value)
unfolding same_entry
same_entry-found e none h = cc
same_entry-found e (some f) h =
    let (n, v) = &&-parts (bytes_eq f.name e.name) (bytes_eq f.value e.value) h in
    (f, refl, bytes_eq→eq _ _ n, bytes_eq→eq _ _ v)

entry_row-IsEntry : (e : HeaderEntry) → entry_row e ≡ true → IsEntry e
unfolding entry_row
entry_row-IsEntry e h =
    let (a, r) = &&-parts (same_entry e (table_entry [] e.index)) _ h in
    let (b, r') = &&-parts (leb 1 e.index) _ r in
    let (c, d) = &&-parts (leb e.index 61) _ r' in
    let (f, at, n, v) = same_entry-found e (table_entry [] e.index) a in
    record {
      found = f;
      at_index = at;
      same_name = n;
      same_value = v;
      lower_bound = leb→le 1 e.index b;
      upper_bound = leb→le e.index 61 c;
      lower_case = bytes_eq→eq _ _ d;
    }

-- A match is an entry of the list, with the name and with an empty value or the one looked for.
pub record IsMatch (e : HeaderEntry) (name value : List ℕ) : Type 0 where
  pub entry : IsEntry e
  pub names : map to_lower e.name ≡ map to_lower name
  pub values : (e.value ≡ []) ⊎ (e.value ≡ value)

either_value :
    (v value : List ℕ) → (bytes_eq v [] || bytes_eq v value) ≡ true → (v ≡ []) ⊎ (v ≡ value)
either_value v value h = elim (Bool-cases (bytes_eq v [])) [
  | inl e ↦ inl (bytes_eq→eq _ _ e)
  | inr e ↦ inr (bytes_eq→eq _ _ (rw e at h))
]

static_match-IsMatch :
    (es : List HeaderEntry) (name value : List ℕ) (e : HeaderEntry)
    → all_rows es ≡ true
    → static_match es name value ≡ some e
    → IsMatch e name value
unfolding all_rows static_match same_ignoring_case
static_match-IsMatch [] name value e a h = cc
static_match-IsMatch (f ∷ es) name value e a h =
    let (row, rows) = &&-parts (entry_row f) (all_rows es) a in
    elim (Bool-cases
      (same_ignoring_case f.name name && (bytes_eq f.value [] || bytes_eq f.value value))) [
        | inl hit ↦
            (let (n, v) = &&-parts (same_ignoring_case f.name name) _ hit in
              let here : f ≡ e = ground (arith, hit) in
              rw (← here) (record {
                entry = entry_row-IsEntry f row;
                names = bytes_eq→eq _ _ n;
                values = either_value f.value value v;
              }))
        | inr miss ↦ static_match-IsMatch es name value e rows (rw miss at h)
      ]

pub static_header_list-IsMatch :
    (name value : List ℕ) (e : HeaderEntry)
    → static_match static_header_list name value ≡ some e
    → IsMatch e name value
static_header_list-IsMatch name value e h =
    static_match-IsMatch static_header_list name value e static_rows h

-- The indices of the static list do not reach into the dynamic table.
pub table_entry-static :
    (table : List HeaderEntry) (i : ℕ) → i ≤ 61 → table_entry table i ≡ table_entry [] i
unfolding table_entry
table_entry-static table i h = ground arith
