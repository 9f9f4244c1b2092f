-- ===== src/ConfFile/Lookup.antt =====
-- What getUnique returns.
use http2serv.Prelude.{ℕ, ◌≡◌, ◌≢◌, refl, sym, ap, ◌∙◌}
use http2serv.Prelude.{List, [], ◌∷◌, ◌++◌, none, some}
use mathlib.Core.Path.{subst}
use mathlib.Core.List.{Mem, Perm, mem-cons_self, mem-cons_of_mem, not-mem-nil}
use mathlib.Core.List.Perm
use http2serv.ConfFile.{Entry, Sections, find_section, values_of, last_or_empty, get_unique}

last_or_empty-Mem : (vs : List (List ℕ)) → vs ≢ [] → Mem (last_or_empty vs) vs
unfolding last_or_empty
last_or_empty-Mem [] h = absurd (h refl)
last_or_empty-Mem (v ∷ []) h = mem-cons_self
last_or_empty-Mem (v ∷ w ∷ rest) h = mem-cons_of_mem v (last_or_empty-Mem (w ∷ rest) (λ e. cc))

not_empty : (vs ws : List (List ℕ)) → Perm ws vs → vs ≢ [] → ws ≢ []
not_empty [] ws p h e = h refl
not_empty (v ∷ vs) ws p h e = not-mem-nil (subst (Mem v) e ((Perm.mem_iff p).1 mem-cons_self))

last_or_empty-IsLast :
    (vs : List (List ℕ))
    → vs ≢ []
    → (front : List (List ℕ)) × (vs ≡ front ++ (last_or_empty vs ∷ []))
unfolding last_or_empty
last_or_empty-IsLast [] h = absurd (h refl)
last_or_empty-IsLast (v ∷ []) h = ([], refl)
last_or_empty-IsLast (v ∷ w ∷ rest) h =
    let (front, e) = last_or_empty-IsLast (w ∷ rest) (λ q. cc) in (v ∷ front, ap (λ l. v ∷ l) e)

-- If equal_range has the values of a key in some order, and the section has one, getUnique returns the
-- value that equal_range has last, which is one of the section's values for the key.
pub get_unique-Mem :
    (equal_range : List (List ℕ) → List (List ℕ))
    → ((vs : List (List ℕ)) → Perm (equal_range vs) vs)
    → (sections : Sections) (name key : List ℕ) (entries : List Entry)
    → find_section name sections ≡ some entries
    → values_of key entries ≢ []
    → Mem (get_unique equal_range sections name key) (values_of key entries)
      × (front : List (List ℕ)) × (equal_range (values_of key entries)
          ≡ front ++ (get_unique equal_range sections name key ∷ []))
unfolding get_unique
get_unique-Mem equal_range perm sections name key entries there some_value =
    let vs = values_of key entries in
    let found : get_unique equal_range sections name key ≡ last_or_empty (equal_range vs) =
      ap
        (λ o. elim o [
          | none ↦ []
          | some entries ↦ last_or_empty (equal_range (values_of key entries))
        ])
        there in
    let some_left = not_empty vs (equal_range vs) (perm vs) some_value in
    let (front, e) = last_or_empty-IsLast (equal_range vs) some_left in
    (
      subst (λ v. Mem v vs) (sym found)
          ((Perm.mem_iff (perm vs)).0 (last_or_empty-Mem (equal_range vs) some_left)),
      front,
      e ∙ ap (λ v. front ++ (v ∷ [])) (sym found),
    )
