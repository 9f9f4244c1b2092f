-- ===== src/HttpServ/Request/Text.antt =====
-- Lines and words: what the text functions of OnDataReceived find in a text put together from them.
use http2serv.Prelude.{ℕ, ◌≡◌, refl, ap, false, ◌==◌, some, List, [], ◌∷◌, ◌++◌, All}
use http2serv.HttpServ.Request.{starts_with, end_of_header, put_front, lines_of, tokens_of}

-- A text without the character.
abbrev pub Lacks : ℕ → List ℕ → Type 0
Lacks c text = All (λ d. (d == c) ≡ false) text

-- A line has a character, and no carriage return.
abbrev pub IsLine : List ℕ → Type 0
IsLine [] = ⊥
IsLine (c ∷ cs) = Lacks 13 (c ∷ cs)

-- The lines with their ends, and the empty line.
unfoldable pub print_lines : List (List ℕ) → List ℕ
print_lines [] = 13 ∷ 10 ∷ []
print_lines (l ∷ ls) = l ++ (13 ∷ 10 ∷ print_lines ls)

unfoldable pub joined : List ℕ → List (List ℕ) → List ℕ
joined l [] = l
joined l (m ∷ ls) = l ++ (13 ∷ 10 ∷ joined m ls)

pub end_of_header_passes :
    (c : ℕ) (cs head body : List ℕ)
    → starts_with (13 ∷ 10 ∷ 13 ∷ 10 ∷ []) (c ∷ cs) ≡ false
    → end_of_header cs ≡ some (head, body)
    → end_of_header (c ∷ cs) ≡ some (c ∷ head, body)
unfolding end_of_header
end_of_header_passes c cs head body e k = rw (e, k) refl

pub end_of_header-print :
    (l : List ℕ) (ls : List (List ℕ)) (body : List ℕ)
    → Lacks 13 l
    → All IsLine ls
    → end_of_header ((l ++ (13 ∷ 10 ∷ print_lines ls)) ++ body) ≡ some (joined l ls, body)
unfolding end_of_header starts_with print_lines joined
end_of_header-print (c ∷ cs) [] body h k = rw (h.0, end_of_header-print cs [] body h.1 k) refl
end_of_header-print (c ∷ cs) (m ∷ ls) body h k =
    rw (h.0, end_of_header-print cs (m ∷ ls) body h.1 k) refl
end_of_header-print [] [] body h k = refl
end_of_header-print [] ((c ∷ cs) ∷ ls) body h k =
    let rest = ((c ∷ cs) ++ (13 ∷ 10 ∷ print_lines ls)) ++ body in
    let found = end_of_header-print (c ∷ cs) ls body k.0 k.1 in
    end_of_header_passes 13 (10 ∷ rest) (10 ∷ joined (c ∷ cs) ls) body (rw (k.0.0) refl)
      (end_of_header_passes 10 rest (joined (c ∷ cs) ls) body refl found)
end_of_header-print [] ([] ∷ ls) body h k = elim k.0 [ ]

pub lines_of_passes :
    (c d : ℕ) (ds : List ℕ) (ls : List (List ℕ))
    → (c == 13) ≡ false
    → lines_of (d ∷ ds) ≡ ls
    → lines_of (c ∷ d ∷ ds) ≡ put_front c ls
unfolding lines_of
lines_of_passes c d ds ls e k = rw (e, k) refl

pub lines_of-joined :
    (l : List ℕ) (ls : List (List ℕ)) → Lacks 13 l → All IsLine ls → lines_of (joined l ls) ≡ l ∷ ls
unfolding lines_of joined put_front
lines_of-joined [] [] h k = refl
lines_of-joined (c ∷ []) [] h k = refl
lines_of-joined (c ∷ d ∷ ds) [] h k = rw (h.0, lines_of-joined (d ∷ ds) [] h.1 k) refl
lines_of-joined [] ([] ∷ ls) h k = elim k.0 [ ]
lines_of-joined [] ((c ∷ cs) ∷ []) h k = ap (λ l. [] ∷ l) (lines_of-joined (c ∷ cs) [] k.0 k.1)
lines_of-joined [] ((c ∷ cs) ∷ m ∷ ls) h k =
    ap (λ l. [] ∷ l) (lines_of-joined (c ∷ cs) (m ∷ ls) k.0 k.1)
lines_of-joined (c ∷ []) (m ∷ ls) h k =
    lines_of_passes c 13 (10 ∷ joined m ls) ([] ∷ m ∷ ls) h.0 (lines_of-joined [] (m ∷ ls) tt k)
lines_of-joined (c ∷ d ∷ ds) (m ∷ ls) h k = rw (h.0, lines_of-joined (d ∷ ds) (m ∷ ls) h.1 k) refl

pub tokens_of-append :
    (t : List ℕ) (d : ℕ) (ds : List ℕ)
    → Lacks 32 t
    → tokens_of (t ++ (32 ∷ d ∷ ds)) ≡ t ∷ tokens_of (d ∷ ds)
unfolding tokens_of put_front
tokens_of-append [] d ds h = refl
tokens_of-append (c ∷ cs) d ds h = rw (h.0, tokens_of-append cs d ds h.1) refl

pub tokens_of_one : (t : List ℕ) → Lacks 32 t → tokens_of t ≡ t ∷ []
unfolding tokens_of put_front
tokens_of_one [] h = refl
tokens_of_one (c ∷ cs) h = rw (h.0, tokens_of_one cs h.1) refl

pub IsLine-Lacks : (t : List ℕ) → IsLine t → Lacks 13 t
IsLine-Lacks [] h = tt
IsLine-Lacks (c ∷ cs) h = h

pub Lacks-append : (xs ys : List ℕ) → Lacks 13 xs → Lacks 13 ys → Lacks 13 (xs ++ ys)
Lacks-append [] ys h k = k
Lacks-append (x ∷ xs) ys h k = (h.0, Lacks-append xs ys h.1 k)
