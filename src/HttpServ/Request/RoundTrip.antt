-- ===== src/HttpServ/Request/RoundTrip.antt =====
-- Requests as RFC 7230 writes them, and how OnDataReceived reads them.
use http2serv.Prelude.{
  ℕ, ◌≡◌, refl, sym, ap, ◌∙◌, Bool, true, false, if◌then◌else◌, codes, map, none, some, List, [],
  ◌∷◌, ◌++◌, All,
}
use mathlib.Core.List.{append_assoc, append-nil}
use http2serv.Hpack.HeadList.{HeadList, to_lower}
use http2serv.ConfFile.Line.{trim_string, trim_right, trim_left}
use http2serv.HttpServ.Request.{
  starts_with, end_of_header, lines_of, Parsed, refused, undefined, parsed, split_at_colon,
  add_to_last, header_lines, header_of, read_request,
}
use http2serv.HttpServ.Request.Text.{
  Lacks, IsLine, print_lines, joined, end_of_header-print, lines_of-joined, IsLine-Lacks,
  Lacks-append,
}
use http2serv.HttpServ.Request.FirstLine.{print_first, first_fields, IsToken, first_line-print}

-- A field whose name has no colon; both have no carriage return.
abbrev pub IsField : List ℕ × List ℕ → Type 0
IsField f = Lacks b':' f.0 × Lacks 13 f.0 × Lacks 13 f.1

unfoldable pub print_field : List ℕ × List ℕ → List ℕ
print_field f = f.0 ++ (b':' ∷ 32 ∷ f.1)

split_at_colon-append :
    (name value : List ℕ)
    → Lacks b':' name
    → split_at_colon (name ++ (b':' ∷ value)) ≡ some (name, value)
unfolding split_at_colon
split_at_colon-append [] value h = refl
split_at_colon-append (c ∷ cs) value h = rw (h.0, split_at_colon-append cs value h.1) refl

unfoldable pub read_field : List ℕ × List ℕ → List ℕ × List ℕ
read_field f = (map to_lower f.0, trim_string f.1)

-- The blank behind the colon is trimmed with the others.
trim_string_blank : (value : List ℕ) → trim_string (32 ∷ value) ≡ trim_string value
unfolding trim_string trim_right
trim_string_blank value =
    elim (trim_right value)
      as (λ r. trim_left (elim r [ [] ↦ [] | d ∷ ds ↦ 32 ∷ d ∷ ds ]) ≡ trim_left r) [
        | [] ↦ refl
        | d ∷ ds ↦ refl
      ]

-- Printed fields are read, whatever lines follow.
has_any : Bool → HeadList → Bool
has_any has_last [] = has_last
has_any has_last (f ∷ fs) = true

has_any-true : (fs : HeadList) → has_any true fs ≡ true
unfolding has_any
has_any-true [] = refl
has_any-true (f ∷ fs) = refl

header_lines-print :
    (has_last : Bool) (done : HeadList) (fs : HeadList) (ls : List (List ℕ))
    → All IsField fs
    → header_lines has_last done (map print_field fs ++ ls)
      ≡ header_lines (has_any has_last fs) (done ++ map read_field fs) ls
unfolding header_lines print_field read_field has_any
header_lines-print has_last done [] ls h =
    ap (λ d. header_lines has_last d ls) (sym (append-nil done))
header_lines-print has_last done (f ∷ fs) ls h =
    let field = read_field f in
    let more = map print_field fs ++ ls in
    ap
      (λ r. elim r [
        | some (name, value) ↦
            header_lines true (done ++ ((map to_lower name, trim_string value) ∷ [])) more
        | none ↦
            if starts_with (32 ∷ 9 ∷ []) (print_field f)
            then if has_last
              then header_lines true (add_to_last (print_field f) done) more
              else undefined
            else refused
      ])
      (split_at_colon-append f.0 (32 ∷ f.1) h.0.0)
    ∙ ap (λ v. header_lines true (done ++ ((map to_lower f.0, v) ∷ [])) more)
        (trim_string_blank f.1)
    ∙ header_lines-print true (done ++ (field ∷ [])) fs ls h.1
    ∙ ap (λ b. header_lines b ((done ++ (field ∷ [])) ++ map read_field fs) ls) (has_any-true fs)
    ∙ ap (λ d. header_lines true d ls) (append_assoc done (field ∷ []) (map read_field fs))

print_fields-IsLine : (fs : HeadList) → All IsField fs → All IsLine (map print_field fs)
unfolding print_field
print_fields-IsLine [] h = tt
print_fields-IsLine (([], value) ∷ fs) h = ((refl, (refl, h.0.2)), print_fields-IsLine fs h.1)
print_fields-IsLine ((c ∷ cs, value) ∷ fs) h = (
  Lacks-append (c ∷ cs) (b':' ∷ 32 ∷ value) h.0.1 (refl, (refl, h.0.2)),
  print_fields-IsLine fs h.1,
)

-- A request with fields, in front of other bytes.
unfoldable pub print_request : List ℕ → List ℕ → List ℕ → HeadList → List ℕ
print_request method path version fields =
    print_lines (print_first method path version ∷ map print_field fields)

header_of-print :
    (method path version : List ℕ) (fields : HeadList) (ls : List (List ℕ))
    → IsToken method
    → IsToken path
    → Lacks 32 version
    → All IsField fields
    → header_of (print_first method path version ∷ (map print_field fields ++ ls))
      ≡ header_lines
          (has_any false fields)
          (first_fields method path version ++ map read_field fields)
          ls
unfolding header_of
header_of-print method path version fields ls hm hp hv hf =
    ap
      (λ p. elim p [
        | refused ↦ refused
        | undefined ↦ undefined
        | parsed first ↦ header_lines false first (map print_field fields ++ ls)
      ])
      (first_line-print method path version hm hp hv)
    ∙ header_lines-print false (first_fields method path version) fields ls hf

print_first-Lacks :
    (method path version : List ℕ)
    → IsToken method
    → IsToken path
    → Lacks 13 version
    → Lacks 13 (print_first method path version)
unfolding print_first
print_first-Lacks method path version hm hp no_end =
    let protocol = 32 ∷ (codes "HTTP/1." ++ version) in
    Lacks-append method (32 ∷ (path ++ protocol)) (IsLine-Lacks method hm.0) (
      refl,
      Lacks-append path protocol (IsLine-Lacks path hp.0)
          (refl, (refl, (refl, (refl, (refl, (refl, (refl, (refl, no_end)))))))),
    )

read_request_of :
    (buffer head body : List ℕ) (ls : List (List ℕ)) (p : Parsed)
    → end_of_header buffer ≡ some (head, body)
    → lines_of head ≡ ls
    → header_of ls ≡ p
    → read_request buffer ≡ some (p, body)
unfolding read_request
read_request_of buffer head body ls p e k h =
    ap (λ r. elim r [ none ↦ none | some (head, body) ↦ some (header_of (lines_of head), body) ]) e
    ∙ ap (λ q. some (header_of q, body)) k
    ∙ ap (λ q. some (q, body)) h

-- OnDataReceived reads a request as RFC 7230 writes it, whatever follows. Where the method and the path
-- are not empty, no part of the first line has a blank, no part of the request has a carriage return,
-- and no name of a field has a colon, it has the method, the path, the digits behind the point of
-- the version, and all fields in their order, with the names in lower case and the values without
-- blanks around them, and the bytes behind the empty line are left.
pub read_request-print :
    (method path version : List ℕ) (fields : HeadList) (body : List ℕ)
    → IsToken method
    → IsToken path
    → Lacks 32 version
    → Lacks 13 version
    → All IsField fields
    → read_request (print_request method path version fields ++ body)
      ≡ some (
        parsed (
            (codes ":method", method)
            ∷ (codes ":path", path)
            ∷ (codes ":version", version)
            ∷ map (λ f. (map to_lower f.0, trim_string f.1)) fields),
        body,
      )
unfolding print_request print_lines first_fields read_field header_lines
read_request-print method path version fields body hm hp hv no_end hf =
    let first = print_first method path version in
    let ls = map print_field fields in
    let plain = print_first-Lacks method path version hm hp no_end in
    let lines = print_fields-IsLine fields hf in
    read_request_of ((first ++ (13 ∷ 10 ∷ print_lines ls)) ++ body) (joined first ls) body
      (first ∷ ls) (parsed (first_fields method path version ++ map read_field fields))
      (end_of_header-print first ls body plain lines) (lines_of-joined first ls plain lines)
      (ap (λ l. header_of (first ∷ l)) (sym (append-nil ls))
        ∙ header_of-print method path version fields [] hm hp hv hf)
