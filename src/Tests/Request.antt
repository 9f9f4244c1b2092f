-- ===== src/Tests/Request.antt =====
-- A request with two fields.
use http2serv.Prelude.{◌≡◌, refl, codes, map, some, [], ◌∷◌, ◌++◌, All}
use http2serv.Prelude.{◌-◌, ◌^◌, leb, if◌then◌else◌, arith, none, bytes_eq}
use http2serv.HttpServ.Response.{digits, to_string}
use http2serv.HttpServ.Request.Length.{
  content_length, skip_space, stoll_positive, read_number, read_digits, at_most, is_digit,
  content_length-to_string,
}
use http2serv.Hpack.HeadList.{HeadList, find, to_lower}
use http2serv.ConfFile.Line.{trim_string}
use http2serv.HttpServ.Request.{
  refused, undefined, parsed, header_of, read_request, starts_with, first_line, header_lines,
  tokens_of, take_part, take_version, version_of, behind_point, split_at_colon, put_front,
}
use http2serv.HttpServ.Request.FirstLine.{IsToken}
use http2serv.Prelude.{List, ℕ}
use http2serv.HttpServ.Request.RoundTrip.{IsField, print_request, read_request-print}

abbrev two_fields : HeadList
two_fields = (codes "Host", codes "a.b") ∷ (codes "Accept", codes "x ") ∷ []

get-IsToken : IsToken (codes "GET")
get-IsToken = ((refl, (refl, (refl, tt))), (refl, (refl, (refl, tt))))

path-IsToken : IsToken (codes "/")
path-IsToken = ((refl, tt), (refl, tt))

two_fields-IsField : All IsField two_fields
two_fields-IsField = (
  (
    (refl, (refl, (refl, (refl, tt)))),
    (refl, (refl, (refl, (refl, tt)))),
    (refl, (refl, (refl, tt))),
  ),
  (
    (
      (refl, (refl, (refl, (refl, (refl, (refl, tt)))))),
      (refl, (refl, (refl, (refl, (refl, (refl, tt)))))),
      (refl, (refl, tt)),
    ),
    tt,
  ),
)

read_request-print_example :
    read_request (print_request (codes "GET") (codes "/") (codes "1") two_fields ++ codes "body")
    ≡ some (
      parsed (
          (codes ":method", codes "GET")
          ∷ (codes ":path", codes "/")
          ∷ (codes ":version", codes "1")
          ∷ map (λ f. (map to_lower f.0, trim_string f.1)) two_fields),
      codes "body",
    )
read_request-print_example =
    read_request-print (codes "GET") (codes "/") (codes "1") two_fields (codes "body") get-IsToken
      path-IsToken (refl, tt) (refl, tt) two_fields-IsField

abbrev folded_lines : List (List ℕ)
folded_lines = codes "A: b" ∷ codes " \tc" ∷ []

abbrev folded_fields : HeadList
folded_fields =
    (codes ":method", codes "GET")
    ∷ (codes ":path", codes "/")
    ∷ (codes ":version", codes "1")
    ∷ (codes "a", codes "b  \tc")
    ∷ []

-- A line that is folded as RFC 7230 allows it, with a blank alone.
folded_refused : header_of (codes "GET / HTTP/1.1" ∷ codes "A: b" ∷ codes " c" ∷ []) ≡ refused
unfolding header_of first_line header_lines tokens_of take_part take_version version_of behind_point
    split_at_colon put_front starts_with
folded_refused = refl

-- A folded line behind the first one makes the code use the end of the empty vector.
folded_first : header_of (codes "GET / HTTP/1.1" ∷ codes " \tmore" ∷ []) ≡ undefined
unfolding header_of first_line header_lines tokens_of take_part take_version version_of behind_point
    split_at_colon put_front starts_with
folded_first = refl

abbrev long_body : HeadList
long_body = (codes "content-length", codes "9223372036854775808") ∷ []

long_body_text : find (codes "content-length") long_body ≡ some (to_string (2 ^ 63))
unfolding find to_string digits bytes_eq
long_body_text = refl

content_length-to_string_example :
    content_length long_body ≡ (if leb (2 ^ 63) (2 ^ 63 - 1) then some (2 ^ 63) else none)
content_length-to_string_example =
    content_length-to_string (2 ^ 63) long_body (omega arith) long_body_text

-- What follows the digits is not looked at.
loose_length : content_length ((codes "content-length", codes "12abc") ∷ []) ≡ some 12
unfolding bytes_eq content_length find skip_space stoll_positive read_number read_digits at_most
    is_digit
loose_length = refl
