-- ===== src/HttpServ/Response.antt =====
-- The headers of responses: BuildH2ResponsHeader and BuildResponsHeader of HttpServ.cpp. The date is a
-- parameter, a text in the format of HTTP.
use http2serv.Prelude.{
  ℕ, zero, suc, ◌+◌, ◌-◌, ◌/◌, ◌%◌, Bool, true, false, not, ltb, leb, ◌==◌, ◌||◌, ◌&&◌,
  if◌then◌else◌, bytes_eq, codes, map,
}
use http2serv.Prelude.{List, [], ◌∷◌, ◌++◌, Option, none, some, length}
use http2serv.Hpack.HeadList.{HeadList, to_lower}
use http2serv.Hpack.Encode.{hpack_encode}
use http2serv.HttpServ.Tables.{resp_text, text_of}
pub mod Fields
pub mod Meant
pub mod RoundTrip

-- HEADERFLAGS, bit by bit.
pub record HeaderFlags : Type 0 where
  pub terminate_header : Bool
  pub add_connection_close : Bool
  pub add_no_cache : Bool
  pub http_version11 : Bool
  pub add_conent_length : Bool
  pub gzip_encoding : Bool
  pub deflate_encoding : Bool
  pub brotli_coding : Bool

abbrev pub server_signatur : List ℕ
server_signatur = codes "Http2Serv/1.1.0"

-- to_string of a number of 64 bits, which has 20 digits at most.
unfoldable pub digits : ℕ → ℕ → List ℕ
digits zero n = []
digits (suc fuel) n =
    let front = digits fuel (n / 10) in
    if ltb n 10 then (b'0' + n) ∷ [] else front ++ ((b'0' + n % 10) ∷ [])

unfoldable pub to_string : ℕ → List ℕ
unfolding digits
to_string = digits 20

-- What a function that takes a char pointer reads of c_str(): the text up to its first zero byte.
unfoldable pub c_string : List ℕ → List ℕ
c_string [] = []
c_string (c ∷ cs) = if c == 0 then [] else c ∷ c_string cs

-- A call of HPackEncode behind what is written; `none` is the return of 0.
unfoldable pub put : ℕ → List ℕ → List ℕ → List ℕ → Option (List ℕ)
unfolding c_string
put size done name value =
    elim (hpack_encode (size - length done) (c_string name) (c_string value)) [
      | none ↦ none
      | some bytes ↦ some (done ++ bytes)
    ]

-- Calls of HPackEncode one behind the other, up to the first that fails.
unfoldable pub put_all : ℕ → List ℕ → HeadList → Option (List ℕ)
unfolding put
put_all size done [] = some done
put_all size done ((name, value) ∷ rest) = elim (put size done name value) [
  | none ↦ none
  | some done ↦ put_all size done rest
]

-- Fields of HTTP/1 that are left out.
unfoldable pub is_left_out : List ℕ → Bool
is_left_out name = bytes_eq name (codes "connection") || bytes_eq name (codes "transfer-encoding")

-- The loop over umHeaderList, with the bit ADDNOCACHE.
unfoldable pub put_fields : ℕ → List ℕ → Bool → HeadList → Option (List ℕ × Bool)
unfolding put is_left_out to_lower
put_fields size done no_cache [] = some (done, no_cache)
put_fields size done no_cache ((n, value) ∷ rest) =
    let name = map to_lower n in
    let no_cache = no_cache && not (bytes_eq name (codes "cache-control")) in
    elim (is_left_out name) [
      | true ↦ put_fields size done no_cache rest
      | false ↦ elim (put size done name value) [
        | none ↦ none
        | some done ↦ put_fields size done no_cache rest
      ]
    ]

-- The fields in front of umHeaderList.
unfoldable pub front_fields : HeaderFlags → ℕ → ℕ → List ℕ → HeadList
unfolding to_string
front_fields flags code content date =
    (codes ":status", to_string code)
    ∷ (codes "date", date)
    ∷ (codes "server", server_signatur)
    ∷ (if not (content == 0) || flags.add_conent_length
        then (codes "content-length", to_string content) ∷ []
        else [])

-- The fields behind it.
unfoldable pub cache_fields : Bool → HeadList
cache_fields no_cache =
    if no_cache
    then (
      codes "cache-control",
      codes "no-cache, no-store, must-revalidate, pre-check = 0, post-check = 0",
    )
      ∷ (codes "expires", codes "Mon, 03 Apr 1961 05:00:00 GMT")
      ∷ []
    else []

unfoldable pub encoding_fields : HeaderFlags → HeadList
encoding_fields flags =
    if flags.gzip_encoding
    then (codes "content-encoding", codes "gzip") ∷ []
    else if flags.deflate_encoding
    then (codes "content-encoding", codes "deflate") ∷ []
    else if flags.brotli_coding
    then (codes "content-encoding", codes "br") ∷ []
    else []

-- `none` is the return of 0, where the buffer of `size` bytes is too small.
unfoldable pub build_h2_respons_header :
    ℕ → HeaderFlags → ℕ → HeadList → ℕ → List ℕ → Option (List ℕ)
unfolding front_fields put_all put_fields cache_fields encoding_fields
build_h2_respons_header size flags code fields content date =
    elim (put_all size [] (front_fields flags code content date)) [
      | none ↦ none
      | some done ↦ elim (put_fields size done flags.add_no_cache fields) [
        | none ↦ none
        | some (done, no_cache) ↦ put_all size done (cache_fields no_cache ++ encoding_fields flags)
      ]
    ]

-- A line of the header of HTTP/1.
unfoldable pub field_line : List ℕ → List ℕ → List ℕ
field_line name value = name ++ (codes ": " ++ (value ++ codes "\r\n"))

unfoldable pub field_lines : Bool → HeadList → List ℕ × Bool
unfolding field_line to_lower
field_lines no_cache [] = ([], no_cache)
field_lines no_cache ((name, value) ∷ rest) =
    let lower = map to_lower name in
    let known = bytes_eq lower (codes "pragma") || bytes_eq lower (codes "cache-control") in
    let more = field_lines (no_cache && not known) rest in (field_line name value ++ more.0, more.1)

unfoldable pub respons_text : HeaderFlags → ℕ → HeadList → ℕ → List ℕ → List ℕ
unfolding to_string field_lines
respons_text flags code fields content date =
    let middle = field_lines flags.add_no_cache fields in
    codes "HTTP/1."
    ++ ((if flags.http_version11 then codes "1 " else codes "0 ")
        ++ (to_string code
            ++ (codes " "
                ++ (text_of resp_text code
                    ++ (codes "\r\nServer: "
                        ++ (server_signatur
                            ++ (codes "\r\nDate: "
                                ++ (date
                                    ++ (codes "\r\n"
                                        ++ ((if not (content == 0) || flags.add_conent_length
                                              then codes "Content-Length: "
                                                ++ (to_string content ++ codes "\r\n")
                                              else [])
                                            ++ (middle.0
                                                ++ ((if middle.1
                                                      then (if flags.http_version11
                                                          then []
                                                          else codes "Pragma: no-cache\r\n")
                                                        ++ codes
                                                            "Cache-Control: no-cache\r\nExpires: Mon, 03 Apr 1961 05:00:00 GMT\r\n"
                                                      else [])
                                                    ++ ((if flags.add_connection_close
                                                          then codes "Connection: close\r\n"
                                                          else codes "Connection: Keep-Alive\r\n")
                                                        ++ ((if flags.gzip_encoding
                                                            then codes "Content-Encoding: gzip\r\n"
                                                            else if flags.deflate_encoding
                                                            then codes
                                                            "Content-Encoding: deflate\r\n"
                                                            else if flags.brotli_coding
                                                            then codes "Content-Encoding: br\r\n"
                                                            else [])
                                                            ++ (if flags.terminate_header
                                                            then codes "\r\n"
                                                            else [])))))))))))))))

-- `none` is the return of 0.
unfoldable pub build_respons_header : ℕ → HeaderFlags → ℕ → HeadList → ℕ → List ℕ → Option (List ℕ)
unfolding respons_text
build_respons_header size flags code fields content date =
    let text = respons_text flags code fields content date in
    if ltb size (length text) then none else some text
