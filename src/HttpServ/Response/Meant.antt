-- ===== src/HttpServ/Response/Meant.antt =====
-- The fields of a response as they are meant, to compare with, each part with the condition it has.
use http2serv.Prelude.{
  ℕ, ◌≡◌, refl, ap, ◌∙◌, Bool, true, false, not, ◌&&◌, ◌||◌, ◌==◌, if◌then◌else◌, bytes_eq, codes,
  map,
}
use http2serv.Prelude.{List, [], ◌∷◌, ◌++◌}
use http2serv.Hpack.HeadList.{HeadList, to_lower}
use http2serv.HttpServ.Response.{
  HeaderFlags, is_left_out, to_string, front_fields, cache_fields, encoding_fields,
}

-- The fields of umHeaderList that are sent, their names in lower case.
unfoldable pub sent_fields : HeadList → HeadList
sent_fields [] = []
sent_fields ((n, v) ∷ rest) =
    let more = sent_fields rest in
    if is_left_out (map to_lower n) then more else (map to_lower n, v) ∷ more

-- Whether ADDNOCACHE stays set.
unfoldable pub stays_no_cache : Bool → HeadList → Bool
stays_no_cache b [] = b
stays_no_cache b ((n, v) ∷ rest) =
    stays_no_cache (b && not (bytes_eq (map to_lower n) (codes "cache-control"))) rest

unfoldable pub given_if : Bool → HeadList → HeadList
given_if true fields = fields
given_if false fields = []

unfoldable pub length_field : HeaderFlags → ℕ → HeadList
unfolding given_if
length_field flags content =
    given_if (flags.add_conent_length || not (content == 0))
      ((codes "content-length", to_string content) ∷ [])

unfoldable pub caching : Bool → HeadList
unfolding given_if
caching b = given_if b (
    (
      codes "cache-control",
      codes "no-cache, no-store, must-revalidate, pre-check = 0, post-check = 0",
    )
    ∷ (codes "expires", codes "Mon, 03 Apr 1961 05:00:00 GMT")
    ∷ [])

unfoldable pub coding : Bool → Bool → Bool → HeadList
unfolding given_if
coding gzip deflate br =
    given_if gzip ((codes "content-encoding", codes "gzip") ∷ [])
    ++ (given_if (not gzip && deflate) ((codes "content-encoding", codes "deflate") ∷ [])
        ++ given_if (not gzip && (not deflate && br)) ((codes "content-encoding", codes "br") ∷ []))

unfoldable pub respons_fields : HeaderFlags → ℕ → HeadList → ℕ → List ℕ → HeadList
unfolding given_if length_field caching coding
respons_fields flags code fields content date =
    (codes ":status", to_string code)
    ∷ (codes "date", date)
    ∷ (codes "server", codes "Http2Serv/1.1.0")
    ∷ (length_field flags content
        ++ (sent_fields fields
            ++ (caching (stays_no_cache flags.add_no_cache fields)
                ++ coding flags.gzip_encoding flags.deflate_encoding flags.brotli_coding)))

front_as_meant :
    (flags : HeaderFlags) (code content : ℕ) (date : List ℕ)
    → front_fields flags code content date
      ≡ (codes ":status", to_string code)
        ∷ (codes "date", date)
        ∷ (codes "server", codes "Http2Serv/1.1.0")
        ∷ length_field flags content
unfolding front_fields given_if length_field
front_as_meant flags code content date =
    ap
      (λ l.
        (codes ":status", to_string code)
        ∷ (codes "date", date)
        ∷ (codes "server", codes "Http2Serv/1.1.0")
        ∷ l)
      (by_cases (not (content == 0)) flags.add_conent_length)
  where
    by_cases :
        (a b : Bool)
        → (if a || b then (codes "content-length", to_string content) ∷ [] else [])
          ≡ given_if (b || a) ((codes "content-length", to_string content) ∷ [])
    by_cases true true = refl
    by_cases true false = refl
    by_cases false true = refl
    by_cases false false = refl

cache_as_meant : (b : Bool) → cache_fields b ≡ caching b
unfolding cache_fields given_if caching
cache_as_meant true = refl
cache_as_meant false = refl

encoding_as_meant :
    (flags : HeaderFlags)
    → encoding_fields flags ≡ coding flags.gzip_encoding flags.deflate_encoding flags.brotli_coding
unfolding encoding_fields given_if coding
encoding_as_meant flags = by_cases flags.gzip_encoding flags.deflate_encoding flags.brotli_coding
  where
    by_cases :
        (a b c : Bool)
        → (if a
            then (codes "content-encoding", codes "gzip") ∷ []
            else if b
            then (codes "content-encoding", codes "deflate") ∷ []
            else if c
            then (codes "content-encoding", codes "br") ∷ []
            else [])
          ≡ coding a b c
    by_cases true b c = refl
    by_cases false true c = refl
    by_cases false false true = refl
    by_cases false false false = refl

-- The code's parts put together are the fields as they are meant.
pub respons_as_meant :
    (flags : HeaderFlags) (code : ℕ) (fields : HeadList) (content : ℕ) (date : List ℕ)
    → front_fields flags code content date
        ++ (sent_fields fields
            ++ (cache_fields (stays_no_cache flags.add_no_cache fields) ++ encoding_fields flags))
      ≡ respons_fields flags code fields content date
unfolding respons_fields
respons_as_meant flags code fields content date =
    let stays = stays_no_cache flags.add_no_cache fields in
    let front = front_fields flags code content date in
    let coded = coding flags.gzip_encoding flags.deflate_encoding flags.brotli_coding in
    ap (λ l. front ++ (sent_fields fields ++ (cache_fields stays ++ l))) (encoding_as_meant flags)
    ∙ ap (λ l. front ++ (sent_fields fields ++ (l ++ coded))) (cache_as_meant stays)
    ∙ ap (λ l. l ++ (sent_fields fields ++ (caching stays ++ coded)))
        (front_as_meant flags code content date)
