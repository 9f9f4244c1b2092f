-- ===== src/Hpack/StaticTable.antt =====
-- StaticHeaderListe of HPack.cpp, and the entries of the header tables (HEADERENTRY of HPack.h).
use http2serv.Prelude.{ℕ, List, [], ◌∷◌, codes}

-- HEADERINDEX, HEADERNAME and HEADERVALUE; an entry of the dynamic table has index 0.
pub record HeaderEntry : Type 0 where
  pub index : ℕ
  pub name : List ℕ
  pub value : List ℕ

abbrev entry : ℕ → List ℕ → List ℕ → HeaderEntry
entry i n v = record { index = i; name = n; value = v }

unfoldable pub static_header_list : List HeaderEntry
static_header_list =
    entry 1 (codes ":authority") []
    ∷ entry 2 (codes ":method") (codes "GET")
    ∷ entry 3 (codes ":method") (codes "POST")
    ∷ entry 4 (codes ":path") (codes "/")
    ∷ entry 5 (codes ":path") (codes "/index.html")
    ∷ entry 6 (codes ":scheme") (codes "http")
    ∷ entry 7 (codes ":scheme") (codes "https")
    ∷ entry 8 (codes ":status") (codes "200")
    ∷ entry 9 (codes ":status") (codes "204")
    ∷ entry 10 (codes ":status") (codes "206")
    ∷ entry 11 (codes ":status") (codes "304")
    ∷ entry 12 (codes ":status") (codes "400")
    ∷ entry 13 (codes ":status") (codes "404")
    ∷ entry 14 (codes ":status") (codes "500")
    ∷ entry 15 (codes "accept-charset") []
    ∷ entry 16 (codes "accept-encoding") (codes "gzip, deflate")
    ∷ entry 17 (codes "accept-language") []
    ∷ entry 18 (codes "accept-ranges") []
    ∷ entry 19 (codes "accept") []
    ∷ entry 20 (codes "access-control-allow-origin") []
    ∷ entry 21 (codes "age") []
    ∷ entry 22 (codes "allow") []
    ∷ entry 23 (codes "authorization") []
    ∷ entry 24 (codes "cache-control") []
    ∷ entry 25 (codes "content-disposition") []
    ∷ entry 26 (codes "content-encoding") []
    ∷ entry 27 (codes "content-language") []
    ∷ entry 28 (codes "content-length") []
    ∷ entry 29 (codes "content-location") []
    ∷ entry 30 (codes "content-range") []
    ∷ entry 31 (codes "content-type") []
    ∷ entry 32 (codes "cookie") []
    ∷ entry 33 (codes "date") []
    ∷ entry 34 (codes "etag") []
    ∷ entry 35 (codes "expect") []
    ∷ entry 36 (codes "expires") []
    ∷ entry 37 (codes "from") []
    ∷ entry 38 (codes "host") []
    ∷ entry 39 (codes "if-match") []
    ∷ entry 40 (codes "if-modified-since") []
    ∷ entry 41 (codes "if-none-match") []
    ∷ entry 42 (codes "if-range") []
    ∷ entry 43 (codes "if-unmodified-since") []
    ∷ entry 44 (codes "last-modified") []
    ∷ entry 45 (codes "link") []
    ∷ entry 46 (codes "location") []
    ∷ entry 47 (codes "max-forwards") []
    ∷ entry 48 (codes "proxy-authenticate") []
    ∷ entry 49 (codes "proxy-authorization") []
    ∷ entry 50 (codes "range") []
    ∷ entry 51 (codes "referer") []
    ∷ entry 52 (codes "refresh") []
    ∷ entry 53 (codes "retry-after") []
    ∷ entry 54 (codes "server") []
    ∷ entry 55 (codes "set-cookie") []
    ∷ entry 56 (codes "strict-transport-security") []
    ∷ entry 57 (codes "transfer-encoding") []
    ∷ entry 58 (codes "user-agent") []
    ∷ entry 59 (codes "vary") []
    ∷ entry 60 (codes "via") []
    ∷ entry 61 (codes "www-authenticate") []
    ∷ []
