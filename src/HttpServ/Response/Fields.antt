-- ===== src/HttpServ/Response/Fields.antt =====
-- The fields that a response always has, or by its flags.
use http2serv.Prelude.{
  ℕ, zero, suc, ◌+◌, ◌/◌, ◌%◌, ◌^◌, ◌≤◌, ◌<◌, ◌≡◌, refl, arith, tests, Bool, true, false, not, ltb,
  ltb→lt, ◌==◌, ◌||◌, ◌&&◌, &&-parts, if◌then◌else◌, Bool-cases, inl, inr, codes,
}
use http2serv.Prelude.{List, [], ◌∷◌, ◌++◌, length, length-append, All, IsByte}
use http2serv.Hpack.Encode.Front.{IsSendable}
use http2serv.HttpServ.Response.{
  HeaderFlags, server_signatur, digits, to_string, front_fields, cache_fields, encoding_fields,
}

-- A byte of a text, other than the zero at its end.
abbrev pub IsChar : ℕ → Type 0
IsChar b = (1 ≤ b) × (b < 256)

-- A field that HPackEncode can send.
abbrev pub IsField : List ℕ × List ℕ → Type 0
IsField f =
    IsSendable f.0 × All IsChar f.0 × All IsChar f.1 × (length f.0 < 2 ^ 31) × (length f.1 < 2 ^ 31)

pub All-append {ℓ κ} :
    {A : Type ℓ} (P : A → Type κ) (xs ys : List A) → All P xs → All P ys → All P (xs ++ ys)
All-append P [] ys h k = k
All-append P (x ∷ xs) ys h k = (h.0, All-append P xs ys h.1 k)

are_chars : List ℕ → Bool
are_chars [] = true
are_chars (b ∷ bs) = (ltb 0 b && ltb b 256) && are_chars bs

-- A text of the program, by evaluation.
literal : (text : List ℕ) → are_chars text ≡ true → All IsChar text
unfolding are_chars
literal [] h = tt
literal (b ∷ bs) h =
    let parts = &&-parts (ltb 0 b && ltb b 256) (are_chars bs) h in
    let ends = &&-parts (ltb 0 b) (ltb b 256) parts.0 in
    ((ltb→lt 0 b ends.0, ltb→lt b 256 ends.1), literal bs parts.1)

digits-IsChar : (fuel n : ℕ) → All IsChar (digits fuel n)
unfolding digits
digits-IsChar zero n = tt
digits-IsChar (suc fuel) n = elim (Bool-cases (ltb n 10)) [
  | inl small ↦ rw small (omega (tests, small), tt)
  | inr big ↦ rw big (
      All-append IsChar (digits fuel (n / 10)) ((b'0' + n % 10) ∷ []) (digits-IsChar fuel (n / 10))
        (omega arith, tt))
]

digits-short : (fuel n : ℕ) → length (digits fuel n) ≤ fuel
unfolding digits
digits-short zero n = omega arith
digits-short (suc fuel) n = elim (Bool-cases (ltb n 10)) [
  | inl small ↦ rw small (omega arith)
  | inr big ↦ rw big (
      omega (
        arith,
        length-append (digits fuel (n / 10)) ((b'0' + n % 10) ∷ []),
        digits-short fuel (n / 10),
      ))
]

to_string-IsChar : (n : ℕ) → All IsChar (to_string n)
unfolding to_string
to_string-IsChar = digits-IsChar 20

to_string-short : (n : ℕ) → length (to_string n) < 2 ^ 31
unfolding to_string
to_string-short n = omega (arith, digits-short 20 n)

status-IsSendable : IsSendable (codes ":status")
unfolding http2serv.Hpack.HeadList.to_lower http2serv.Hpack.Header.has_lower
    http2serv.Prelude.bytes_eq http2serv.Hpack.Header.is_pseudo
    http2serv.Hpack.Header.in_static_list http2serv.Hpack.StaticTable.static_header_list
status-IsSendable = record { lower = refl; letter = refl; allowed = refl; known = refl }

date-IsSendable : IsSendable (codes "date")
unfolding http2serv.Hpack.HeadList.to_lower http2serv.Hpack.Header.has_lower
    http2serv.Prelude.bytes_eq http2serv.Hpack.Header.is_pseudo
    http2serv.Hpack.Header.in_static_list http2serv.Hpack.StaticTable.static_header_list
date-IsSendable = record { lower = refl; letter = refl; allowed = refl; known = refl }

server-IsSendable : IsSendable (codes "server")
unfolding http2serv.Hpack.HeadList.to_lower http2serv.Hpack.Header.has_lower
    http2serv.Prelude.bytes_eq http2serv.Hpack.Header.is_pseudo
    http2serv.Hpack.Header.in_static_list http2serv.Hpack.StaticTable.static_header_list
server-IsSendable = record { lower = refl; letter = refl; allowed = refl; known = refl }

content_length-IsSendable : IsSendable (codes "content-length")
unfolding http2serv.Hpack.HeadList.to_lower http2serv.Hpack.Header.has_lower
    http2serv.Prelude.bytes_eq http2serv.Hpack.Header.is_pseudo
    http2serv.Hpack.Header.in_static_list http2serv.Hpack.StaticTable.static_header_list
content_length-IsSendable = record { lower = refl; letter = refl; allowed = refl; known = refl }

cache_control-IsSendable : IsSendable (codes "cache-control")
unfolding http2serv.Hpack.HeadList.to_lower http2serv.Hpack.Header.has_lower
    http2serv.Prelude.bytes_eq http2serv.Hpack.Header.is_pseudo
    http2serv.Hpack.Header.in_static_list http2serv.Hpack.StaticTable.static_header_list
cache_control-IsSendable = record { lower = refl; letter = refl; allowed = refl; known = refl }

expires-IsSendable : IsSendable (codes "expires")
unfolding http2serv.Hpack.HeadList.to_lower http2serv.Hpack.Header.has_lower
    http2serv.Prelude.bytes_eq http2serv.Hpack.Header.is_pseudo
    http2serv.Hpack.Header.in_static_list http2serv.Hpack.StaticTable.static_header_list
expires-IsSendable = record { lower = refl; letter = refl; allowed = refl; known = refl }

content_encoding-IsSendable : IsSendable (codes "content-encoding")
unfolding http2serv.Hpack.HeadList.to_lower http2serv.Hpack.Header.has_lower
    http2serv.Prelude.bytes_eq http2serv.Hpack.Header.is_pseudo
    http2serv.Hpack.Header.in_static_list http2serv.Hpack.StaticTable.static_header_list
content_encoding-IsSendable = record { lower = refl; letter = refl; allowed = refl; known = refl }

field :
    (name value : List ℕ)
    → IsSendable name
    → are_chars name ≡ true
    → length name < 2 ^ 31
    → All IsChar value
    → length value < 2 ^ 31
    → IsField (name, value)
field name value s b short h k = (s, literal name b, h, short, k)

pub front_fields-IsField :
    (flags : HeaderFlags) (code content : ℕ) (date : List ℕ)
    → All IsChar date
    → length date < 2 ^ 31
    → All IsField (front_fields flags code content date)
unfolding front_fields are_chars
front_fields-IsField flags code content date h small = (
  field (codes ":status") (to_string code) status-IsSendable refl (omega arith)
      (to_string-IsChar code) (to_string-short code),
  (
    field (codes "date") date date-IsSendable refl (omega arith) h small,
    (
      field (codes "server") server_signatur server-IsSendable refl (omega arith)
          (literal server_signatur refl) (omega arith),
      content_field (not (content == 0) || flags.add_conent_length),
    ),
  ),
)
  where
    content_field :
        (b : Bool)
        → All IsField (if b then (codes "content-length", to_string content) ∷ [] else [])
    content_field true = (
      field (codes "content-length") (to_string content) content_length-IsSendable refl
          (omega arith) (to_string-IsChar content) (to_string-short content),
      tt,
    )
    content_field false = tt

pub cache_fields-IsField : (b : Bool) → All IsField (cache_fields b)
unfolding cache_fields are_chars
cache_fields-IsField true = (
  field (codes "cache-control")
      (codes "no-cache, no-store, must-revalidate, pre-check = 0, post-check = 0")
      cache_control-IsSendable refl (omega arith)
      (literal (codes "no-cache, no-store, must-revalidate, pre-check = 0, post-check = 0") refl)
      (omega arith),
  (
    field (codes "expires") (codes "Mon, 03 Apr 1961 05:00:00 GMT") expires-IsSendable refl
        (omega arith) (literal (codes "Mon, 03 Apr 1961 05:00:00 GMT") refl) (omega arith),
    tt,
  ),
)
cache_fields-IsField false = tt

coding :
    (value : List ℕ)
    → are_chars value ≡ true
    → length value < 2 ^ 31
    → All IsField ((codes "content-encoding", value) ∷ [])
unfolding are_chars
coding value h short = (
  field (codes "content-encoding") value content_encoding-IsSendable refl (omega arith)
      (literal value h) short,
  tt,
)

pub encoding_fields-IsField : (flags : HeaderFlags) → All IsField (encoding_fields flags)
unfolding encoding_fields are_chars
encoding_fields-IsField flags = elim (Bool-cases flags.gzip_encoding) [
  | inl g ↦ rw g (coding (codes "gzip") refl (omega arith))
  | inr g ↦ elim (Bool-cases flags.deflate_encoding) [
    | inl d ↦ rw (g, d) (coding (codes "deflate") refl (omega arith))
    | inr d ↦ elim (Bool-cases flags.brotli_coding) [
      | inl b ↦ rw (g, d, b) (coding (codes "br") refl (omega arith))
      | inr b ↦ rw (g, d, b) tt
    ]
  ]
]
