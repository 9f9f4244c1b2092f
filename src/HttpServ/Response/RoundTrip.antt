-- ===== src/HttpServ/Response/RoundTrip.antt =====
-- The header block of a response, decoded.
use http2serv.Prelude.{ℕ, ◌+◌, ◌-◌, ◌≤◌, ◌≡◌, refl, sym, ap, ◌∙◌, arith, false, ◌==◌}
use http2serv.Prelude.{List, [], ◌∷◌, ◌++◌, none, some, length, length-append, All, IsByte}
use mathlib.Core.List.{append_assoc, append-nil}
use http2serv.Hpack.HeadList.{HeadList}
use http2serv.Hpack.Encode.{hpack_encode}
use http2serv.HttpServ.Response.Meant.{sent_fields, stays_no_cache}
use http2serv.Hpack.Encode.RoundTrip.{Sends, hpack_encode-Sends}
use http2serv.HttpServ.Response.{
  HeaderFlags, c_string, put, put_all, front_fields, cache_fields, encoding_fields,
}
use http2serv.HttpServ.Response.Fields.{IsChar, IsField}

-- The bytes are the fields one behind the other, each as HPackDecode reads it.
abbrev pub SendsAll : HeadList → List ℕ → Type 0
SendsAll [] bytes = bytes ≡ []
SendsAll ((name, value) ∷ rest) bytes =
    (head : List ℕ) × (tail : List ℕ) × (bytes ≡ head ++ tail)
    × Sends name value head
    × SendsAll rest tail

-- The room that is enough for the fields.
abbrev pub room : HeadList → ℕ
room [] = 0
room ((name, value) ∷ rest) = length name + length value + 18 + room rest

pub SendsAll-append :
    (fs gs : HeadList) (xs ys : List ℕ)
    → SendsAll fs xs
    → SendsAll gs ys
    → SendsAll (fs ++ gs) (xs ++ ys)
SendsAll-append [] gs xs ys h k = rw h k
SendsAll-append ((n, v) ∷ fs) gs xs ys (head, tail, e, s, h) k = (
  head,
  tail ++ ys,
  ap (λ l. l ++ ys) e ∙ append_assoc head tail ys,
  s,
  SendsAll-append fs gs tail ys h k,
)

chars-IsByte : (text : List ℕ) → All IsChar text → All IsByte text
chars-IsByte [] h = tt
chars-IsByte (c ∷ cs) h = (h.0.1, chars-IsByte cs h.1)

c_string-IsChar : (text : List ℕ) → All IsChar text → c_string text ≡ text
unfolding c_string
c_string-IsChar [] h = refl
c_string-IsChar (c ∷ cs) h =
    let no_end : (c == 0) ≡ false = ground (arith, h.0) in rw (no_end, c_string-IsChar cs h.1) refl

put-Sends :
    (size : ℕ) (done : List ℕ) (f : List ℕ × List ℕ)
    → IsField f
    → length done + length f.0 + length f.1 + 18 ≤ size
    → (bytes : List ℕ) × (put size done f.0 f.1 ≡ some (done ++ bytes))
      × (length bytes ≤ length f.0 + length f.1 + 18)
      × Sends f.0 f.1 bytes
unfolding put
put-Sends size done f h le =
    let (bytes, e, short, sends) =
      hpack_encode-Sends (size - length done) f.0 f.1 h.0 (chars-IsByte f.0 h.1)
        (chars-IsByte f.1 h.2) h.3 h.4 (omega (arith, le)) in
    let call =
      ap (hpack_encode (size - length done) (c_string f.0)) (c_string-IsChar f.1 h.2)
      ∙ ap (λ n. hpack_encode (size - length done) n f.1) (c_string-IsChar f.0 h.1)
      ∙ e in
    (bytes, ap (λ o. elim o [ none ↦ none | some bytes ↦ some (done ++ bytes) ]) call, short, sends)

pub put_all-SendsAll :
    (size : ℕ) (done : List ℕ) (fs : HeadList)
    → All IsField fs
    → length done + room fs ≤ size
    → (bytes : List ℕ) × (put_all size done fs ≡ some (done ++ bytes))
      × (length bytes ≤ room fs)
      × SendsAll fs bytes
unfolding put_all
put_all-SendsAll size done [] h le = ([], ap some (sym (append-nil done)), omega arith, refl)
put_all-SendsAll size done ((n, v) ∷ fs) h le =
    let (head, e, short, sends) = put-Sends size done (n, v) h.0 (omega (arith, le)) in
    let (tail, e', short', sends') =
      put_all-SendsAll size (done ++ head) fs h.1
        (omega (arith, le, length-append done head, short)) in
    (
      head ++ tail,
      ap (λ o. elim o [ none ↦ none | some done ↦ put_all size done fs ]) e
          ∙ e'
          ∙ ap some (append_assoc done head tail),
      omega (arith, length-append head tail, short, short'),
      (head, tail, refl, sends, sends'),
    )

unfoldable parts : HeaderFlags → ℕ → HeadList → ℕ → List ℕ → HeadList
parts flags code fields content date =
    front_fields flags code content date
    ++ (sent_fields fields
        ++ (cache_fields (stays_no_cache flags.add_no_cache fields) ++ encoding_fields flags))
