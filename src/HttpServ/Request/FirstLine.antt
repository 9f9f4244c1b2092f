-- ===== src/HttpServ/Request/FirstLine.antt =====
-- The first line of a printed request.
use http2serv.Prelude.{ℕ, ◌≡◌, refl, ap, ◌∙◌, codes, List, [], ◌∷◌, ◌++◌}
use http2serv.Hpack.HeadList.{HeadList}
use http2serv.HttpServ.Request.{
  tokens_of, take_part, behind_point, version_of, take_version, parsed, first_line,
}
use http2serv.HttpServ.Request.Text.{Lacks, IsLine, tokens_of-append, tokens_of_one}

-- A first line as GET / HTTP/1.1.
unfoldable pub print_first : List ℕ → List ℕ → List ℕ → List ℕ
print_first method path version = method ++ (32 ∷ (path ++ (32 ∷ (codes "HTTP/1." ++ version))))

unfoldable pub first_fields : List ℕ → List ℕ → List ℕ → HeadList
first_fields method path version =
    (codes ":method", method) ∷ (codes ":path", path) ∷ (codes ":version", version) ∷ []

-- A token of a first line.
abbrev pub IsToken : List ℕ → Type 0
IsToken t = IsLine t × Lacks 32 t

first_tokens :
    (method version : List ℕ) (d : ℕ) (ds : List ℕ)
    → Lacks 32 method
    → Lacks 32 (d ∷ ds)
    → Lacks 32 version
    → tokens_of (print_first method (d ∷ ds) version)
      ≡ method ∷ (d ∷ ds) ∷ (codes "HTTP/1." ++ version) ∷ []
unfolding print_first
first_tokens method version d ds hm hp hv =
    let protocol = codes "HTTP/1." ++ version in
    tokens_of-append method d (ds ++ (32 ∷ protocol)) hm
    ∙ ap (λ ts. method ∷ ts) (tokens_of-append (d ∷ ds) b'H' (codes "TTP/1." ++ version) hp)
    ∙ ap (λ ts. method ∷ (d ∷ ds) ∷ ts)
        (tokens_of_one protocol (refl, (refl, (refl, (refl, (refl, (refl, (refl, hv))))))))

pub first_line-print :
    (method path version : List ℕ)
    → IsToken method
    → IsToken path
    → Lacks 32 version
    → first_line (print_first method path version) ≡ parsed (first_fields method path version)
unfolding first_line first_fields take_part take_version version_of behind_point
first_line-print [] path version hm hp hv = elim hm.0 [ ]
first_line-print (c ∷ cs) [] version hm hp hv = elim hp.0 [ ]
first_line-print (c ∷ cs) (d ∷ ds) version hm hp hv =
    rw (first_tokens (c ∷ cs) version d ds hm.1 hp.1 hv) refl
