-- ===== src/Hpack/Fields/WellFormed.antt =====
-- The header lists that Http2DecodeHeader builds.
use http2serv.Prelude.{ℕ, zero, suc, ◌+◌, ◌%◌, ◌^◌, ◌≡◌, refl, arith, codes}
use http2serv.Prelude.{Bool, true, false, ◌&&◌, not, if◌then◌else◌}
use http2serv.Prelude.{List, [], ◌∷◌, ◌++◌, none, some, bytes_eq, length}
use mathlib.Core.Path.{subst}
use http2serv.Hpack.Result.{Result, HpackExCode}
use http2serv.Hpack.HeadList.{HeadList}
use http2serv.Hpack.Header.{hpack_decode, is_pseudo}
use http2serv.Hpack.Fields.{
  HeaderState, HeaderOutcome, done, failed, thrown, faulted, stuck, AddOutcome, added, refused,
  add_field, append_value, has_field, has_regular, decode_fields, http2_decode_header, cookie_name,
}
use http2serv.Hpack.Fields.Added.{
  IsHeader, PseudoFirst-snoc, PseudoOnce-snoc, TeTrailers-snoc, PseudoFirst-append_value,
  PseudoOnce-append_value, TeTrailers-append_value,
}

-- What a conditional that came out as `z` says.
if_cases {ℓ κ} :
    {A : Type ℓ} {P : Type κ} (b : Bool) (x y z : A)
    → (if b then x else y) ≡ z
    → (b ≡ true → x ≡ z → P)
    → (b ≡ false → y ≡ z → P)
    → P
if_cases true x y z h f g = f refl h
if_cases false x y z h f g = g refl h

added_injective : {fs gs : HeadList} → added fs ≡ added gs → fs ≡ gs
added_injective h = ground (arith, h)

refused_or {ℓ} :
    {P : Type ℓ} (b : Bool) (e : HpackExCode) (y : AddOutcome) (gs : HeadList)
    → (if b then refused e else y) ≡ added gs
    → (b ≡ false → y ≡ added gs → P)
    → P
refused_or true e y gs h g = absurd (ground (arith, h))
refused_or false e y gs h g = g refl h

-- A field that joins the list.
new_field :
    (name value : List ℕ) (fs : HeadList)
    → (is_pseudo name && has_field name fs) ≡ false
    → (is_pseudo name && has_regular fs) ≡ false
    → (bytes_eq name (codes "te") && not (bytes_eq value (codes "trailers"))) ≡ false
    → IsHeader fs
    → IsHeader (fs ++ ((name, value) ∷ []))
new_field name value fs once first te w = record {
  pseudo_first = PseudoFirst-snoc name value fs first w.pseudo_first;
  pseudo_once = PseudoOnce-snoc name value fs once w.pseudo_once;
  te_trailers = TeTrailers-snoc name value fs te w.te_trailers;
}

more_cookie :
    (value : List ℕ) (fs : HeadList) → IsHeader fs → IsHeader (append_value cookie_name value fs)
unfolding bytes_eq
more_cookie value fs w = record {
  pseudo_first = PseudoFirst-append_value cookie_name value fs w.pseudo_first;
  pseudo_once = PseudoOnce-append_value cookie_name value fs w.pseudo_once;
  te_trailers = TeTrailers-append_value cookie_name value refl fs w.te_trailers;
}

-- A list of header fields that is well formed stays so when add_field takes another field into it.
pub add_field-IsHeader :
    (name value : List ℕ) (fs gs : HeadList)
    → IsHeader fs
    → add_field name value fs ≡ added gs
    → IsHeader gs
unfolding add_field
add_field-IsHeader name value fs gs w h =
    if_cases (bytes_eq name cookie_name && has_field cookie_name fs) _ _ _ h
      (λ c q. subst (λ l. IsHeader l) (added_injective q) (more_cookie value fs w))
      (λ _ h1.
        if_cases (bytes_eq name []) _ _ _ h1 (λ _ q. subst (λ l. IsHeader l) (added_injective q) w)
          (λ _ h2. refused_or (is_pseudo name && has_field name fs) _ _ _ h2 (λ once h3.
            refused_or (is_pseudo name && has_regular fs) _ _ _ h3 (λ first h4.
              refused_or (bytes_eq name (codes "te") && not (bytes_eq value (codes "trailers"))) _ _
                _ h4
                (λ te q.
                  subst (λ l. IsHeader l) (added_injective q)
                    (new_field name value fs once first te w))))))

-- The list of an outcome.
abbrev pub OutcomeIsHeader : HeaderOutcome → Type 0
OutcomeIsHeader (done st) = IsHeader st.fields
OutcomeIsHeader (failed st) = IsHeader st.fields
OutcomeIsHeader (thrown e st) = IsHeader st.fields
OutcomeIsHeader faulted = Unit {0}
OutcomeIsHeader stuck = Unit {0}

decode_fields-IsHeader :
    (fuel limit count : ℕ) (st : HeaderState) (bytes : List ℕ)
    → IsHeader st.fields
    → OutcomeIsHeader (decode_fields fuel limit count st bytes)
unfolding decode_fields
decode_fields-IsHeader fuel limit count st [] w = w
decode_fields-IsHeader zero limit count st (b ∷ bs) w = tt
decode_fields-IsHeader (suc fuel) limit count st (b ∷ bs) w =
    elim (hpack_decode st.table count limit (b ∷ bs))
      as (λ x. OutcomeIsHeader (elim x [
        | Result.ok none ↦ failed st
        | Result.ok (some d) ↦ elim (add_field d.name d.value st.fields) [
          | added fields ↦
              decode_fields fuel limit ((d.count + 1) % 2 ^ 32)
                (record { table = d.table; fields = fields }) d.rest
          | refused e ↦ thrown e (record { table = d.table; fields = st.fields })
        ]
        | Result.throw e ↦ thrown e st
        | Result.fault ↦ faulted
      ])) [
        | Result.ok none ↦ w
        | Result.ok (some d) ↦
            elim (add_field d.name d.value st.fields)
                as (λ a.
                  add_field d.name d.value st.fields ≡ a
                  → OutcomeIsHeader (elim a [
                    | added fields ↦
                        decode_fields fuel limit ((d.count + 1) % 2 ^ 32)
                          (record { table = d.table; fields = fields }) d.rest
                    | refused e ↦ thrown e (record { table = d.table; fields = st.fields })
                  ])) [
                    | added gs ↦ λ q.
                        decode_fields-IsHeader fuel limit ((d.count + 1) % 2 ^ 32)
                          (record { table = d.table; fields = gs }) d.rest
                          (add_field-IsHeader d.name d.value st.fields gs w q)
                    | refused e ↦ λ q. w
                  ]
              refl
        | Result.throw e ↦ w
        | Result.fault ↦ tt
      ]

-- A header block that is decoded into a well-formed list leaves a well-formed list, whether the
-- function returns or throws: pseudo headers stand first, none stands twice, and the value of "te"
-- is "trailers".
pub http2_decode_header-IsHeader :
    (limit : ℕ) (st : HeaderState) (bytes : List ℕ)
    → IsHeader st.fields
    → OutcomeIsHeader (http2_decode_header limit st bytes)
unfolding http2_decode_header
http2_decode_header-IsHeader limit st bytes w =
    decode_fields-IsHeader (length bytes) limit 0 st bytes w
