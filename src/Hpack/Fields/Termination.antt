-- ===== src/Hpack/Fields/Termination.antt =====
-- Every round of Http2DecodeHeader takes a byte of the block.
use http2serv.Prelude.{ℕ, zero, suc, ◌+◌, ◌*◌, ◌%◌, ◌^◌, ◌≤◌, ◌≡◌, ◌≢◌, arith, bit_and}
use http2serv.Prelude.{Bool, true, false, not, ltb, leb, ◌==◌, if◌then◌else◌, ◌&&◌, bytes_eq, codes}
use http2serv.Prelude.{List, [], ◌∷◌, Option, none, some, length, take, length-drop, ◌||◌}
use http2serv.Hpack.Result.{Result, ok, throw, fault, ◌>>=◌}
use http2serv.Hpack.Huffman.{huffman_decode}
use http2serv.Hpack.Integer.{decode_integer, decode_index}
use http2serv.Hpack.Text.{decode_length, string_contents, decode_string}
use http2serv.Hpack.StaticTable.{HeaderEntry, static_header_list}
use http2serv.Hpack.Header.{
  Decoded, bit_mask, table_entry, indexed_field, decode_indexed, decode_size_update, new_name,
  literal_field, named_field, decode_literal, decode_field, hpack_decode, is_pseudo, in_static_list,
  has_lower,
}
use http2serv.Hpack.Fields.{
  HeaderState, failed, thrown, faulted, stuck, added, refused, add_field, decode_fields,
  http2_decode_header,
}

-- What a reader that succeeded leaves satisfies a predicate.
abbrev pub Leaves {ℓ} : {A : Type ℓ} → (A → Type 0) → Result A → Type 0
Leaves P (ok a) = P a
Leaves P (throw e) = Unit {0}
Leaves P fault = Unit {0}

bind-Leaves {ℓ κ} :
    {A : Type ℓ} {B : Type κ} (P : A → Type 0) (Q : B → Type 0) (m : Result A) (f : A → Result B)
    → Leaves P m
    → ((a : A) → P a → Leaves Q (f a))
    → Leaves Q (m >>= f)
bind-Leaves P Q (ok a) f p q = q a p
bind-Leaves P Q (throw e) f p q = tt
bind-Leaves P Q fault f p q = tt

if-Leaves {ℓ} :
    {A : Type ℓ} (P : A → Type 0) (b : Bool) (x y : Result A)
    → Leaves P x
    → Leaves P y
    → Leaves P (if b then x else y)
if-Leaves P true x y p q = p
if-Leaves P false x y p q = q

weaken-Leaves {ℓ} :
    {A : Type ℓ} (P Q : A → Type 0) (m : Result A) → Leaves P m → ((a : A) → P a → Q a) → Leaves Q m
weaken-Leaves P Q (ok a) p q = q a p
weaken-Leaves P Q (throw e) p q = tt
weaken-Leaves P Q fault p q = tt

abbrev Within {ℓ} : {A : Type ℓ} → ℕ → A × List ℕ → Type 0
Within n (a, rest) = length rest ≤ n

decode_integer-Within :
    (bs : List ℕ) (ret bits : ℕ) → Leaves (Within (length bs)) (decode_integer bs ret bits)
unfolding decode_integer
decode_integer-Within [] ret bits = tt
decode_integer-Within (b ∷ bs) ret bits = if-Leaves W (ltb 30 bits) _ _ tt (
    if-Leaves W (leb (2 ^ 31) (bit_and b 0x7f * 2 ^ bits)) _ _ tt (
      if-Leaves W (bit_and b 0x80 == 0x80) _ _
        (weaken-Leaves (Within (length bs)) W _
          (decode_integer-Within bs ((ret + bit_and b 0x7f * 2 ^ bits) % 2 ^ 32) (bits + 7))
          (λ a p. omega (arith, p)))
        (omega arith)))
  where
    W : ℕ × List ℕ → Type 0
    W = Within (suc (length bs))

decode_index-Within :
    (mask b : ℕ) (bs : List ℕ) → Leaves (Within (length bs)) (decode_index mask (b ∷ bs))
unfolding decode_index
decode_index-Within mask b bs =
    if-Leaves (Within (length bs)) (bit_and (bit_and b mask) mask == mask) _ _
      (bind-Leaves (Within (length bs)) _ (decode_integer bs 0 0) _ (decode_integer-Within bs 0 0)
        (λ a p. p))
      (omega arith)

decode_length-Within : (len : ℕ) (bs : List ℕ) → Leaves (Within (length bs)) (decode_length len bs)
unfolding decode_length
decode_length-Within len bs =
    if-Leaves (Within (length bs)) (bit_and len 0x7f == 0x7f) _ _
      (bind-Leaves (Within (length bs)) _ (decode_integer bs 0 0) _ (decode_integer-Within bs 0 0)
        (λ a p. p))
      (omega arith)

string_contents-Within :
    (encoded : Bool) (len : ℕ) (rest : List ℕ) (n : ℕ)
    → length rest ≤ n
    → Leaves (Within (suc n)) (string_contents encoded len rest)
unfolding string_contents
string_contents-Within encoded len rest n h =
    if-Leaves (Within (suc n)) (ltb (length rest) len) _ _ tt (
      if-Leaves (Within (suc n)) encoded _ _
        (if-Leaves (Within (suc n)) (decoded.1 == 1 || decoded.1 == 2) _ _ tt
          (omega (arith, h, length-drop len rest)))
        (omega (arith, h, length-drop len rest)))
  where
    decoded : List ℕ × ℕ
    decoded = huffman_decode (take len rest)

decode_string-Within : (bs : List ℕ) → Leaves (Within (length bs)) (decode_string bs)
unfolding decode_string decode_length string_contents
decode_string-Within [] = tt
decode_string-Within (b ∷ bs) =
    bind-Leaves (Within (length bs)) _ (decode_length (bit_and b 0x7f) bs) _
      (decode_length-Within (bit_and b 0x7f) bs)
      (λ a p. string_contents-Within (bit_and b 0x80 == 0x80) a.0 a.1 (length bs) p)

abbrev Rest : ℕ → Option Decoded → Type 0
Rest n none = Unit {0}
Rest n (some d) = length d.rest ≤ n

indexed_field-Rest :
    (table : List HeaderEntry) (count n : ℕ) (rest : List ℕ) (e : Option HeaderEntry)
    → length rest ≤ n
    → Rest n (indexed_field table count rest e)
unfolding indexed_field
indexed_field-Rest table count n rest none h = tt
indexed_field-Rest table count n rest (some e) h = h

named_field-Rest :
    (keep : Bool) (table : List HeaderEntry) (count n : ℕ) (value rest : List ℕ)
    (e : Option HeaderEntry)
    → length rest ≤ n
    → Rest n (named_field keep table count value rest e)
unfolding named_field literal_field
named_field-Rest keep table count n value rest none h = tt
named_field-Rest keep table count n value rest (some e) h = h

new_name-Rest :
    (bytes : List ℕ) (n : ℕ) → length bytes ≤ n → Leaves (λ r. length (r.2) ≤ n) (new_name bytes)
unfolding new_name
new_name-Rest bytes n h =
    bind-Leaves (Within n) P (decode_string bytes) _
      (weaken-Leaves (Within (length bytes)) (Within n) _ (decode_string-Within bytes)
        (λ a p. omega (arith, h, p)))
      (λ a p. if-Leaves P (is_pseudo a.0 && not (in_static_list a.0 static_header_list)) _ _ tt (
        if-Leaves P (not (has_lower a.0)) _ _ tt (
          if-Leaves P (bytes_eq a.0 (codes "connection")) _ _ tt (
            bind-Leaves (Within (length a.1)) P (decode_string a.1) _ (decode_string-Within a.1)
              (λ v q. omega (arith, p, q))))))
  where
    P : List ℕ × List ℕ × List ℕ → Type 0
    P r = length (r.2) ≤ n

decode_literal-Rest :
    (keep : Bool) (table : List HeaderEntry) (count i n : ℕ) (bytes : List ℕ)
    → length bytes ≤ n
    → Leaves (Rest n) (decode_literal keep table count i bytes)
unfolding decode_literal literal_field
decode_literal-Rest keep table count i n bytes h =
    if-Leaves (Rest n) (i == 0) _ _
      (bind-Leaves (λ r. length (r.2) ≤ n) (Rest n) (new_name bytes) _ (new_name-Rest bytes n h)
        (λ a p. p))
      (bind-Leaves (Within (length bytes)) (Rest n) (decode_string bytes) _
        (decode_string-Within bytes)
        (λ a p.
          named_field-Rest keep table count n a.0 a.1 (table_entry table i) (omega (arith, h, p))))

decode_field-Rest :
    (table : List HeaderEntry) (count limit b : ℕ) (bs : List ℕ) (mask : Option ℕ)
    → Leaves (Rest (length bs)) (decode_field table count limit (b ∷ bs) mask)
unfolding decode_field decode_indexed decode_size_update
decode_field-Rest table count limit b bs none = tt
decode_field-Rest table count limit b bs (some mask) =
    bind-Leaves (Within (length bs)) R (decode_index mask (b ∷ bs)) _
      (decode_index-Within mask b bs)
      (λ a p.
        if-Leaves R (mask == 0x7f) _ _
          (if-Leaves R (a.0 == 0) _ _ tt
            (indexed_field-Rest table count (length bs) a.1 (table_entry table a.0) p))
          (if-Leaves R (mask == 0x1f) _ _
            (if-Leaves R (not (count == 0)) _ _ tt (if-Leaves R (ltb limit a.0) _ _ tt p))
            (decode_literal-Rest (mask == 0x3f) table count a.0 (length bs) a.1 p)))
  where
    R : Option Decoded → Type 0
    R = Rest (length bs)

hpack_decode-Rest :
    (table : List HeaderEntry) (count limit b : ℕ) (bs : List ℕ)
    → Leaves (Rest (length bs)) (hpack_decode table count limit (b ∷ bs))
unfolding hpack_decode
hpack_decode-Rest table count limit b bs = decode_field-Rest table count limit b bs (bit_mask b)

-- decode_fields with as much fuel as there are bytes.
decode_fields-enough :
    (fuel limit count : ℕ) (st : HeaderState) (bytes : List ℕ)
    → length bytes ≤ fuel
    → decode_fields fuel limit count st bytes ≢ stuck
unfolding decode_fields
decode_fields-enough fuel limit count st [] h q = ground (arith, q)
decode_fields-enough zero limit count st (b ∷ bs) h q = omega (arith, h)
decode_fields-enough (suc fuel) limit count st (b ∷ bs) h q =
    elim (hpack_decode st.table count limit (b ∷ bs))
        as (λ x.
          Leaves (Rest (length bs)) x
          → (elim x [
            | ok none ↦ failed st
            | ok (some d) ↦ elim (add_field d.name d.value st.fields) [
              | added fields ↦
                  decode_fields fuel limit ((d.count + 1) % 2 ^ 32)
                    (record { table = d.table; fields = fields }) d.rest
              | refused e ↦ thrown e (record { table = d.table; fields = st.fields })
            ]
            | throw e ↦ thrown e st
            | fault ↦ faulted
          ])
            ≡ stuck
          → ⊥) [
            | ok none ↦ λ p e. ground (arith, e)
            | ok (some d) ↦ λ p.
                elim (add_field d.name d.value st.fields)
                  as (λ a.
                    (elim a [
                      | added fields ↦
                          decode_fields fuel limit ((d.count + 1) % 2 ^ 32)
                            (record { table = d.table; fields = fields }) d.rest
                      | refused e ↦ thrown e (record { table = d.table; fields = st.fields })
                    ])
                      ≡ stuck
                    → ⊥) [
                      | added fields ↦
                          decode_fields-enough fuel limit ((d.count + 1) % 2 ^ 32)
                            (record { table = d.table; fields = fields }) d.rest
                            (omega (arith, h, p))
                      | refused e ↦ λ q. ground (arith, q)
                    ]
            | throw e ↦ λ p q. ground (arith, q)
            | fault ↦ λ p q. ground (arith, q)
          ]
      (hpack_decode-Rest st.table count limit b bs) q

-- The rounds that http2_decode_header allows are enough for every header block: it returns, throws or
-- faults.
pub http2_decode_header-total :
    (limit : ℕ) (st : HeaderState) (bytes : List ℕ) → http2_decode_header limit st bytes ≢ stuck
unfolding http2_decode_header
http2_decode_header-total limit st bytes =
    decode_fields-enough (length bytes) limit 0 st bytes (omega arith)
