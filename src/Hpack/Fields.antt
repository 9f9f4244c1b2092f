-- ===== src/Hpack/Fields.antt =====
-- Http2DecodeHeader of HPack.cpp: the loop over the fields of a header block.
pub mod Added
pub mod WellFormed
pub mod Termination
use http2serv.Prelude.{ℕ, zero, suc, ◌+◌, ◌-◌, ◌%◌, ◌^◌, codes, Bool, true, false}
use http2serv.Prelude.{List, [], ◌∷◌, ◌++◌, Option, none, some, if◌then◌else◌}
use http2serv.Prelude.{◌&&◌, not, bytes_eq, length}
use http2serv.Hpack.Result
use http2serv.Hpack.Result.{HpackExCode, protocol_error, wrong_header, invalid_te_header}
use http2serv.Hpack.StaticTable.{HeaderEntry}
use http2serv.Hpack.HeadList.{HeadList, find}
use http2serv.Hpack.Header.{Decoded, hpack_decode, is_pseudo}

-- What the function changes: qDynTable and lstHeaderFields.
pub record HeaderState : Type 0 where
  pub table : List HeaderEntry
  pub fields : HeadList

-- `done` returns 0 and `failed` SIZE_MAX; an exception leaves the state as it was thrown in.
-- `stuck`: the loop ran out of fuel.
pub data HeaderOutcome : Type 0 where
  done : HeaderState → HeaderOutcome
  failed : HeaderState → HeaderOutcome
  thrown : HpackExCode → HeaderState → HeaderOutcome
  faulted : HeaderOutcome
  stuck : HeaderOutcome

abbrev pub cookie_name : List ℕ
cookie_name = codes "cookie"

-- `iter->second += "; " + strHeaderValue` on the first field of the name.
unfoldable pub append_value : List ℕ → List ℕ → HeadList → HeadList
append_value name value [] = []
append_value name value ((n, v) ∷ fs) =
    if bytes_eq name n
    then (n, v ++ (codes "; " ++ value)) ∷ fs
    else (n, v) ∷ append_value name value fs

unfoldable pub has_field : List ℕ → HeadList → Bool
unfolding find
has_field name fs = elim (find name fs) [ none ↦ false | some v ↦ true ]

-- Whether a field stands in the list that is no pseudo header.
unfoldable pub has_regular : HeadList → Bool
unfolding is_pseudo
has_regular [] = false
has_regular ((n, v) ∷ fs) = if is_pseudo n then has_regular fs else true

pub data AddOutcome : Type 0 where
  added : HeadList → AddOutcome
  refused : HpackExCode → AddOutcome

-- One field joins the list, or the exception for it.
unfoldable pub add_field : List ℕ → List ℕ → HeadList → AddOutcome
unfolding append_value has_field has_regular
add_field name value fields =
    if bytes_eq name cookie_name && has_field cookie_name fields
    then added (append_value cookie_name value fields)
    else if bytes_eq name []
    then added fields
    else if is_pseudo name && has_field name fields
    then refused protocol_error
    else if is_pseudo name && has_regular fields
    then refused wrong_header
    else if bytes_eq name (codes "te") && not (bytes_eq value (codes "trailers"))
    then refused invalid_te_header
    else added (fields ++ ((name, value) ∷ []))

-- Each round takes a byte at least, so as many rounds as bytes are enough.
unfoldable pub decode_fields : ℕ → ℕ → ℕ → HeaderState → List ℕ → HeaderOutcome
unfolding add_field
decode_fields fuel limit count st [] = done st
decode_fields zero limit count st (b ∷ bs) = stuck
decode_fields (suc fuel) limit count st (b ∷ bs) =
    elim (hpack_decode st.table count limit (b ∷ bs)) [
      | Result.ok none ↦ failed st
      | Result.ok (some d) ↦ elim (add_field d.name d.value st.fields) [
        | added fields ↦
            decode_fields fuel limit ((d.count + 1) % 2 ^ 32)
              (record { table = d.table; fields = fields }) d.rest
        | refused e ↦ thrown e (record { table = d.table; fields = st.fields })
      ]
      | Result.throw e ↦ thrown e st
      | Result.fault ↦ faulted
    ]

unfoldable pub http2_decode_header : ℕ → HeaderState → List ℕ → HeaderOutcome
unfolding decode_fields
http2_decode_header limit st bytes = decode_fields (length bytes) limit 0 st bytes
