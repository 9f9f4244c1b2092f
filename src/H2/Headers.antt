-- ===== src/H2/Headers.antt =====
-- The HEADERS and CONTINUATION frames of Http2StreamProto (lines 290 to 406 and 598 to 654 of
-- H2Proto.h), with the lambdas fnResetStream0Flag and fnHasExpectHeader.
use http2serv.Prelude.{ℕ, ◌-◌, ◌%◌, ◌^◌, ◌==◌, Bool, true, false, ltb, if◌then◌else◌, not}
use http2serv.Prelude.{◌&&◌, ◌||◌, List, [], ◌∷◌, ◌++◌, Option, none, some, codes, length, bytes_eq}
use http2serv.Hpack.Fields.Termination.{http2_decode_header-total}
use http2serv.Prelude.{◌≢◌, refl}
use http2serv.Hpack.Result.{
  missing_streamid, frame_size_error, wrong_pad_length, same_streamid, stream_closed,
  header_no_streamend, common_decode_error, protocol_error, wrong_header, cont_without_header,
  stream_half_closed,
}
use http2serv.Hpack.HeadList.{HeadList, find}
use http2serv.Hpack.Encode.{hpack_encode}
use http2serv.Hpack.Fields.{HeaderOutcome, HeaderState, http2_decode_header, has_field}
use http2serv.H2.Frame.{
  H2Frame, has_flag, priority, end_of_stream, end_of_header, build_http2_frame,
}
use http2serv.H2.Streams.{
  StreamItem, find_stream, insert_stream, new_stream, last_key, clear_flag, update_stream,
}
use http2serv.H2.Exec.{
  Conn, M, ok, throw, fault, ◌>>=◌, ◌>>◌, return, get, modify, raise, throw_if, when, write,
  change_stream, set_state, sub64, skip, read_byte, read_bytes, read_word,
}
use http2serv.H2.Data.{strip_padding, mark_end, mark_called, end_data, call_action}

-- The stream's dependency and weight are read and dropped: the size without them.
unfoldable pub strip_priority : ℕ → ℕ → ℕ → M ℕ
unfolding read_byte read_word
strip_priority flag id size c =
    if has_flag flag priority
    then (do
      depends ← read_word 0
      weight ← read_byte 4
      skip 5
      throw_if (id == depends % 2 ^ 31) same_streamid id
      return (sub64 size 5))
        c
    else ok size c

-- `streamData != end && (STREAMSTATE(streamData) & ...)`, for one of the flags.
unfoldable pub stream_is : (StreamItem → Bool) → Option StreamItem → Bool
stream_is p none = false
stream_is p (some s) = p s

unfoldable pub header_guards : ℕ → ℕ → M (Unit {0})
unfolding stream_is
header_guards flag id = do
  c ← get
  let found = find_stream id c.streams
  throw_if (stream_is (λ s. s.state.stream_end) found) stream_closed id
  throw_if (stream_is (λ s. s.state.header_end) found && not (has_flag flag end_of_stream))
      header_no_streamend 0
  throw_if (stream_is (λ s. s.state.reset_stream) found) stream_closed 0

unfoldable pub fields_of : Option StreamItem → HeadList
fields_of none = []
fields_of (some s) = s.header_list

-- fnResetStream0Flag.
unfoldable pub reset_stream0_flag : M (Unit {0})
reset_stream0_flag = change_stream 0 (set_state λ st. record st { header_received = false })

-- What Http2DecodeHeader leaves in the connection; `store` keeps the fields where they were decoded
-- in place.
-- The decoder always has rounds enough.
unfoldable pub decode_outcome :
    (HeadList → Conn → Conn) → (o : HeaderOutcome) → o ≢ HeaderOutcome.stuck → M HeadList
decode_outcome store (HeaderOutcome.done st) h c =
    ok st.fields (store st.fields (record c { table = st.table }))
decode_outcome store (HeaderOutcome.failed st) h c =
    throw common_decode_error 0 (store st.fields (record c { table = st.table }))
decode_outcome store (HeaderOutcome.thrown e st) h c =
    throw e 0 (store st.fields (record c { table = st.table }))
decode_outcome store HeaderOutcome.faulted h c = fault
decode_outcome store HeaderOutcome.stuck h c = absurd (h refl)

unfoldable pub decode_block : (HeadList → Conn → Conn) → HeadList → List ℕ → M HeadList
unfolding decode_outcome
decode_block store fields bytes c =
    let st : HeaderState = record { table = c.table; fields = fields } in
    decode_outcome store (http2_decode_header c.settings.header_table_size st bytes)
      (http2_decode_header-total c.settings.header_table_size st bytes) c

-- A field that is there and not empty.
unfoldable pub has_value : List ℕ → HeadList → Bool
has_value name fields = elim (find name fields) [ none ↦ false | some v ↦ not (bytes_eq v []) ]

-- fnHasExpectHeader: the answer of the given status, with the given flags.
unfoldable pub expect_answer : ℕ → List ℕ → ℕ → M (Unit {0})
expect_answer id status flags c = elim (hpack_encode (128 - 9) (codes ":status") status) [
  | none ↦ ok tt c
  | some block ↦ write (build_http2_frame (length block) 1 flags id ++ block) c
]

unfoldable pub has_expect_header : ℕ → HeadList → M (Unit {0})
unfolding expect_answer
has_expect_header id fields c = elim (find (codes "expect") fields) [
  | none ↦ ok tt c
  | some v ↦
      if bytes_eq v (codes "100-continue")
      then expect_answer id (codes "100") 0x4 c
      else expect_answer id (codes "400") 0x5 c
]

abbrev pub mark_header_end : StreamItem → StreamItem
mark_header_end = set_state λ st. record st { header_end = true }

-- The finished header joins the stream, which is made if it is new.
unfoldable pub store_header : ℕ → Option StreamItem → HeadList → M (Unit {0})
store_header id (some s) fields =
    change_stream id λ t. record (mark_header_end t) { header_list = fields }
store_header id none fields = do
  c ← get
  throw_if (ltb id (last_key c.streams)) protocol_error id
  modify λ d. record d {
    streams =
        insert_stream id
          (new_stream (record clear_flag { header_end = true }) fields d.settings.init_window_size)
          d.streams;
  }

-- The request is complete: its data ends, and its action is due.
unfoldable pub end_request : ℕ → M (Unit {0})
end_request id = do change_stream id end_data; change_stream id mark_called; call_action id

unfoldable pub complete_header : ℕ → ℕ → ℕ → M (Unit {0})
unfolding decode_block store_header reset_stream0_flag has_value has_expect_header end_request
    fields_of read_bytes
complete_header flag id n = do
  c ← get
  let found = find_stream id c.streams
  bytes ← read_bytes n
  fields ← decode_block (λ f d. d) (fields_of found) bytes
  store_header id found fields
  reset_stream0_flag
  throw_if (not (has_value (codes ":path") fields) && not (has_value (codes ":status") fields))
      wrong_header 0
  if has_flag flag end_of_stream
      then (do
        change_stream id mark_end
        throw_if (not (has_field (codes ":scheme") fields)) wrong_header 0
        end_request id)
      else has_expect_header id fields

-- The first part of a header whose rest comes in CONTINUATION frames. `insert` does nothing if the
-- stream is there.
unfoldable pub partial_header : ℕ → ℕ → ℕ → M (Unit {0})
unfolding read_bytes
partial_header flag id n c = elim (find_stream id c.streams) [
  | some s ↦ ok tt c
  | none ↦
      (do
        bytes ← read_bytes n
        modify λ d. record d {
          streams =
              insert_stream id
                (record (new_stream
                  (record clear_flag {
                    header_received = true;
                    stream_end = has_flag flag end_of_stream;
                  })
                  [] d.settings.init_window_size) { data_list = bytes ∷ [] })
                d.streams;
        }
        change_stream 0 (set_state λ st. record st { header_received = true }))
        c
]

unfoldable pub headers_frame : H2Frame → M ℕ
unfolding strip_padding strip_priority header_guards complete_header partial_header
headers_frame fr = do
  throw_if (fr.stream_id == 0) missing_streamid 0
  (pad, size) ← strip_padding fr.flag fr.size
  c ← get
  throw_if (ltb c.settings.max_frame_size size) frame_size_error fr.stream_id
  throw_if (ltb size pad) wrong_pad_length 0
  size' ← strip_priority fr.flag fr.stream_id size
  header_guards fr.flag fr.stream_id
  if has_flag fr.flag end_of_header
      then complete_header fr.flag fr.stream_id (sub64 size' pad)
      else partial_header fr.flag fr.stream_id (sub64 size' pad)
  return size'

unfoldable pub join : List (List ℕ) → List ℕ
join [] = []
join (b ∷ bs) = b ++ join bs

unfoldable pub open_stream : ℕ → M StreamItem
open_stream id c = elim (find_stream id c.streams) [
  | some s ↦ ok s c
  | none ↦ raise missing_streamid 0 c
]

abbrev pub store_fields : ℕ → HeadList → Conn → Conn
store_fields id fields c = record c {
  streams = update_stream id (λ s. record s { header_list = fields }) c.streams;
}

abbrev pub close_header : Bool → StreamItem → StreamItem
close_header ends s = record s {
  data_list = [];
  state = record s.state { stream_end = s.state.stream_end || ends; header_end = true };
}

-- The last part of a header: all parts are decoded into the fields of the stream, in place.
unfoldable pub finish_header : ℕ → ℕ → M (Unit {0})
unfolding decode_block reset_stream0_flag has_expect_header end_request open_stream join
finish_header flag id = do
  s ← open_stream id
  fields ← decode_block (store_fields id) s.header_list (join s.data_list)
  reset_stream0_flag
  change_stream id (close_header (has_flag flag end_of_stream))
  t ← open_stream id
  if t.state.stream_end then end_request id else has_expect_header id fields

unfoldable pub continuation_guards : ℕ → M (Unit {0})
unfolding open_stream
continuation_guards id = do
  s ← open_stream id
  throw_if (id == 0) missing_streamid 0
  throw_if s.state.header_end protocol_error 0
  throw_if (not s.state.header_received) cont_without_header 0
  throw_if s.state.action_called stream_half_closed id

unfoldable pub continuation_frame : H2Frame → M ℕ
unfolding continuation_guards finish_header read_bytes
continuation_frame fr = do
  continuation_guards fr.stream_id
  bytes ← read_bytes fr.size
  change_stream fr.stream_id λ s. record s { data_list = s.data_list ++ (bytes ∷ []) }
  when (has_flag fr.flag end_of_header) (finish_header fr.flag fr.stream_id)
  return fr.size
