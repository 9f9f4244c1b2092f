-- ===== src/H2/Steps/Requests.antt =====
-- The HEADERS and CONTINUATION frames of H2Proto.h as elementary changes.
use http2serv.Prelude.{ℕ, ◌-◌, ◌%◌, ◌^◌, ◌==◌, Bool, true, ltb, if◌then◌else◌, not}
use http2serv.Prelude.{
  List, [], ◌∷◌, ◌++◌, ◌&&◌, ◌||◌, Option, none, some, refl, ap, codes, bytes_eq, length,
}
use http2serv.Hpack.Fields.Termination.{http2_decode_header-total}
use http2serv.Prelude.{◌≢◌, refl}
use http2serv.Hpack.Result.{
  missing_streamid, frame_size_error, wrong_pad_length, same_streamid, stream_closed,
  header_no_streamend, protocol_error, wrong_header, cont_without_header, stream_half_closed,
}
use http2serv.Hpack.HeadList.{HeadList, find}
use http2serv.Hpack.Encode.{hpack_encode}
use http2serv.Hpack.Fields.{HeaderOutcome, http2_decode_header, has_field}
use http2serv.H2.Frame.{
  H2Frame, has_flag, priority, end_of_stream, end_of_header, build_http2_frame,
}
use http2serv.H2.Streams.{StreamItem, find_stream, insert_stream, new_stream, last_key, clear_flag}
use http2serv.H2.Exec.{
  Conn, M, ok, throw_if, change_stream, set_state, sub64, read_byte, read_bytes, read_word, ◌>>=◌,
  ◌>>◌, write, modify, return, skip,
}
use http2serv.H2.Data.{end_data, mark_end, mark_called}
use http2serv.H2.Headers.{
  strip_priority, stream_is, header_guards, fields_of, reset_stream0_flag, decode_outcome,
  decode_block, has_value, expect_answer, has_expect_header, store_header, end_request,
  complete_header, partial_header, headers_frame, join, store_fields, close_header, finish_header,
  continuation_guards, continuation_frame,
}
use http2serv.H2.Steps.{
  KeepsBits-refl, Gentle, IsStep, Arrives, Keeps, if-Arrives, ◌|>>◌, get-Keeps, if-Keeps,
  return-Keeps, throw_if-Keeps, when-Keeps, skip-Keeps, change_stream-Keeps, read_byte-Keeps,
  read_bytes-Keeps, read_word-Keeps,
}
use http2serv.H2.Steps.Control.{open_stream-Keeps}
use http2serv.H2.Steps.Data.{
  strip_padding-Keeps, end_data-Gentle, mark_end-Gentle, mark_called-Gentle, call_action-Keeps,
}

strip_priority-Keeps : (flag id size : ℕ) → Keeps (strip_priority flag id size)
unfolding strip_priority
strip_priority-Keeps flag id size = record {
  run = λ R step c. if-Arrives R c (has_flag flag priority) _ _ (taken.run R step c) (step.stays c);
}
  where
    taken : Keeps (do
      depends ← read_word 0
      weight ← read_byte 4
      skip 5
      throw_if (id == depends % 2 ^ 31) same_streamid id
      return (sub64 size 5))
    taken = read_word-Keeps 0 |>> λ depends. read_byte-Keeps 4 |>> λ weight. skip-Keeps 5 |>> λ _.
        throw_if-Keeps (id == depends % 2 ^ 31) same_streamid id |>> λ _.
        return-Keeps (sub64 size 5)

header_guards-Keeps : (flag id : ℕ) → Keeps (header_guards flag id)
unfolding header_guards
header_guards-Keeps flag id = get-Keeps |>> λ c.
    throw_if-Keeps (stream_is (λ s. s.state.stream_end) (find_stream id c.streams)) stream_closed id
    |>> λ _.
        throw_if-Keeps
          (stream_is (λ s. s.state.header_end) (find_stream id c.streams)
            && not (has_flag flag end_of_stream))
          header_no_streamend 0
        |>> λ _.
            throw_if-Keeps (stream_is (λ s. s.state.reset_stream) (find_stream id c.streams))
              stream_closed 0

reset_stream0_flag-Keeps : Keeps reset_stream0_flag
unfolding reset_stream0_flag
reset_stream0_flag-Keeps = change_stream-Keeps 0 _ (λ s. record {
  keeps_stream_end = λ h. h;
  keeps_header_end = λ h. h;
  keeps_reset_stream = λ h. h;
  keeps_action_called = λ h. h;
})

-- Where the fields of a header block are stored.
abbrev Stores : (HeadList → Conn → Conn) → Type 1
Stores store = (R : Conn → Conn → Type 0) → IsStep R → (fs : HeadList) (c : Conn) → R c (store fs c)

decode_outcome-Keeps :
    (store : HeadList → Conn → Conn) (o : HeaderOutcome) (total : o ≢ HeaderOutcome.stuck)
    → Stores store
    → Keeps (decode_outcome store o total)
unfolding decode_outcome
decode_outcome-Keeps store (HeaderOutcome.done st) total h = record {
  run = λ R step c. step.joins _ _ _ (step.tables st.table c) (h R step st.fields _);
}
decode_outcome-Keeps store (HeaderOutcome.failed st) total h = record {
  run = λ R step c. step.joins _ _ _ (step.tables st.table c) (h R step st.fields _);
}
decode_outcome-Keeps store (HeaderOutcome.thrown e st) total h = record {
  run = λ R step c. step.joins _ _ _ (step.tables st.table c) (h R step st.fields _);
}
decode_outcome-Keeps store HeaderOutcome.faulted total h = record { run = λ R step c. tt }
decode_outcome-Keeps store HeaderOutcome.stuck total h = absurd (total refl)

decode_block-Keeps :
    (store : HeadList → Conn → Conn) (fields : HeadList) (bytes : List ℕ)
    → Stores store
    → Keeps (decode_block store fields bytes)
unfolding decode_block
decode_block-Keeps store fields bytes h = record {
  run = λ R step c.
      Keeps.run
        (decode_outcome-Keeps store
          (http2_decode_header c.settings.header_table_size
            (record { table = c.table; fields = fields }) bytes)
          (http2_decode_header-total c.settings.header_table_size
            (record { table = c.table; fields = fields }) bytes)
          h)
        R step c;
}

expect_answer-Keeps : (id : ℕ) (status : List ℕ) (flags : ℕ) → Keeps (expect_answer id status flags)
unfolding expect_answer
expect_answer-Keeps id status flags = record {
  run = λ R step c.
      elim (hpack_encode (128 - 9) (codes ":status") status)
        as (λ x. Arrives {A = Unit {0}} R c (elim x [
          | none ↦ ok tt c
          | some block ↦ write (build_http2_frame (length block) 1 flags id ++ block) c
        ])) [
          | none ↦ step.stays c
          | some block ↦ step.writes (build_http2_frame (length block) 1 flags id ++ block) c
        ];
}

has_expect_header-Keeps : (id : ℕ) (fields : HeadList) → Keeps (has_expect_header id fields)
unfolding has_expect_header
has_expect_header-Keeps id fields = record {
  run = λ R step c.
      elim (find (codes "expect") fields)
        as (λ x. Arrives {A = Unit {0}} R c (elim x [
          | none ↦ ok tt c
          | some v ↦
              if bytes_eq v (codes "100-continue")
              then expect_answer id (codes "100") 0x4 c
              else expect_answer id (codes "400") 0x5 c
        ])) [
          | none ↦ step.stays c
          | some v ↦
              if-Arrives R c (bytes_eq v (codes "100-continue")) _ _
                (Keeps.run (expect_answer-Keeps id (codes "100") 0x4) R step c)
                (Keeps.run (expect_answer-Keeps id (codes "400") 0x5) R step c)
        ];
}

insert-Keeps :
    (id : ℕ) (s : Conn → StreamItem)
    → Keeps (modify λ d. record d { streams = insert_stream id (s d) d.streams })
insert-Keeps id s = record { run = λ R step c. step.inserts id (s c) c }

store_header-Keeps :
    (id : ℕ) (found : Option StreamItem) (fields : HeadList) → Keeps (store_header id found fields)
unfolding store_header
store_header-Keeps id (some s) fields = change_stream-Keeps id _ (λ s. record {
  keeps_stream_end = λ h. h;
  keeps_header_end = λ h. refl;
  keeps_reset_stream = λ h. h;
  keeps_action_called = λ h. h;
})
store_header-Keeps id none fields = get-Keeps |>> λ c.
    throw_if-Keeps (ltb id (last_key c.streams)) protocol_error id |>> λ _. insert-Keeps id _

end_request-Keeps : (id : ℕ) → Keeps (end_request id)
unfolding end_request
end_request-Keeps id = change_stream-Keeps id end_data end_data-Gentle |>> λ _.
    change_stream-Keeps id mark_called mark_called-Gentle |>> λ _. call_action-Keeps id

complete_header-Keeps : (flag id n : ℕ) → Keeps (complete_header flag id n)
unfolding complete_header
complete_header-Keeps flag id n = get-Keeps |>> λ c. read_bytes-Keeps n |>> λ bytes.
    decode_block-Keeps (λ f d. d) (fields_of (find_stream id c.streams)) bytes
      (λ R step fs d. step.stays d)
    |>> λ fields. store_header-Keeps id (find_stream id c.streams) fields |>> λ _.
        reset_stream0_flag-Keeps |>> λ _.
        throw_if-Keeps
          (not (has_value (codes ":path") fields) && not (has_value (codes ":status") fields))
          wrong_header 0
        |>> λ _.
            if-Keeps (has_flag flag end_of_stream) _ _
              (change_stream-Keeps id mark_end mark_end-Gentle |>> λ _.
                throw_if-Keeps (not (has_field (codes ":scheme") fields)) wrong_header 0 |>> λ _.
                end_request-Keeps id)
              (has_expect_header-Keeps id fields)

mark_received-Keeps : Keeps (change_stream 0 (set_state λ st. record st { header_received = true }))
mark_received-Keeps = change_stream-Keeps 0 _ (λ s. record {
  keeps_stream_end = λ h. h;
  keeps_header_end = λ h. h;
  keeps_reset_stream = λ h. h;
  keeps_action_called = λ h. h;
})

partial_header-Keeps : (flag id n : ℕ) → Keeps (partial_header flag id n)
unfolding partial_header
partial_header-Keeps flag id n = record {
  run = λ R step c.
      elim (find_stream id c.streams)
        as (λ x. Arrives {A = Unit {0}} R c (elim x [ some s ↦ ok tt c | none ↦ begin_header c ])) [
          | some s ↦ step.stays c
          | none ↦ begin_header-Keeps.run R step c
        ];
}
  where
    begin_header : M (Unit {0})
    begin_header = do
      bytes ← read_bytes n
      modify λ d. record d {
        streams =
            insert_stream id
              (record (new_stream
                (record clear_flag {
                  header_received = true;
                  stream_end = has_flag flag end_of_stream;
                })
                [] d.settings.init_window_size) { data_list = bytes ∷ [] })
              d.streams;
      }
      change_stream 0 (set_state λ st. record st { header_received = true })

    begin_header-Keeps : Keeps begin_header
    begin_header-Keeps =
        read_bytes-Keeps n |>> λ bytes. insert-Keeps id _ |>> λ _. mark_received-Keeps

pub headers_frame-Keeps : (fr : H2Frame) → Keeps (headers_frame fr)
unfolding headers_frame
headers_frame-Keeps fr = throw_if-Keeps (fr.stream_id == 0) missing_streamid 0 |>> λ _.
    strip_padding-Keeps fr.flag fr.size |>> λ p. get-Keeps |>> λ c.
    throw_if-Keeps (ltb c.settings.max_frame_size p.1) frame_size_error fr.stream_id |>> λ _.
    throw_if-Keeps (ltb p.1 p.0) wrong_pad_length 0 |>> λ _.
    strip_priority-Keeps fr.flag fr.stream_id p.1 |>> λ size.
    header_guards-Keeps fr.flag fr.stream_id |>> λ _.
    if-Keeps (has_flag fr.flag end_of_header) _ _
      (complete_header-Keeps fr.flag fr.stream_id (sub64 size p.0))
      (partial_header-Keeps fr.flag fr.stream_id (sub64 size p.0))
    |>> λ _. return-Keeps size

close_header-Gentle : (b : Bool) → Gentle (close_header b)
close_header-Gentle b s = record {
  keeps_stream_end = λ h. ap (λ x. x || b) h;
  keeps_header_end = λ h. refl;
  keeps_reset_stream = λ h. h;
  keeps_action_called = λ h. h;
}

finish_header-Keeps : (flag id : ℕ) → Keeps (finish_header flag id)
unfolding finish_header
finish_header-Keeps flag id = open_stream-Keeps id |>> λ s.
    decode_block-Keeps (store_fields id) s.header_list (join s.data_list)
      (λ R step fs c. step.updates id _ c λ t. KeepsBits-refl t.state)
    |>> λ fields. reset_stream0_flag-Keeps |>> λ _.
        change_stream-Keeps id (close_header (has_flag flag end_of_stream)) (close_header-Gentle _)
        |>> λ _. open_stream-Keeps id |>> λ t.
            if-Keeps t.state.stream_end _ _ (end_request-Keeps id)
              (has_expect_header-Keeps id fields)

continuation_guards-Keeps : (id : ℕ) → Keeps (continuation_guards id)
unfolding continuation_guards
continuation_guards-Keeps id = open_stream-Keeps id |>> λ s.
    throw_if-Keeps (id == 0) missing_streamid 0 |>> λ _.
    throw_if-Keeps s.state.header_end protocol_error 0 |>> λ _.
    throw_if-Keeps (not s.state.header_received) cont_without_header 0 |>> λ _.
    throw_if-Keeps s.state.action_called stream_half_closed id

pub continuation_frame-Keeps : (fr : H2Frame) → Keeps (continuation_frame fr)
unfolding continuation_frame
continuation_frame-Keeps fr = continuation_guards-Keeps fr.stream_id |>> λ _.
    read_bytes-Keeps fr.size |>> λ bytes.
    change_stream-Keeps fr.stream_id _ (λ s. KeepsBits-refl s.state) |>> λ _.
    when-Keeps (has_flag fr.flag end_of_header) _ (finish_header-Keeps fr.flag fr.stream_id)
    |>> λ _. return-Keeps fr.size
