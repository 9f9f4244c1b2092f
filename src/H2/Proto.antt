-- ===== src/H2/Proto.antt =====
-- Http2StreamProto of H2Proto.h: the loop over the frames, the calls of EndOfStreamAction, and the
-- answers to exceptions.
pub mod Answers
pub mod Ends
use http2serv.Prelude.{
  ℕ, zero, suc, ◌+◌, ◌-◌, ◌%◌, ◌==◌, Bool, true, false, ltb, if◌then◌else◌, not,
}
use http2serv.Prelude.{List, [], ◌∷◌, ◌++◌, ◌&&◌, Option, none, some, length, take, drop, min}
use http2serv.Hpack.Result.{
  HpackExCode, protocol_error, internal_error, flow_control_error, uppercase_header, stream_closed,
  false_pseudo_header, invalid_header, invalid_te_header, compression_error, header_other_stream,
  data_without_stream, stream_half_closed, max_frame_size, frame_size_value, missing_streamid,
  wrong_pad_length, same_streamid, common_decode_error, header_no_streamend, cont_without_header,
  undef_after_header, frame_size_error, streamid_must_null, datasize_missmatch, invalid_push_set,
  window_size_setting, max_frame_size_set, window_size_to_high, invalid_window_size, buffsize_error,
  dyntable_update, wrong_stream_id, wrong_header,
}
use http2serv.Hpack.HeadList.{find}
use http2serv.Prelude.{codes}
use http2serv.Hpack.StaticTable.{HeaderEntry}
use http2serv.H2.Frame.{H2Frame, h2_header_len, read_frame_header, http2_goaway, http2_stream_error}
use http2serv.H2.Streams.{
  StreamList, StreamItem, find_stream, insert_stream, new_stream, clear_flag,
}
use http2serv.H2.Exec.{
  Conn, StreamSettings, M, Exec, ok, throw, fault, ◌>>=◌, ◌>>◌, return, get, modify, raise,
  throw_if, when, write, stream0_receives, skip, sub64,
}
use http2serv.H2.Data.{data_frame}
use http2serv.H2.Headers.{headers_frame, continuation_frame}
use http2serv.H2.Settings.{settings_frame}
use http2serv.H2.Control.{
  priority_frame, rst_stream_frame, push_promise_frame, ping_frame, goaway_frame,
  window_update_frame, undefined_frame,
}

-- The first call makes stream 0.
unfoldable pub make_stream0 : M (Unit {0})
make_stream0 c = elim c.streams [
  | [] ↦
      ok tt (record c { streams = (0, new_stream clear_flag [] c.settings.init_window_size) ∷ [] })
  | e ∷ es ↦ ok tt c
]

-- A stream that is not known, in the middle of a header of another stream.
unfoldable pub other_stream_guard : ℕ → M (Unit {0})
unfolding stream0_receives
other_stream_guard id c = elim (find_stream id c.streams) [
  | some s ↦ ok tt c
  | none ↦ (do receives ← stream0_receives; throw_if receives header_other_stream 0) c
]

unfoldable pub begin_frame : H2Frame → M (Unit {0})
unfolding make_stream0 other_stream_guard
begin_frame fr = do
  skip h2_header_len
  throw_if (ltb 0 fr.stream_id && fr.stream_id % 2 == 0) wrong_stream_id 0
  make_stream0
  other_stream_guard fr.stream_id

-- `switch (h2f.typ)`
unfoldable pub handle_frame : List ℕ → H2Frame → M ℕ
handle_frame header fr =
    if fr.typ == 0
    then data_frame fr
    else if fr.typ == 1
    then headers_frame fr
    else if fr.typ == 2
    then priority_frame fr
    else if fr.typ == 3
    then rst_stream_frame fr
    else if fr.typ == 4
    then settings_frame fr
    else if fr.typ == 5
    then push_promise_frame fr
    else if fr.typ == 6
    then ping_frame header fr
    else if fr.typ == 7
    then goaway_frame fr
    else if fr.typ == 8
    then window_update_frame fr
    else if fr.typ == 9
    then continuation_frame fr
    else undefined_frame fr

-- `szBuf += min(size, nLen); nLen -= min(size, nLen)`
unfoldable pub end_frame : ℕ → M (Unit {0})
end_frame size = do c ← get; skip (min size c.len)

unfoldable pub one_frame : List ℕ → H2Frame → M (Unit {0})
unfolding begin_frame handle_frame end_frame
one_frame header fr = do begin_frame fr; size ← handle_frame header fr; end_frame size

-- How a round of the loop ends: with the loop, or with the state for the next round.
pub data Round : Type 0 where
  ended : Exec (Unit {0}) → Round
  again : Conn → Round

unfoldable pub after_frame : Exec (Unit {0}) → Round
after_frame (ok u d) = again d
after_frame (throw e id d) = ended (throw e id d)
after_frame fault = ended fault

-- A frame that is not there as a whole ends the loop; a header that is not there is a read outside
-- the buffer.
unfoldable pub frame_round : Conn → Option H2Frame → Round
unfolding one_frame after_frame
frame_round c none = ended fault
frame_round c (some fr) =
    if ltb (c.len - h2_header_len) fr.size
    then ended (ok tt c)
    else after_frame (one_frame (take h2_header_len c.input) fr c)

unfoldable pub round : Conn → Round
unfolding frame_round
round c =
    if ltb c.len h2_header_len then ended (ok tt c) else frame_round c (read_frame_header c.input)

-- `while (nLen >= H2HEADERLEN)`: `none` when the fuel runs out.
unfoldable pub frames_loop : ℕ → Conn → Option (Exec (Unit {0}))
unfolding round
frames_loop zero c = none
frames_loop (suc fuel) c = elim (round c) [ ended x ↦ some x | again d ↦ frames_loop fuel d ]

-- Every round takes the nine bytes of a header.
unfoldable pub frames : Conn → Option (Exec (Unit {0}))
unfolding frames_loop
frames c = frames_loop (suc (length c.input)) c

-- The handler of exceptions: what is sent, and whether the connection is closed.
pub data Answer : Type 0 where
  goaway : ℕ → Answer
  stream_error : ℕ → Answer

unfoldable pub answer_to : HpackExCode → ℕ → Answer
answer_to compression_error id = goaway 9
answer_to buffsize_error id = goaway 9
answer_to dyntable_update id = goaway 9
answer_to common_decode_error id = goaway 9
answer_to frame_size_error id = goaway 6
answer_to window_size_setting id = goaway 3
answer_to flow_control_error id = goaway 3
answer_to window_size_to_high id = if id == 0 then goaway 3 else stream_error 3
answer_to stream_closed id = goaway 5
answer_to protocol_error id = goaway 1
answer_to uppercase_header id = goaway 1
answer_to wrong_header id = goaway 1
answer_to false_pseudo_header id = goaway 1
answer_to invalid_header id = goaway 1
answer_to invalid_te_header id = goaway 1
answer_to wrong_stream_id id = goaway 1
answer_to header_other_stream id = goaway 1
answer_to data_without_stream id = goaway 1
answer_to missing_streamid id = goaway 1
answer_to wrong_pad_length id = goaway 1
answer_to header_no_streamend id = goaway 1
answer_to cont_without_header id = goaway 1
answer_to undef_after_header id = goaway 1
answer_to streamid_must_null id = goaway 1
answer_to invalid_push_set id = goaway 1
answer_to max_frame_size_set id = goaway 1
answer_to invalid_window_size id = goaway 1
answer_to frame_size_value id = goaway 1
answer_to same_streamid id = stream_error 1
answer_to datasize_missmatch id = stream_error 1
answer_to stream_half_closed id = stream_error 5
answer_to max_frame_size id = stream_error 6
answer_to internal_error id = stream_error 2

abbrev pub send : List ℕ → Conn → Conn
send bytes c = record c { sent = c.sent ++ (bytes ∷ []) }

unfoldable pub give_answer : Answer → ℕ → Conn → Conn
give_answer (goaway code) id c = record (send (http2_goaway 0 0 code) c) { closing = true }
give_answer (stream_error code) id c = record (send (http2_stream_error id code) c) {
  closing = false;
}

-- What the function is called with: the received bytes, and no action and no decision to close yet.
abbrev pub start : List ℕ → Conn → Conn
start bytes c = record c { input = bytes; len = length bytes; actions = []; closing = false }

-- EndOfStreamAction of the server: a header with :status is refused, otherwise `launch` starts the thread.
unfoldable pub end_of_stream_action : (ℕ → Conn → Conn) → ℕ → Conn → Exec (Unit {0})
end_of_stream_action launch id c = elim (find_stream id c.streams) [
  | none ↦ ok tt (launch id c)
  | some s ↦ elim (find (codes ":status") s.header_list) [
    | none ↦ ok tt (launch id c)
    | some v ↦ throw wrong_header 0 c
  ]
]

-- catch: the answer to an exception.
unfoldable pub handle : Exec (Unit {0}) → Exec (Unit {0})
unfolding answer_to give_answer
handle (ok u d) = ok tt d
handle (throw e id d) = ok tt (give_answer (answer_to e id) id d)
handle fault = fault

-- `act id` is EndOfStreamAction for the stream, which the server and the client implement.
module _ (act : ℕ → Conn → Exec (Unit {0})) where
  -- The actions of the requests that are complete and not reset. An action for a stream that is
  -- gone would use a null mutex.
  unfoldable pub run_actions : List ℕ → Conn → Exec (Unit {0})
  run_actions [] c = ok tt c
  run_actions (id ∷ ids) c = elim (find_stream id c.streams) [
    | none ↦ fault
    | some s ↦ (do when (not s.state.reset_stream) (act id); run_actions ids) c
  ]

  -- try: the loop over the frames, and the actions; `none` if the loop had not rounds enough.
  unfoldable pub try_block : List ℕ → Conn → Option (Exec (Unit {0}))
  unfolding frames run_actions
  try_block bytes c = elim (frames (start bytes c)) [
    | none ↦ none
    | some (ok u d) ↦ some (run_actions d.actions d)
    | some (throw e id d) ↦ some (throw e id d)
    | some fault ↦ some fault
  ]

  -- The return value is `closing` of the state: SIZE_MAX if true. nLen comes back as `len`.
  unfoldable pub http2_stream_proto : List ℕ → Conn → Option (Exec (Unit {0}))
  unfolding try_block handle
  http2_stream_proto bytes c = elim (try_block bytes c) [ none ↦ none | some x ↦ some (handle x) ]
