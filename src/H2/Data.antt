-- ===== src/H2/Data.antt =====
-- The DATA frame of Http2StreamProto (lines 234 to 289 of H2Proto.h).
use http2serv.Prelude.{ℕ, ◌+◌, ◌-◌, ◌%◌, ◌^◌, ◌==◌, true, ltb, if◌then◌else◌, not, ◌&&◌, min}
use http2serv.Prelude.{List, [], ◌∷◌, ◌++◌, none, some}
use http2serv.Hpack.Result.{data_without_stream, stream_closed, max_frame_size, frame_size_value}
use http2serv.H2.Frame.{
  H2Frame, has_flag, padded, end_of_stream, http2_window_update, http2_stream_error,
}
use http2serv.H2.Streams.{StreamItem, find_stream}
use http2serv.H2.Exec.{
  M, ok, ◌>>=◌, ◌>>◌, return, get, modify, raise, throw_if, when, write, stream0_receives,
  change_stream, set_state, sub64, skip, read_byte, read_bytes,
}

-- `PadLen = szBuf++[0], h2f.size--, nLen--` if the flag is set: the pad length and the new size.
unfoldable pub strip_padding : ℕ → ℕ → M (ℕ × ℕ)
unfolding read_byte
strip_padding flag size c =
    if has_flag flag padded
    then (do pad ← read_byte 0; skip 1; return (pad, sub64 size 1)) c
    else ok (0, size) c

-- A stream that must be there.
unfoldable pub data_stream : ℕ → M StreamItem
data_stream id c = elim (find_stream id c.streams) [
  | some s ↦ ok s c
  | none ↦ raise data_without_stream 0 c
]

-- The guards of the frame.
unfoldable pub data_guards : ℕ → ℕ → ℕ → M (Unit {0})
unfolding data_stream stream0_receives
data_guards id size pad = do
  s ← data_stream id
  throw_if (id == 0) data_without_stream 0
  receives ← stream0_receives
  throw_if receives data_without_stream 0
  throw_if s.state.stream_end stream_closed id
  throw_if s.state.reset_stream stream_closed 0
  c ← get
  throw_if (ltb c.settings.max_frame_size size) max_frame_size id
  throw_if (ltb size pad) frame_size_value id

-- The windows of the connection and of the stream are opened again by what was received.
unfoldable pub give_windows : ℕ → ℕ → ℕ → M (Unit {0})
give_windows flag id size = when (ltb 0 size) do
  let n = size + (if has_flag flag padded then 1 else 0)
  write (http2_window_update 0 n)
  write (http2_window_update id n)

abbrev pub queue_data : List ℕ → ℕ → StreamItem → StreamItem
queue_data bytes n s = record s {
  req_data = s.req_data ++ (some bytes ∷ []);
  content_received = (s.content_received + n) % 2 ^ 64;
}

abbrev pub end_data : StreamItem → StreamItem
end_data s = record s { req_data = s.req_data ++ (none ∷ []) }

abbrev pub mark_end : StreamItem → StreamItem
mark_end = set_state λ st. record st { stream_end = true }

abbrev pub mark_called : StreamItem → StreamItem
mark_called = set_state λ st. record st { action_called = true }

abbrev pub call_action : ℕ → M (Unit {0})
call_action id = modify λ c. record c { actions = c.actions ++ (id ∷ []) }

-- The stream as it is now.
unfoldable pub current : ℕ → M StreamItem
unfolding data_stream
current id = data_stream id

unfoldable pub finish_data : ℕ → ℕ → M (Unit {0})
unfolding current
finish_data flag id = do
  when (has_flag flag end_of_stream) do
    change_stream id mark_end
    change_stream id end_data
    s ← current id
    when (ltb 0 s.content_length && not (s.content_length == s.content_received))
        do write (http2_stream_error id 1)
  s ← current id
  when (not s.state.action_called) do change_stream id mark_called; call_action id

-- The handlers return `h2f.size` as it is at the end of the frame.
unfoldable pub data_frame : H2Frame → M ℕ
unfolding strip_padding data_guards give_windows finish_data read_bytes
data_frame fr = do
  (pad, size) ← strip_padding fr.flag fr.size
  data_guards fr.stream_id size pad
  give_windows fr.flag fr.stream_id size
  c ← get
  let n = min (size - pad) c.len
  bytes ← read_bytes n
  change_stream fr.stream_id (queue_data bytes n)
  finish_data fr.flag fr.stream_id
  return size
