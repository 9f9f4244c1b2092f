-- ===== src/H2/Control.antt =====
-- The PRIORITY, RST_STREAM, PUSH_PROMISE, PING, GOAWAY and WINDOW_UPDATE frames of Http2StreamProto
-- (lines 407 to 453 and 520 to 597 of H2Proto.h) and the frames of no known type.
use http2serv.Prelude.{ℕ, ◌%◌, ◌^◌, ◌==◌, true, leb, if◌then◌else◌, not}
use http2serv.Prelude.{List, [], ◌∷◌, ◌++◌, ◌&&◌, none, some, bit_or, drop}
use http2serv.Prelude.Int.{pos, ◌+ℤ◌, ltb_ℤ}
use http2serv.Hpack.Result.{
  missing_streamid, frame_size_error, protocol_error, same_streamid, streamid_must_null,
  window_size_to_high, invalid_window_size, undef_after_header,
}
use http2serv.H2.Frame.{H2Frame, has_flag, padded, http2_goaway}
use http2serv.H2.Streams.{StreamItem, find_stream, last_key}
use http2serv.H2.Exec.{
  M, ok, ◌>>=◌, ◌>>◌, return, get, modify, throw_if, write, stream0_receives, change_stream, sub64,
  read_byte, read_bytes, read_word,
}
use http2serv.H2.Headers.{open_stream}

unfoldable pub priority_frame : H2Frame → M ℕ
unfolding stream0_receives read_word read_byte
priority_frame fr = do
  throw_if (fr.stream_id == 0) missing_streamid 0
  throw_if (not (fr.size == 5)) frame_size_error 0
  receives ← stream0_receives
  throw_if receives protocol_error 0
  depends ← read_word 0
  weight ← read_byte 4
  throw_if (fr.stream_id == depends % 2 ^ 31) same_streamid fr.stream_id
  return fr.size

-- The test for END_OF_STREAM, 0x1, reads the bit of HEADER_RECEIVED.
abbrev pub reset_item : StreamItem → StreamItem
reset_item s = record s {
  state = record s.state { reset_stream = true };
  req_data = if s.state.header_received then s.req_data else [];
}

unfoldable pub rst_stream_frame : H2Frame → M ℕ
unfolding open_stream read_word
rst_stream_frame fr = do
  throw_if (not (fr.size == 4)) frame_size_error 0
  error ← read_word 0
  s ← open_stream fr.stream_id
  throw_if (fr.stream_id == 0) missing_streamid 0
  change_stream fr.stream_id reset_item
  return fr.size

abbrev pub close : M (Unit {0})
close = modify λ c. record c { closing = true }

-- `PadLen = szBuf++[0], h2f.size--`: the counter nLen is left as it is.
unfoldable pub push_padding : ℕ → ℕ → M ℕ
unfolding read_byte
push_padding flag size c =
    if has_flag flag padded
    then (do
      pad ← read_byte 0
      modify λ d. record d { input = drop 1 d.input }
      return (sub64 size 1))
        c
    else ok size c

unfoldable pub push_promise_frame : H2Frame → M ℕ
unfolding push_padding
push_promise_frame fr = do
  size ← push_padding fr.flag fr.size
  write (http2_goaway 0 0 1)
  close
  return size

-- The header of the frame with the acknowledge bit set.
unfoldable pub acknowledge : List ℕ → List ℕ
acknowledge (a ∷ b ∷ c ∷ t ∷ f ∷ rest) = a ∷ b ∷ c ∷ t ∷ bit_or f 0x1 ∷ rest
acknowledge header = header

-- `header` are the nine bytes of the frame's header.
unfoldable pub ping_frame : List ℕ → H2Frame → M ℕ
unfolding acknowledge read_bytes
ping_frame header fr = if has_flag fr.flag 1 then return fr.size else (do
  throw_if (not (fr.stream_id == 0)) streamid_must_null 0
  throw_if (not (fr.size == 8)) frame_size_error 0
  payload ← read_bytes fr.size
  write (acknowledge header ++ payload)
  return fr.size)

unfoldable pub goaway_frame : H2Frame → M ℕ
unfolding read_word
goaway_frame fr = do
  throw_if (not (fr.stream_id == 0)) streamid_must_null 0
  last ← read_word 0
  error ← read_word 4
  close
  c ← get
  write (http2_goaway 0 (last_key c.streams) 0)
  return fr.size

abbrev pub max_window : ℕ
max_window = 2147483647

unfoldable pub window_update_frame : H2Frame → M ℕ
unfolding open_stream read_word ◌+ℤ◌
window_update_frame fr = do
  throw_if (not (fr.size == 4)) frame_size_error 0
  word ← read_word 0
  let value = word % 2 ^ 31
  s ← open_stream fr.stream_id
  throw_if (not (leb 1 value && leb value max_window)) invalid_window_size fr.stream_id
  throw_if (ltb_ℤ (pos max_window) (s.wnd_size +ℤ pos value)) window_size_to_high fr.stream_id
  change_stream fr.stream_id λ t. record t { wnd_size = t.wnd_size +ℤ pos value }
  return fr.size

unfoldable pub undefined_frame : H2Frame → M ℕ
undefined_frame fr c = elim (find_stream 0 c.streams) [
  | none ↦ ok fr.size c
  | some s ↦ (do throw_if s.state.header_received undef_after_header 0; return fr.size) c
]
