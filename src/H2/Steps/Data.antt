-- ===== src/H2/Steps/Data.antt =====
-- The DATA frame of H2Proto.h as elementary changes.
use http2serv.Prelude.{ℕ, ◌+◌, ◌-◌, ◌==◌, ltb, if◌then◌else◌, not, min}
use http2serv.Prelude.{◌&&◌, none, some, refl}
use http2serv.Hpack.Result.{stream_closed, data_without_stream, max_frame_size, frame_size_value}
use http2serv.H2.Frame.{
  H2Frame, has_flag, padded, end_of_stream, http2_window_update, http2_stream_error,
}
use http2serv.H2.Streams.{StreamItem, find_stream}
use http2serv.H2.Exec.{ok, sub64, read_byte, raise, ◌>>=◌, ◌>>◌, return, skip}
use http2serv.H2.Data.{
  strip_padding, data_stream, data_guards, give_windows, queue_data, end_data, mark_end,
  mark_called, call_action, finish_data, data_frame,
}
use http2serv.H2.Steps.{
  KeepsBits-refl, Gentle, Arrives, Keeps, if-Arrives, ◌|>>◌, get-Keeps, write-Keeps, return-Keeps,
  throw_if-Keeps, when-Keeps, skip-Keeps, change_stream-Keeps, stream0_receives-Keeps,
  read_byte-Keeps, read_bytes-Keeps,
}

pub strip_padding-Keeps : (flag size : ℕ) → Keeps (strip_padding flag size)
unfolding strip_padding
strip_padding-Keeps flag size = record {
  run = λ R step c. if-Arrives R c (has_flag flag padded) _ _ (taken.run R step c) (step.stays c);
}
  where
    taken : Keeps {A = ℕ × ℕ} (do pad ← read_byte 0; skip 1; return (pad, sub64 size 1))
    taken = read_byte-Keeps 0 |>> λ pad. skip-Keeps 1 |>> λ _. return-Keeps (pad, sub64 size 1)

data_stream-Keeps : (id : ℕ) → Keeps (data_stream id)
unfolding data_stream
data_stream-Keeps id = record {
  run = λ R step c.
      elim (find_stream id c.streams)
        as (λ x.
          Arrives {A = StreamItem} R c
            (elim x [ some s ↦ ok s c | none ↦ raise data_without_stream 0 c ])) [
              | some s ↦ step.stays c
              | none ↦ step.stays c
            ];
}

data_guards-Keeps : (id size pad : ℕ) → Keeps (data_guards id size pad)
unfolding data_guards
data_guards-Keeps id size pad = data_stream-Keeps id |>> λ s.
    throw_if-Keeps (id == 0) data_without_stream 0 |>> λ _. stream0_receives-Keeps |>> λ receives.
    throw_if-Keeps receives data_without_stream 0 |>> λ _.
    throw_if-Keeps s.state.stream_end stream_closed id |>> λ _.
    throw_if-Keeps s.state.reset_stream stream_closed 0 |>> λ _. get-Keeps |>> λ c.
    throw_if-Keeps (ltb c.settings.max_frame_size size) max_frame_size id |>> λ _.
    throw_if-Keeps (ltb size pad) frame_size_value id

give_windows-Keeps : (flag id size : ℕ) → Keeps (give_windows flag id size)
unfolding give_windows
give_windows-Keeps flag id size = when-Keeps (ltb 0 size) _ (
    write-Keeps (http2_window_update 0 (size + (if has_flag flag padded then 1 else 0))) |>> λ _.
    write-Keeps (http2_window_update id (size + (if has_flag flag padded then 1 else 0))))

pub end_data-Gentle : Gentle end_data
end_data-Gentle = λ s. KeepsBits-refl s.state

pub mark_end-Gentle : Gentle mark_end
mark_end-Gentle s = record {
  keeps_stream_end = λ h. refl;
  keeps_header_end = λ h. h;
  keeps_reset_stream = λ h. h;
  keeps_action_called = λ h. h;
}

pub mark_called-Gentle : Gentle mark_called
mark_called-Gentle s = record {
  keeps_stream_end = λ h. h;
  keeps_header_end = λ h. h;
  keeps_reset_stream = λ h. h;
  keeps_action_called = λ h. refl;
}

pub call_action-Keeps : (id : ℕ) → Keeps (call_action id)
call_action-Keeps id = record { run = λ R step c. step.calls id c }

finish_data-Keeps : (flag id : ℕ) → Keeps (finish_data flag id)
unfolding finish_data
finish_data-Keeps flag id =
    when-Keeps (has_flag flag end_of_stream) _ (
      change_stream-Keeps id mark_end mark_end-Gentle |>> λ _.
      change_stream-Keeps id end_data end_data-Gentle |>> λ _. data_stream-Keeps id |>> λ s.
      when-Keeps (ltb 0 s.content_length && not (s.content_length == s.content_received)) _
        (write-Keeps (http2_stream_error id 1)))
    |>> λ _. data_stream-Keeps id |>> λ s.
        when-Keeps (not s.state.action_called) _
          (change_stream-Keeps id mark_called mark_called-Gentle |>> λ _. call_action-Keeps id)

pub data_frame-Keeps : (fr : H2Frame) → Keeps (data_frame fr)
unfolding data_frame
data_frame-Keeps fr = strip_padding-Keeps fr.flag fr.size |>> λ p.
    data_guards-Keeps fr.stream_id p.1 p.0 |>> λ _.
    give_windows-Keeps fr.flag fr.stream_id p.1 |>> λ _. get-Keeps |>> λ c.
    read_bytes-Keeps (min (p.1 - p.0) c.len) |>> λ bytes.
    change_stream-Keeps fr.stream_id (queue_data bytes (min (p.1 - p.0) c.len))
      (λ s. KeepsBits-refl s.state)
    |>> λ _. finish_data-Keeps fr.flag fr.stream_id |>> λ _. return-Keeps p.1
