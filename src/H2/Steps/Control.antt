-- ===== src/H2/Steps/Control.antt =====
-- The frames of H2Proto.h that carry no request, as elementary changes.
use http2serv.Prelude.{ℕ, ◌+◌, ◌*◌, ◌%◌, ◌^◌, ◌==◌, true, ltb, leb, not}
use http2serv.Prelude.{List, [], ◌∷◌, ◌++◌, ◌&&◌, none, some, drop, refl}
use http2serv.Prelude.Int.{pos, ◌+ℤ◌, ltb_ℤ}
use http2serv.Hpack.Result.{
  missing_streamid, frame_size_error, protocol_error, same_streamid, streamid_must_null,
  window_size_to_high, invalid_window_size, undef_after_header, invalid_push_set,
  window_size_setting, max_frame_size_set,
}
use http2serv.H2.Frame.{H2Frame, has_flag, padded, http2_goaway, ack_settings, word_value}
use http2serv.H2.Streams.{StreamItem, find_stream, last_key}
use http2serv.H2.Exec.{
  ok, StreamSettings, throw_if, sub64, read_byte, raise, ◌>>=◌, ◌>>◌, ◌>>=◌, ◌>>◌, modify, return,
}
use http2serv.H2.Headers.{open_stream}
use http2serv.H2.Settings.{
  change_settings, set_window_size, apply_setting, apply_settings, settings_frame, window_change,
}
use http2serv.H2.Control.{
  priority_frame, reset_item, rst_stream_frame, close, push_padding, push_promise_frame,
  acknowledge, ping_frame, goaway_frame, max_window, window_update_frame, undefined_frame,
}
use http2serv.H2.Steps.{
  KeepsBits-refl, Gentle, Arrives, Keeps, if-Arrives, ◌|>>◌, get-Keeps, write-Keeps, raise-Keeps,
  if-Keeps, return-Keeps, throw_if-Keeps, change_stream-Keeps, stream0_receives-Keeps,
  read_byte-Keeps, read_bytes-Keeps, read_word-Keeps,
}

pub open_stream-Keeps : (id : ℕ) → Keeps (open_stream id)
unfolding open_stream
open_stream-Keeps id = record {
  run = λ R step c.
      elim (find_stream id c.streams)
        as (λ x.
          Arrives {A = StreamItem} R c
            (elim x [ some s ↦ ok s c | none ↦ raise missing_streamid 0 c ])) [
              | some s ↦ step.stays c
              | none ↦ step.stays c
            ];
}

pub priority_frame-Keeps : (fr : H2Frame) → Keeps (priority_frame fr)
unfolding priority_frame
priority_frame-Keeps fr = throw_if-Keeps (fr.stream_id == 0) missing_streamid 0 |>> λ _.
    throw_if-Keeps (not (fr.size == 5)) frame_size_error 0 |>> λ _.
    stream0_receives-Keeps |>> λ receives. throw_if-Keeps receives protocol_error 0 |>> λ _.
    read_word-Keeps 0 |>> λ depends. read_byte-Keeps 4 |>> λ weight.
    throw_if-Keeps (fr.stream_id == depends % 2 ^ 31) same_streamid fr.stream_id |>> λ _.
    return-Keeps fr.size

reset_item-Gentle : Gentle reset_item
reset_item-Gentle s = record {
  keeps_stream_end = λ h. h;
  keeps_header_end = λ h. h;
  keeps_reset_stream = λ h. refl;
  keeps_action_called = λ h. h;
}

pub rst_stream_frame-Keeps : (fr : H2Frame) → Keeps (rst_stream_frame fr)
unfolding rst_stream_frame
rst_stream_frame-Keeps fr = throw_if-Keeps (not (fr.size == 4)) frame_size_error 0 |>> λ _.
    read_word-Keeps 0 |>> λ error. open_stream-Keeps fr.stream_id |>> λ s.
    throw_if-Keeps (fr.stream_id == 0) missing_streamid 0 |>> λ _.
    change_stream-Keeps fr.stream_id reset_item reset_item-Gentle |>> λ _. return-Keeps fr.size

close-Keeps : Keeps close
close-Keeps = record { run = λ R step c. step.closes true c }

drop_byte : Keeps (modify λ d. record d { input = drop 1 d.input })
drop_byte = record { run = λ R step c. step.reads 1 c.len c }

push_padding-Keeps : (flag size : ℕ) → Keeps (push_padding flag size)
unfolding push_padding
push_padding-Keeps flag size = record {
  run = λ R step c. if-Arrives R c (has_flag flag padded) _ _ (taken.run R step c) (step.stays c);
}
  where
    taken : Keeps (do
      pad ← read_byte 0
      modify λ d. record d { input = drop 1 d.input }
      return (sub64 size 1))
    taken = read_byte-Keeps 0 |>> λ pad. drop_byte |>> λ _. return-Keeps (sub64 size 1)

pub push_promise_frame-Keeps : (fr : H2Frame) → Keeps (push_promise_frame fr)
unfolding push_promise_frame
push_promise_frame-Keeps fr = push_padding-Keeps fr.flag fr.size |>> λ size.
    write-Keeps (http2_goaway 0 0 1) |>> λ _. close-Keeps |>> λ _. return-Keeps size

pub ping_frame-Keeps : (header : List ℕ) (fr : H2Frame) → Keeps (ping_frame header fr)
unfolding ping_frame
ping_frame-Keeps header fr = if-Keeps (has_flag fr.flag 1) _ _ (return-Keeps fr.size) (
    throw_if-Keeps (not (fr.stream_id == 0)) streamid_must_null 0 |>> λ _.
    throw_if-Keeps (not (fr.size == 8)) frame_size_error 0 |>> λ _.
    read_bytes-Keeps fr.size |>> λ payload.
    write-Keeps (acknowledge header ++ payload) |>> λ _. return-Keeps fr.size)

pub goaway_frame-Keeps : (fr : H2Frame) → Keeps (goaway_frame fr)
unfolding goaway_frame
goaway_frame-Keeps fr = throw_if-Keeps (not (fr.stream_id == 0)) streamid_must_null 0 |>> λ _.
    read_word-Keeps 0 |>> λ last. read_word-Keeps 4 |>> λ error. close-Keeps |>> λ _.
    get-Keeps |>> λ c.
    write-Keeps (http2_goaway 0 (last_key c.streams) 0) |>> λ _. return-Keeps fr.size

pub window_update_frame-Keeps : (fr : H2Frame) → Keeps (window_update_frame fr)
unfolding window_update_frame
window_update_frame-Keeps fr = throw_if-Keeps (not (fr.size == 4)) frame_size_error 0 |>> λ _.
    read_word-Keeps 0 |>> λ word. open_stream-Keeps fr.stream_id |>> λ s.
    throw_if-Keeps (not (leb 1 (word % 2 ^ 31) && leb (word % 2 ^ 31) max_window))
      invalid_window_size fr.stream_id
    |>> λ _.
        throw_if-Keeps (ltb_ℤ (pos max_window) (s.wnd_size +ℤ pos (word % 2 ^ 31)))
          window_size_to_high fr.stream_id
        |>> λ _. change_stream-Keeps fr.stream_id _ (λ t. KeepsBits-refl t.state) |>> λ _.
            return-Keeps fr.size

pub undefined_frame-Keeps : (fr : H2Frame) → Keeps (undefined_frame fr)
unfolding undefined_frame
undefined_frame-Keeps fr = record {
  run = λ R step c.
      elim (find_stream 0 c.streams)
        as (λ x. Arrives {A = ℕ} R c (elim x [
          | none ↦ ok fr.size c
          | some s ↦ (do throw_if s.state.header_received undef_after_header 0; return fr.size) c
        ])) [
          | none ↦ step.stays c
          | some s ↦
              Keeps.run
                (throw_if-Keeps s.state.header_received undef_after_header 0 |>> λ _.
                  return-Keeps fr.size)
                R step c
        ];
}

change_settings-Keeps : (f : StreamSettings → StreamSettings) → Keeps (change_settings f)
change_settings-Keeps f = record { run = λ R step c. step.sets (f c.settings) c }

set_window_size-Keeps : (value : ℕ) → Keeps (set_window_size value)
unfolding set_window_size
set_window_size-Keeps value = record {
  run = λ R step c.
      step.joins c (record c { settings = record c.settings { init_window_size = value } }) _
        (step.sets (record c.settings { init_window_size = value }) c)
        (step.shifts
          (λ t. record t {
            wnd_size = t.wnd_size +ℤ window_change value c.settings.init_window_size;
          })
          (record c { settings = record c.settings { init_window_size = value } })
          (λ t. KeepsBits-refl t.state));
}

apply_setting-Keeps : (ident value : ℕ) → Keeps (apply_setting ident value)
unfolding apply_setting
apply_setting-Keeps ident value = if-Keeps (ident == 1) _ _ (change_settings-Keeps _) (
    if-Keeps (ident == 2) _ _ (throw_if-Keeps (ltb 1 value) invalid_push_set 0) (
      if-Keeps (ident == 3) _ _ (change_settings-Keeps _) (
        if-Keeps (ident == 4) _ _
          (if-Keeps (ltb value 2147483647) _ _ (set_window_size-Keeps value)
            (raise-Keeps window_size_setting 0))
          (if-Keeps (ident == 5) _ _
            (if-Keeps (leb 16384 value && leb value 16777215) _ _ (change_settings-Keeps _)
              (raise-Keeps max_frame_size_set 0))
            (if-Keeps (ident == 6) _ _ (change_settings-Keeps _) (return-Keeps tt))))))

apply_settings-Keeps : (entries : List ℕ) → Keeps (apply_settings entries)
unfolding apply_settings
apply_settings-Keeps (a ∷ b ∷ w ∷ x ∷ y ∷ z ∷ rest) =
    apply_setting-Keeps (a * 2 ^ 8 + b) (word_value w x y z) |>> λ _. apply_settings-Keeps rest
apply_settings-Keeps [] = return-Keeps tt
apply_settings-Keeps (a ∷ []) = return-Keeps tt
apply_settings-Keeps (a ∷ b ∷ []) = return-Keeps tt
apply_settings-Keeps (a ∷ b ∷ w ∷ []) = return-Keeps tt
apply_settings-Keeps (a ∷ b ∷ w ∷ x ∷ []) = return-Keeps tt
apply_settings-Keeps (a ∷ b ∷ w ∷ x ∷ y ∷ []) = return-Keeps tt

pub settings_frame-Keeps : (fr : H2Frame) → Keeps (settings_frame fr)
unfolding settings_frame
settings_frame-Keeps fr =
    if-Keeps (has_flag fr.flag ack_settings) _ _
      (throw_if-Keeps (not (fr.size == 0)) frame_size_error 0 |>> λ _. return-Keeps fr.size)
      (throw_if-Keeps (not (fr.stream_id == 0)) streamid_must_null 0 |>> λ _.
        throw_if-Keeps (not (fr.size % 6 == 0)) frame_size_error 0 |>> λ _.
        read_bytes-Keeps fr.size |>> λ entries. apply_settings-Keeps entries |>> λ _.
        write-Keeps (0 ∷ 0 ∷ 0 ∷ 4 ∷ 1 ∷ 0 ∷ 0 ∷ 0 ∷ 0 ∷ []) |>> λ _. return-Keeps fr.size)
