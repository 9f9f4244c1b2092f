-- ===== src/H2/Settings.antt =====
-- The SETTINGS frame of Http2StreamProto (lines 454 to 519 of H2Proto.h).
pub mod Window
use http2serv.Prelude.{
  ℕ, zero, suc, ◌+◌, ◌-◌, ◌*◌, ◌/◌, ◌%◌, ◌^◌, ◌==◌, Bool, ltb, leb, if◌then◌else◌,
}
use http2serv.Prelude.{List, [], ◌∷◌, not, ◌&&◌}
use http2serv.Prelude.Int.{ℤ, pos, negsuc, ◌+ℤ◌}
use http2serv.Hpack.Result.{
  frame_size_error, streamid_must_null, invalid_push_set, window_size_setting, max_frame_size_set,
}
use http2serv.H2.Frame.{H2Frame, has_flag, ack_settings, word_value}
use http2serv.H2.Streams.{StreamItem, update_nonzero}
use http2serv.H2.Exec.{
  Conn, StreamSettings, M, Exec, fault, ◌>>=◌, ◌>>◌, return, get, modify, raise, throw_if, write,
  read_bytes,
}

-- The number that a pattern of 32 bits stands for as an int32_t.
unfoldable pub signed32 : ℕ → ℤ
signed32 w = if ltb w (2 ^ 31) then pos w else negsuc (2 ^ 32 - w - 1)

-- `static_cast<int32_t>(lValue - ulOldSize)`, a subtraction of 64 bits.
unfoldable pub window_change : ℕ → ℕ → ℤ
unfolding signed32
window_change value old = signed32 ((value + 2 ^ 64 - old) % 2 ^ 64 % 2 ^ 32)

abbrev pub change_settings : (StreamSettings → StreamSettings) → M (Unit {0})
change_settings f = modify λ c. record c { settings = f c.settings }

unfoldable pub set_window_size : ℕ → M (Unit {0})
unfolding window_change ◌+ℤ◌
set_window_size value = modify λ c. record c {
  settings = record c.settings { init_window_size = value };
  streams =
      update_nonzero
        (λ s. record s { wnd_size = s.wnd_size +ℤ window_change value c.settings.init_window_size })
        c.streams;
}

unfoldable pub apply_setting : ℕ → ℕ → M (Unit {0})
unfolding set_window_size
apply_setting ident value =
    if ident == 1
    then change_settings (λ st. record st { header_table_size = value })
    else if ident == 2
    then throw_if (ltb 1 value) invalid_push_set 0
    else if ident == 3
    then change_settings (λ st. record st { max_stream_count = value })
    else if ident == 4
    then (if ltb value 2147483647 then set_window_size value else raise window_size_setting 0)
    else if ident == 5
    then (if leb 16384 value && leb value 16777215
        then change_settings (λ st. record st { max_frame_size = value })
        else raise max_frame_size_set 0)
    else if ident == 6
    then change_settings (λ st. record st { max_header_size = value })
    else return tt

-- `for (n = 0; n < size; n += 6)`
unfoldable pub apply_settings : List ℕ → M (Unit {0})
unfolding apply_setting word_value
apply_settings (a ∷ b ∷ w ∷ x ∷ y ∷ z ∷ rest) = do
  apply_setting (a * 2 ^ 8 + b) (word_value w x y z)
  apply_settings rest
apply_settings _ = return tt

unfoldable pub settings_frame : H2Frame → M ℕ
unfolding apply_settings read_bytes
settings_frame fr =
    if has_flag fr.flag ack_settings
    then (do throw_if (not (fr.size == 0)) frame_size_error 0; return fr.size)
    else (do
      throw_if (not (fr.stream_id == 0)) streamid_must_null 0
      throw_if (not (fr.size % 6 == 0)) frame_size_error 0
      entries ← read_bytes fr.size
      apply_settings entries
      write (0 ∷ 0 ∷ 0 ∷ 4 ∷ 1 ∷ 0 ∷ 0 ∷ 0 ∷ 0 ∷ [])
      return fr.size)
