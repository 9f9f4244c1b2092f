-- ===== src/WebSocket/Written.antt =====
-- The frames of WriteData, received.
use http2serv.Prelude.{ℕ, ◌+◌, ◌^◌, ◌<◌, ◌≡◌, refl, sym, ap, ◌∙◌, arith, true, false, ltb}
use http2serv.Prelude.{List, [], ◌∷◌, none, some, length, All, IsByte, Bool-cases, inl, inr, ◌%◌}
use mathlib.Core.List.{append-nil}
use http2serv.WebSocket.{SocketParam, Event, write_data, header_len, header_bytes, own_header}
use http2serv.WebSocket.Frames.{
  Kind, Frame, short_length, long_length, frame_bytes, events_of, Ready,
}
use http2serv.WebSocket.Receive.{returns, on_data_received}
use http2serv.WebSocket.RoundTrip.{on_data_received-stream}

abbrev pub text_frame : List ℕ → Frame
text_frame message = record {
  kind = Kind.whole_text;
  is_last = true;
  key = none;
  payload = message;
}

write_data-frame_bytes :
    (message : List ℕ)
    → length message + 10 < 2 ^ 32
    → write_data message ≡ some (frame_bytes (text_frame message))
unfolding write_data header_len header_bytes own_header frame_bytes short_length long_length
write_data-frame_bytes message h = elim (Bool-cases (ltb (length message) 126)) [
  | inl small ↦
      let a : ltb 125 (length message) ≡ false = ground (arith, small) in
      let b : ltb 65535 (length message) ≡ false = ground (arith, small) in
      let c : ltb (length message + 2) 4294967296 ≡ true = ground (arith, h) in
      rw (small, a, b, c) refl
  | inr big ↦
      let a : ltb 125 (length message) ≡ true = ground (arith, big) in
      elim (Bool-cases (ltb (length message) 65536)) [
        | inl middle ↦
            let b : ltb 65535 (length message) ≡ false = ground (arith, middle) in
            let c : ltb (length message + 4) 4294967296 ≡ true = ground (arith, h) in
            let w : length message % 65536 ≡ length message = ground (arith, middle) in
            rw (big, middle, a, b, c, w) refl
        | inr large ↦
            let b : ltb 65535 (length message) ≡ true = ground (arith, large) in
            let c : ltb (length message + 10) 4294967296 ≡ true = ground (arith, h) in
            rw (big, large, a, b, c) refl
      ]
]

-- What WriteData sends for a text is a frame that OnDataReceivedWebSocket of another side reports with
-- the same text and nothing else, for texts with room for a header below 2^32 bytes.
pub on_data_received-write_data :
    (st : SocketParam) (message : List ℕ)
    → length message + 10 < 2 ^ 32
    → All IsByte message
    → Ready st
    → (bytes : List ℕ) × (write_data message ≡ some bytes)
      × (end : SocketParam) × (on_data_received 1 st bytes ≡ returns end (Event.text message ∷ []))
      × Ready end
unfolding events_of
on_data_received-write_data st message small h r =
    let f = text_frame message in
    let run =
      on_data_received-stream 1 st (f ∷ []) ((omega (arith, small), h, tt), tt) r (omega arith) in
    (
      frame_bytes f,
      write_data-frame_bytes message small,
      run.0,
      ap (on_data_received 1 st) (sym (append-nil (frame_bytes f))) ∙ run.1,
      run.2,
    )
