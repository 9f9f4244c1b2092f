-- ===== src/WebSocket/RoundTrip.antt =====
-- Whole frames in the buffer of OnDataReceivedWebSocket.
use http2serv.Prelude.{ℕ, suc, zero, ◌+◌, ◌-◌, ◌%◌, ◌^◌, ◌<◌, ◌≤◌, ◌≡◌, refl, ap, ◌∙◌, arith, min}
use http2serv.Prelude.{Bool, true, false, leb, ◌==◌, if◌then◌else◌}
use http2serv.Prelude.{
  List, [], ◌∷◌, ◌++◌, Option, none, some, length, take, drop, All, IsByte, take-append,
  length-append,
}
use http2serv.WebSocket.{no_header, Header, header_of, SocketParam, Event}
use http2serv.WebSocket.Frames.{
  Key, key_bytes, mask_with, unmask_from-mask_with, length-mask_with, Kind, op_of, Frame, IsKey,
  bit, long_length, masked_bit, masked, option_bytes, frame_bytes, events_of, IsOptionKey, IsFrame,
  Ready,
}
use http2serv.WebSocket.Receive.{
  new_frame, read_header, key_byte, unmask_from, unmask, goes_on, strays, undefined, dispatch,
  binary_block, text_block, length_done, frame_done, take_block, loop_round, did, returns,
  on_data_received,
}
use http2serv.WebSocket.Heads.{
  take_front, drop_front, head_byte, length_byte, kept_mask, opened, head_len,
  new_frame-frame_bytes, header_op_code, header_fin, header_mask,
}

abbrev kept_header : Kind → Header → Header
kept_header Kind.continuation h = no_header
kept_header Kind.whole_text h = no_header
kept_header Kind.binary_data h = no_header
kept_header Kind.heard_pong h = h

same_number : (n : ℕ) → (n == n) ≡ true
same_number n = ground arith

dispatch-events_of :
    (kind : Kind) (is_last : Bool) (key : Option Key) (block : List ℕ) (h : Header)
    (mask front rest : List ℕ)
    → h.op_code ≡ op_of kind
    → h.fin ≡ bit is_last
    → length block < 2 ^ 32
    → dispatch
        (record { st_header = h; len = length block; mask = mask; received = length block })
        front
        block
        rest
      ≡ goes_on
          (record { st_header = kept_header kind h; len = 0; mask = mask; received = 0 })
          rest
          (events_of (record { kind = kind; is_last = is_last; key = key; payload = block }))
unfolding dispatch events_of binary_block text_block length_done frame_done
dispatch-events_of Kind.continuation true key block h mask front rest op fin small =
    rw (op, fin, same_number (length block)) refl
dispatch-events_of Kind.continuation false key block h mask front rest op fin small =
    rw (op, fin, same_number (length block)) refl
dispatch-events_of Kind.binary_data true key block h mask front rest op fin small =
    rw (op, fin, same_number (length block)) refl
dispatch-events_of Kind.binary_data false key block h mask front rest op fin small =
    rw (op, fin, same_number (length block)) refl
dispatch-events_of Kind.heard_pong true key block h mask front rest op fin small = rw (op) refl
dispatch-events_of Kind.heard_pong false key block h mask front rest op fin small = rw (op) refl
dispatch-events_of Kind.whole_text true key block h mask front rest op fin small =
    let e : leb (length block) (length (block ++ rest)) ≡ true =
      ground (arith, length-append block rest) in
    let w : length block % 2 ^ 32 ≡ length block = omega (arith, small) in
    rw (op, fin, same_number (length block), e, w, take-append block rest) refl
dispatch-events_of Kind.whole_text false key block h mask front rest op fin small =
    rw (op, fin, same_number (length block)) refl

key_unmask :
    (k : Key) (payload : List ℕ)
    → IsKey k
    → All IsByte payload
    → unmask_from (key_bytes k) 0 (mask_with k.k0 k.k1 k.k2 k.k3 payload) ≡ payload
unfolding key_byte
key_unmask k payload hk h =
    unmask_from-mask_with (key_bytes k) 0 k.k0 k.k1 k.k2 k.k3 payload
      (record { here = refl; one_on = refl; two_on = refl; three_on = refl }) hk.0 hk.1 hk.2 hk.3 h

unmask-masked :
    (st : SocketParam) (old : List ℕ) (key : Option Key) (payload : List ℕ)
    → st.st_header.mask ≡ masked_bit key
    → st.mask ≡ kept_mask old key
    → IsOptionKey key
    → All IsByte payload
    → unmask st (masked key payload) ≡ payload
unfolding unmask
unmask-masked st old none payload m e hk h = rw m refl
unmask-masked st old (some k) payload m e hk h = rw (m, e) (key_unmask k payload hk h)

length-masked : (key : Option Key) (payload : List ℕ) → length (masked key payload) ≡ length payload
length-masked none payload = refl
length-masked (some k) payload = length-mask_with k.k0 k.k1 k.k2 k.k3 payload

-- The state behind a frame.
abbrev after : SocketParam → Frame → SocketParam
after st f = record {
  st_header = kept_header f.kind (header_of (head_byte f) (length_byte f));
  len = 0;
  mask = kept_mask st.mask f.key;
  received = 0;
}

whole_block :
    (st : SocketParam) (n : ℕ) (front block rest : List ℕ)
    → st.len ≡ n
    → st.received ≡ 0
    → length block ≡ n
    → take_block st front (block ++ rest)
      ≡ dispatch (record st { received = n }) front (unmask (record st { received = n }) block) rest
unfolding take_block
whole_block st n front block rest e z h =
    let k : min (st.len - st.received) (length (block ++ rest)) ≡ n =
      omega (arith, e, z, h, length-append block rest) in
    let all : st.received + n ≡ n = omega (arith, z) in
    ap
      (λ k.
        dispatch (record st { received = st.received + k }) front
          (unmask (record st { received = st.received + k }) (take k (block ++ rest)))
          (drop k (block ++ rest)))
      k
    ∙ rw (all, take_front n block rest h, drop_front n block rest h) refl

read_header-frame_bytes :
    (st : SocketParam) (f : Frame) (rest : List ℕ)
    → IsFrame f
    → Ready st
    → read_header st (frame_bytes f ++ rest)
      ≡ some (opened st f, head_len f, masked f.key f.payload ++ rest)
unfolding read_header
read_header-frame_bytes st f rest h r =
    let e : (st.len == 0) ≡ true = ground (arith, r.0) in
    ap
      (λ b. if b then new_frame st (frame_bytes f ++ rest) else some (st, 0, frame_bytes f ++ rest))
      e
    ∙ new_frame-frame_bytes st f rest h

loop_round-frame_bytes :
    (st : SocketParam) (f : Frame) (rest : List ℕ)
    → IsFrame f
    → Ready st
    → loop_round st (frame_bytes f ++ rest) ≡ goes_on (after st f) rest (events_of f)
unfolding loop_round head_byte length_byte
loop_round-frame_bytes st f rest h r =
    let n = length f.payload in
    let buffer = frame_bytes f ++ rest in
    let front = take (head_len f) buffer in
    let begun = opened st f in
    ap
      (λ o. elim o [
        | none ↦ strays
        | some (st, offset, rest) ↦ take_block st (take offset buffer) rest
      ])
      (read_header-frame_bytes st f rest h r)
    ∙ whole_block begun n front (masked f.key f.payload) rest refl r.1
        (length-masked f.key f.payload)
    ∙ ap (λ b. dispatch (record begun { received = n }) front b rest)
        (unmask-masked (record begun { received = n }) st.mask f.key f.payload
          (header_mask (head_byte f) n f.key) refl h.2 h.1)
    ∙ dispatch-events_of f.kind f.is_last f.key f.payload begun.st_header begun.mask front rest
        (header_op_code f.kind f.is_last (length_byte f))
        (header_fin f.kind f.is_last (length_byte f)) h.0

abbrev pub stream : List Frame → List ℕ
stream [] = []
stream (f ∷ fs) = frame_bytes f ++ stream fs

abbrev pub events : List Frame → List Event
events [] = []
events (f ∷ fs) = events_of f ++ events fs

-- One round of the call, on a buffer that is not empty.
next_loop_round :
    (fuel : ℕ) (st next : SocketParam) (b : ℕ) (buffer rest : List ℕ) (done : List Event)
    → loop_round st (b ∷ buffer) ≡ goes_on next rest done
    → on_data_received (suc fuel) st (b ∷ buffer) ≡ did done (on_data_received fuel next rest)
unfolding on_data_received
next_loop_round fuel st next b buffer rest done h =
    ap
      (λ r. elim r [
        | goes_on next rest events ↦ did events (on_data_received fuel next rest)
        | strays ↦ undefined
      ])
      h

-- One call that has frames in its buffer, which RFC 6455 writes one behind the other, masked or not, and
-- that starts between two frames, reports in order: every text that is one frame, every binary frame and
-- every continuation with its payload unmasked, and every pong without its payload; a text frame that more
-- frames belong to is not reported. The call returns between two frames. Payloads are shorter than 2^32
-- bytes, and the frames are of these kinds.
pub on_data_received-stream :
    (fuel : ℕ) (st : SocketParam) (fs : List Frame)
    → All IsFrame fs
    → Ready st
    → length fs ≤ fuel
    → (end : SocketParam) × (on_data_received fuel st (stream fs) ≡ returns end (events fs))
      × Ready end
unfolding on_data_received frame_bytes did head_byte length_byte
on_data_received-stream fuel st [] h r enough = (st, refl, r)
on_data_received-stream zero st (f ∷ fs) h r enough = absurd (omega (arith, enough))
on_data_received-stream (suc fuel) st (f ∷ fs) h r enough =
    let rec =
      on_data_received-stream fuel (after st f) fs h.1 (refl, refl) (omega (arith, enough)) in
    (
      rec.0,
      next_loop_round fuel st (after st f) (head_byte f)
            (length_byte f
                ∷ (long_length (length f.payload) ++ (option_bytes f.key ++ masked f.key f.payload))
              ++ stream fs)
            (stream fs) (events_of f) (loop_round-frame_bytes st f (stream fs) h.0 r)
          ∙ ap (did (events_of f)) rec.1,
      rec.2,
    )
