-- ===== src/WebSocket.antt =====
-- The class WebSocket of WebSocket.h and WebSocket.cpp: the frames it sends, its state, and what
-- it does with the bytes of a read. The path that it passes to every callback is left out, and the
-- callbacks of a loaded library and the virtual methods are one event.
use http2serv.Prelude.{ℕ, ◌+◌, ◌-◌, ◌*◌, ◌/◌, ◌%◌, ◌^◌, Bool, ltb, leb, ◌==◌, if◌then◌else◌}
use http2serv.Prelude.{List, [], ◌∷◌, ◌++◌, Option, none, some, length, be_bytes}
pub mod Receive
pub mod Frames
pub mod Heads
pub mod RoundTrip
pub mod Written
pub mod Rounds
pub mod Loop

-- HEADER: the bit fields, the lowest bits first.
pub record Header : Type 0 where
  pub op_code : ℕ
  pub rsv3 : ℕ
  pub rsv2 : ℕ
  pub rsv1 : ℕ
  pub fin : ℕ
  pub pload : ℕ
  pub mask : ℕ

abbrev pub no_header : Header
no_header = record { op_code = 0; rsv3 = 0; rsv2 = 0; rsv1 = 0; fin = 0; pload = 0; mask = 0 }

unfoldable pub header_of : ℕ → ℕ → Header
header_of b c = record {
  op_code = b % 16;
  rsv3 = b / 16 % 2;
  rsv2 = b / 32 % 2;
  rsv1 = b / 64 % 2;
  fin = b / 128 % 2;
  pload = c % 128;
  mask = c / 128 % 2;
}

unfoldable pub header_bytes : Header → List ℕ
header_bytes h =
    (h.op_code + h.rsv3 * 16 + h.rsv2 * 32 + h.rsv1 * 64 + h.fin * 128)
    ∷ (h.pload + h.mask * 128)
    ∷ []

-- The header that the server writes: all in one frame, without a mask.
unfoldable pub own_header : ℕ → ℕ → Header
own_header op_code pload = record no_header { fin = 1; op_code = op_code; pload = pload }

-- The length of the header in WriteData, from the length of the text.
unfoldable pub header_len : ℕ → ℕ
header_len n = 2 + (if ltb 125 n then 2 else 0) + (if ltb 65535 n then 6 else 0)

-- The bytes that WriteData gives to the socket. With `none`, the sum of the lengths wraps around and
-- the text is copied over the end of the buffer.
unfoldable pub write_data : List ℕ → Option (List ℕ)
unfolding header_len header_bytes own_header
write_data text =
    let n = length text in
    let head = header_len n in
    let pload = if ltb 2 head then (if head == 10 then 127 else 126) else n in
    let more =
      if head == 10 then be_bytes 8 n else if ltb 2 head then be_bytes 2 (n % 2 ^ 16) else [] in
    if ltb (n + head) (2 ^ 32)
    then some (header_bytes (own_header 1 pload) ++ more ++ text)
    else none

unfoldable pub send_ping : List ℕ
unfolding header_bytes own_header
send_ping = header_bytes (own_header 9 0)

-- SOCKETPARAM. The mask is kept as the four bytes of its memory.
pub record SocketParam : Type 0 where
  pub st_header : Header
  pub len : ℕ
  pub mask : List ℕ
  pub received : ℕ

-- What a read makes the class do.
pub data Event : Type 0 where
  text : List ℕ → Event
  binary : List ℕ → Bool → Event
  pong : Event
  write : List ℕ → Event
  close : Event
