-- ===== src/Tests/WebSocket.antt =====
-- Runs of the WebSocket frames.
use http2serv.Prelude.{ℕ, ◌≡◌, refl, arith, codes, true, false, inr}
use http2serv.Prelude.{List, [], ◌∷◌, none, some, All, IsByte}
use http2serv.WebSocket.{no_header, Header, SocketParam, Event, write_data, send_ping}
use http2serv.WebSocket.Frames.{Kind, Frame, IsFrame, Ready}
use http2serv.WebSocket.Receive.{returns, undefined, on_data_received}
use http2serv.WebSocket.RoundTrip.{stream, events, on_data_received-stream}
use http2serv.WebSocket.Written.{on_data_received-write_data}
use http2serv.WebSocket.Rounds.{IsOpen, IsStuck}
use http2serv.WebSocket.Loop.{
  Ends, on_data_received-Ends, NeverReturns, on_data_received-NeverReturns,
}

abbrev new_socket : SocketParam
new_socket = record { st_header = no_header; len = 0; mask = 0 ∷ 0 ∷ 0 ∷ 0 ∷ []; received = 0 }

abbrev hello : List ℕ
hello = codes "Hello"

-- The masked frame of RFC 6455, section 5.7.
masked_hello :
    on_data_received 1 new_socket
      (0x81 ∷ 0x85 ∷ 0x37 ∷ 0xfa ∷ 0x21 ∷ 0x3d ∷ 0x7f ∷ 0x9f ∷ 0x4d ∷ 0x51 ∷ 0x58 ∷ [])
    ≡ returns
        (record {
          st_header = no_header;
          len = 0;
          mask = 0x37 ∷ 0xfa ∷ 0x21 ∷ 0x3d ∷ [];
          received = 0;
        })
        (Event.text hello ∷ [])
unfolding on_data_received
masked_hello = refl

-- The two frames of an unmasked text of RFC 6455: a text that is not the last frame is dropped.
first_fragment : on_data_received 1 new_socket (0x01 ∷ 0x03 ∷ codes "Hel") ≡ returns new_socket []
unfolding on_data_received
first_fragment = refl

-- A mask that begins inside a block: the second read unmasks with the first byte of the mask again.
split_binary :
    on_data_received 1
      (record {
        st_header = record no_header { op_code = 2; mask = 1; fin = 1; pload = 2 };
        len = 2;
        mask = 1 ∷ 2 ∷ 3 ∷ 4 ∷ [];
        received = 1;
      })
      (0 ∷ [])
    ≡ returns
        (record { st_header = no_header; len = 0; mask = 1 ∷ 2 ∷ 3 ∷ 4 ∷ []; received = 0 })
        (Event.binary (1 ∷ []) true ∷ [])
unfolding on_data_received
split_binary = refl

-- A text in two reads: the second is read behind the end of its buffer.
split_text :
    on_data_received 1
      (record {
        st_header = record no_header { op_code = 1; fin = 1; pload = 2 };
        len = 2;
        mask = [];
        received = 1;
      })
      (b'x' ∷ [])
    ≡ undefined
unfolding on_data_received
split_text = refl

-- A header that is cut after its first byte.
split_header : on_data_received 1 new_socket (0x81 ∷ []) ≡ undefined
unfolding on_data_received
split_header = refl

-- The answer to a ping keeps the bit of the mask, the mask and all bytes behind the frame.
masked_ping :
    on_data_received 2 new_socket (0x89 ∷ 0x81 ∷ 1 ∷ 2 ∷ 3 ∷ 4 ∷ 5 ∷ 0x8a ∷ 0x00 ∷ [])
    ≡ returns
        (record {
          st_header = record no_header { op_code = 10; fin = 1 };
          len = 0;
          mask = 1 ∷ 2 ∷ 3 ∷ 4 ∷ [];
          received = 0;
        })
        (Event.write (0x8a ∷ 0x81 ∷ 1 ∷ 2 ∷ 3 ∷ 4 ∷ 4 ∷ 0x8a ∷ 0x00 ∷ []) ∷ Event.pong ∷ [])
unfolding on_data_received
masked_ping = refl

hello-IsByte : All IsByte hello
hello-IsByte = (omega arith, (omega arith, (omega arith, (omega arith, (omega arith, tt)))))

abbrev hello_frames : List Frame
hello_frames =
    (record {
      kind = Kind.whole_text;
      is_last = true;
      key = some (record { k0 = 0x37; k1 = 0xfa; k2 = 0x21; k3 = 0x3d });
      payload = hello;
    })
    ∷ (record { kind = Kind.binary_data; is_last = false; key = none; payload = hello })
    ∷ []

hello_frames-IsFrame : All IsFrame hello_frames
hello_frames-IsFrame = (
  (omega arith, hello-IsByte, (omega arith, omega arith, omega arith, omega arith)),
  ((omega arith, hello-IsByte, tt), tt),
)

on_data_received-stream_example :
    (end : SocketParam) × (on_data_received 2 new_socket (stream hello_frames)
      ≡ returns end (events hello_frames))
    × Ready end
on_data_received-stream_example =
    on_data_received-stream 2 new_socket hello_frames hello_frames-IsFrame (refl, refl)
      (omega arith)

on_data_received-write_data_example :
    (bytes : List ℕ) × (write_data hello ≡ some bytes)
    × (end : SocketParam) × (on_data_received 1 new_socket bytes
        ≡ returns end (Event.text hello ∷ []))
    × Ready end
on_data_received-write_data_example =
    on_data_received-write_data new_socket hello (omega arith) hello-IsByte (refl, refl)

on_data_received-Ends_example :
    Ends (on_data_received 5 new_socket (0x88 ∷ 0x02 ∷ 0x03 ∷ 0xe8 ∷ 0x00 ∷ []))
on_data_received-Ends_example =
    on_data_received-Ends 5 new_socket (0x88 ∷ 0x02 ∷ 0x03 ∷ 0xe8 ∷ 0x00 ∷ []) (inr (refl, refl))
      (omega arith)

-- The state behind a close frame with a code.
abbrev closed_socket : SocketParam
closed_socket = record {
  st_header = record no_header { op_code = 8; fin = 1; pload = 2 };
  len = 2;
  mask = 0 ∷ 0 ∷ 0 ∷ 0 ∷ [];
  received = 2;
}

close_sticks :
    on_data_received 1 new_socket (0x88 ∷ 0x02 ∷ 0x03 ∷ 0xe8 ∷ [])
    ≡ returns closed_socket (Event.write (0x88 ∷ 0x02 ∷ 0x03 ∷ 0xe8 ∷ []) ∷ Event.close ∷ [])
unfolding on_data_received
close_sticks = refl

on_data_received-NeverReturns_example :
    NeverReturns (on_data_received 1000 closed_socket (0 ∷ 0 ∷ []))
unfolding http2serv.WebSocket.Rounds.is_handled
on_data_received-NeverReturns_example =
    on_data_received-NeverReturns 1000 closed_socket 0 (0 ∷ []) (omega arith, refl, refl)
