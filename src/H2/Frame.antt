-- ===== src/H2/Frame.antt =====
-- Frame headers and the frames that the protocol itself sends: H2FRAME, BuildHttp2Frame,
-- Http2WindowUpdate, Http2StreamError and Http2Goaway of H2Proto.h, and the reading of a frame header
-- in Http2StreamProto.
pub mod RoundTrip
use http2serv.Prelude.{ℕ, ◌+◌, ◌*◌, ◌/◌, ◌%◌, ◌^◌, bit_and, Bool, ◌==◌, leb, if◌then◌else◌}
use http2serv.Prelude.{List, [], ◌∷◌, ◌++◌, Option, none, some}

pub record H2Frame : Type 0 where
  pub size : ℕ
  pub typ : ℕ
  pub flag : ℕ
  pub stream_id : ℕ
  pub r : Bool

abbrev pub h2_header_len : ℕ
h2_header_len = 9

-- HTTP2FLAGS.
abbrev pub end_of_stream : ℕ
end_of_stream = 0x1

abbrev pub end_of_header : ℕ
end_of_header = 0x4

abbrev pub padded : ℕ
padded = 0x8

abbrev pub priority : ℕ
priority = 0x20

abbrev pub ack_settings : ℕ
ack_settings = 0x1

-- `(flag & f) == f`
unfoldable pub has_flag : ℕ → ℕ → Bool
has_flag flag f = bit_and flag f == f

-- The four bytes that `htonl` leaves in memory.
unfoldable pub word_bytes : ℕ → List ℕ
word_bytes v = (v / 2 ^ 24 % 256) ∷ (v / 2 ^ 16 % 256) ∷ (v / 2 ^ 8 % 256) ∷ (v % 256) ∷ []

-- The stream id is masked by 0xfffffff7 after `htonl`: the byte sent first is masked by 0xf7.
unfoldable pub build_http2_frame : ℕ → ℕ → ℕ → ℕ → List ℕ
build_http2_frame len typ flag id =
    (len / 2 ^ 16 % 256)
    ∷ (len / 2 ^ 8 % 256)
    ∷ (len % 256)
    ∷ typ
    ∷ flag
    ∷ bit_and (id / 2 ^ 24 % 256) 0xf7
    ∷ (id / 2 ^ 16 % 256)
    ∷ (id / 2 ^ 8 % 256)
    ∷ (id % 256)
    ∷ []

-- The three functions return what they hand to `Write`.
unfoldable pub http2_window_update : ℕ → ℕ → List ℕ
unfolding build_http2_frame word_bytes
http2_window_update id size = build_http2_frame 4 8 0 id ++ word_bytes size

unfoldable pub http2_stream_error : ℕ → ℕ → List ℕ
unfolding build_http2_frame word_bytes
http2_stream_error id code = build_http2_frame 4 3 0 id ++ word_bytes code

unfoldable pub http2_goaway : ℕ → ℕ → ℕ → List ℕ
unfolding build_http2_frame word_bytes
http2_goaway id last code = build_http2_frame 8 7 0 id ++ (word_bytes last ++ word_bytes code)

-- `ntohl` of four bytes in memory.
unfoldable pub word_value : ℕ → ℕ → ℕ → ℕ → ℕ
word_value a b c d = a * 2 ^ 24 + b * 2 ^ 16 + c * 2 ^ 8 + d

-- The frame header at the front of the bytes, `none` if fewer than nine are there.
unfoldable pub read_frame_header : List ℕ → Option H2Frame
unfolding word_value
read_frame_header (a ∷ b ∷ c ∷ t ∷ f ∷ w ∷ x ∷ y ∷ z ∷ rest) = some (record {
  size = a * 2 ^ 16 + b * 2 ^ 8 + c;
  typ = t;
  flag = f;
  stream_id = word_value w x y z % 2 ^ 31;
  r = leb (2 ^ 31) (word_value w x y z);
})
read_frame_header _ = none
