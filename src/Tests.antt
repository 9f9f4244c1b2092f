-- ===== src/Tests.antt =====
-- Runs of the model: header blocks of RFC 7541 and frames of small connections.
pub mod WebSocket
pub mod ConfFile
pub mod HttpServ
pub mod Timer
pub mod Upload
pub mod Request
use http2serv.Prelude.{
  ℕ, ◌+◌, ◌-◌, ◌*◌, ◌/◌, ◌%◌, ◌^◌, ◌<◌, ◌≤◌, ◌≡◌, ◌≢◌, refl, arith, codes, Bool, true, false, leb,
}
use http2serv.Prelude.{
  List, [], ◌∷◌, ◌++◌, Option, none, some, length, All, IsByte, all_below, if◌then◌else◌,
}
use http2serv.Prelude.Int.{pos, ◌+ℤ◌}
use http2serv.Hpack.Result
use http2serv.Hpack.Result.{missing_streamid, stream_closed, wrong_stream_id}
use http2serv.Hpack.Integer.{encode_integer, decode_index}
use http2serv.Hpack.Integer.Bounds.{integer_bytes, encode_integer_lem}
use http2serv.Hpack.Integer.RoundTrip.{decode_index-encode_integer, plain-IsPrefix}
use http2serv.Hpack.Huffman.{whole_bytes, huffman_encode, huffman_decode}
use http2serv.Hpack.Huffman.RoundTrip.{text_bits}
use http2serv.Hpack.Huffman.Total.{huffman_round_trip}
use http2serv.Hpack.Text.{encode_string, decode_string}
use http2serv.Hpack.Text.RoundTrip.{string_round_trip}
use http2serv.Hpack.Encode.{hpack_encode}
use http2serv.Hpack.Encode.Front.{IsSendable}
use http2serv.Hpack.Encode.RoundTrip.{Sends, hpack_round_trip}
use http2serv.Hpack.Fields.{HeaderState, stuck, http2_decode_header}
use http2serv.Hpack.Fields.Added.{IsHeader}
use http2serv.Hpack.Fields.WellFormed.{OutcomeIsHeader, http2_decode_header-IsHeader}
use http2serv.Hpack.Fields.Termination.{http2_decode_header-total}
use http2serv.H2.Frame.{H2Frame, build_http2_frame, read_frame_header}
use http2serv.H2.Exec.{Exec}
use http2serv.H2.Streams.{StreamItem, new_stream, clear_flag, find_stream}
use http2serv.H2.Exec.{StreamSettings, Conn, ok, throw}
use http2serv.H2.Data.{data_guards}
use http2serv.H2.Settings.{window_change}
use http2serv.H2.Settings.Window.{window_change-difference}
use http2serv.H2.Frame.RoundTrip.{read_frame_header-build_http2_frame}
use http2serv.H2.Proto.{frames, start}
use http2serv.H2.Proto.Answers.{Handled}
use http2serv.H2.Proto.Answers.{Handled}
use http2serv.H2.Proto.Ends.{ended_stream-data_guards}
use http2serv.H2.Steps.Frames.{LoopArrives}
use http2serv.H2.Steps.Table.{IsSorted}
use http2serv.H2.Steps.Relations.{StreamsKept, frames-StreamsKept}
use http2serv.CommonLib.UrlCode.{url_encode, percent_decode, percent_decode-url_encode}
use http2serv.CommonLib.Base64.{encode, decode}
use http2serv.CommonLib.Base64.RoundTrip.{decode-encode}

abbrev te_text : List ℕ
te_text = codes "te"

te_text-IsByte : All IsByte te_text
te_text-IsByte = (omega arith, (omega arith, tt))

encode_integer_lem_example : encode_integer 2 1337 0x1f 0x20 ≡ (
    if leb (length (integer_bytes 1337 0x1f 0x20)) 2
    then some (integer_bytes 1337 0x1f 0x20)
    else none)
encode_integer_lem_example = encode_integer_lem 2 1337 0x1f 0x20

decode_index-encode_integer_example :
    decode_index 0x7f ((0x7f ∷ 0xad ∷ 0x01 ∷ []) ++ (7 ∷ [])) ≡ Result.ok (300, 7 ∷ [])
unfolding encode_integer
decode_index-encode_integer_example =
    decode_index-encode_integer 5 300 0x7f 0x00 (0x7f ∷ 0xad ∷ 0x01 ∷ []) (7 ∷ []) plain-IsPrefix
      (omega arith) refl

huffman_round_trip_example :
    (bytes : List ℕ) × (huffman_encode 100 te_text ≡ some bytes)
    × (length bytes ≡ whole_bytes (length (text_bits te_text)))
    × (huffman_decode bytes ≡ (te_text, 0))
unfolding text_bits whole_bytes http2serv.Hpack.Huffman.Tables.code_bits
    http2serv.Hpack.Huffman.Bits.bits_of http2serv.Hpack.Huffman.code_at
    http2serv.Hpack.Codes.huff_codes
huffman_round_trip_example = huffman_round_trip 100 te_text te_text-IsByte (omega arith)

string_round_trip_example :
    (bytes : List ℕ) × (encode_string 100 te_text ≡ some bytes)
    × (length bytes ≤ length te_text + 6)
    × ((rest : List ℕ) → decode_string (bytes ++ rest) ≡ Result.ok (te_text, rest))
string_round_trip_example = string_round_trip 100 te_text te_text-IsByte (omega arith) (omega arith)

te_text-IsSendable : IsSendable te_text
unfolding http2serv.Hpack.HeadList.to_lower http2serv.Hpack.Header.has_lower
    http2serv.Prelude.bytes_eq http2serv.Hpack.Header.is_pseudo
te_text-IsSendable = record { lower = refl; letter = refl; allowed = refl; known = refl }

hpack_round_trip_example :
    (bytes : List ℕ) × (hpack_encode 100 te_text te_text ≡ some bytes) × Sends te_text te_text bytes
hpack_round_trip_example =
    hpack_round_trip 100 te_text te_text te_text-IsSendable te_text-IsByte te_text-IsByte
      (omega arith) (omega arith) (omega arith)

-- The first request of RFC 7541, C.4.1.
abbrev first_request : List ℕ
first_request =
    0x82 ∷ 0x86 ∷ 0x84 ∷ 0x41 ∷ 0x8c ∷ 0xf1 ∷ 0xe3 ∷ 0xc2 ∷ 0xe5 ∷ 0xf2 ∷ 0x3a ∷ 0x6b ∷ 0xa0 ∷ 0xab
    ∷ 0x90 ∷ 0xf4 ∷ 0xff ∷ []

abbrev empty_state : HeaderState
empty_state = record { table = []; fields = [] }

empty_state-IsHeader : IsHeader empty_state.fields
empty_state-IsHeader = record { pseudo_first = tt; pseudo_once = tt; te_trailers = tt }

http2_decode_header-IsHeader_example :
    OutcomeIsHeader (http2_decode_header 4096 empty_state first_request)
http2_decode_header-IsHeader_example =
    http2_decode_header-IsHeader 4096 empty_state first_request empty_state-IsHeader

http2_decode_header-total_example : http2_decode_header 4096 empty_state first_request ≢ stuck
http2_decode_header-total_example = http2_decode_header-total 4096 empty_state first_request

-- A connection with stream 1, whose data has ended.
abbrev half_closed : StreamItem
half_closed = new_stream (record clear_flag { stream_end = true }) [] 65535

abbrev one_stream : Conn
one_stream = record {
  streams = (0, new_stream clear_flag [] 65535) ∷ (1, half_closed) ∷ [];
  table = [];
  settings = record {
    max_stream_count = 100;
    init_window_size = 65535;
    max_frame_size = 16384;
    max_header_size = 0;
    header_table_size = 4096;
  };
  sent = [];
  actions = [];
  input = [];
  len = 0;
  closing = false;
}

abbrev ping : List ℕ
ping = 0 ∷ 0 ∷ 8 ∷ 6 ∷ 0 ∷ 0 ∷ 0 ∷ 0 ∷ 0 ∷ 1 ∷ 2 ∷ 3 ∷ 4 ∷ 5 ∷ 6 ∷ 7 ∷ 8 ∷ []

abbrev pong : List ℕ
pong = 0 ∷ 0 ∷ 8 ∷ 6 ∷ 1 ∷ 0 ∷ 0 ∷ 0 ∷ 0 ∷ 1 ∷ 2 ∷ 3 ∷ 4 ∷ 5 ∷ 6 ∷ 7 ∷ 8 ∷ []

abbrev pinged : Conn
pinged = record one_stream { input = ping; len = 17 }

abbrev answered : Conn
answered = record one_stream { sent = pong ∷ [] }

frames-ping : frames pinged ≡ some (ok tt answered)
unfolding frames read_frame_header find_stream http2serv.H2.Control.ping_frame
    http2serv.H2.Frame.has_flag http2serv.H2.Exec.sub64
frames-ping = refl

one_stream-IsSorted : IsSorted one_stream.streams
one_stream-IsSorted = ((omega arith, tt), (tt, tt))

frames-StreamsKept_example : LoopArrives StreamsKept pinged (frames pinged)
frames-StreamsKept_example = frames-StreamsKept pinged one_stream-IsSorted

ended_stream-data_guards_example : data_guards 1 10 0 answered ≡ throw stream_closed 1 answered
unfolding find_stream new_stream
ended_stream-data_guards_example =
    ended_stream-data_guards 1 10 0 pinged answered half_closed (new_stream clear_flag [] 65535)
      one_stream-IsSorted frames-ping (ground arith) refl refl refl refl

-- A PRIORITY frame on stream 2, which no client may open.
abbrev even_stream : List ℕ
even_stream = 0 ∷ 0 ∷ 5 ∷ 2 ∷ 0 ∷ 0 ∷ 0 ∷ 0 ∷ 2 ∷ 0 ∷ 0 ∷ 0 ∷ 1 ∷ 16 ∷ []

abbrev refused_stream : Conn
refused_stream = record one_stream { input = 0 ∷ 0 ∷ 0 ∷ 1 ∷ 16 ∷ []; len = 5 }

frames-even_stream :
    frames (start even_stream one_stream) ≡ some (throw wrong_stream_id 0 refused_stream)
unfolding frames read_frame_header find_stream http2serv.H2.Exec.sub64
frames-even_stream = refl

read_frame_header-build_http2_frame_example :
    read_frame_header (build_http2_frame 5 2 0 0x08000001 ++ (7 ∷ []))
    ≡ some (record { size = 5; typ = 2; flag = 0; stream_id = 1; r = false })
read_frame_header-build_http2_frame_example =
    read_frame_header-build_http2_frame 5 2 0 0x08000001 (7 ∷ []) (omega arith) (omega arith)

window_change-difference_example : pos 65535 +ℤ window_change 16384 65535 ≡ pos 16384
window_change-difference_example = window_change-difference 16384 65535 (omega arith) (omega arith)

percent_decode-url_encode_example : percent_decode (url_encode (codes "a b")) ≡ codes "a b"
percent_decode-url_encode_example =
    percent_decode-url_encode (codes "a b") (omega arith, (omega arith, (omega arith, tt)))

decode-encode_example : decode true (encode true te_text) ≡ te_text
unfolding http2serv.CommonLib.Base64.RoundTrip.loses
decode-encode_example = decode-encode true te_text te_text-IsByte
