-- ===== src/Tests/HttpServ.antt =====
-- Runs of the server: flow control, headers of responses, tables.
use http2serv.Prelude.{ℕ, ◌+◌, ◌^◌, ◌<◌, ◌≡◌, refl, arith, codes, Bool, true, false, inl, inr, ◌⊎◌}
use http2serv.Prelude.{List, [], ◌∷◌, Option, some, length}
use http2serv.Prelude.Int.{pos}
use http2serv.H2.Streams.{StreamList, new_stream, clear_flag, find_stream}
use http2serv.Hpack.HeadList.{HeadList}
use http2serv.HttpServ.Flow.{Shared, get_stream_window, send_queue_ready}
use http2serv.HttpServ.Flow.Threads.{
  after_get, after_ready, idle, wrote, System, move_to, asks, prepares, writes, Reach, here, next,
}
use http2serv.HttpServ.Tables.{text_of, resp_text, mime_type, mime_list}
use http2serv.HttpServ.Response.{HeaderFlags, to_string, respons_text}

abbrev two_streams : StreamList
two_streams =
    (0, new_stream clear_flag [] 100)
    ∷ (1, new_stream clear_flag [] 65535)
    ∷ (3, new_stream clear_flag [] 65535)
    ∷ []

abbrev start_system : System
start_system = record {
  shared = record { streams = two_streams; reserved = λ k. 0 };
  phases = λ k. idle;
  written = 0;
  unasked = 0;
  granted = 100;
}

abbrev asked : System
asked = record start_system {
  shared = (get_stream_window true 1 (pos 0) start_system.shared).1;
  phases =
      move_to 1 (after_get (get_stream_window true 1 (pos 0) start_system.shared).0)
        start_system.phases;
}

abbrev prepared : System
prepared = record asked {
  shared = (send_queue_ready true 1 0 (pos 100) 16384 60 asked.shared).2;
  phases =
      move_to 1
        (after_ready (send_queue_ready true 1 0 (pos 100) 16384 60 asked.shared).0
          (send_queue_ready true 1 0 (pos 100) 16384 60 asked.shared).1)
        asked.phases;
}

abbrev written_out : System
written_out = record prepared { phases = move_to 1 (wrote 60) prepared.phases; written = 60 }

-- Every thread has the stream of its number.
abbrev own_stream : ℕ → ℕ
own_stream k = k

-- Two threads for one stream, as trailers make them: the second releases what the first has reserved, and
-- 160 bytes are written where the peer has granted 100.
abbrev one_stream : ℕ → ℕ
one_stream k = 1

abbrev asks_of : ℕ → System → System
asks_of id s = record s {
  shared = (get_stream_window true 1 (pos 0) s.shared).1;
  phases = move_to id (after_get (get_stream_window true 1 (pos 0) s.shared).0) s.phases;
}

abbrev prepares_of : ℕ → System → System
prepares_of id s = record s {
  shared = (send_queue_ready true 1 0 (pos 100) 16384 80 s.shared).2;
  phases =
      move_to id
        (after_ready (send_queue_ready true 1 0 (pos 100) 16384 80 s.shared).0
          (send_queue_ready true 1 0 (pos 100) 16384 80 s.shared).1)
        s.phases;
}

abbrev writes_of : ℕ → System → System
writes_of id s = record s { phases = move_to id (wrote 80) s.phases; written = s.written + 80 }

abbrev both_asked : System
both_asked = asks_of 3 (asks_of 1 start_system)

abbrev both_prepared : System
both_prepared = prepares_of 3 (prepares_of 1 both_asked)

abbrev both_wrote : System
both_wrote = writes_of 3 (writes_of 1 both_prepared)

too_much :
    Reach (1 ∷ 3 ∷ []) one_stream start_system both_wrote
    × (both_wrote.granted < both_wrote.written)
unfolding get_stream_window send_queue_ready move_to find_stream new_stream
too_much = (
  next
      (next
        (next
          (next
            (next (next here (asks start_system 1 (pos 0) (inl refl) refl))
              (asks (asks_of 1 start_system) 3 (pos 0) (inr (inl refl)) refl))
            (prepares both_asked 1 0 (pos 100) 16384 80 (inl refl) refl (omega arith)))
          (prepares (prepares_of 1 both_asked) 3 0 (pos 100) 16384 80 (inr (inl refl)) refl
            (omega arith)))
        (writes both_prepared 1 80 (inl refl) refl))
      (writes (writes_of 1 both_prepared) 3 80 (inr (inl refl)) refl),
  omega arith,
)

-- The first thread takes the whole window of the connection, and the second finds nothing left.
abbrev first_asks : Shared
first_asks = (get_stream_window true 1 (pos 0) start_system.shared).1

window_taken : (get_stream_window true 1 (pos 0) start_system.shared).0 ≡ some (pos 100)
unfolding get_stream_window find_stream new_stream
window_taken = refl

nothing_left : (get_stream_window true 3 (pos 0) first_asks).0 ≡ some (pos 0)
unfolding get_stream_window find_stream new_stream
nothing_left = refl

not_found : text_of resp_text 404 ≡ codes "Not Found"
unfolding text_of resp_text
not_found = refl

unknown_type : mime_type mime_list (codes "xyz") ≡ codes "application/octet-stream"
unfolding mime_type mime_list http2serv.Prelude.bytes_eq
unknown_type = refl

abbrev plain_flags : HeaderFlags
plain_flags = record {
  terminate_header = true;
  add_connection_close = true;
  add_no_cache = true;
  http_version11 = true;
  add_conent_length = true;
  gzip_encoding = false;
  deflate_encoding = false;
  brotli_coding = false;
}

abbrev a_date : List ℕ
a_date = codes "Mon"

http1_header :
    respons_text plain_flags 204 ((codes "Pragma", codes "x") ∷ []) 0 a_date
    ≡ codes
        "HTTP/1.1 204 No Content\r\nServer: Http2Serv/1.1.0\r\nDate: Mon\r\nContent-Length: 0\r\nPragma: x\r\nConnection: close\r\n\r\n"
unfolding respons_text text_of resp_text to_string http2serv.Prelude.bytes_eq
    http2serv.Hpack.HeadList.to_lower
http1_header = refl
