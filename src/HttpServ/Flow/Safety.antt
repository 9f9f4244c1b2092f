-- ===== src/HttpServ/Flow/Safety.antt =====
-- The bytes that the threads write stay within the window of the connection.
use http2serv.Prelude.{ℕ, ◌≡◌, ◌≢◌, List, none}
use http2serv.H2.Streams.{find_stream}
use http2serv.HttpServ.Flow.Moves.{HasWindow}
use http2serv.HttpServ.Flow.Threads.{idle, System, Has}

-- The beginning: no thread is in its loop, nothing is reserved or written, and the window of the
-- connection is what the peer has granted.
pub record IsFresh (ids : List ℕ) (stream : ℕ → ℕ) (s : System) : Type 0 where
  pub all_idle : (k : ℕ) → s.phases k ≡ idle
  pub none_reserved : (k : ℕ) → s.shared.reserved k ≡ 0
  pub none_written : s.written ≡ 0
  pub whole_window : HasWindow s.granted s.shared
  pub whole_there : find_stream 0 s.shared.streams ≢ none
  pub streams_there : (k : ℕ) → Has k ids → find_stream (stream k) s.shared.streams ≢ none
