-- ===== src/HttpServ/Flow/Threads.antt =====
-- The threads of one connection that run DoAction, each for a stream, and the peer.
use http2serv.Prelude.{
  ℕ, ◌+◌, ◌^◌, ◌<◌, ◌≡◌, ◌≢◌, ◌⊎◌, Bool, true, false, ◌==◌, if◌then◌else◌, List, [], ◌∷◌, Option,
  none, some,
}
use http2serv.Prelude.Int.{ℤ}
use http2serv.H2.Streams.{StreamList, find_stream}
use http2serv.HttpServ.Flow.{
  Shared, get_stream_window, send_queue_ready, update_stream_param, reset_reserved, is_stream_reset,
}
use http2serv.HttpServ.Flow.Moves.{HasWindow}

-- Where a thread is in its loop: at the head, with the answer of fnGetStreamWindowSize, with that of
-- fnSendQueueReady, and behind the write of the bytes.
pub data Phase : Type 0 where
  idle : Phase
  holds : ℤ → Phase
  ready : ℕ → Phase
  wrote : ℕ → Phase

-- The threads, the bytes of DATA frames that their loops have written, and the bytes that
-- the peer has granted the connection since its beginning. `unasked` are the bytes of DATA frames that are
-- written without a look at the windows: the bodies of errors (SendErrorRespons and the answer 401), and
-- what is left behind the end of a CGI program.
pub record System : Type 0 where
  pub shared : Shared
  pub phases : ℕ → Phase
  pub written : ℕ
  pub unasked : ℕ
  pub granted : ℕ

unfoldable pub move_to : ℕ → Phase → (ℕ → Phase) → ℕ → Phase
move_to id p phases k = if k == id then p else phases k

abbrev pub after_get : Option ℤ → Phase
after_get none = idle
after_get (some w) = holds w

abbrev pub after_ready : Bool → ℕ → Phase
after_ready true n = ready n
after_ready false n = idle

abbrev pub Has : ℕ → List ℕ → Type 0
Has id [] = ⊥
Has id (x ∷ xs) = (x ≡ id) ⊎ Has id xs

-- A step of a thread in `ids`, which runs DoAction for the stream `stream id`, or of the peer, which extends
-- the window of the connection by `more` bytes and may change every stream but removes none. Two threads can
-- have the same stream, since trailers call the action again.
pub data Step (ids : List ℕ) (stream : ℕ → ℕ) : System → System → Type 0 where
  asks :
      (s : System) (id : ℕ) (old : ℤ)
      → Has id ids
      → s.phases id ≡ idle
      → Step ids stream s (record s {
        shared = (get_stream_window true (stream id) old s.shared).1;
        phases =
            move_to id (after_get (get_stream_window true (stream id) old s.shared).0) s.phases;
      })
  prepares :
      (s : System) (id queue : ℕ) (w : ℤ) (buffer rest : ℕ)
      → Has id ids
      → s.phases id ≡ holds w
      → buffer < 2 ^ 32
      → Step ids stream s (record s {
        shared = (send_queue_ready true (stream id) queue w buffer rest s.shared).2;
        phases =
            move_to id
              (after_ready
                (send_queue_ready true (stream id) queue w buffer rest s.shared).0
                (send_queue_ready true (stream id) queue w buffer rest s.shared).1)
              s.phases;
      })
  writes :
      (s : System) (id n : ℕ)
      → Has id ids
      → s.phases id ≡ ready n
      → Step ids stream s
          (record s { phases = move_to id (wrote n) s.phases; written = s.written + n })
  skips :
      (s : System) (id n : ℕ)
      → Has id ids
      → s.phases id ≡ ready n
      → is_stream_reset true (stream id) s.shared ≡ true
      → Step ids stream s (record s { phases = move_to id (wrote n) s.phases })
  updates :
      (s : System) (id n : ℕ)
      → Has id ids
      → s.phases id ≡ wrote n
      → Step ids stream s (record s {
        shared = (update_stream_param true (stream id) n s.shared).1;
        phases = move_to id idle s.phases;
      })
  leaves :
      (s : System) (id : ℕ)
      → Has id ids
      → s.phases id ≡ idle
      → Step ids stream s (record s {
        shared = reset_reserved true (stream id) s.shared;
        phases = move_to id idle s.phases;
      })
  writes_unasked :
      (s : System) (id n : ℕ)
      → Has id ids
      → s.phases id ≡ idle
      → Step ids stream s (record s { unasked = s.unasked + n })
  peer :
      (s : System) (streams : StreamList) (more : ℕ)
      → ((w : ℕ)
          → HasWindow w s.shared
          → HasWindow (w + more) (record s.shared { streams = streams }))
      → ((k : ℕ) → find_stream k s.shared.streams ≢ none → find_stream k streams ≢ none)
      → Step ids stream s
          (record s { shared = record s.shared { streams = streams }; granted = s.granted + more })

pub data Reach (ids : List ℕ) (stream : ℕ → ℕ) (s : System) : System → Type 0 where
  here : Reach ids stream s s
  next : {t u : System} → Reach ids stream s t → Step ids stream t u → Reach ids stream s u
