-- ===== src/HttpServ/Flow.antt =====
-- The flow control of DoAction in HttpServ.cpp: what its local functions do to the streams of the
-- connection and to the window that its threads reserve, each under the mutex of the streams.
use http2serv.Prelude.{
  ℕ, suc, zero, ◌+◌, ◌-◌, ◌%◌, ◌^◌, Bool, true, false, not, ltb, leb, ◌==◌, ◌||◌, if◌then◌else◌,
  min,
}
use http2serv.Prelude.{List, [], ◌∷◌, Option, none, some}
use http2serv.Prelude.Int.{ℤ, pos, negsuc, pos_part, neg_part, sub_ℕ, ltb_ℤ}
use http2serv.H2.Streams.{StreamItem, StreamList, find_stream, update_stream}
pub mod Moves
pub mod Updates
pub mod Threads
pub mod Sums
pub mod Invariant
pub mod Safety

-- STREAMLIST and RESERVEDWINDOWSIZE: a key that is not in the map has 0, and the sum is under key 0.
pub record Shared : Type 0 where
  pub streams : StreamList
  pub reserved : ℕ → ℕ

unfoldable pub set : ℕ → ℕ → (ℕ → ℕ) → ℕ → ℕ
set id v f k = if k == id then v else f k

-- The reservation of a stream is taken back.
unfoldable pub release : ℕ → Shared → Shared
unfolding set
release id s = record s { reserved = set id 0 (set 0 (s.reserved 0 - s.reserved id) s.reserved) }

unfoldable pub reserve : ℕ → ℕ → Shared → Shared
unfolding set
reserve id n s = record s { reserved = set id n (set 0 (s.reserved 0 + n) s.reserved) }

-- `w - n`
abbrev pub minus : ℤ → ℕ → ℤ
minus w n = sub_ℕ (pos_part w) (neg_part w + n)

unfoldable pub min_ℤ : ℤ → ℤ → ℤ
min_ℤ a b = if ltb_ℤ b a then b else a

unfoldable pub reserve_positive : ℕ → ℤ → Shared → Shared
unfolding reserve
reserve_positive id (pos zero) s = s
reserve_positive id (pos (suc n)) s = reserve id (suc n) s
reserve_positive id (negsuc n) s = s

-- fnGetStreamWindowSize: the window to send in, `none` if the stream or stream 0 is gone.
unfoldable pub get_stream_window : Bool → ℕ → ℤ → Shared → Option ℤ × Shared
unfolding release min_ℤ reserve_positive
get_stream_window false id w s = (some w, s)
get_stream_window true id w s =
    let s = release id s in
    elim (find_stream id s.streams) [
      | none ↦ (none, s)
      | some item ↦ elim (find_stream 0 s.streams) [
        | none ↦ (none, s)
        | some whole ↦
            let w = min_ℤ item.wnd_size (minus whole.wnd_size (s.reserved 0)) in
            (some w, reserve_positive id w s)
      ]
    ]

-- How much is sent next: nothing while the queue of the socket or the window is full.
unfoldable pub send_len : ℕ → ℤ → ℕ → ℕ → ℕ
send_len queue w buffer rest =
    if leb 0x200000 queue || (pos_part w == 0) then 0 else min (min buffer rest) (pos_part w)

-- fnSendQueueReady: whether the thread sends, the number of bytes, and the reservation for them.
unfoldable pub send_queue_ready : Bool → ℕ → ℕ → ℤ → ℕ → ℕ → Shared → Bool × ℕ × Shared
unfolding release reserve send_len
send_queue_ready http2 id queue w buffer rest s =
    let n = send_len queue w buffer rest in
    (
      not (leb 0x200000 queue || (pos_part w == 0)),
      n,
      (if http2 then (if ltb 0 n then reserve id n (release id s) else release id s) else s),
    )

-- A window after `n` bytes, a number of 32 bits.
unfoldable pub use_window : ℕ → StreamItem → StreamItem
use_window n item = record item { wnd_size = minus item.wnd_size (n % 2 ^ 32) }

-- fnUpdateStreamParam: `false` for its -1.
unfoldable pub update_stream_param : Bool → ℕ → ℕ → Shared → Bool × Shared
unfolding release use_window
update_stream_param false id n s = (true, s)
update_stream_param true id n s =
    let s = release id s in
    elim (find_stream id s.streams) [
      | none ↦ (false, s)
      | some item ↦
          let s = record s { streams = update_stream id (use_window n) s.streams } in
          elim (find_stream 0 s.streams) [
            | none ↦ (false, s)
            | some whole ↦ (true, record s { streams = update_stream 0 (use_window n) s.streams })
          ]
    ]

-- fnResetReservierteWindowSize.
unfoldable pub reset_reserved : Bool → ℕ → Shared → Shared
unfolding release
reset_reserved http2 id s = if http2 then release id s else s

-- fnIsStreamReset.
unfoldable pub is_stream_reset : Bool → ℕ → Shared → Bool
is_stream_reset false id s = false
is_stream_reset true id s = elim (find_stream id s.streams) [
  | none ↦ true
  | some item ↦ item.state.reset_stream
]
