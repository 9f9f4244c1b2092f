-- ===== src/HttpServ/Flow/Moves.antt =====
-- What each local function of DoAction does to the reservations and to the window of the connection.
use http2serv.Prelude.{ℕ, suc, zero, ◌+◌, ◌-◌, ◌≤◌, ◌≡◌, ◌≢◌, refl, arith, min}
use http2serv.Prelude.{
  Bool, true, false, not, ltb, leb, ◌==◌, ◌||◌, if◌then◌else◌, Option, none, some,
}
use http2serv.Prelude.Int.{ℤ, pos, negsuc, pos_part}
use mathlib.Core.Path.{subst}
use http2serv.H2.Streams.{StreamItem, find_stream}
use http2serv.HttpServ.Flow.{
  Shared, set, release, reserve, minus, min_ℤ, reserve_positive, get_stream_window, send_len,
  send_queue_ready,
}

-- Stream `id` has `n` bytes reserved now, and the sum has changed by the difference.
pub record Moves (id n : ℕ) (s t : Shared) : Type 0 where
  pub own : t.reserved id ≡ n
  pub sum : t.reserved 0 ≡ (s.reserved 0 - s.reserved id) + n
  pub others : (k : ℕ) → k ≢ 0 → k ≢ id → t.reserved k ≡ s.reserved k

-- The window of the connection.
abbrev pub HasWindow : ℕ → Shared → Type 0
HasWindow w s = (item : StreamItem) → find_stream 0 s.streams ≡ some item → item.wnd_size ≡ pos w

module _ (id : ℕ) (s : Shared) (nonzero : id ≢ 0) where
  pub release-Moves : Moves id 0 s (release id s)
  unfolding release set
  release-Moves = record {
    own = ground (arith, nonzero);
    sum = ground (arith, nonzero);
    others = λ k h j. ground (arith, h, j);
  }

  reserve-Moves : (n : ℕ) → Moves id n s (reserve id n (release id s))
  unfolding release reserve set
  reserve-Moves n = record {
    own = ground (arith, nonzero);
    sum = ground (arith, nonzero);
    others = λ k h j. ground (arith, h, j);
  }

  reserve_positive-Moves : (w : ℤ) → Moves id (pos_part w) s (reserve_positive id w (release id s))
  unfolding reserve_positive
  reserve_positive-Moves (pos zero) = release-Moves
  reserve_positive-Moves (pos (suc n)) = reserve-Moves (suc n)
  reserve_positive-Moves (negsuc n) = release-Moves

-- The answer of fnGetStreamWindowSize: a window that the connection has left, and that is reserved.
unfoldable pub Got : ℕ → ℕ → Shared → Option ℤ × Shared → Type 0
Got id w s (none, t) = Moves id 0 s t × (t.streams ≡ s.streams)
Got id w s (some size, t) =
    Moves id (pos_part size) s t
    × (t.streams ≡ s.streams)
    × (pos_part size ≤ w - (s.reserved 0 - s.reserved id))

min_ℤ-le : (a : ℤ) (w r : ℕ) → pos_part (min_ℤ a (minus (pos w) r)) ≤ w - r
unfolding min_ℤ
min_ℤ-le a w r = ground arith

size_le : (a c : ℤ) (w r q : ℕ) → c ≡ pos w → r ≡ q → pos_part (min_ℤ a (minus c r)) ≤ w - q
size_le a c w r q e k = rw (e, k) (min_ℤ-le a w q)

reserve_positive-streams :
    (id : ℕ) (w : ℤ) (s : Shared) → (reserve_positive id w s).streams ≡ s.streams
unfolding reserve_positive reserve
reserve_positive-streams id (pos zero) s = refl
reserve_positive-streams id (pos (suc n)) s = refl
reserve_positive-streams id (negsuc n) s = refl

pub get_stream_window-Got :
    (id : ℕ) (old : ℤ) (w : ℕ) (s : Shared)
    → id ≢ 0
    → HasWindow w s
    → Got id w s (get_stream_window true id old s)
unfolding get_stream_window Got
get_stream_window-Got id old w s nonzero h =
    elim (find_stream id s.streams)
      as (λ o. Got id w s (elim o [
        | none ↦ (none, release id s)
        | some item ↦ elim (find_stream 0 s.streams) [
          | none ↦ (none, release id s)
          | some whole ↦
              let w = min_ℤ item.wnd_size (minus whole.wnd_size ((release id s).reserved 0)) in
              (some w, reserve_positive id w (release id s))
        ]
      ])) [
        | none ↦ (release-Moves id s nonzero, refl)
        | some item ↦
            elim (find_stream 0 s.streams)
                as (λ o.
                  ((whole : StreamItem) → o ≡ some whole → whole.wnd_size ≡ pos w)
                  → Got id w s (elim o [
                    | none ↦ (none, release id s)
                    | some whole ↦
                        let w =
                          min_ℤ item.wnd_size (minus whole.wnd_size ((release id s).reserved 0)) in
                        (some w, reserve_positive id w (release id s))
                  ])) [
                    | none ↦ λ f. (release-Moves id s nonzero, refl)
                    | some whole ↦ λ f.
                        let r = (release id s).reserved 0 in
                        let size = min_ℤ item.wnd_size (minus whole.wnd_size r) in
                        (
                          reserve_positive-Moves id s nonzero size,
                          reserve_positive-streams id size (release id s),
                          size_le item.wnd_size whole.wnd_size w r (s.reserved 0 - s.reserved id)
                              (f whole refl) (omega (arith, (release-Moves id s nonzero).sum)),
                        )
                  ]
              h
      ]

send_len-le : (queue : ℕ) (w : ℤ) (buffer rest : ℕ) → send_len queue w buffer rest ≤ pos_part w
unfolding send_len
send_len-le queue w buffer rest = ground arith

send_len-le_min :
    (queue : ℕ) (w : ℤ) (buffer rest : ℕ) → send_len queue w buffer rest ≤ min buffer rest
unfolding send_len
send_len-le_min queue w buffer rest = ground arith

send_len-waits :
    (queue : ℕ) (w : ℤ) (buffer rest : ℕ)
    → not (leb 0x200000 queue || (pos_part w == 0)) ≡ false
    → send_len queue w buffer rest ≡ 0
unfolding send_len
send_len-waits queue w buffer rest =
    elim (leb 0x200000 queue || (pos_part w == 0))
      as (λ b. not b ≡ false → (if b then 0 else min (min buffer rest) (pos_part w)) ≡ 0) [
        | true ↦ λ h. refl
        | false ↦ λ h. cc
      ]

ready-streams :
    (b : Bool) (id n : ℕ) (s : Shared)
    → (if b then reserve id n (release id s) else release id s).streams ≡ s.streams
unfolding reserve release
ready-streams true id n s = refl
ready-streams false id n s = refl

ready-Moves :
    (b : Bool) (id n : ℕ) (s : Shared)
    → id ≢ 0
    → ltb 0 n ≡ b
    → Moves id n s (if b then reserve id n (release id s) else release id s)
ready-Moves true id n s nonzero h = reserve-Moves id s nonzero n
ready-Moves false id n s nonzero h =
    let none_sent : 0 ≡ n = ground (arith, h) in
    subst (λ k. Moves id k s (release id s)) none_sent (release-Moves id s nonzero)

-- The answer of fnSendQueueReady: the bytes to send are what is reserved now, within the window, the
-- buffer and the rest; without them there is nothing to send.
pub record IsReady (id buffer rest : ℕ) (w : ℤ) (s : Shared) (r : Bool × ℕ × Shared) : Type 0 where
  pub moves : Moves id r.1 s r.2
  pub streams_same : r.2.streams ≡ s.streams
  pub in_window : r.1 ≤ pos_part w
  pub in_buffer : r.1 ≤ min buffer rest
  pub waits : r.0 ≡ false → r.1 ≡ 0

pub send_queue_ready-IsReady :
    (id queue : ℕ) (w : ℤ) (buffer rest : ℕ) (s : Shared)
    → id ≢ 0
    → IsReady id buffer rest w s (send_queue_ready true id queue w buffer rest s)
unfolding send_queue_ready
send_queue_ready-IsReady id queue w buffer rest s nonzero =
    let n = send_len queue w buffer rest in
    record {
      moves = ready-Moves (ltb 0 n) id n s nonzero refl;
      streams_same = ready-streams (ltb 0 n) id n s;
      in_window = send_len-le queue w buffer rest;
      in_buffer = send_len-le_min queue w buffer rest;
      waits = send_len-waits queue w buffer rest;
    }
