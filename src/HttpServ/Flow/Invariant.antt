-- ===== src/HttpServ/Flow/Invariant.antt =====
-- What holds of the threads, and that each step keeps it.
use http2serv.Prelude.{
  ℕ, ◌+◌, ◌-◌, ◌^◌, ◌<◌, ◌≤◌, ◌≡◌, ◌≢◌, refl, sym, ap, ◌∙◌, arith, inl, inr, Bool, true, false,
  ◌==◌, Bool-cases, ==_iff, List, [], ◌∷◌, Option, none, some,
}
use mathlib.Core.Path.{subst}
use http2serv.Prelude.Int.{ℤ, pos_part}
use http2serv.H2.Streams.{find_stream}
use http2serv.HttpServ.Flow.{Shared, release, update_stream_param, reset_reserved}
use http2serv.HttpServ.Flow.Moves.{Moves, HasWindow, release-Moves, Got, IsReady}
use http2serv.HttpServ.Flow.Updates.{update_stream_param-IsUpdated}
use http2serv.HttpServ.Flow.Threads.{
  Phase, idle, holds, ready, wrote, System, move_to, after_get, after_ready, Has,
}
use http2serv.HttpServ.Flow.Sums.{sum, AllDiffer, sum_change}

unfoldable pub held : Phase → ℕ
held idle = 0
held (holds w) = pos_part w
held (ready n) = n
held (wrote n) = n

-- Bytes that are written and not taken from the windows yet.
unfoldable pub pending : Phase → ℕ
pending idle = 0
pending (holds w) = 0
pending (ready n) = 0
pending (wrote n) = n

-- The bytes of a thread are a number of 32 bits.
abbrev pub IsSmall : Phase → Type 0
IsSmall idle = Unit {0}
IsSmall (holds w) = Unit {0}
IsSmall (ready n) = n < 2 ^ 32
IsSmall (wrote n) = n < 2 ^ 32

pending-le-held : (p : Phase) → pending p ≤ held p
unfolding pending held
pending-le-held idle = omega arith
pending-le-held (holds w) = omega arith
pending-le-held (ready n) = omega arith
pending-le-held (wrote n) = omega arith

sum_le : (f g : ℕ → ℕ) (xs : List ℕ) → ((k : ℕ) → f k ≤ g k) → sum f xs ≤ sum g xs
unfolding sum
sum_le f g [] h = omega arith
sum_le f g (x ∷ xs) h = omega (arith, h x, sum_le f g xs h)

-- No two threads have the same stream.
abbrev pub OneEach : List ℕ → (ℕ → ℕ) → Type 0
OneEach ids stream = (i j : ℕ) → Has i ids → Has j ids → stream i ≡ stream j → i ≡ j

-- What holds at every step: `w` bytes of the window of the connection are left, the reservations are
-- those of the threads and do not exceed the window, and what was written is accounted for.
pub record IsSound (ids : List ℕ) (stream : ℕ → ℕ) (s : System) : Type 0 where
  pub w : ℕ
  pub window : HasWindow w s.shared
  pub whole : find_stream 0 s.shared.streams ≢ none
  pub there : (k : ℕ) → Has k ids → find_stream (stream k) s.shared.streams ≢ none
  pub own : (k : ℕ) → Has k ids → s.shared.reserved (stream k) ≡ held (s.phases k)
  pub small : (k : ℕ) → IsSmall (s.phases k)
  pub total : s.shared.reserved 0 ≡ sum (λ k. held (s.phases k)) ids
  pub within : s.shared.reserved 0 ≤ w
  pub credit : s.written + w ≤ s.granted + sum (λ k. pending (s.phases k)) ids

pub IsSound-within :
    (ids : List ℕ) (stream : ℕ → ℕ) (s : System) → IsSound ids stream s → s.written ≤ s.granted
IsSound-within ids stream s h = omega (
  arith,
  h.credit,
  h.within,
  h.total,
  sum_le (λ k. pending (s.phases k)) (λ k. held (s.phases k)) ids
      (λ k. pending-le-held (s.phases k)),
)

move_to-same : (id : ℕ) (p : Phase) (f : ℕ → Phase) → move_to id p f id ≡ p
unfolding move_to
move_to-same id p f = ground arith

move_to-other : (id k : ℕ) (p : Phase) (f : ℕ → Phase) → k ≢ id → f k ≡ move_to id p f k
unfolding move_to
move_to-other id k p f h = ground (arith, h)

-- A step of one thread, by what it does to the reservations.
module _ (ids : List ℕ) (stream : ℕ → ℕ) (zero_out : (k : ℕ) → Has k ids → stream k ≢ 0)
    (differ : AllDiffer ids) (one_each : OneEach ids stream) (s : System) (h : IsSound ids stream s)
    (id : ℕ) (has : Has id ids) (q : Phase) where
  nonzero : stream id ≢ 0
  nonzero = zero_out id has

  change :
      (m : Phase → ℕ)
      → (sum (λ k. m (move_to id q s.phases k)) ids + m (s.phases id)
          ≡ sum (λ k. m (s.phases k)) ids + m q)
        × (m (s.phases id) ≤ sum (λ k. m (s.phases k)) ids)
  change m =
      let c =
        sum_change (λ k. m (s.phases k)) (λ k. m (move_to id q s.phases k)) id ids
          (λ k n. ap m (move_to-other id k q s.phases n)) differ has in
      (omega (arith, c.0, ap m (move_to-same id q s.phases)), c.1)

  -- What the thread reserves is in the sum.
  own_within : s.shared.reserved (stream id) ≤ s.shared.reserved 0
  own_within = omega (arith, h.own id has, h.total, (change held).1)

  moved :
      (t : Shared) (left written : ℕ)
      → Moves (stream id) (held q) s.shared t
      → HasWindow left t
      → ((k : ℕ) → find_stream k s.shared.streams ≢ none → find_stream k t.streams ≢ none)
      → IsSmall q
      → (s.shared.reserved 0 - s.shared.reserved (stream id)) + held q ≤ left
      → (written + left) + pending (s.phases id) ≤ (s.written + h.w) + pending q
      → IsSound ids stream
          (record s { shared = t; phases = move_to id q s.phases; written = written })
  moved t left written m window kept small within credit = record {
    w = left;
    window = window;
    whole = kept 0 h.whole;
    there = λ k has. kept (stream k) (h.there k has);
    own = λ k n. elim (Bool-cases (k == id)) [
      | inl e ↦
          let same : k ≡ id = (==_iff k id).0 e in
          subst (λ i. t.reserved (stream i) ≡ held (move_to id q s.phases i)) (sym same)
            (m.own ∙ sym (ap held (move_to-same id q s.phases)))
      | inr e ↦
          let other : k ≢ id = ground (arith, e) in
          m.others (stream k) (zero_out k n) (λ e. other (one_each k id n has e))
          ∙ (h.own k n ∙ ap held (move_to-other id k q s.phases other))
    ];
    small = λ k. elim (Bool-cases (k == id)) [
      | inl e ↦
          let same : k ≡ id = (==_iff k id).0 e in
          subst (λ i. IsSmall (move_to id q s.phases i)) (sym same)
            (subst IsSmall (sym (move_to-same id q s.phases)) small)
      | inr e ↦
          let other : k ≢ id = ground (arith, e) in
          subst IsSmall (move_to-other id k q s.phases other) (h.small k)
    ];
    total = omega (arith, m.sum, (change held).0, (change held).1, h.total, h.own id has);
    within = omega (arith, m.sum, within);
    credit = omega (arith, (change pending).0, (change pending).1, credit, h.credit);
  }

same_window : (w : ℕ) (s t : Shared) → t.streams ≡ s.streams → HasWindow w s → HasWindow w t
same_window w s t same h item there = h item (ap (find_stream 0) (sym same) ∙ there)

same_kept :
    (s t : Shared) (k : ℕ)
    → t.streams ≡ s.streams
    → find_stream k s.streams ≢ none
    → find_stream k t.streams ≢ none
same_kept s t k same h e = h (ap (find_stream k) (sym same) ∙ e)

-- Every step keeps what is sound.
module _ (ids : List ℕ) (stream : ℕ → ℕ) (zero_out : (k : ℕ) → Has k ids → stream k ≢ 0)
    (differ : AllDiffer ids) (one_each : OneEach ids stream) (s : System) (h : IsSound ids stream s)
    (id : ℕ) (has : Has id ids) where
  pub id_nonzero : stream id ≢ 0
  id_nonzero = nonzero ids stream zero_out differ one_each s h id has idle

  reserved_within : s.shared.reserved (stream id) ≤ s.shared.reserved 0
  reserved_within = own_within ids stream zero_out differ one_each s h id has idle

  pub asks-IsSound :
      (r : Option ℤ × Shared)
      → s.phases id ≡ idle
      → Got (stream id) h.w s.shared r
      → IsSound ids stream (record s { shared = r.1; phases = move_to id (after_get r.0) s.phases })
  unfolding Got held pending
  asks-IsSound (none, t) e (m, same) =
      moved ids stream zero_out differ one_each s h id has idle t h.w s.written m
        (same_window h.w s.shared t same h.window) (λ k. same_kept s.shared t k same) tt
        (omega (arith, h.within)) (omega (arith, ap pending e))
  asks-IsSound (some size, t) e (m, same, le) =
      moved ids stream zero_out differ one_each s h id has (holds size) t h.w s.written m
        (same_window h.w s.shared t same h.window) (λ k. same_kept s.shared t k same) tt
        (omega (arith, h.within, le)) (omega (arith, ap pending e))

  pub prepares-IsSound :
      (w : ℤ) (buffer rest : ℕ) (r : Bool × ℕ × Shared)
      → s.phases id ≡ holds w
      → buffer < 2 ^ 32
      → IsReady (stream id) buffer rest w s.shared r
      → IsSound ids stream
          (record s { shared = r.2; phases = move_to id (after_ready r.0 r.1) s.phases })
  unfolding held pending
  prepares-IsSound w buffer rest (true, n, t) e b r =
      moved ids stream zero_out differ one_each s h id has (ready n) t h.w s.written r.moves
        (same_window h.w s.shared t r.streams_same h.window)
        (λ k. same_kept s.shared t k r.streams_same) (omega (arith, r.in_buffer, b))
        (omega (arith, h.within, r.in_window, h.own id has, ap held e, reserved_within))
        (omega (arith, ap pending e))
  prepares-IsSound w buffer rest (false, n, t) e b r =
      moved ids stream zero_out differ one_each s h id has idle t h.w s.written
        (subst (λ k. Moves (stream id) k s.shared t) (r.waits refl) r.moves)
        (same_window h.w s.shared t r.streams_same h.window)
        (λ k. same_kept s.shared t k r.streams_same) tt (omega (arith, h.within))
        (omega (arith, ap pending e))

  -- The bytes are with the socket: the reservation stays.
  stays : (n : ℕ) → s.phases id ≡ ready n → Moves (stream id) n s.shared s.shared
  unfolding held
  stays n e = record {
    own = h.own id has ∙ ap held e;
    sum = omega (arith, h.own id has, ap held e, reserved_within);
    others = λ k z o. refl;
  }

  pub writes-IsSound :
      (n more : ℕ)
      → s.phases id ≡ ready n
      → more ≤ n
      → IsSound ids stream
          (record s { phases = move_to id (wrote n) s.phases; written = s.written + more })
  unfolding held pending
  writes-IsSound n more e le =
      moved ids stream zero_out differ one_each s h id has (wrote n) s.shared h.w (s.written + more)
        (stays n e) h.window (λ k there. there) (subst IsSmall e (h.small id))
        (omega (arith, h.within, h.own id has, ap held e, reserved_within))
        (omega (arith, ap pending e, le))

  pub updates-IsSound :
      (n : ℕ)
      → s.phases id ≡ wrote n
      → IsSound ids stream (record s {
        shared = (update_stream_param true (stream id) n s.shared).1;
        phases = move_to id idle s.phases;
      })
  unfolding held pending
  updates-IsSound n e =
      let le : n ≤ h.w = omega (arith, h.within, h.own id has, ap held e, reserved_within) in
      let u =
        (update_stream_param-IsUpdated (stream id) n h.w s.shared id_nonzero h.window le
          (subst IsSmall e (h.small id)) (h.there id has) h.whole).1 in
      moved ids stream zero_out differ one_each s h id has idle
        (update_stream_param true (stream id) n s.shared).1 (h.w - n) s.written u.moves u.window
        u.kept tt (omega (arith, h.within, h.own id has, ap held e, reserved_within))
        (omega (arith, ap pending e, le))

  pub leaves-IsSound :
      s.phases id ≡ idle
      → IsSound ids stream (record s {
        shared = reset_reserved true (stream id) s.shared;
        phases = move_to id idle s.phases;
      })
  unfolding held pending reset_reserved release
  leaves-IsSound e =
      moved ids stream zero_out differ one_each s h id has idle
        (reset_reserved true (stream id) s.shared) h.w s.written
        (release-Moves (stream id) s.shared id_nonzero) h.window (λ k there. there) tt
        (omega (arith, h.within)) (omega (arith, ap pending e))
