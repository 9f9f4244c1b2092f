-- ===== src/Timer.antt =====
-- The class Timer of Timer.h: its thread, the calls of other threads, and the clock, in milliseconds, as
-- a step relation. What the thread does while it has the mutex, from one wait to the next, is cut where
-- a call can come between: such a call finds the mutex locked and does not notify.
use http2serv.Prelude.{
  ℕ, suc, ◌+◌, ◌-◌, ◌%◌, ◌^◌, ◌≤◌, ◌≡◌, ◌≢◌, Bool, true, false, ltb, if◌then◌else◌,
}
pub mod Deadline
pub mod Stopping

-- Where the thread is: before its first line, at the head of the loop, with the rest of the time computed,
-- in wait_for until a time, behind it by a timeout or by a notification, behind the loop, and at its end.
pub data Place : Type 0 where
  starting : Place
  head : Place
  measured : ℕ → Place
  waiting : ℕ → Place
  timed_out : Place
  notified : Place
  leaving : Place
  ended : Place

-- The members, with the calls of m_fTimeOut counted, and two clocks: `now` is system_clock, which can be
-- set, and `steady` the one that wait_for goes by. The function is there. Two fields are not in the code:
-- `due`, the start that the thread read last and the set time behind it, and `turned`, which says that
-- system_clock was set since the timer was made.
pub record State : Type 0 where
  pub milli_seconds : ℕ
  pub start : ℕ
  pub stop : Bool
  pub is_stoped : Bool
  pub place : Place
  pub fired : ℕ
  pub now : ℕ
  pub steady : ℕ
  pub turned : Bool
  pub due : ℕ

-- The constructor.
abbrev pub new_timer : ℕ → ℕ → State
new_timer milli_seconds now = record {
  milli_seconds = milli_seconds;
  start = 0;
  stop = false;
  is_stoped = false;
  place = starting;
  fired = 0;
  now = now;
  steady = now;
  turned = false;
  due = 0;
}

-- `static_cast<uint32_t>((tNow - m_tStart).count())`
unfoldable pub dif_milli_seconds : ℕ → ℕ → ℕ
dif_milli_seconds now start = (now + (2 ^ 32 - start % 2 ^ 32)) % 2 ^ 32

-- tRestMilliSeconds, with `first` for the first value of tNow: a clock behind m_tStart is read again.
unfoldable pub rest_milli_seconds : ℕ → State → ℕ
unfolding dif_milli_seconds
rest_milli_seconds first s =
    let dif =
      if ltb first s.start
      then dif_milli_seconds s.now s.start
      else dif_milli_seconds first s.start in
    if ltb dif s.milli_seconds then s.milli_seconds - dif else 1

-- notify_all, if the mutex is free: the thread is in wait_for.
unfoldable pub notify : Place → Place
notify starting = starting
notify head = head
notify (measured r) = measured r
notify (waiting d) = notified
notify timed_out = timed_out
notify notified = notified
notify leaving = leaving
notify ended = ended

unfoldable pub reset : State → State
unfolding notify
reset s = record s { start = s.now; place = notify s.place }

unfoldable pub stop_timer : State → State
unfolding notify
stop_timer s = record s { stop = true; place = notify s.place }

unfoldable pub set_new_timeout : ℕ → State → State
unfolding notify
set_new_timeout n s = record s { milli_seconds = n; start = s.now; place = notify s.place }

-- A step of the thread. The first value of tNow is from an earlier time, since when another thread may
-- have set m_tStart; `wakes` is a wake-up that nobody asked for.
pub data ThreadStep : State → State → Type 0 where
  starts :
      (s : State) → s.place ≡ starting → ThreadStep s (record s { start = s.now; place = head })
  measures :
      (s : State) (first : ℕ)
      → s.place ≡ head
      → (s.turned ≡ false → first ≤ s.now)
      → ThreadStep s (record s {
        place = measured (rest_milli_seconds first s);
        due = s.start + s.milli_seconds;
      })
  waits :
      (s : State) (r : ℕ)
      → s.place ≡ measured r
      → ThreadStep s (record s { place = waiting (s.steady + r) })
  times_out :
      (s : State) (d : ℕ)
      → s.place ≡ waiting d
      → d ≤ s.steady
      → ThreadStep s (record s { place = timed_out })
  wakes : (s : State) (d : ℕ) → s.place ≡ waiting d → ThreadStep s (record s { place = notified })
  fires :
      (s : State)
      → s.place ≡ timed_out
      → s.stop ≡ false
      → ThreadStep s (record s { place = leaving; fired = suc s.fired })
  skips :
      (s : State)
      → s.place ≡ timed_out
      → s.stop ≡ true
      → ThreadStep s (record s { place = leaving })
  goes_on :
      (s : State) → s.place ≡ notified → s.stop ≡ false → ThreadStep s (record s { place = head })
  breaks :
      (s : State) → s.place ≡ notified → s.stop ≡ true → ThreadStep s (record s { place = leaving })
  finishes :
      (s : State) → s.place ≡ leaving → ThreadStep s (record s { place = ended; is_stoped = true })

-- The passing of time.
abbrev pub pass : ℕ → State → State
pass n s = record s { now = s.now + n; steady = s.steady + n }

-- A step of another thread, or of a clock; the last one sets system_clock.
pub data OtherStep : State → State → Type 0 where
  resets : (s : State) → OtherStep s (reset s)
  stops : (s : State) → OtherStep s (stop_timer s)
  sets : (s : State) (n : ℕ) → OtherStep s (set_new_timeout n s)
  ticks : (s : State) (n : ℕ) → OtherStep s (pass n s)
  turns : (s : State) (now : ℕ) → OtherStep s (record s { now = now; turned = true })

-- Runs, with the number of the steps of the thread.
pub data Run (s : State) : ℕ → State → Type 0 where
  here : Run s 0 s
  by_thread : {n : ℕ} {t u : State} → Run s n t → ThreadStep t u → Run s (suc n) u
  by_other : {n : ℕ} {t u : State} → Run s n t → OtherStep t u → Run s n u

-- What the thread does by itself: its own steps and the passing of time, with no call of another thread
-- and no wake-up before the time.
pub data Alone (s : State) : State → Type 0 where
  stays : Alone s s
  goes : {t u : State} → Alone s t → ThreadStep t u → u.place ≢ notified → Alone s u
  lasts : {t : State} → Alone s t → (n : ℕ) → Alone s (pass n t)
