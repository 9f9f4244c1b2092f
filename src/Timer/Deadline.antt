-- ===== src/Timer/Deadline.antt =====
-- When the timer fires.
use http2serv.Prelude.{
  ℕ, ◌+◌, ◌≤◌, ◌≡◌, refl, sym, ◌∙◌, arith, true, false, ltb, ltb-false→le, if◌then◌else◌,
  Bool-cases, inl, inr, ◌-◌,
}
use mathlib.Core.Path.{subst}
use http2serv.Timer.{
  Place, starting, head, measured, waiting, timed_out, notified, leaving, ended, State, new_timer,
  dif_milli_seconds, rest_milli_seconds, notify, reset, stop_timer, set_new_timeout, ThreadStep,
  starts, measures, waits, times_out, wakes, fires, skips, goes_on, breaks, finishes, OtherStep,
  resets, stops, sets, ticks, turns, pass, Run, here, by_thread, by_other,
}

-- What holds of a state at its place: the thread waits until `due` at least, and fires once at most, at
-- the end.
unfoldable pub Fits : State → Place → Type 0
Fits s starting = s.fired ≡ 0
Fits s head = s.fired ≡ 0
Fits s (measured r) = (s.turned ≡ false → s.due ≤ s.now + r) × (s.fired ≡ 0)
Fits s (waiting d) = (s.turned ≡ false → s.due ≤ d) × (s.fired ≡ 0)
Fits s timed_out = (s.turned ≡ false → s.due ≤ s.now) × (s.fired ≡ 0)
Fits s notified = s.fired ≡ 0
Fits s leaving = s.fired ≤ 1
Fits s ended = (s.fired ≤ 1) × (s.is_stoped ≡ true)

pub record IsSound (s : State) : Type 0 where
  pub clock : s.turned ≡ false → (s.start ≤ s.now) × (s.steady ≡ s.now)
  pub fits : Fits s s.place

dif_le : (now start : ℕ) → start ≤ now → dif_milli_seconds now start ≤ now - start
unfolding dif_milli_seconds
dif_le now start h = omega (arith, h)

rest_of :
    (start now milli_seconds dif : ℕ)
    → start ≤ now
    → dif ≤ now - start
    → start + milli_seconds ≤ now + (if ltb dif milli_seconds then milli_seconds - dif else 1)
rest_of start now milli_seconds dif h l = ground (arith, l, h)

rest_le :
    (first : ℕ) (s : State)
    → s.start ≤ s.now
    → first ≤ s.now
    → s.start + s.milli_seconds ≤ s.now + rest_milli_seconds first s
unfolding rest_milli_seconds
rest_le first s h k = elim (Bool-cases (ltb first s.start)) [
  | inl behind ↦ rw behind (
      rest_of s.start s.now s.milli_seconds (dif_milli_seconds s.now s.start) h
        (dif_le s.now s.start h))
  | inr in_time ↦
      let before = ltb-false→le first s.start in_time in
      rw in_time (
        rest_of s.start s.now s.milli_seconds (dif_milli_seconds first s.start) h
          (omega (arith, k, before, dif_le first s.start before)))
]

-- A call of another thread, and the passing of time.
notify-Fits :
    (s t : State) (p : Place)
    → t.fired ≡ s.fired
    → t.is_stoped ≡ s.is_stoped
    → t.due ≡ s.due
    → t.now ≡ s.now
    → t.turned ≡ s.turned
    → Fits s p
    → Fits t (notify p)
unfolding Fits notify
notify-Fits s t starting e b d n u h = e ∙ h
notify-Fits s t head e b d n u h = e ∙ h
notify-Fits s t (measured r) e b d n u h = (λ k. omega (arith, d, n, h.0 (sym u ∙ k)), e ∙ h.1)
notify-Fits s t (waiting w) e b d n u h = e ∙ h.1
notify-Fits s t timed_out e b d n u h = (λ k. omega (arith, d, n, h.0 (sym u ∙ k)), e ∙ h.1)
notify-Fits s t notified e b d n u h = e ∙ h
notify-Fits s t leaving e b d n u h = omega (arith, e, h)
notify-Fits s t ended e b d n u h = (omega (arith, e, h.0), b ∙ h.1)

later-Fits : (s : State) (n : ℕ) (p : Place) → Fits s p → Fits (pass n s) p
unfolding Fits
later-Fits s n starting h = h
later-Fits s n head h = h
later-Fits s n (measured r) h = (λ k. omega (arith, h.0 k), h.1)
later-Fits s n (waiting w) h = h
later-Fits s n timed_out h = (λ k. omega (arith, h.0 k), h.1)
later-Fits s n notified h = h
later-Fits s n leaving h = h
later-Fits s n ended h = h

turned-Fits :
    (s : State) (now : ℕ) (p : Place) → Fits s p → Fits (record s { now = now; turned = true }) p
unfolding Fits
turned-Fits s now starting h = h
turned-Fits s now head h = h
turned-Fits s now (measured r) h = (λ k. cc, h.1)
turned-Fits s now (waiting w) h = (λ k. cc, h.1)
turned-Fits s now timed_out h = (λ k. cc, h.1)
turned-Fits s now notified h = h
turned-Fits s now leaving h = h
turned-Fits s now ended h = h

ThreadStep-IsSound : {s t : State} → ThreadStep s t → IsSound s → IsSound t
unfolding Fits
ThreadStep-IsSound (starts s e) h = record {
  clock = λ k. (omega arith, (h.clock k).1);
  fits = subst (Fits s) e h.fits;
}
ThreadStep-IsSound (measures s first e earlier) h = record {
  clock = h.clock;
  fits = (λ k. rest_le first s (h.clock k).0 (earlier k), subst (Fits s) e h.fits);
}
ThreadStep-IsSound (waits s r e) h =
    let f = subst (Fits s) e h.fits in
    record { clock = h.clock; fits = (λ k. omega (arith, f.0 k, (h.clock k).1), f.1) }
ThreadStep-IsSound (times_out s d e due) h =
    let f = subst (Fits s) e h.fits in
    record { clock = h.clock; fits = (λ k. omega (arith, f.0 k, due, (h.clock k).1), f.1) }
ThreadStep-IsSound (wakes s d e) h = record { clock = h.clock; fits = (subst (Fits s) e h.fits).1 }
ThreadStep-IsSound (fires s e go) h = record {
  clock = h.clock;
  fits = omega (arith, (subst (Fits s) e h.fits).1);
}
ThreadStep-IsSound (skips s e halt) h = record {
  clock = h.clock;
  fits = omega (arith, (subst (Fits s) e h.fits).1);
}
ThreadStep-IsSound (goes_on s e go) h = record { clock = h.clock; fits = subst (Fits s) e h.fits }
ThreadStep-IsSound (breaks s e halt) h = record {
  clock = h.clock;
  fits = omega (arith, subst (Fits s) e h.fits);
}
ThreadStep-IsSound (finishes s e) h = record {
  clock = h.clock;
  fits = (subst (Fits s) e h.fits, refl);
}

OtherStep-IsSound : {s t : State} → OtherStep s t → IsSound s → IsSound t
unfolding reset stop_timer set_new_timeout
OtherStep-IsSound (resets s) h = record {
  clock = λ k. (omega arith, (h.clock k).1);
  fits = notify-Fits s (reset s) s.place refl refl refl refl refl h.fits;
}
OtherStep-IsSound (stops s) h = record {
  clock = h.clock;
  fits = notify-Fits s (stop_timer s) s.place refl refl refl refl refl h.fits;
}
OtherStep-IsSound (sets s n) h = record {
  clock = λ k. (omega arith, (h.clock k).1);
  fits = notify-Fits s (set_new_timeout n s) s.place refl refl refl refl refl h.fits;
}
OtherStep-IsSound (ticks s n) h = record {
  clock = λ k. (omega (arith, (h.clock k).0), omega (arith, (h.clock k).1));
  fits = later-Fits s n s.place h.fits;
}
OtherStep-IsSound (turns s now) h = record {
  clock = λ k. cc;
  fits = turned-Fits s now s.place h.fits;
}

pub Run-IsSound : {s t : State} {n : ℕ} → Run s n t → IsSound s → IsSound t
Run-IsSound here h = h
Run-IsSound (by_thread r st) h = ThreadStep-IsSound st (Run-IsSound r h)
Run-IsSound (by_other r st) h = OtherStep-IsSound st (Run-IsSound r h)

pub new_timer-IsSound : (milli_seconds now : ℕ) → IsSound (new_timer milli_seconds now)
unfolding Fits
new_timer-IsSound milli_seconds now = record { clock = λ k. (omega arith, refl); fits = refl }

Fits-once : (s : State) (p : Place) → Fits s p → s.fired ≤ 1
unfolding Fits
Fits-once s starting h = omega (arith, h)
Fits-once s head h = omega (arith, h)
Fits-once s (measured r) h = omega (arith, h.1)
Fits-once s (waiting d) h = omega (arith, h.1)
Fits-once s timed_out h = omega (arith, h.1)
Fits-once s notified h = omega (arith, h)
Fits-once s leaving h = h
Fits-once s ended h = h.0

-- However its thread, the calls of other threads and the clocks take turns, a timer calls its function
-- once at most. While system_clock is not set, it is not about to call it before the set time has passed
-- since the start, or the reset, that the thread read last.
pub Run-fires_late :
    (milli_seconds now n : ℕ) (t : State)
    → Run (new_timer milli_seconds now) n t
    → (t.fired ≤ 1) × (t.turned ≡ false → t.place ≡ timed_out → t.due ≤ t.now)
unfolding Fits
Run-fires_late milli_seconds now n t r =
    let h = Run-IsSound r (new_timer-IsSound milli_seconds now) in
    (Fits-once t t.place h.fits, λ k e. (subst (Fits t) e h.fits).0 k)
