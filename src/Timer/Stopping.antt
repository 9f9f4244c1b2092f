-- ===== src/Timer/Stopping.antt =====
-- The end of the timer's thread after Stop.
use http2serv.Prelude.{ℕ, ◌+◌, ◌≤◌, ◌<◌, ◌≡◌, ◌≢◌, refl, ap, ◌∙◌, arith, true}
use http2serv.Timer.{
  Place, starting, head, measured, waiting, timed_out, notified, leaving, ended, State, new_timer,
  rest_milli_seconds, notify, reset, stop_timer, set_new_timeout, ThreadStep, starts, measures,
  waits, times_out, wakes, fires, skips, goes_on, breaks, finishes, OtherStep, resets, stops, sets,
  ticks, turns, pass, Alone, stays, goes, lasts, Run, here, by_thread, by_other,
}
use http2serv.Timer.Deadline.{Fits, Run-IsSound, new_timer-IsSound}

-- The steps of the thread to its end, once m_bStop is set.
unfoldable pub steps_left : Place → ℕ
steps_left starting = 6
steps_left head = 5
steps_left (measured r) = 4
steps_left (waiting d) = 3
steps_left timed_out = 2
steps_left notified = 2
steps_left leaving = 1
steps_left ended = 0

notify-steps_left : (p : Place) → steps_left (notify p) ≤ steps_left p
unfolding steps_left notify
notify-steps_left starting = omega arith
notify-steps_left head = omega arith
notify-steps_left (measured r) = omega arith
notify-steps_left (waiting d) = omega arith
notify-steps_left timed_out = omega arith
notify-steps_left notified = omega arith
notify-steps_left leaving = omega arith
notify-steps_left ended = omega arith

thread_descends :
    {s t : State}
    → ThreadStep s t
    → s.stop ≡ true
    → (t.stop ≡ true) × (steps_left t.place < steps_left s.place)
unfolding steps_left
thread_descends (starts s e) h = (h, omega (arith, ap steps_left e))
thread_descends (measures s first e earlier) h = (h, omega (arith, ap steps_left e))
thread_descends (waits s r e) h = (h, omega (arith, ap steps_left e))
thread_descends (times_out s d e due) h = (h, omega (arith, ap steps_left e))
thread_descends (wakes s d e) h = (h, omega (arith, ap steps_left e))
thread_descends (fires s e go) h = cc
thread_descends (skips s e halt) h = (h, omega (arith, ap steps_left e))
thread_descends (goes_on s e go) h = cc
thread_descends (breaks s e halt) h = (h, omega (arith, ap steps_left e))
thread_descends (finishes s e) h = (h, omega (arith, ap steps_left e))

other_keeps :
    {s t : State}
    → OtherStep s t
    → s.stop ≡ true
    → (t.stop ≡ true) × (steps_left t.place ≤ steps_left s.place)
unfolding reset stop_timer set_new_timeout
other_keeps (resets s) h = (h, notify-steps_left s.place)
other_keeps (stops s) h = (refl, notify-steps_left s.place)
other_keeps (sets s n) h = (h, notify-steps_left s.place)
other_keeps (ticks s n) h = (h, omega arith)
other_keeps (turns s now) h = (h, omega arith)

Run-descends :
    {s t : State} {n : ℕ}
    → Run s n t
    → s.stop ≡ true
    → (t.stop ≡ true) × (n + steps_left t.place ≤ steps_left s.place)
Run-descends here h = (h, omega arith)
Run-descends (by_thread r st) h =
    let before = Run-descends r h in
    let step = thread_descends st before.0 in (step.0, omega (arith, before.1, step.1))
Run-descends (by_other r st) h =
    let before = Run-descends r h in
    let step = other_keeps st before.0 in (step.0, omega (arith, before.1, step.1))

steps_left-le : (p : Place) → steps_left p ≤ 6
unfolding steps_left
steps_left-le starting = omega arith
steps_left-le head = omega arith
steps_left-le (measured r) = omega arith
steps_left-le (waiting d) = omega arith
steps_left-le timed_out = omega arith
steps_left-le notified = omega arith
steps_left-le leaving = omega arith
steps_left-le ended = omega arith

-- After Stop the thread makes six steps at most, whatever other threads do, resets included.
pub Run-stops : (s t : State) (n : ℕ) → s.stop ≡ true → Run s n t → n ≤ 6
Run-stops s t n h r = omega (arith, (Run-descends r h).1, steps_left-le s.place)

-- The thread goes on by itself to its end.
pub record Ends (s : State) : Type 0 where
  pub final : State
  pub run : Alone s final
  pub stopped : final.is_stoped ≡ true
  pub silent : final.fired ≡ s.fired

thread_first : {s t u : State} → ThreadStep s t → t.place ≢ notified → Alone t u → Alone s u
thread_first st k stays = goes stays st k
thread_first st k (goes r last l) = goes (thread_first st k r) last l
thread_first st k (lasts r n) = lasts (thread_first st k r) n

time_first : {s : State} (n : ℕ) {u : State} → Alone (pass n s) u → Alone s u
time_first n stays = lasts stays n
time_first n (goes r last l) = goes (time_first n r) last l
time_first n (lasts r m) = lasts (time_first n r) m

after_thread :
    {s t : State} → ThreadStep s t → t.place ≢ notified → t.fired ≡ s.fired → Ends t → Ends s
after_thread st k e h = record {
  final = h.final;
  run = thread_first st k h.run;
  stopped = h.stopped;
  silent = h.silent ∙ e;
}

after_time : (s : State) (n : ℕ) → Ends (pass n s) → Ends s
after_time s n h = record {
  final = h.final;
  run = time_first n h.run;
  stopped = h.stopped;
  silent = h.silent;
}

leaving-Ends : (s : State) → s.place ≡ leaving → Ends s
leaving-Ends s e = record {
  final = record s { place = ended; is_stoped = true };
  run = goes stays (finishes s e) (λ q. cc);
  stopped = refl;
  silent = refl;
}

timed_out-Ends : (s : State) → s.stop ≡ true → s.place ≡ timed_out → Ends s
timed_out-Ends s h e =
    after_thread (skips s e h) (λ q. cc) refl (leaving-Ends (record s { place = leaving }) refl)

-- The wait ends by its timeout, without a notification.
waiting-Ends : (s : State) (d : ℕ) → s.stop ≡ true → s.place ≡ waiting d → Ends s
waiting-Ends s d h e =
    let later = pass d s in
    after_time s d (
      after_thread (times_out later d e (omega arith)) (λ q. cc) refl
        (timed_out-Ends (record later { place = timed_out }) h refl))

measured-Ends : (s : State) (r : ℕ) → s.stop ≡ true → s.place ≡ measured r → Ends s
measured-Ends s r h e =
    after_thread (waits s r e) (λ q. cc) refl
      (waiting-Ends (record s { place = waiting (s.steady + r) }) (s.steady + r) h refl)

head-Ends : (s : State) → s.stop ≡ true → s.place ≡ head → Ends s
head-Ends s h e =
    let r = rest_milli_seconds s.now s in
    after_thread (measures s s.now e (λ k. omega arith)) (λ q. cc) refl
      (measured-Ends (record s { place = measured r; due = s.start + s.milli_seconds }) r h refl)

place-Ends : (s : State) (p : Place) → s.stop ≡ true → s.place ≡ p → Fits s p → Ends s
unfolding Fits
place-Ends s starting h e f =
    after_thread (starts s e) (λ q. cc) refl
      (head-Ends (record s { start = s.now; place = head }) h refl)
place-Ends s head h e f = head-Ends s h e
place-Ends s (measured r) h e f = measured-Ends s r h e
place-Ends s (waiting d) h e f = waiting-Ends s d h e
place-Ends s timed_out h e f = timed_out-Ends s h e
place-Ends s notified h e f =
    after_thread (breaks s e h) (λ q. cc) refl (leaving-Ends (record s { place = leaving }) refl)
place-Ends s leaving h e f = leaving-Ends s e
place-Ends s ended h e f = record { final = s; run = stays; stopped = f.1; silent = refl }

-- From every state that a timer can come to, once Stop was called, its own steps and the passing of time
-- alone, with no call of another thread and no early wake-up, take its thread to the end that IsStopped
-- reports, without a call of the function. This holds also when the notification of Stop was lost.
pub stopped_timer-Ends :
    (milli_seconds now n : ℕ) (s : State)
    → Run (new_timer milli_seconds now) n s
    → s.stop ≡ true
    → Ends s
stopped_timer-Ends milli_seconds now n s r h =
    place-Ends s s.place h refl (Run-IsSound r (new_timer-IsSound milli_seconds now)).fits
