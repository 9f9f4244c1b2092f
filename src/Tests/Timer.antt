-- ===== src/Tests/Timer.antt =====
-- Runs of the timer.
use http2serv.Prelude.{◌≤◌, ◌≡◌, refl, arith, false}
use http2serv.Timer.{
  dif_milli_seconds, head, measured, waiting, timed_out, notified, leaving, State, new_timer,
  rest_milli_seconds, notify, reset, stop_timer, starts, measures, waits, times_out, wakes, goes_on,
  breaks, resets, stops, ticks, Run, here, by_thread, by_other,
}
use http2serv.Timer.Deadline.{Run-fires_late}
use http2serv.Timer.Stopping.{Ends, Run-stops, stopped_timer-Ends}

-- A timer of 30 ms from the time 100 on.
abbrev started : State
started = record (new_timer 30 100) { start = 100; place = head }

abbrev planned : State
planned = record started { place = measured 30; due = 130 }

abbrev waited : State
waited = record planned { place = waiting 130 }

planned-Run : Run (new_timer 30 100) 2 planned
unfolding rest_milli_seconds dif_milli_seconds
planned-Run =
    by_thread (by_thread here (starts (new_timer 30 100) refl))
      (measures started 100 refl (λ k. omega arith))

waited-Run : Run (new_timer 30 100) 3 waited
waited-Run = by_thread planned-Run (waits planned 30 refl)

-- The thread wakes at 125 and computes the rest of 5 ms. A reset before it waits again does not notify,
-- and is lost: the timer fires at 131, 5 ms after the reset.
abbrev rest_of_five : State
rest_of_five = record waited { now = 125; steady = 125; place = measured 5 }

abbrev reset_late : State
reset_late = record rest_of_five { now = 126; steady = 126; start = 126 }

abbrev lost : State
lost = record reset_late { now = 131; steady = 131; place = timed_out }

rest-Run : Run (new_timer 30 100) 6 rest_of_five
unfolding rest_milli_seconds dif_milli_seconds
rest-Run =
    by_thread
      (by_thread
        (by_thread (by_other waited-Run (ticks waited 25))
          (wakes (record waited { now = 125; steady = 125 }) 130 refl))
        (goes_on (record waited { now = 125; steady = 125; place = notified }) refl refl))
      (measures (record waited { now = 125; steady = 125; place = head }) 125 refl
        (λ k. omega arith))

lost-Run : Run (new_timer 30 100) 8 lost
unfolding reset notify
lost-Run =
    by_thread
      (by_other
        (by_thread
          (by_other (by_other rest-Run (ticks rest_of_five 1))
            (resets (record rest_of_five { now = 126; steady = 126 })))
          (waits reset_late 5 refl))
        (ticks (record reset_late { place = waiting 131 }) 5))
      (times_out (record reset_late { now = 131; steady = 131; place = waiting 131 }) 131 refl
        (omega arith))

Run-fires_late_example :
    (waited.fired ≤ 1)
    × (waited.turned ≡ false → waited.place ≡ timed_out → waited.due ≤ waited.now)
Run-fires_late_example = Run-fires_late 30 100 3 waited waited-Run

stopped-Run : Run (new_timer 30 100) 3 (stop_timer waited)
stopped-Run = by_other waited-Run (stops waited)

stopped_timer-Ends_example : Ends (stop_timer waited)
unfolding stop_timer
stopped_timer-Ends_example = stopped_timer-Ends 30 100 3 (stop_timer waited) stopped-Run refl

abbrev broken : State
broken = record (stop_timer waited) { place = leaving }

Run-stops_example : 1 ≤ 6
unfolding stop_timer notify
Run-stops_example =
    Run-stops (stop_timer waited) broken 1 refl
      (by_thread here (breaks (stop_timer waited) refl refl))
