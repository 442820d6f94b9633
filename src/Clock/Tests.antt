-- ===== src/Clock/Tests.antt =====
-- Clocks, limits and timers at concrete inputs.
use treiber.Base.{some, ◌+◌, ◌-◌, ◌≤◌, ◌≡◌, ◌⊎◌, refl, ℕ, true, false, List, [], ◌∷◌, arith}
use treiber.Base.Int.{pos}
use treiber.Clock.{
  Clock, Timeval, FrequencyLimit, Interval, interval_test, interval_schedule_wakeup,
}
use treiber.Clock.Times.{reading_of, readings, Ascending, readings-Ascending}
use treiber.Clock.Limit.{allowed, allowed-le}
use treiber.Clock.Intervals.{schedule_wakeup_lem}

abbrev clock : Clock
clock = record { now = 1000; now_adj = 0; now_usec = 5 }

abbrev given : List Timeval
given = record { tv_sec = 900; tv_usec = 7 } ∷ record { tv_sec = 901; tv_usec = 3 } ∷ []

readings-Ascending_example : Ascending (reading_of clock) (readings clock given)
readings-Ascending_example = readings-Ascending clock given

abbrev early : Timeval
early = record { tv_sec = 1; tv_usec = 600_000 }

abbrev late : Timeval
late = record { tv_sec = 3; tv_usec = 500_000 }

abbrev limit : FrequencyLimit
limit = record { max = 2; per = 10; n = 1; reset = 100 }

allowed-le_example : (k : ℕ) × (allowed limit (105 ∷ 106 ∷ 111 ∷ []) ≡ some k) × (k ≤ (2 - 1) + 2)
allowed-le_example =
    allowed-le limit 105 (105 ∷ 106 ∷ 111 ∷ []) (omega arith) (omega arith) (omega arith)

abbrev interval : Interval
interval = record {
  refresh = 30;
  horizon = 5;
  future_trigger = 110;
  last_action = 80;
  last_test_true = 90;
}

test_false : (interval_test 100 interval).0 ≡ false
unfolding interval_test
test_false = refl

schedule_wakeup_lem_example :
    (n : ℕ) × (interval_schedule_wakeup 100 interval (pos 60) ≡ pos n)
    × (n ≤ 60)
    × ((n ≤ 9) ⊎ ((interval_test (100 + 9) interval).0 ≡ false))
    × ((n ≡ 60) ⊎ ((interval_test (100 + n) interval).0 ≡ true))
schedule_wakeup_lem_example = schedule_wakeup_lem 100 60 9 interval test_false
