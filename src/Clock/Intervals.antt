-- ===== src/Clock/Intervals.antt =====
-- `struct interval`: when its test is true, and how long one may wait for it.
use treiber.Base.{ℕ, ◌+◌, ◌-◌, ◌≤◌, ◌<◌, ◌≡◌, ◌⊎◌, true, false, arith, ltb, if◌then◌else◌}
use treiber.Base.Int.{pos}
use treiber.Clock.{
  Interval, interval_earliest_wakeup, interval_test, interval_schedule_wakeup,
  interval_future_trigger, interval_action,
}

-- The seconds until a time, and no more than `most`.
until : ℕ → ℕ → ℕ → ℕ
until now most at = if ltb now at then (if ltb (at - now) most then at - now else most) else most

earliest-until :
    (most at now : ℕ) → interval_earliest_wakeup (pos most) at now ≡ pos (until now most at)
unfolding interval_earliest_wakeup until
earliest-until most at now = ground arith

-- The seconds that `interval_schedule_wakeup` gives.
wait : ℕ → Interval → ℕ → ℕ
unfolding until
wait now top most = until now (until now most (top.last_test_true + top.refresh)) top.future_trigger

-- Where the test is false and a wait is scheduled, the wait is at most the one asked for, the test is false
-- at each second before its end, and true at the end of a wait that is shorter than the one asked for.
pub schedule_wakeup_lem :
    (now most d : ℕ) (top : Interval)
    → (interval_test now top).0 ≡ false
    → (n : ℕ) × (interval_schedule_wakeup now top (pos most) ≡ pos n)
      × (n ≤ most)
      × ((n ≤ d) ⊎ ((interval_test (now + d) top).0 ≡ false))
      × ((n ≡ most) ⊎ ((interval_test (now + n) top).0 ≡ true))
unfolding interval_schedule_wakeup interval_test wait until
schedule_wakeup_lem now most d top h = (
  wait now top most,
  rw (earliest-until most (top.last_test_true + top.refresh) now)
      (earliest-until _ top.future_trigger now),
  ground arith,
  ground arith,
  ground arith,
)

-- The test stays true for the seconds of `horizon` behind an action. A trigger in `w` seconds makes it true
-- at the first test from then on, and is gone behind this test.
pub interval_promises :
    (now w d e : ℕ) (top : Interval)
    → 0 < w
    → d < top.horizon
    → ((interval_test (now + d) (interval_action now top)).0 ≡ true)
      × ((interval_test (now + w + e) (interval_future_trigger now top w)).0 ≡ true)
      × ((interval_test (now + w + e) (interval_future_trigger now top w)).1.future_trigger ≡ 0)
unfolding interval_test interval_action interval_future_trigger
interval_promises now w d e top hw hd = (ground arith, ground arith, ground arith)
