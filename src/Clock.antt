-- ===== src/Clock.antt =====
-- `Treiber/lib/otime.h`, `otime.c`, `interval.h` and `interval.c`: the clock that does not go back, the
-- arithmetic of times, and the timers. A `time_t` and the fields of a time that a clock gives are not
-- negative; the correction of the clock never becomes negative, as the code only lowers it down to 0.
-- The seconds of a `struct interval` are not negative either.
pub mod Times
pub mod Limit
pub mod Timers
pub mod Intervals
mod Tests
use treiber.Base.{
  ℕ, zero, suc, ◌+◌, ◌-◌, ◌*◌, ◌/◌, ◌%◌, ◌^◌, Bool, true, false, ◌&&◌, ◌||◌, Option, none, some,
  List, [], ◌∷◌, ltb, leb, ◌==◌, if◌then◌else◌, not,
}
use treiber.Base.Int.{ℤ, pos, negsuc, pos_part, ◌+ℤ◌, ◌-ℤ◌, ltb_ℤ, leb_ℤ}

-- The globals `now`, `now_adj` and `now_usec`.
pub record Clock : Type 0 where
  pub now : ℕ
  pub now_adj : ℕ
  pub now_usec : ℕ

-- `struct timeval`
pub record Timeval : Type 0 where
  pub tv_sec : ℕ
  pub tv_usec : ℕ

pub update_now : Clock → ℕ → Clock
update_now c system_time =
    let real_time = system_time + c.now_adj in
    if ltb c.now real_time
    then (let overshoot = real_time - c.now - 1 in
        if ltb 86400 overshoot && leb overshoot c.now_adj
        then record c { now_adj = c.now_adj - overshoot; now = real_time - overshoot }
        else record c { now = real_time })
    else if ltb (real_time + 10) c.now
    then record c { now_adj = c.now_adj + (c.now - real_time) }
    else c

pub update_now_usec : Clock → Timeval → Clock
unfolding update_now
update_now_usec c tv =
    let c' = update_now c tv.tv_sec in
    if ltb c.now c'.now || (c'.now == c.now && ltb c'.now_usec tv.tv_usec)
    then record c' { now_usec = tv.tv_usec }
    else c'

-- `openvpn_gettimeofday` where the system gives a time.
pub openvpn_gettimeofday : Clock → Timeval → Timeval × Clock
unfolding update_now_usec
openvpn_gettimeofday c tv =
    let c' = update_now_usec c tv in (record { tv_sec = c'.now; tv_usec = c'.now_usec }, c')

pub tv_add : Timeval → Timeval → Timeval
tv_add dest src =
    let usec = dest.tv_usec + src.tv_usec in
    let sec = dest.tv_sec + src.tv_sec + usec / 2 ^ 20 in
    let low = usec % 2 ^ 20 in
    if leb 1_000_000 low
    then record { tv_sec = sec + 1; tv_usec = low - 1_000_000 }
    else record { tv_sec = sec; tv_usec = low }

pub tv_le : Timeval → Timeval → Bool
tv_le t1 t2 =
    if ltb t1.tv_sec t2.tv_sec
    then true
    else if ltb t2.tv_sec t1.tv_sec
    then false
    else leb t1.tv_usec t2.tv_usec

-- The loop of `tv_delta`, and what is in front of it and behind it.
pub carry_seconds : ℕ → ℤ × ℤ → ℤ × ℤ
carry_seconds zero r = r
carry_seconds (suc fuel) (sec, usec) = elim (ltb_ℤ usec (pos 0)) [
  | true ↦ carry_seconds fuel (sec -ℤ pos 1, usec +ℤ pos 1_000_000)
  | false ↦ (sec, usec)
]

pub clipped : ℤ × ℤ → Timeval
clipped (sec, usec) =
    if ltb_ℤ sec (pos 0)
    then record { tv_sec = 0; tv_usec = 0 }
    else record { tv_sec = pos_part sec; tv_usec = pos_part usec }

pub tv_delta : Timeval → Timeval → Timeval
unfolding carry_seconds clipped
tv_delta t1 t2 = clipped (
    carry_seconds (suc (t1.tv_usec / 1_000_000 + 1))
      (pos t2.tv_sec -ℤ pos t1.tv_sec, pos t2.tv_usec -ℤ pos t1.tv_usec))

-- `interval_earliest_wakeup`
pub interval_earliest_wakeup : ℤ → ℕ → ℕ → ℤ
interval_earliest_wakeup wakeup at current =
    if ltb current at
    then (let w = if ltb_ℤ (pos (at - current)) wakeup then pos (at - current) else wakeup in
        if ltb_ℤ w (pos 0) then pos 0 else w)
    else wakeup

-- `struct frequency_limit`
pub record FrequencyLimit : Type 0 where
  pub max : ℕ
  pub per : ℕ
  pub n : ℕ
  pub reset : ℕ

pub frequency_limit_init : ℕ → ℕ → FrequencyLimit
frequency_limit_init max per = record { max = max; per = per; n = 0; reset = 0 }

-- `n` is an `int` that is not negative; `none` is its overflow.
pub frequency_limit_event_allowed : ℕ → FrequencyLimit → Option (Bool × FrequencyLimit)
frequency_limit_event_allowed now f =
    if f.per == 0
    then some (true, f)
    else (let f' = if leb (f.reset + f.per) now then record f { reset = now; n = 0 } else f in
        if ltb (suc f'.n) (2 ^ 31)
        then some (leb (suc f'.n) f'.max, record f' { n = suc f'.n })
        else none)

-- `struct event_timeout`
pub record EventTimeout : Type 0 where
  pub defined : Bool
  pub n : ℤ
  pub last : ℕ

pub event_timeout_init : ℤ → ℕ → EventTimeout
event_timeout_init n local_now = record {
  defined = true;
  n = if leb_ℤ (pos 0) n then n else pos 0;
  last = local_now;
}

pub event_timeout_reset : ℕ → EventTimeout → EventTimeout
event_timeout_reset now et = if et.defined then record et { last = now } else et

pub event_timeout_modify_wakeup : EventTimeout → ℤ → EventTimeout
event_timeout_modify_wakeup et n =
    if et.defined then record et { n = if leb_ℤ (pos 0) n then n else pos 0 } else et

pub event_timeout_remaining : ℕ → EventTimeout → ℤ
event_timeout_remaining now et = pos et.last -ℤ pos now +ℤ et.n

-- `event_timeout_trigger`: its result, the timer, and `tv` if there is one.
pub event_timeout_trigger :
    ℕ → EventTimeout → Option Timeval → ℤ → Bool × EventTimeout × Option Timeval
event_timeout_trigger now et tv et_const_retry =
    if et.defined
    then (let wakeup = pos et.last -ℤ pos now +ℤ et.n in
        let due = leb_ℤ wakeup (pos 0) in
        let fires = due && ltb_ℤ et_const_retry (pos 0) in
        let wakeup' = if due then (if fires then et.n else et_const_retry) else wakeup in
        (
          fires,
          if fires then record et { last = now } else et,
          elim tv [
            | none ↦ none
            | some t ↦ some (
                if ltb_ℤ wakeup' (pos t.tv_sec)
                then record { tv_sec = pos_part wakeup'; tv_usec = 0 }
                else t)
          ],
        ))
    else (false, et, tv)

-- `struct interval`
pub record Interval : Type 0 where
  pub refresh : ℕ
  pub horizon : ℕ
  pub future_trigger : ℕ
  pub last_action : ℕ
  pub last_test_true : ℕ

pub interval_init : ℕ → ℕ → Interval
interval_init horizon refresh = record {
  refresh = refresh;
  horizon = horizon;
  future_trigger = 0;
  last_action = 0;
  last_test_true = 0;
}

pub interval_test : ℕ → Interval → Bool × Interval
interval_test now top =
    let trigger = not (top.future_trigger == 0) && leb top.future_trigger now in
    let top' = if trigger then record top { future_trigger = 0 } else top in
    if ltb now (top.last_action + top.horizon)
      || leb (top.last_test_true + top.refresh) now
      || trigger
    then (true, record top' { last_test_true = now })
    else (false, top')

pub interval_schedule_wakeup : ℕ → Interval → ℤ → ℤ
unfolding interval_earliest_wakeup
interval_schedule_wakeup now top wakeup =
    let wakeup' = interval_earliest_wakeup wakeup (top.last_test_true + top.refresh) now in
    interval_earliest_wakeup wakeup' top.future_trigger now

pub interval_future_trigger : ℕ → Interval → ℕ → Interval
interval_future_trigger now top wakeup =
    if wakeup == 0 then top else record top { future_trigger = now + wakeup }

pub interval_action : ℕ → Interval → Interval
interval_action now top = record top { last_action = now }
