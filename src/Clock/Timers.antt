-- ===== src/Clock/Timers.antt =====
-- When a timer fires.
use treiber.Base.{
  ℕ, ◌+◌, ◌≤◌, ◌≡◌, true, false, Option, none, List, [], ◌∷◌, arith, leb, if◌then◌else◌, Bool-cases,
  inl, inr,
}
use treiber.Base.Int.{ℤ, pos, negsuc, ◌+ℤ◌, ◌-ℤ◌, leb_ℤ}
use treiber.Clock.{Timeval, EventTimeout, event_timeout_trigger}

-- A timer of `n` seconds since `last`.
abbrev pub timer : ℕ → ℕ → EventTimeout
timer n last = record { defined = true; n = pos n; last = last }

abbrev pub ett_default : ℤ
ett_default = negsuc 0

due : (n last now : ℕ) → leb_ℤ (pos last -ℤ pos now +ℤ pos n) (pos 0) ≡ leb (last + n) now
unfolding ◌+ℤ◌ ◌-ℤ◌
due n last now = ground arith

-- With ETT_DEFAULT the timer fires exactly where its seconds have gone by, and starts again then.
trigger_default :
    (n last now : ℕ)
    → event_timeout_trigger now (timer n last) none ett_default
      ≡ (leb (last + n) now, (if leb (last + n) now then timer n now else timer n last), none)
unfolding event_timeout_trigger
trigger_default n last now =
    rw (due n last now)
      (elim (Bool-cases (leb (last + n) now)) [ inl yes' ↦ rw yes' | inr no' ↦ rw no' ])

-- With a retry it never fires, and stays as it is.
trigger_retry :
    (now : ℕ) (et : EventTimeout) (tv : Option Timeval) (retry : ℕ)
    → (event_timeout_trigger now et tv (pos retry)).0 ≡ false
unfolding event_timeout_trigger
trigger_retry now et tv retry = ground arith

-- With ETT_DEFAULT a timer fires exactly where its seconds have gone by, and starts again then; with a retry
-- it never fires.
pub event_timeout_trigger_lem :
    (n last now retry : ℕ)
    → (event_timeout_trigger now (timer n last) none ett_default
        ≡ (leb (last + n) now, (if leb (last + n) now then timer n now else timer n last), none))
      × ((event_timeout_trigger now (timer n last) none (pos retry)).0 ≡ false)
event_timeout_trigger_lem n last now retry =
    (trigger_default n last now, trigger_retry now (timer n last) none retry)

-- The times of these at which the timer fires, each after the one in front of it.
pub fired : EventTimeout → List ℕ → List ℕ
fired et [] = []
fired et (t ∷ ts) =
    let r = event_timeout_trigger t et none ett_default in
    let rest = fired (r.1) ts in if r.0 then t ∷ rest else rest

-- The first of the times is at least `n` behind `last`, and each is so behind the one in front of it.
pub Spaced : ℕ → ℕ → List ℕ → Type 0
Spaced n last [] = Unit {0}
Spaced n last (t ∷ ts) = (last + n ≤ t) × Spaced n t ts

-- Between two times at which a timer fires there are at least its seconds.
pub fired-Spaced : (n last : ℕ) (ts : List ℕ) → Spaced n last (fired (timer n last) ts)
unfolding fired Spaced
fired-Spaced n last [] = tt
fired-Spaced n last (t ∷ ts) = rw (trigger_default n last t) (elim (Bool-cases (leb (last + n) t)) [
  | inl fires ↦ rw fires (ground arith, fired-Spaced n t ts)
  | inr waits ↦ rw waits (fired-Spaced n last ts)
])
