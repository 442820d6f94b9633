-- ===== src/Clock/Limit.antt =====
-- How many events a limit allows in a period.
use treiber.Base.{
  ℕ, suc, ◌+◌, ◌^◌, Option, some, ◌>>=◌, length, ltb, refl, Bool, true, ◌-◌, ◌≤◌, ◌<◌, ◌≡◌, false,
  List, [], ◌∷◌, arith, leb, ◌==◌, if◌then◌else◌, All, Bool-cases, inl, inr,
}
use treiber.Clock.{FrequencyLimit, frequency_limit_event_allowed}

-- How many of the events at these times are allowed.
pub allowed : FrequencyLimit → List ℕ → Option ℕ
allowed f [] = some 0
allowed f (t ∷ ts) = do
  r ← frequency_limit_event_allowed t f
  k ← allowed (r.1) ts
  some ((if r.0 then 1 else 0) + k)

-- The event is the first one of a new period, or one more of the old one.
first_event :
    (t : ℕ) (f : FrequencyLimit)
    → 0 < f.per
    → leb (f.reset + f.per) t ≡ true
    → frequency_limit_event_allowed t f ≡ some (leb 1 f.max, record f { reset = t; n = 1 })
unfolding frequency_limit_event_allowed
first_event t f p new = let on : (f.per == 0) ≡ false = ground arith in rw (on, new) refl

next_event :
    (t : ℕ) (f : FrequencyLimit)
    → 0 < f.per
    → leb (f.reset + f.per) t ≡ false
    → suc f.n < 2 ^ 31
    → frequency_limit_event_allowed t f ≡ some (leb (suc f.n) f.max, record f { n = suc f.n })
unfolding frequency_limit_event_allowed
next_event t f p old small =
    let on : (f.per == 0) ≡ false = ground arith in
    let fits : ltb (suc f.n) (2 ^ 31) ≡ true = ground arith in rw (on, old, fits) refl

-- The events behind a first one, and that one.
one_more :
    (t : ℕ) (f f' : FrequencyLimit) (ok : Bool) (ts : List ℕ) (most : ℕ)
    → frequency_limit_event_allowed t f ≡ some (ok, f')
    → (k : ℕ) × (allowed f' ts ≡ some k) × (k + (if ok then 1 else 0) ≤ most)
    → (k : ℕ) × (allowed f (t ∷ ts) ≡ some k) × (k ≤ most)
unfolding allowed
one_more t f f' ok ts most e (k, g, h) =
    ((if ok then 1 else 0) + k, rw (e, g) refl, omega (arith, h))

-- While no new period begins.
allowed_within :
    (f : FrequencyLimit) (ts : List ℕ)
    → 0 < f.per
    → f.n + length ts < 2 ^ 31
    → All (λ t. t < f.reset + f.per) ts
    → (k : ℕ) × (allowed f ts ≡ some k) × (k ≤ f.max - f.n)
unfolding allowed
allowed_within f [] p small h = (0, refl, omega arith)
allowed_within f (t ∷ ts) p small (h, hs) =
    let f' : FrequencyLimit = record f { n = suc f.n } in
    let (k, g, l) = allowed_within f' ts p (omega (arith, small)) hs in
    one_more t f f' (leb (suc f.n) f.max) ts (f.max - f.n)
      (next_event t f p (ground arith) (omega (arith, small))) (k, g, ground (arith, l))

-- The times of one period are in the one that begins at any of them.
All-later :
    (s t per : ℕ) (ts : List ℕ)
    → s ≤ t
    → All (λ u. (s ≤ u) × (u < s + per)) ts
    → All (λ u. u < t + per) ts
All-later s t per [] h hs = tt
All-later s t per (u ∷ ts) h (k, ks) = (omega arith, All-later s t per ts h ks)

-- Where the number of the events, and of those already counted, fits an `int`: a limit allows, of the events
-- whose times lie within one period, at most as many as are left of its own period and then as many as
-- a period has: never more than twice the maximum.
pub allowed-le :
    (f : FrequencyLimit) (s : ℕ) (ts : List ℕ)
    → 0 < f.per
    → f.n + length ts < 2 ^ 31
    → All (λ t. (s ≤ t) × (t < s + f.per)) ts
    → (k : ℕ) × (allowed f ts ≡ some k) × (k ≤ (f.max - f.n) + f.max)
unfolding allowed
allowed-le f s [] p small h = (0, refl, omega arith)
allowed-le f s (t ∷ ts) p small (h, hs) = elim (Bool-cases (leb (f.reset + f.per) t)) [
  | inl new ↦
      let f' : FrequencyLimit = record f { reset = t; n = 1 } in
      let (k, g, l) =
        allowed_within f' ts p (omega (arith, small)) (All-later s t f.per ts h.0 hs) in
      one_more t f f' (leb 1 f.max) ts ((f.max - f.n) + f.max) (first_event t f p new)
        (k, g, ground (arith, l))
  | inr old ↦
      let f' : FrequencyLimit = record f { n = suc f.n } in
      let (k, g, l) = allowed-le f' s ts p (omega (arith, small)) hs in
      one_more t f f' (leb (suc f.n) f.max) ts ((f.max - f.n) + f.max)
        (next_event t f p old (omega (arith, small))) (k, g, ground (arith, l))
]
