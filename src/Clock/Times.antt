-- ===== src/Clock/Times.antt =====
-- What the clock gives, and sums and differences of times.
use treiber.Base.{
  ℕ, zero, suc, ◌+◌, ◌-◌, ◌*◌, ◌/◌, ◌≤◌, ◌<◌, ◌≡◌, true, List, [], ◌∷◌, arith, leb, if◌then◌else◌,
  Bool-cases, inl, inr,
}
use native.Mathlib.Decide.{dec_le}
use treiber.Base.Int.{ℤ, pos, ◌+ℤ◌, ◌-ℤ◌}
use treiber.Clock.{
  Clock, Timeval, update_now, update_now_usec, openvpn_gettimeofday, tv_le, carry_seconds, clipped,
  tv_delta,
}

-- The clock does not go back, and it is the system's time with the correction, or up to 10 seconds in front.
pub record Follows (c c' : Clock) (t : ℕ) : Type 0 where
  pub forward : c.now ≤ c'.now
  pub least : t + c'.now_adj ≤ c'.now
  pub most : c'.now ≤ t + c'.now_adj + 10

pub update_now-Follows : (c : Clock) (t : ℕ) → Follows c (update_now c t) t
unfolding update_now
update_now-Follows c t = ground arith

pub reading_of : Clock → Timeval
reading_of c = record { tv_sec = c.now; tv_usec = c.now_usec }

update_now-usec : (c : Clock) (t : ℕ) → (update_now c t).now_usec ≡ c.now_usec
unfolding update_now
update_now-usec c t = ground arith

reading_ascends :
    (c : Clock) (tv : Timeval) → tv_le (reading_of c) (reading_of (update_now_usec c tv)) ≡ true
unfolding reading_of update_now_usec tv_le
reading_ascends c tv =
    ground (arith, (update_now-Follows c tv.tv_sec).forward, update_now-usec c tv.tv_sec)

-- The times that are read while the system gives those of a list.
pub readings : Clock → List Timeval → List Timeval
readings c [] = []
readings c (tv ∷ tvs) = let r = openvpn_gettimeofday c tv in r.0 ∷ readings (r.1) tvs

-- Each time is not before the one in front of it.
pub Ascending : Timeval → List Timeval → Type 0
Ascending t [] = Unit {0}
Ascending t (u ∷ us) = (tv_le t u ≡ true) × Ascending u us

-- Whatever times the system gives, those that are read never go back.
pub readings-Ascending :
    (c : Clock) (tvs : List Timeval) → Ascending (reading_of c) (readings c tvs)
unfolding readings Ascending openvpn_gettimeofday reading_of
readings-Ascending c [] = tt
readings-Ascending c (tv ∷ tvs) =
    (reading_ascends c tv, readings-Ascending (update_now_usec c tv) tvs)

-- A time in microseconds.
abbrev pub total : Timeval → ℕ
total t = t.tv_sec * 1_000_000 + t.tv_usec

-- One round of the loop is enough.
carried :
    (sec : ℤ) (a b : ℕ)
    → a < 1_000_000
    → b < 1_000_000
    → carry_seconds (suc (a / 1_000_000 + 1)) (sec, pos b -ℤ pos a)
      ≡ (if leb a b then (sec, pos (b - a)) else (sec -ℤ pos 1, pos (b + 1_000_000 - a)))
unfolding carry_seconds ◌+ℤ◌ ◌-ℤ◌
carried sec a b ha hb =
    let rounds : a / 1_000_000 + 1 ≡ suc zero = omega arith in
    rw rounds (elim (dec_le a b) [ yes p ↦ ground arith | no p ↦ ground arith ])

total_near :
    (s t a b : ℕ)
    → a ≤ b
    → b < 1_000_000
    → (total (clipped (pos t -ℤ pos s, pos (b - a))) ≡ t * 1_000_000 + b - (s * 1_000_000 + a))
      × ((clipped (pos t -ℤ pos s, pos (b - a))).tv_usec < 1_000_000)
unfolding clipped ◌-ℤ◌
total_near s t a b h hb = (ground arith, ground arith)

total_carried :
    (s t a b : ℕ)
    → b < a
    → a < 1_000_000
    → (total (clipped ((pos t -ℤ pos s) -ℤ pos 1, pos (b + 1_000_000 - a)))
        ≡ t * 1_000_000 + b - (s * 1_000_000 + a))
      × ((clipped ((pos t -ℤ pos s) -ℤ pos 1, pos (b + 1_000_000 - a))).tv_usec < 1_000_000)
unfolding clipped ◌-ℤ◌
total_carried s t a b h ha = (ground arith, ground arith)

-- The difference of two times is exact, and 0 where the second one is not behind the first one.
pub tv_delta-total :
    (a b : Timeval)
    → a.tv_usec < 1_000_000
    → b.tv_usec < 1_000_000
    → (total (tv_delta a b) ≡ total b - total a) × ((tv_delta a b).tv_usec < 1_000_000)
unfolding tv_delta
tv_delta-total a b ha hb =
    rw (carried (pos b.tv_sec -ℤ pos a.tv_sec) a.tv_usec b.tv_usec ha hb)
      (elim (Bool-cases (leb a.tv_usec b.tv_usec)) [
        | inl near ↦ rw near (total_near a.tv_sec b.tv_sec a.tv_usec b.tv_usec (ground arith) hb)
        | inr far ↦ rw far (total_carried a.tv_sec b.tv_sec a.tv_usec b.tv_usec (ground arith) ha)
      ])
