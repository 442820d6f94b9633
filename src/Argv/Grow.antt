-- ===== src/Argv/Grow.antt =====
-- `adjust_power_of_2` ends, with the least power of 2 that is not less than its argument.
use treiber.Base.{ℕ, zero, suc, ◌*◌, ◌<◌, ◌≤◌, ◌^◌, ◌≡◌, some, arith, ltb, Bool-cases, inl, inr}
use treiber.Argv.{adjust_loop, adjust_power_of_2}

-- `n` doubled `k` times.
double : ℕ → ℕ → ℕ
double zero n = n
double (suc k) n = double k (n * 2)

adjust_loop_lem :
    (fuel ret u : ℕ)
    → 0 < ret
    → ret < 2 * u
    → u ≤ 2 ^ 62
    → u ≤ double fuel ret
    → (r : ℕ) × (adjust_loop (suc fuel) ret u ≡ some r) × (u ≤ r) × (r < 2 * u)
unfolding adjust_loop double
adjust_loop_lem zero ret u p l h f = (ret, ground arith, f, l)
adjust_loop_lem (suc fuel) ret u p l h f = elim (Bool-cases (ltb ret u)) [
  | inl more ↦
      let r = adjust_loop_lem fuel (ret * 2) u (omega arith) (ground arith) h f in
      (r.0, ground (arith, r.1), r.2, r.3)
  | inr done ↦ (ret, ground arith, ground arith, l)
]

-- From 1 up to 2 ^ 62 the loop ends, within its 64 shifts, with a number that is not less than `u` and
-- less than twice as much.
pub adjust_power_of_2_lem :
    (u : ℕ) → 0 < u → u ≤ 2 ^ 62 → (r : ℕ) × (adjust_power_of_2 u ≡ some r) × (u ≤ r) × (r < 2 * u)
unfolding adjust_power_of_2 double
adjust_power_of_2_lem u p h = adjust_loop_lem 64 1 u (omega arith) (omega arith) h (omega arith)
