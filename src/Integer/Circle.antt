-- ===== src/Integer/Circle.antt =====
-- Differences on a circle.
use treiber.Base.{ℕ, ◌+◌, ◌-◌, ◌*◌, ◌^◌, ◌≤◌, ◌<◌, ◌≡◌, some, arith, leb, if◌then◌else◌, ◌⊎◌}
use native.Mathlib.Decide.{dec_lt}
use treiber.Base.Int.{ℤ, pos, negsuc, pos_part, ◌+ℤ◌, ◌-ℤ◌}
use treiber.Integer.{abs, modulo_subtract, modulo_add}

ahead_near :
    (x y n : ℕ)
    → n ≤ 2 ^ 30
    → x < n
    → y ≤ x
    → (x - y) * 2 ≤ n
    → modulo_subtract (pos x) (pos y) (pos n) ≡ some (pos (x - y))
unfolding modulo_subtract ◌+ℤ◌ ◌-ℤ◌
ahead_near x y n small hx hy h = ground arith

ahead_far :
    (x y n : ℕ)
    → n ≤ 2 ^ 30
    → x < n
    → y ≤ x
    → n < (x - y) * 2
    → modulo_subtract (pos x) (pos y) (pos n) ≡ some (negsuc (n - (x - y) - 1))
unfolding modulo_subtract ◌+ℤ◌ ◌-ℤ◌
ahead_far x y n small hx hy h = ground arith

behind_near :
    (x y n : ℕ)
    → n ≤ 2 ^ 30
    → y < n
    → x < y
    → (y - x) * 2 ≤ n
    → modulo_subtract (pos x) (pos y) (pos n) ≡ some (negsuc (y - x - 1))
unfolding modulo_subtract ◌+ℤ◌ ◌-ℤ◌
behind_near x y n small hx hy h = ground arith

behind_far :
    (x y n : ℕ)
    → n ≤ 2 ^ 30
    → y < n
    → x < y
    → n < (y - x) * 2
    → modulo_subtract (pos x) (pos y) (pos n) ≡ some (pos (n - (y - x)))
unfolding modulo_subtract ◌+ℤ◌ ◌-ℤ◌
behind_far x y n small hx hy h = ground arith

add_pos :
    (y k n : ℕ)
    → n ≤ 2 ^ 30
    → y < n
    → k ≤ n
    → modulo_add (pos y) (pos k) (pos n) ≡ some (pos (if leb n (y + k) then y + k - n else y + k))
unfolding modulo_add ◌+ℤ◌ ◌-ℤ◌
add_pos y k n small hy hk = ground arith

add_negsuc :
    (y k n : ℕ)
    → n ≤ 2 ^ 30
    → y < n
    → k < n
    → modulo_add (pos y) (negsuc k) (pos n)
      ≡ some (pos (if leb (k + 1) y then y - k - 1 else y + n - k - 1))
unfolding modulo_add ◌+ℤ◌ ◌-ℤ◌
add_negsuc y k n small hy hk = ground arith

-- A difference that leads back, and is not more than half of the circle.
abbrev Leads : ℕ → ℕ → ℕ → ℤ → Type 0
Leads x y n d = (modulo_add (pos y) d (pos n) ≡ some (pos x)) × (pos_part (abs d) * 2 ≤ n)

ahead-Leads :
    (x y n k : ℕ)
    → n ≤ 2 ^ 30
    → x < n
    → y < n
    → k * 2 ≤ n
    → (y + k ≡ x) ⊎ (y + k ≡ x + n)
    → Leads x y n (pos k)
unfolding ◌-ℤ◌
ahead-Leads x y n k small hx hy h e =
    (rw (add_pos y k n small hy (omega arith)) (ground arith), ground arith)

back-Leads :
    (x y n k : ℕ)
    → n ≤ 2 ^ 30
    → x < n
    → y < n
    → (k + 1) * 2 ≤ n
    → (x + k + 1 ≡ y) ⊎ (x + k + 1 ≡ y + n)
    → Leads x y n (negsuc k)
unfolding ◌-ℤ◌
back-Leads x y n k small hx hy h e =
    (rw (add_negsuc y k n small hy (omega arith)) (ground arith), ground arith)

-- The result of a subtraction that leads back.
abbrev Subtracts : ℕ → ℕ → ℕ → Type 0
Subtracts x y n =
    (d : ℤ) × (modulo_subtract (pos x) (pos y) (pos n) ≡ some d)
    × (modulo_add (pos y) d (pos n) ≡ some (pos x))
    × (pos_part (abs d) * 2 ≤ n)

leading :
    (x y n : ℕ) (d : ℤ)
    → modulo_subtract (pos x) (pos y) (pos n) ≡ some d
    → Leads x y n d
    → Subtracts x y n
leading x y n d e (back, half) = (d, e, back, half)

-- For two places on a circle of at most 2 ^ 30 places, no `int` overflows: `modulo_subtract` gives a difference that is at most half of it, and
-- `modulo_add` leads with it from the second place to the first.
pub modulo_add-subtract :
    (x y n : ℕ)
    → n ≤ 2 ^ 30
    → x < n
    → y < n
    → (d : ℤ) × (modulo_subtract (pos x) (pos y) (pos n) ≡ some d)
      × (modulo_add (pos y) d (pos n) ≡ some (pos x))
      × (pos_part (abs d) * 2 ≤ n)
modulo_add-subtract x y n small hx hy = elim (dec_lt x y) [
  | yes p ↦ elim (dec_lt n ((y - x) * 2)) [
    | yes far ↦
        leading x y n _ (behind_far x y n small hy p far)
          (ahead-Leads x y n (n - (y - x)) small hx hy (omega arith) (ground arith))
    | no near ↦
        leading x y n _ (behind_near x y n small hy p (omega arith))
          (back-Leads x y n (y - x - 1) small hx hy (omega arith) (ground arith))
  ]
  | no p ↦ elim (dec_lt n ((x - y) * 2)) [
    | yes far ↦
        leading x y n _ (ahead_far x y n small hx (omega arith) far)
          (back-Leads x y n (n - (x - y) - 1) small hx hy (omega arith) (ground arith))
    | no near ↦
        leading x y n _ (ahead_near x y n small hx (omega arith) (omega arith))
          (ahead-Leads x y n (x - y) small hx hy (omega arith) (ground arith))
  ]
]
