-- ===== src/Integer/Tests.antt =====
-- Functions on `int` at concrete inputs.
use treiber.Base.{◌*◌, ◌≤◌, ◌≡◌, some, arith}
use treiber.Base.Int.{ℤ, pos, pos_part}
use treiber.Integer.{abs, modulo_subtract, modulo_add}
use treiber.Integer.Circle.{modulo_add-subtract}

modulo_add-subtract_example :
    (d : ℤ) × (modulo_subtract (pos 1) (pos 9) (pos 10) ≡ some d)
    × (modulo_add (pos 9) d (pos 10) ≡ some (pos 1))
    × (pos_part (abs d) * 2 ≤ 10)
modulo_add-subtract_example = modulo_add-subtract 1 9 10 (omega arith) (omega arith) (omega arith)
