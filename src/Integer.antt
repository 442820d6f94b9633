-- ===== src/Integer.antt =====
-- `Treiber/lib/integer.h`: the functions on `int`. `none` is a failed assertion or an overflow.
mod Circle
mod Tests
use treiber.Base.{Bool, true, false, ◌&&◌, not, Option, none, some, if◌then◌else◌, ◌>>=◌}
use treiber.Base.Int.{ℤ, pos, negsuc, ◌+ℤ◌, ◌-ℤ◌, ltb_ℤ, leb_ℤ}

unfoldable pub constrain_int : ℤ → ℤ → ℤ → ℤ
constrain_int x min max =
    if ltb_ℤ max min then min else if ltb_ℤ x min then min else if ltb_ℤ max x then max else x

abbrev pub abs : ℤ → ℤ
abs n = if ltb_ℤ n (pos 0) then pos 0 -ℤ n else n

-- A result of `int`: `none` is an overflow.
abbrev pub to_int : ℤ → Option ℤ
to_int n = if leb_ℤ (negsuc 0x7fff_ffff) n && leb_ℤ n (pos 0x7fff_ffff) then some n else none

pub modulo_subtract : ℤ → ℤ → ℤ → Option ℤ
modulo_subtract x y mod' = do
  d1 ← to_int (x -ℤ y)
  d2 ← to_int ((if ltb_ℤ y x then pos 0 -ℤ mod' else mod') +ℤ d1)
  if leb_ℤ (pos 0) x && ltb_ℤ x mod' && leb_ℤ (pos 0) y && ltb_ℤ y mod'
      then some (if ltb_ℤ (abs d2) (abs d1) then d2 else d1)
      else none

pub modulo_add : ℤ → ℤ → ℤ → Option ℤ
modulo_add x y mod' = do
  sum ← to_int (x +ℤ y)
  if leb_ℤ (pos 0) x && ltb_ℤ x mod' && leb_ℤ (pos 0 -ℤ mod') y && leb_ℤ y mod'
      then (let sum' = if leb_ℤ mod' sum then sum -ℤ mod' else sum in
          some (if ltb_ℤ sum' (pos 0) then sum' +ℤ mod' else sum'))
      else none
