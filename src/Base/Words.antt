-- ===== src/Base/Words.antt =====
-- C's unsigned integers as native numbers with their wrap-around, and the ranges of the types.
use treiber.Base.{ℕ, ◌+◌, ◌-◌, ◌%◌, ◌^◌, ◌<◌}

-- Values of `size_t` on the 64-bit targets.
abbrev pub size_mod : ℕ
size_mod = 2 ^ 64

abbrev pub add_size : ℕ → ℕ → ℕ
add_size a b = (a + b) % size_mod

abbrev pub sub_size : ℕ → ℕ → ℕ
sub_size a b = (a + size_mod - b) % size_mod

abbrev IsByte : ℕ → Type 0
IsByte b = b < 256

abbrev IsSize : ℕ → Type 0
IsSize n = n < size_mod
