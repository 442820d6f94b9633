-- ===== src/Chars/Tests.antt =====
-- Runs of the functions on characters, and their theorems at concrete inputs.
use treiber.Base.{ℕ, ◌^◌, ◌≡◌, refl, List, [], ◌∷◌}
use treiber.Chars.{char_class, char_inc_exc, string_mod, chomp}

-- CC_ALNUM and no CC_DIGIT.
abbrev alnum : ℕ
alnum = 2 ^ 2

abbrev digit : ℕ
digit = 2 ^ 6

-- "a1b"
abbrev a1b : List ℕ
a1b = b'a' ∷ b'1' ∷ b'b' ∷ []

digits_become_bars : (string_mod a1b alnum digit b'|').1 ≡ b'a' ∷ b'|' ∷ b'b' ∷ []
unfolding string_mod char_inc_exc char_class
digits_become_bars = refl

chomped : chomp (b'a' ∷ 13 ∷ 10 ∷ 10 ∷ []) ≡ b'a' ∷ []
unfolding chomp
chomped = refl
