-- ===== src/Chars/Classes.antt =====
-- Characters that are in a class.
use treiber.Base.{ℕ, ◌^◌, ◌+◌, ◌≡◌, true, ◌&&◌, ◌||◌, arith, leb, ◌==◌}
use treiber.Chars.{
  char_class, char_inc_exc, char_class_ctype, char_class_single, isalnum, isdigit, isalpha,
}

-- CC_ALNUM with CC_DASH and CC_DOT has the digits and the dot.
pub host_class :
    (c : ℕ)
    → (leb b'0' c && leb c b'9' || c == b'.') ≡ true
    → char_inc_exc c (2 ^ 2 + 2 ^ 16 + 2 ^ 17) 0 ≡ true
unfolding char_inc_exc char_class char_class_ctype char_class_single isalnum isdigit isalpha
host_class c h = ground arith
