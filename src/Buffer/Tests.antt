-- ===== src/Buffer/Tests.antt =====
-- Runs of the buffer functions, and their theorems at concrete inputs.
use treiber.Base.{ℕ, ◌≡◌, refl, true, false, List, [], ◌∷◌, arith}
use treiber.Base.Int.{negsuc}
use treiber.Buffer.{
  buf_inc_len, buf_prepend, buf_advance, buf_write_alloc, buf_read_alloc, buf_init,
}
use treiber.Buffer.Rep.{rep}
use treiber.Buffer.Inv.{IsValid, rep-IsValid, space-IsValid}
use treiber.Chars.{char_class, cc_crlf_null}

-- Two bytes of head room, "ab" and three bytes of tail room.
abbrev ab : List ℕ
ab = b'a' ∷ b'b' ∷ []

abbrev head : List ℕ
head = 0 ∷ 0 ∷ []

abbrev tail : List ℕ
tail = 0 ∷ 0 ∷ 0 ∷ []

-- The array `line` of a caller of `buf_parse`.
abbrev line : List ℕ
line = 7 ∷ 7 ∷ 7 ∷ []

ab-IsValid : IsValid (rep head ab tail)
ab-IsValid = rep-IsValid head ab tail (omega arith)

space-IsValid_example :
    IsValid (buf_inc_len (rep head ab tail) (negsuc 0)).1
    × IsValid (buf_prepend (rep head ab tail) (negsuc 0)).1
    × IsValid (buf_advance (rep head ab tail) (negsuc 0)).1
    × IsValid (buf_write_alloc (rep head ab tail) (negsuc 0)).1
    × IsValid (buf_read_alloc (rep head ab tail) (negsuc 0)).1
    × IsValid (buf_init (rep head ab tail) (negsuc 0)).1
space-IsValid_example = space-IsValid (negsuc 0) (omega arith, omega arith) ab-IsValid

cr : char_class 13 cc_crlf_null ≡ true
unfolding char_class
cr = refl

nl : char_class 10 cc_crlf_null ≡ true
unfolding char_class
nl = refl

b_stays : char_class b'b' cc_crlf_null ≡ false
unfolding char_class
b_stays = refl
