-- ===== src/Chars.antt =====
-- `Treiber/lib/buffer.c` and `Treiber/lib/buffer.h`: character classes, and functions on C strings.
-- A C string is the list of its characters without the final NUL; a `char` is taken as the
-- `unsigned char` that `char_class` converts it to, and `isalpha` and its like are those of the
-- "C" locale.
pub mod Classes
pub mod Mod
pub mod Trim
mod Tests
use treiber.Base.{
  ℕ, zero, suc, ◌+◌, ◌-◌, ◌/◌, ◌%◌, ◌^◌, Bool, true, false, not, ◌&&◌, ◌||◌, List, [], ◌∷◌, ltb,
  leb, ◌==◌, if◌then◌else◌, length, get_or, take,
}

-- `flags & (1<<k)`
abbrev pub has : ℕ → ℕ → Bool
has flags k = flags / 2 ^ k % 2 == 1

abbrev between : ℕ → ℕ → ℕ → Bool
between lo hi c = leb lo c && leb c hi

isdigit : ℕ → Bool
isdigit c = between b'0' b'9' c

isalpha : ℕ → Bool
isalpha c = between b'a' b'z' c || between b'A' b'Z' c

isalnum : ℕ → Bool
unfolding isalpha isdigit
isalnum c = isalpha c || isdigit c

isascii : ℕ → Bool
isascii c = ltb c 128

iscntrl : ℕ → Bool
iscntrl c = ltb c 32 || c == 127

isspace : ℕ → Bool
isspace c = c == 32 || between 9 13 c

isxdigit : ℕ → Bool
unfolding isdigit
isxdigit c = isdigit c || between b'a' b'f' c || between b'A' b'F' c

ispunct : ℕ → Bool
unfolding isalnum
ispunct c = between 33 126 c && not (isalnum c)

-- The classes of single characters: bit `k` of the flags, and the character.
abbrev single : ℕ → ℕ → ℕ → ℕ → Bool
single flags c k d = has flags k && c == d

-- The tests from CC_BACKSLASH to CC_ASTERISK.
char_class_single : ℕ → ℕ → Bool
char_class_single c flags =
    single flags c 14 92
    || single flags c 15 b'_'
    || single flags c 16 b'-'
    || single flags c 17 b'.'
    || single flags c 18 44
    || single flags c 19 b':'
    || single flags c 20 b'/'
    || single flags c 21 39
    || single flags c 22 34
    || single flags c 23 b'`'
    || single flags c 24 64
    || single flags c 25 b'='
    || single flags c 26 b'<'
    || single flags c 27 b'>'
    || single flags c 28 b'|'
    || single flags c 29 b'?'
    || single flags c 30 b'*'

-- The tests up to CC_CR.
char_class_ctype : ℕ → ℕ → Bool
unfolding isalnum isalpha isascii iscntrl isdigit ispunct isspace isxdigit
char_class_ctype c flags =
    has flags 1 && c == 0
    || has flags 2 && isalnum c
    || has flags 3 && isalpha c
    || has flags 4 && isascii c
    || has flags 5 && iscntrl c
    || has flags 6 && isdigit c
    || has flags 7 && (leb 32 c && not (c == 127))
    || has flags 8 && ispunct c
    || has flags 9 && isspace c
    || has flags 10 && isxdigit c
    || has flags 11 && (c == 32 || c == 9)
    || has flags 12 && c == 10
    || has flags 13 && c == 13

unfoldable pub char_class : ℕ → ℕ → Bool
unfolding char_class_ctype char_class_single
char_class c flags =
    if flags == 0
    then false
    else if has flags 0
    then true
    else char_class_ctype c flags || char_class_single c flags

-- `CC_CRLF | CC_NULL`
abbrev pub cc_crlf_null : ℕ
cc_crlf_null = 2 ^ 13 + 2 ^ 12 + 2

unfoldable pub char_inc_exc : ℕ → ℕ → ℕ → Bool
char_inc_exc c inclusive exclusive = char_class c inclusive && not (char_class c exclusive)

unfoldable pub string_class : List ℕ → ℕ → ℕ → Bool
string_class [] inclusive exclusive = true
string_class (c ∷ s) inclusive exclusive =
    if not (char_inc_exc c inclusive exclusive) then false else string_class s inclusive exclusive

-- The characters that are kept in front of `out`, and whether nothing was replaced. A replacement
-- by NUL removes the character.
abbrev put : ℕ → List ℕ → List ℕ
put c out = if c == 0 then out else c ∷ out

pub string_mod : List ℕ → ℕ → ℕ → ℕ → Bool × List ℕ
string_mod [] inclusive exclusive replace = (true, [])
string_mod (c ∷ s) inclusive exclusive replace =
    let (ret, out) = string_mod s inclusive exclusive replace in
    if char_inc_exc c inclusive exclusive then (ret, put c out) else (false, put replace out)

string_replace_leading : List ℕ → ℕ → ℕ → List ℕ
string_replace_leading [] match replace = []
string_replace_leading (c ∷ s) match replace =
    if c == match then replace ∷ string_replace_leading s match replace else c ∷ s

skip_leading_whitespace : List ℕ → List ℕ
skip_leading_whitespace [] = []
skip_leading_whitespace (c ∷ s) =
    if not (c == 32 || c == 9) then c ∷ s else skip_leading_whitespace s

has_digit : List ℕ → Bool
unfolding isdigit
has_digit [] = false
has_digit (c ∷ s) = if isdigit c then true else has_digit s

-- `strchr(what, c) != NULL`: the NUL at its end is a character of `what` too.
abbrev pub strchr : List ℕ → ℕ → Bool
strchr [] c = c == 0
strchr (d ∷ what) c = d == c || strchr what c

-- One round for each removed character; the last finds nothing to remove.
rm_trailing_loop : ℕ → List ℕ → List ℕ → List ℕ
rm_trailing_loop zero s what = s
rm_trailing_loop (suc fuel) s what =
    let n = length s in
    let rest = rm_trailing_loop fuel (take (n - 1) s) what in
    if ltb 0 n && strchr what (get_or s (n - 1) 0) then rest else s

pub rm_trailing_chars : List ℕ → List ℕ → List ℕ
unfolding rm_trailing_loop
rm_trailing_chars s what = rm_trailing_loop (length s + 1) s what

pub chomp : List ℕ → List ℕ
unfolding rm_trailing_chars
chomp s = rm_trailing_chars s (13 ∷ 10 ∷ [])
