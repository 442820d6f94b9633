-- ===== src/Buffer/Lines.antt =====
-- `Treiber/lib/buffer.c` and `Treiber/lib/buffer.h`: comparing the content of a buffer, and taking
-- lines and terminators off it. `memcmp` compares the lists of bytes.
pub mod Parse
pub mod Match
pub mod Terminate
use treiber.Base.{
  ℕ, zero, suc, ◌+◌, ◌-◌, Bool, true, false, not, ◌&&◌, ◌||◌, Option, none, some, List, [], ◌∷◌,
  ltb, leb, ◌==◌, if◌then◌else◌, length, get_or, take, set, map,
}
use treiber.Base.Int.{ℤ, pos, negsuc, pos_part, ltb_ℤ, leb_ℤ}
use treiber.Buffer.{Buffer, buf_len, buf_blast, buf_safe, buf_inc_len, buf_advance}
use treiber.Buffer.Access.{content, store, buf_read_u8, buf_write_u8}
use treiber.Chars.{char_class, cc_crlf_null}

abbrev pub eq_ℤ : ℤ → ℤ → Bool
eq_ℤ (pos m) (pos n) = m == n
eq_ℤ (pos m) (negsuc n) = false
eq_ℤ (negsuc m) (pos n) = false
eq_ℤ (negsuc m) (negsuc n) = m == n

-- `memcmp(…) == 0`
pub same_bytes : List ℕ → List ℕ → Bool
same_bytes [] [] = true
same_bytes [] (y ∷ ys) = false
same_bytes (x ∷ xs) [] = false
same_bytes (x ∷ xs) (y ∷ ys) = x == y && same_bytes xs ys

pub buf_equal : Buffer → Buffer → Bool
unfolding same_bytes
buf_equal a b = eq_ℤ (buf_len a) (buf_len b) && same_bytes (content a) (content b)

buf_string_match : Buffer → List ℕ → ℤ → Bool
unfolding same_bytes
buf_string_match src match size =
    if not (eq_ℤ size src.len)
    then false
    else same_bytes (take (pos_part size) (content src)) (take (pos_part size) match)

buf_string_match_head : Buffer → List ℕ → ℤ → Bool
unfolding same_bytes
buf_string_match_head src match size =
    if ltb_ℤ size (pos 0) || ltb_ℤ src.len size
    then false
    else same_bytes (take (pos_part size) (content src)) (take (pos_part size) match)

buf_string_match_head_str : Buffer → List ℕ → Bool
unfolding same_bytes
buf_string_match_head_str src match =
    if ltb_ℤ src.len (pos (length match))
    then false
    else same_bytes (take (length match) (content src)) match

pub buf_string_compare_advance : Buffer → List ℕ → Bool × Buffer
unfolding buf_string_match_head_str
buf_string_compare_advance src match =
    if buf_string_match_head_str src match
    then (true, (buf_advance src (pos (length match))).1)
    else (false, src)

-- The loop of `buf_substring_len` after `i` bytes, on fuel: each round reads a byte.
pub substring_loop : ℕ → ℕ → Buffer → ℤ → ℤ
substring_loop zero i tmp delim = negsuc 0
substring_loop (suc fuel) i tmp delim =
    let (c, tmp') = buf_read_u8 tmp in
    let rest = substring_loop fuel (i + 1) tmp' delim in
    if leb_ℤ (pos 0) c then if eq_ℤ c delim then pos (i + 1) else rest else negsuc 0

pub buf_substring_len : Buffer → ℤ → ℤ
unfolding substring_loop
buf_substring_len b delim = substring_loop (pos_part (buf_len b) + 1) 0 b delim

-- The string that an array of `char` holds.
abbrev pub c_string : List ℕ → List ℕ
c_string [] = []
c_string (c ∷ s) = if c == 0 then [] else c ∷ c_string s

-- `c` after the tests of one round: NUL at the end of the content, at a NUL and at the delimiter.
abbrev pub line_char : ℤ → ℤ → ℕ
line_char c delim = if leb_ℤ c (pos 0) || eq_ℤ c delim then 0 else pos_part c

-- The loop of `buf_parse` with room for `room` more characters in `line`, `n` being used: the
-- array, `eol` and the buffer.
pub parse_loop : ℕ → ℕ → ℤ → Bool → List ℕ → Buffer → List ℕ × Bool × Buffer
parse_loop zero n delim eol line b =
    let (c, b') = buf_read_u8 b in (line, eol || ltb_ℤ c (pos 0), b')
parse_loop (suc room) n delim eol line b =
    let (c, b') = buf_read_u8 b in
    let eol' = eol || ltb_ℤ c (pos 0) in
    let line' = set line n (line_char c delim) in
    let rest = parse_loop room (n + 1) delim eol' line' b' in
    if line_char c delim == 0 then (line', eol', b') else rest

-- `buf_parse` with the array `line` of `size` characters. `none`: the assertion that `size` is
-- positive fails.
pub buf_parse : Buffer → ℤ → List ℕ → ℕ → Option (Bool × List ℕ × Buffer)
unfolding parse_loop
buf_parse b delim line size =
    if size == 0
    then none
    else (let (line', eol, b') = parse_loop size 0 delim false line b in
        let line'' = set line' (size - 1) 0 in
        some (not (eol && length (c_string line'') == 0), line'', b'))

buf_rmtail : Buffer → ℕ → Buffer
buf_rmtail b remove = elim (buf_blast b) [
  | none ↦ b
  | some i ↦
      if get_or (elim b.block [ none ↦ [] | some m ↦ m ]) i 0 == remove
      then (let b' = store i (0 ∷ []) b in record b' { len = pos (pos_part b.len - 1) })
      else b
]

-- The last byte of the content.
abbrev last_byte : Buffer → Option ℕ
last_byte b = elim (buf_blast b) [
  | none ↦ none
  | some i ↦ some (get_or (elim b.block [ none ↦ [] | some m ↦ m ]) i 0)
]

pub buf_null_terminate : Buffer → Buffer
buf_null_terminate b =
    let append = λ (d : Buffer). (buf_write_u8 d (pos 0)).1 in
    let write = append (if not (buf_safe b (pos 1)) then (buf_inc_len b (negsuc 0)).1 else b) in
    elim (last_byte b) [ none ↦ write | some c ↦ if c == 0 then b else write ]

-- The loop of `buf_chomp`, on fuel: each round shortens the content.
pub chomp_loop : ℕ → Buffer → Buffer
chomp_loop zero b = b
chomp_loop (suc fuel) b =
    let (shorter, b') = buf_inc_len b (negsuc 0) in
    let rest = chomp_loop fuel b' in
    elim (last_byte b) [
      | none ↦ b
      | some c ↦ if char_class c cc_crlf_null then if shorter then rest else b else b
    ]

pub buf_chomp : Buffer → Buffer
unfolding chomp_loop buf_null_terminate
buf_chomp b = buf_null_terminate (chomp_loop (pos_part (buf_len b) + 1) b)

abbrev bar_for_newline : ℕ → ℕ
bar_for_newline c = if c == 10 then b'|' else c

convert_to_one_line : Buffer → Buffer
convert_to_one_line b = store b.offset (map bar_for_newline (content b)) b
