-- ===== src/Buffer/Lines/Parse.antt =====
-- `buf_parse`: what a caller gets of a line that fits, of the last line, and of one that is too long.
use treiber.Base.{
  set-append, ℕ, zero, suc, ◌-◌, ◌≤◌, ◌<◌, ◌≡◌, ◌≢◌, refl, ◌∙◌, Bool, true, false, not, List, [],
  ◌∷◌, ◌++◌, arith, length, All, take, drop, set, ◌==◌, some, append_assoc, append-nil,
  length-append,
}
use treiber.Base.Int.{ℤ, pos}
use treiber.Buffer.Rep.{rep}
use treiber.Buffer.Access.Read.{read_u8_front, read_u8_end}
use treiber.Buffer.Lines.{eq_ℤ, c_string, line_char, parse_loop, buf_parse}

-- A character of a line: neither NUL nor the delimiter.
abbrev IsInner : ℤ → ℕ → Type 0
IsInner delim x = (x ≢ 0) × (eq_ℤ (pos x) delim ≡ false)

-- A round that stores a character of the line.
inner_round :
    (delim : ℤ) (eol : Bool) (acc : List ℕ) (t : ℕ) (ts pre : List ℕ) (x : ℕ) (c post : List ℕ)
    → IsInner delim x
    → parse_loop (suc (length ts)) (length acc) delim eol (acc ++ (t ∷ ts)) (rep pre (x ∷ c) post)
      ≡ parse_loop
          (length ts)
          (length (acc ++ (x ∷ [])))
          delim
          eol
          ((acc ++ (x ∷ [])) ++ ts)
          (rep (pre ++ (x ∷ [])) c post)
unfolding parse_loop
inner_round delim eol acc t ts pre x c post h = ground (
  arith,
  h.0,
  h.1,
  read_u8_front pre x c post,
  set-append acc t ts x,
  length-append {A = ℕ} acc (x ∷ []),
  append_assoc acc (x ∷ []) ts,
)

-- The loop over a line `w` and the character `d` that ends it.
found_loop :
    (delim : ℤ) (d : ℕ) (w acc tail pre rest post : List ℕ)
    → line_char (pos d) delim ≡ 0
    → All (IsInner delim) w
    → length w < length tail
    → parse_loop
        (length tail)
        (length acc)
        delim
        false
        (acc ++ tail)
        (rep pre (w ++ (d ∷ rest)) post)
      ≡ (
        acc ++ (w ++ (0 ∷ drop (suc (length w)) tail)),
        false,
        rep (pre ++ (w ++ (d ∷ []))) rest post,
      )
unfolding parse_loop
found_loop delim d w acc [] pre rest post e h k = elim k [ ]
found_loop delim d [] acc (t ∷ tail) pre rest post e h k =
    ground (arith, read_u8_front pre d rest post, set-append acc t tail 0)
found_loop delim d (x ∷ w) acc (t ∷ tail) pre rest post e h k =
    inner_round delim false acc t tail pre x (w ++ (d ∷ rest)) post h.0
    ∙ found_loop delim d w (acc ++ (x ∷ [])) tail (pre ++ (x ∷ [])) rest post e h.1 (omega arith)
    ∙ rw (append_assoc acc (x ∷ []), append_assoc pre (x ∷ []))

-- The loop over a line that the end of the content ends.
last_loop :
    (delim : ℤ) (w acc tail pre post : List ℕ)
    → All (IsInner delim) w
    → length w < length tail
    → parse_loop (length tail) (length acc) delim false (acc ++ tail) (rep pre w post)
      ≡ (acc ++ (w ++ (0 ∷ drop (suc (length w)) tail)), true, rep (pre ++ w) [] post)
unfolding parse_loop
last_loop delim w acc [] pre post h k = elim k [ ]
last_loop delim [] acc (t ∷ tail) pre post h k =
    rw append-nil (ground (arith, read_u8_end pre post, set-append acc t tail 0))
last_loop delim (x ∷ w) acc (t ∷ tail) pre post h k =
    inner_round delim false acc t tail pre x w post h.0
    ∙ last_loop delim w (acc ++ (x ∷ [])) tail (pre ++ (x ∷ [])) post h.1 (omega arith)
    ∙ rw (append_assoc acc (x ∷ []), append_assoc pre (x ∷ []))

-- The loop over a line that fills the array.
long_loop :
    (delim : ℤ) (d : ℕ) (w acc tail pre rest post : List ℕ)
    → All (IsInner delim) w
    → length w ≡ length tail
    → parse_loop
        (length tail)
        (length acc)
        delim
        false
        (acc ++ tail)
        (rep pre (w ++ (d ∷ rest)) post)
      ≡ (acc ++ w, false, rep (pre ++ (w ++ (d ∷ []))) rest post)
unfolding parse_loop
long_loop delim d [] acc [] pre rest post h k = ground (arith, read_u8_front pre d rest post)
long_loop delim d [] acc (t ∷ tail) pre rest post h k = absurd (omega arith)
long_loop delim d (x ∷ w) acc [] pre rest post h k = absurd (omega arith)
long_loop delim d (x ∷ w) acc (t ∷ tail) pre rest post h k =
    inner_round delim false acc t tail pre x (w ++ (d ∷ rest)) post h.0
    ∙ long_loop delim d w (acc ++ (x ∷ [])) tail (pre ++ (x ∷ [])) rest post h.1 (omega arith)
    ∙ rw (append_assoc acc (x ∷ []), append_assoc pre (x ∷ []))

-- The string in front of the first NUL, also after the last byte of the array is set to NUL.
c_string-line :
    (delim : ℤ) (w tail : List ℕ) (k : ℕ)
    → All (IsInner delim) w
    → length w ≤ k
    → c_string (set (w ++ (0 ∷ tail)) k 0) ≡ w
c_string-line delim [] tail zero h e = refl
c_string-line delim [] tail (suc k) h e = refl
c_string-line delim (x ∷ w) tail zero h e = absurd (omega arith)
c_string-line delim (x ∷ w) tail (suc k) h e = ground (arith, h.0, c_string-line delim w tail k h.1)

c_string-cut :
    (delim : ℤ) (w : List ℕ) (k : ℕ)
    → All (IsInner delim) w
    → k < length w
    → c_string (set w k 0) ≡ take k w
c_string-cut delim [] k h e = elim e [ ]
c_string-cut delim (x ∷ w) zero h e = refl
c_string-cut delim (x ∷ w) (suc k) h e = ground (arith, h.0, c_string-cut delim w k h.1)

-- A line that fits: `buf_parse` copies it without its delimiter, takes both off the buffer, and
-- answers true.
pub parse_line :
    (delim : ℤ) (d : ℕ) (w line pre rest post : List ℕ)
    → line_char (pos d) delim ≡ 0
    → All (IsInner delim) w
    → length w < length line
    → (out : List ℕ) × (buf_parse (rep pre (w ++ (d ∷ rest)) post) delim line (length line)
        ≡ some (true, out, rep (pre ++ (w ++ (d ∷ []))) rest post))
      × (c_string out ≡ w)
unfolding buf_parse
parse_line delim d w line pre rest post e h k = (
  set (w ++ (0 ∷ drop (suc (length w)) line)) (length line - 1) 0,
  ground (arith, found_loop delim d w [] line pre rest post e h k),
  c_string-line delim w (drop (suc (length w)) line) (length line - 1) h (omega arith),
)

-- What stands behind the last delimiter: it is copied, the buffer is left empty, and the answer is
-- false exactly when there was nothing.
parse_last :
    (delim : ℤ) (w line pre post : List ℕ)
    → All (IsInner delim) w
    → length w < length line
    → (out : List ℕ) × (buf_parse (rep pre w post) delim line (length line)
        ≡ some (not (length w == 0), out, rep (pre ++ w) [] post))
      × (c_string out ≡ w)
unfolding buf_parse
parse_last delim w line pre post h k = (
  set (w ++ (0 ∷ drop (suc (length w)) line)) (length line - 1) 0,
  ground (
    arith,
    last_loop delim w [] line pre post h k,
    c_string-line delim w (drop (suc (length w)) line) (length line - 1) h,
  ),
  c_string-line delim w (drop (suc (length w)) line) (length line - 1) h (omega arith),
)

-- A line that is too long for the array: the caller gets all but one of the characters that fill
-- it, and the buffer loses that one and the character `d` behind them as well.
pub parse_long :
    (delim : ℤ) (d : ℕ) (w line pre rest post : List ℕ)
    → All (IsInner delim) w
    → length w ≡ length line
    → 0 < length line
    → (out : List ℕ) × (buf_parse (rep pre (w ++ (d ∷ rest)) post) delim line (length line)
        ≡ some (true, out, rep (pre ++ (w ++ (d ∷ []))) rest post))
      × (c_string out ≡ take (length line - 1) w)
unfolding buf_parse
parse_long delim d w line pre rest post h k z = (
  set w (length line - 1) 0,
  ground (arith, long_loop delim d w [] line pre rest post h k),
  c_string-cut delim w (length line - 1) h (omega arith),
)
