-- ===== src/Buffer/Lines/Match.antt =====
-- Comparing and searching the content of a buffer.
use treiber.Base.{
  ℕ, zero, suc, ◌+◌, ◌<◌, ◌≡◌, ◌≢◌, ◌↔◌, refl, sym, ap, ◌∙◌, true, false, List, [], ◌∷◌, ◌++◌,
  arith, length, All, take, drop, length-append, take-append, take-append-drop,
}
use treiber.Base.Int.{pos, negsuc}
use treiber.Buffer.Rep.{rep}
use treiber.Buffer.Access.Read.{read_u8_front, read_u8_end, content-rep, len-rep, advance_front}
use treiber.Buffer.Lines.{
  same_bytes, buf_equal, buf_string_compare_advance, substring_loop, buf_substring_len,
}

same_bytes_refl : (xs : List ℕ) → same_bytes xs xs ≡ true
unfolding same_bytes
same_bytes_refl [] = refl
same_bytes_refl (x ∷ xs) = ground (arith, same_bytes_refl xs)

same_bytes→eq : (xs ys : List ℕ) → same_bytes xs ys ≡ true → xs ≡ ys
unfolding same_bytes
same_bytes→eq [] [] h = refl
same_bytes→eq [] (y ∷ ys) h = cc
same_bytes→eq (x ∷ xs) [] h = cc
same_bytes→eq (x ∷ xs) (y ∷ ys) h = ground (arith, same_bytes→eq xs ys)

-- `buf_equal` holds exactly when the contents are the same bytes.
buf_equal_iff :
    (pre c post pre' d post' : List ℕ)
    → (buf_equal (rep pre c post) (rep pre' d post') ≡ true) ↔ (c ≡ d)
unfolding buf_equal
buf_equal_iff pre c post pre' d post' =
    rw (len-rep pre c post, len-rep pre' d post', content-rep pre c post, content-rep pre' d post')
      ((λ h. same_bytes→eq c d (ground arith)), (λ e. rw e (ground (arith, same_bytes_refl d))))

-- A content that begins with `match` has it taken off.
compare_advance_match :
    (pre match c post : List ℕ)
    → buf_string_compare_advance (rep pre (match ++ c) post) match
      ≡ (true, rep (pre ++ match) c post)
unfolding buf_string_compare_advance
compare_advance_match pre match c post = ground (
  arith,
  content-rep pre (match ++ c) post,
  length-append {A = ℕ} match c,
  take-append (length match) match c refl,
  same_bytes_refl match,
  advance_front pre match c post (length match) refl,
)

-- `buf_string_compare_advance` accepts only a content that begins with `match`; where it refuses,
-- the buffer is as it was.
compare_advance_only :
    (pre match c post : List ℕ)
    → let (found, b) = buf_string_compare_advance (rep pre c post) match in
      (found ≡ true → c ≡ match ++ drop (length match) c) × (found ≡ false → b ≡ rep pre c post)
unfolding buf_string_compare_advance
compare_advance_only pre match c post = (
  (λ h.
      sym (take-append-drop (length match) c)
      ∙ ap (λ t. t ++ drop (length match) c)
          (same_bytes→eq (take (length match) c) match (ground (arith, content-rep pre c post)))),
  (λ h. ground arith),
)

-- The length of the content up to and with the first `delim`.
substring_found :
    (w pre rest post : List ℕ) (d fuel i : ℕ)
    → All (λ x. x ≢ d) w
    → length w < fuel
    → substring_loop fuel i (rep pre (w ++ (d ∷ rest)) post) (pos d) ≡ pos (i + length w + 1)
unfolding substring_loop
substring_found w pre rest post d zero i h k = elim k [ ]
substring_found [] pre rest post d (suc fuel) i h k = ground (arith, read_u8_front pre d rest post)
substring_found (x ∷ w) pre rest post d (suc fuel) i h k = ground (
  arith,
  h.0,
  read_u8_front pre x (w ++ (d ∷ rest)) post,
  substring_found w (pre ++ (x ∷ [])) rest post d fuel (i + 1) h.1,
)

substring_missing :
    (w pre post : List ℕ) (d fuel i : ℕ)
    → All (λ x. x ≢ d) w
    → length w < fuel
    → substring_loop fuel i (rep pre w post) (pos d) ≡ negsuc 0
unfolding substring_loop
substring_missing w pre post d zero i h k = elim k [ ]
substring_missing [] pre post d (suc fuel) i h k = ground (arith, read_u8_end pre post)
substring_missing (x ∷ w) pre post d (suc fuel) i h k = ground (
  arith,
  h.0,
  read_u8_front pre x w post,
  substring_missing w (pre ++ (x ∷ [])) post d fuel (i + 1) h.1,
)

-- `buf_substring_len` is the number of bytes up to and with the first delimiter, and -1 where the
-- content has none.
buf_substring_len_lem :
    (pre w rest post : List ℕ) (d : ℕ)
    → All (λ x. x ≢ d) w
    → (buf_substring_len (rep pre (w ++ (d ∷ rest)) post) (pos d) ≡ pos (length w + 1))
      × (buf_substring_len (rep pre w post) (pos d) ≡ negsuc 0)
unfolding buf_substring_len
buf_substring_len_lem pre w rest post d h = (
  rw len-rep (
      ground (
        arith,
        length-append {A = ℕ} w (d ∷ rest),
        substring_found w pre rest post d (length (w ++ (d ∷ rest)) + 1) 0 h,
      )),
  rw len-rep (substring_missing w pre post d (length w + 1) 0 h (omega arith)),
)
