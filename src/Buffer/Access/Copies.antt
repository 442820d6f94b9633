-- ===== src/Buffer/Access/Copies.antt =====
-- Copies between two buffers.
use treiber.Base.{
  ℕ, ◌+◌, ◌-◌, ◌≤◌, ◌<◌, ◌^◌, ◌≡◌, refl, sym, ◌∙◌, true, false, List, ◌++◌, arith, length, drop,
  length-append, append_assoc, take-of_length_le, length-drop, drop-append, drop-append_ge,
}
use treiber.Base.Int.{pos, pos-add}
use treiber.Buffer.{Buffer}
use treiber.Buffer.Memory.{peek-append, poke, poke-append}
use treiber.Buffer.Rep.{rep, Fits}
use treiber.Buffer.Access.{buf_copy, buf_copy_range, buf_copy_excess, fetch}
use treiber.Buffer.Access.Write.{write_room, write_full}
use treiber.Buffer.Access.Read.{content-rep, len-rep, advance_front}

-- `buf_copy` appends the content of the source.
pub copy_room :
    (pre d post pre' c post' : List ℕ)
    → Fits pre d post
    → length c ≤ length post
    → buf_copy (rep pre d post) (rep pre' c post') ≡ (true, rep pre (d ++ c) (drop (length c) post))
unfolding buf_copy
copy_room pre d post pre' c post' f h = rw (
  content-rep pre' c post',
  len-rep pre' c post',
  write_room pre d post c (length c) f (omega arith) h,
  take-of_length_le (length c) c (omega arith),
)

copy_full :
    (pre d post pre' c post' : List ℕ)
    → length post < length c
    → length c < 2 ^ 31
    → buf_copy (rep pre d post) (rep pre' c post') ≡ (false, rep pre d post)
unfolding buf_copy
copy_full pre d post pre' c post' h k =
    rw (content-rep pre' c post', len-rep pre' c post', write_full pre d post c (length c) h k)

-- `buf_copy_excess` on a source that is longer than `x`.
copy_excess_step :
    (dest : Buffer) (pre x c post : List ℕ) (n : ℕ)
    → n ≡ length x
    → 0 < length c
    → let (done, dest') = buf_copy dest (rep (pre ++ x) c post) in
      buf_copy_excess dest (rep pre (x ++ c) post) (pos n) ≡ (done, dest', rep pre x (c ++ post))
unfolding buf_copy_excess
copy_excess_step dest pre x c post n e h = ground (
  arith,
  advance_front pre x c post n e,
  length-append {A = ℕ} x c,
  length-append {A = ℕ} c post,
  append_assoc x c post,
)

-- The bytes that `buf_copy_range` reads.
fetched :
    (pre x c y post : List ℕ)
    → fetch (length pre + length x) (pos (length c)) (rep pre (x ++ (c ++ y)) post) ≡ c
fetched pre x c y post =
    rw
      (append_assoc x (c ++ y) post, append_assoc c y post, ← append_assoc pre x (c ++ (y ++ post)))
      (peek-append (pre ++ x) c (y ++ post) _ _ (sym (length-append pre x)) refl)

-- What it writes behind the first bytes `a` of the content, over `o`.
written :
    (pre a o z c : List ℕ)
    → poke (length pre + length a) c (pre ++ (a ++ (o ++ z)))
      ≡ pre ++ (a ++ (c ++ drop (length c) (o ++ z)))
written pre a o z c = rw (← append_assoc pre a (o ++ z)) (
    poke-append (pre ++ a) (o ++ z) c _ (sym (length-append pre a))
    ∙ append_assoc pre a (c ++ drop (length c) (o ++ z)))

-- `buf_copy_range` inside the content of `dest` replaces the bytes that it covers.
copy_range_inside :
    (pre a o z post pre' x c y post' : List ℕ)
    → length o ≡ length c
    → buf_copy_range
        (rep pre (a ++ (o ++ z)) post)
        (pos (length a))
        (rep pre' (x ++ (c ++ y)) post')
        (pos (length x))
        (pos (length c))
      ≡ (true, rep pre (a ++ (c ++ z)) post)
unfolding buf_copy_range
copy_range_inside pre a o z post pre' x c y post' e = ground (
  arith,
  pos-add (length x) (length c),
  pos-add (length pre) (length a),
  pos-add (length pre + length a) (length c),
  pos-add (length a) (length c),
  length-append {A = ℕ} x (c ++ y),
  length-append {A = ℕ} c y,
  length-append {A = ℕ} a (o ++ z),
  length-append {A = ℕ} a (c ++ z),
  length-append {A = ℕ} o z,
  length-append {A = ℕ} c z,
  fetched pre' x c y post',
  written pre a o (z ++ post) c,
  drop-append (length c) o (z ++ post) e,
  append_assoc a (o ++ z) post,
  append_assoc o z post,
  append_assoc a (c ++ z) post,
  append_assoc c z post,
)

-- Past the end of the content it lengthens it, if the allocation goes that far.
copy_range_past :
    (pre a o post pre' x c y post' : List ℕ)
    → length o < length c
    → length c ≤ length o + length post
    → buf_copy_range
        (rep pre (a ++ o) post)
        (pos (length a))
        (rep pre' (x ++ (c ++ y)) post')
        (pos (length x))
        (pos (length c))
      ≡ (true, rep pre (a ++ c) (drop (length c - length o) post))
unfolding buf_copy_range
copy_range_past pre a o post pre' x c y post' e h = ground (
  arith,
  pos-add (length x) (length c),
  pos-add (length pre) (length a),
  pos-add (length pre + length a) (length c),
  pos-add (length a) (length c),
  length-append {A = ℕ} x (c ++ y),
  length-append {A = ℕ} c y,
  length-append {A = ℕ} a o,
  length-append {A = ℕ} a c,
  length-drop {A = ℕ} (length c - length o) post,
  fetched pre' x c y post',
  written pre a o post c,
  drop-append_ge (length c) o post,
  append_assoc a o post,
  append_assoc a c (drop (length c - length o) post),
)

-- With a longer source and room in `dest`, `buf_copy_excess` moves what stands behind the first
-- bytes `x` to the end of `dest`.
pub copy_excess_room :
    (pre' d post' pre x c post : List ℕ)
    → Fits pre' d post'
    → 0 < length c
    → length c ≤ length post'
    → buf_copy_excess (rep pre' d post') (rep pre (x ++ c) post) (pos (length x))
      ≡ (true, rep pre' (d ++ c) (drop (length c) post'), rep pre x (c ++ post))
copy_excess_room pre' d post' pre x c post f h k =
    copy_excess_step (rep pre' d post') pre x c post (length x) refl h
    ∙ rw (copy_room pre' d post' (pre ++ x) c post f k)

-- Without room it refuses, leaves `dest` alone, and cuts the source all the same.
pub copy_excess_full :
    (pre' d post' pre x c post : List ℕ)
    → length post' < length c
    → length c < 2 ^ 31
    → buf_copy_excess (rep pre' d post') (rep pre (x ++ c) post) (pos (length x))
      ≡ (false, rep pre' d post', rep pre x (c ++ post))
copy_excess_full pre' d post' pre x c post h k =
    copy_excess_step (rep pre' d post') pre x c post (length x) refl (omega arith)
    ∙ rw (copy_full pre' d post' (pre ++ x) c post h k)
