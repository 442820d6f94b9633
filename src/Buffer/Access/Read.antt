-- ===== src/Buffer/Access/Read.antt =====
-- What `buf_read` and the functions that consume a buffer do to its content.
use treiber.Base.{
  ℕ, ◌+◌, ◌-◌, ◌<◌, ◌≡◌, refl, ap, true, none, some, List, [], ◌∷◌, ◌++◌, arith, length,
  length-append, append_assoc,
}
use treiber.Base.Int.{pos, negsuc, ◌-ℤ◌}
use treiber.Buffer.{buf_advance, buf_bptr, buf_len}
use treiber.Buffer.Memory.{peek-append}
use treiber.Buffer.Rep.{rep, read_alloc_some, read_alloc_short}
use treiber.Buffer.Access.{buf_read, content, buf_read_u8}

-- The content of a buffer is what stands between its ends.
pub content-rep : (pre c post : List ℕ) → content (rep pre c post) ≡ c
unfolding content
content-rep pre c post = ground (arith, peek-append pre c post (length pre) (length c))

pub bptr-rep : (pre c post : List ℕ) → buf_bptr (rep pre c post) ≡ some (length pre)
unfolding buf_bptr
bptr-rep pre c post = ground arith

pub len-rep : (pre c post : List ℕ) → buf_len (rep pre c post) ≡ pos (length c)
unfolding buf_len
len-rep pre c post = ground arith

-- A buffer whose front part `x` has been read.
advanced :
    (pre x c post : List ℕ) (n : ℕ)
    → n ≡ length x
    → record (rep pre (x ++ c) post) { offset = length pre + n; len = pos (length (x ++ c) - n) }
      ≡ rep (pre ++ x) c post
advanced pre x c post n e = ground (
  arith,
  length-append {A = ℕ} x c,
  length-append {A = ℕ} pre x,
  append_assoc x c post,
  append_assoc pre x (c ++ post),
)

-- `buf_read` takes the first bytes of the content off it and hands them out.
pub read_front :
    (pre x c post : List ℕ) (n : ℕ)
    → n ≡ length x
    → buf_read (rep pre (x ++ c) post) (pos n) ≡ (some x, rep (pre ++ x) c post)
unfolding buf_read
read_front pre x c post n e =
    rw
      (
        read_alloc_some pre (x ++ c) post n (omega (arith, length-append {A = ℕ} x c)),
        advanced pre x c post n e,
      )
      (rw (append_assoc x c post, peek-append pre x (c ++ post) (length pre) n refl e))

-- `buf_read` refuses more than there is, and changes nothing.
read_short :
    (pre c post : List ℕ) (n : ℕ)
    → length c < n
    → buf_read (rep pre c post) (pos n) ≡ (none, rep pre c post)
unfolding buf_read
read_short pre c post n h = rw (read_alloc_short pre c post n h)

pub advance_front :
    (pre x c post : List ℕ) (n : ℕ)
    → n ≡ length x
    → buf_advance (rep pre (x ++ c) post) (pos n) ≡ (true, rep (pre ++ x) c post)
unfolding buf_advance ◌-ℤ◌
advance_front pre x c post n e =
    ground (arith, advanced pre x c post n e, length-append {A = ℕ} x c)

-- `buf_read_u8` hands out the first byte, or -1 from an empty content.
pub read_u8_front :
    (pre : List ℕ) (x : ℕ) (c post : List ℕ)
    → buf_read_u8 (rep pre (x ∷ c) post) ≡ (pos x, rep (pre ++ (x ∷ [])) c post)
unfolding buf_read_u8
read_u8_front pre x c post = ground (
  arith,
  len-rep pre (x ∷ c) post,
  content-rep pre (x ∷ c) post,
  ap (λ r. r.1) (advance_front pre (x ∷ []) c post 1 refl),
)

pub read_u8_end : (pre post : List ℕ) → buf_read_u8 (rep pre [] post) ≡ (negsuc 0, rep pre [] post)
unfolding buf_read_u8
read_u8_end pre post = ground (arith, len-rep pre [] post)
