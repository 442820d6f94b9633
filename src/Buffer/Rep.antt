-- ===== src/Buffer/Rep.antt =====
-- A buffer as the bytes before its content, the content, and the bytes after it; the functions of
-- `Treiber/lib/buffer.h` that give out space, on buffers in this form.
use treiber.Base.{
  leb, true, replicate, length-replicate, [], ℕ, ◌+◌, ◌-◌, ◌≤◌, ◌<◌, ◌^◌, ◌≡◌, none, some, List,
  ◌++◌, arith, length,
}
use treiber.Base.Int.{pos, negsuc, ◌+ℤ◌, ◌-ℤ◌}
use treiber.Buffer.{
  buf_safe, buf_init, alloc_buf, Buffer, buf_size_max, buf_prepend, buf_write_alloc, buf_read_alloc,
}

-- The buffer whose content `c` stands between `pre` and `post`.
abbrev pub rep : List ℕ → List ℕ → List ℕ → Buffer
rep pre c post = record {
  capacity = length pre + (length c + length post);
  offset = length pre;
  len = pos (length c);
  block = some (pre ++ (c ++ post));
}

-- The allocation is below BUF_SIZE_MAX.
abbrev pub Fits : List ℕ → List ℕ → List ℕ → Type 0
Fits pre c post = length pre + (length c + length post) < buf_size_max

-- There is room for the bytes behind the content.
pub safe-rep :
    (pre c post : List ℕ) (n : ℕ)
    → Fits pre c post
    → buf_safe (rep pre c post) (pos n) ≡ leb n (length post)
unfolding buf_safe ◌+ℤ◌
safe-rep pre c post n f = ground arith

-- `buf_write_alloc` hands out the bytes behind the content if there are enough of them.
pub alloc_room :
    (pre c post : List ℕ) (n : ℕ)
    → Fits pre c post
    → n ≤ length post
    → buf_write_alloc (rep pre c post) (pos n)
      ≡ (some (length pre + length c), record (rep pre c post) { len = pos (length c + n) })
unfolding buf_write_alloc ◌+ℤ◌
alloc_room pre c post n f h = ground arith

pub alloc_full :
    (pre c post : List ℕ) (n : ℕ)
    → length post < n
    → n < 2 ^ 31
    → buf_write_alloc (rep pre c post) (pos n) ≡ (none, rep pre c post)
unfolding buf_write_alloc ◌+ℤ◌
alloc_full pre c post n h k = ground arith

alloc_negative :
    (pre c post : List ℕ) (n : ℕ)
    → n < 2 ^ 31
    → buf_write_alloc (rep pre c post) (negsuc n) ≡ (none, rep pre c post)
unfolding buf_write_alloc ◌+ℤ◌
alloc_negative pre c post n k = ground arith

pub prepend_room :
    (pre c post : List ℕ) (n : ℕ)
    → n ≤ length pre
    → buf_prepend (rep pre c post) (pos n) ≡ (
      some (length pre - n),
      record (rep pre c post) { offset = length pre - n; len = pos (length c + n) },
    )
unfolding buf_prepend ◌+ℤ◌
prepend_room pre c post n h = ground arith

pub prepend_full :
    (pre c post : List ℕ) (n : ℕ)
    → length pre < n
    → buf_prepend (rep pre c post) (pos n) ≡ (none, rep pre c post)
unfolding buf_prepend
prepend_full pre c post n h = ground arith

pub read_alloc_some :
    (pre c post : List ℕ) (n : ℕ)
    → n ≤ length c
    → buf_read_alloc (rep pre c post) (pos n) ≡ (
      some (length pre),
      record (rep pre c post) { offset = length pre + n; len = pos (length c - n) },
    )
unfolding buf_read_alloc ◌-ℤ◌
read_alloc_some pre c post n h = ground arith

pub read_alloc_short :
    (pre c post : List ℕ) (n : ℕ)
    → length c < n
    → buf_read_alloc (rep pre c post) (pos n) ≡ (none, rep pre c post)
unfolding buf_read_alloc
read_alloc_short pre c post n h = ground arith

-- A new buffer has no content and zeros behind it.
pub alloc_buf_lem : (n : ℕ) → n < buf_size_max → alloc_buf n ≡ some (rep [] [] (replicate n 0))
unfolding alloc_buf
alloc_buf_lem n h = ground (arith, length-replicate {A = ℕ} n 0)

-- An empty buffer is as `buf_init` leaves it.
pub init_empty : (room : List ℕ) → buf_init (rep [] [] room) (pos 0) ≡ (true, rep [] [] room)
unfolding buf_init
init_empty room = ground arith

-- A new buffer that begins at an index, with a length that ends in it.
pub placed : ℕ → ℕ → ℕ → Buffer
placed n off k = record { capacity = n; offset = off; len = pos k; block = some (replicate n 0) }

pub alloc_init :
    (n off : ℕ)
    → n < buf_size_max
    → off ≤ n
    → (b : Buffer) × (alloc_buf n ≡ some b) × (buf_init b (pos off) ≡ (true, placed n off 0))
unfolding alloc_buf buf_init placed
alloc_init n off h k = (
  record { capacity = n; offset = 0; len = pos 0; block = some (replicate n 0) },
  ground arith,
  ground arith,
)

pub placed-safe :
    (n off k : ℕ) → off + k ≤ n → buf_safe (record (placed n off 0) { len = pos k }) (pos 0) ≡ true
unfolding buf_safe placed ◌+ℤ◌
placed-safe n off k h = ground arith
