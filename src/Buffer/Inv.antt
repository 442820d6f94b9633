-- ===== src/Buffer/Inv.antt =====
-- The invariant of `struct buffer`, that the functions keep it, and that the buffers that satisfy
-- it are those in the form of `Rep`.
use treiber.Base.{
  ℕ, ◌+◌, ◌≤◌, ◌<◌, ◌≡◌, some, List, ◌++◌, arith, length, take, drop, length-append,
  take-append-drop, length-take, length-drop, drop-drop, replicate, length-replicate,
}
use treiber.Base.Int.{ℤ, IsInt, pos, pos_part, ◌+ℤ◌, ◌-ℤ◌}
use treiber.Buffer.{
  Buffer, buf_size_max, alloc_buf, buf_init, buf_inc_len, buf_prepend, buf_advance, buf_write_alloc,
  buf_read_alloc,
}
use treiber.Buffer.Rep.{rep, Fits}

-- The memory `mem` of the whole capacity, with a content of `n` bytes inside it.
pub record Allocated (b : Buffer) (mem : List ℕ) (n : ℕ) : Type 0 where
  pub held : b.block ≡ some mem
  pub whole : length mem ≡ b.capacity
  pub size : b.len ≡ pos n
  pub inside : b.offset + n ≤ b.capacity
  pub small : b.capacity < buf_size_max

pub record IsValid (b : Buffer) : Type 0 where
  pub mem : List ℕ
  pub count : ℕ
  pub allocated : Allocated b mem count

-- A valid buffer is what stands before its content, the content, and what stands behind it.
IsValid→rep :
    (b : Buffer) (v : IsValid b)
    → let pre = take b.offset v.mem in
      let c = take v.count (drop b.offset v.mem) in
      let post = drop (b.offset + v.count) v.mem in (b ≡ rep pre c post) × Fits pre c post
IsValid→rep b v =
    let mem = v.mem in
    let off = b.offset in
    let n = v.count in
    ground (
      arith,
      v.allocated,
      length-take {A = ℕ} off mem,
      length-drop {A = ℕ} off mem,
      length-take {A = ℕ} n (drop off mem),
      length-drop {A = ℕ} (off + n) mem,
      take-append-drop {A = ℕ} off mem,
      take-append-drop {A = ℕ} n (drop off mem),
      drop-drop {A = ℕ} off n mem,
    )

pub rep-IsValid : (pre c post : List ℕ) → Fits pre c post → IsValid (rep pre c post)
rep-IsValid pre c post f = record {
  mem = pre ++ (c ++ post);
  count = length c;
  allocated = ground (arith, length-append {A = ℕ} pre (c ++ post), length-append {A = ℕ} c post);
}

-- `alloc_buf` fails for 1000000 bytes and more, and gives a valid empty buffer below.
alloc_buf-IsValid :
    (size : ℕ) {b : Buffer}
    → alloc_buf size ≡ some b
    → IsValid b × (b.capacity ≡ size) × (b.len ≡ pos 0)
unfolding alloc_buf
alloc_buf-IsValid size {b} e = (
  record {
    mem = replicate size 0;
    count = 0;
    allocated = ground (arith, length-replicate {A = ℕ} size 0);
  },
  ground arith,
  ground arith,
)

inc_len-IsValid : {b : Buffer} (inc : ℤ) → IsValid b → IsValid (buf_inc_len b inc).1
unfolding buf_inc_len ◌+ℤ◌
inc_len-IsValid {b} inc v = record {
  mem = v.mem;
  count = pos_part (buf_inc_len b inc).1.len;
  allocated = ground (arith, v.allocated);
}

prepend-IsValid : {b : Buffer} (n : ℤ) → IsValid b → IsValid (buf_prepend b n).1
unfolding buf_prepend ◌+ℤ◌
prepend-IsValid {b} n v = record {
  mem = v.mem;
  count = pos_part (buf_prepend b n).1.len;
  allocated = ground (arith, v.allocated);
}

advance-IsValid : {b : Buffer} (n : ℤ) → IsValid b → IsValid (buf_advance b n).1
unfolding buf_advance ◌-ℤ◌
advance-IsValid {b} n v = record {
  mem = v.mem;
  count = pos_part (buf_advance b n).1.len;
  allocated = ground (arith, v.allocated);
}

write_alloc-IsValid : {b : Buffer} (n : ℤ) → IsInt n → IsValid b → IsValid (buf_write_alloc b n).1
unfolding buf_write_alloc ◌+ℤ◌
write_alloc-IsValid {b} n i v = record {
  mem = v.mem;
  count = pos_part (buf_write_alloc b n).1.len;
  allocated = ground (arith, v.allocated);
}

read_alloc-IsValid : {b : Buffer} (n : ℤ) → IsValid b → IsValid (buf_read_alloc b n).1
unfolding buf_read_alloc ◌-ℤ◌
read_alloc-IsValid {b} n v = record {
  mem = v.mem;
  count = pos_part (buf_read_alloc b n).1.len;
  allocated = ground (arith, v.allocated);
}

init-IsValid : {b : Buffer} (n : ℤ) → IsValid b → IsValid (buf_init b n).1
unfolding buf_init
init-IsValid {b} n v = record {
  mem = v.mem;
  count = pos_part (buf_init b n).1.len;
  allocated = ground (arith, v.allocated);
}

-- Each function that gives out or takes back space keeps the invariant, for every `int`.
pub space-IsValid :
    {b : Buffer} (n : ℤ)
    → IsInt n
    → IsValid b
    → IsValid (buf_inc_len b n).1
      × IsValid (buf_prepend b n).1
      × IsValid (buf_advance b n).1
      × IsValid (buf_write_alloc b n).1
      × IsValid (buf_read_alloc b n).1
      × IsValid (buf_init b n).1
space-IsValid n i v = (
  inc_len-IsValid n v,
  prepend-IsValid n v,
  advance-IsValid n v,
  write_alloc-IsValid n i v,
  read_alloc-IsValid n v,
  init-IsValid n v,
)
