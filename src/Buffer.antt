-- ===== src/Buffer.antt =====
-- `Treiber/lib/buffer.h` and `Treiber/lib/buffer.c`: `struct buffer`, its space and its accesses.
-- A `bool` function that changes its buffer returns both. A pointer into the memory of a buffer is
-- an index of it, and `none` is NULL. C's `int` is ℤ: BUF_SIZE_MAX keeps the sums below its bound.
pub mod Memory
pub mod Rep
pub mod Access
pub mod Lines
pub mod Inv
mod Tests
use treiber.Base.{ℕ, ◌+◌, ◌-◌, ◌^◌, Bool, true, false, not, ◌&&◌, ◌||◌, Option, none, some, List}
use treiber.Base.{ltb, leb, if◌then◌else◌, replicate, set}
use treiber.Base.Int.{ℤ, pos, negsuc, pos_part, ◌+ℤ◌, ◌-ℤ◌, ltb_ℤ, leb_ℤ}
use treiber.Base.Words.{size_mod}

abbrev pub buf_size_max : ℕ
buf_size_max = 1_000_000

-- `len` may be negative, where a failed read of a socket left its result; `block` is the memory
-- behind `data`.
pub record Buffer : Type 0 where
  pub capacity : ℕ
  pub offset : ℕ
  pub len : ℤ
  pub block : Option (List ℕ)

-- The conversion of an `int` to `size_t`.
abbrev pub size_of_int : ℤ → ℕ
size_of_int (pos n) = n
size_of_int (negsuc n) = size_mod - 1 - n

unfoldable pub buf_size_valid : ℕ → Bool
buf_size_valid size = ltb size buf_size_max

buf_size_valid_signed : ℤ → Bool
buf_size_valid_signed size = leb_ℤ (negsuc 999_999) size && ltb_ℤ size (pos buf_size_max)

clear_buf : Buffer
clear_buf = record { capacity = 0; offset = 0; len = pos 0; block = none }

pub buf_defined : Buffer → Bool
buf_defined b = elim b.block [ none ↦ false | some m ↦ true ]

buf_valid : Buffer → Bool
unfolding buf_defined
buf_valid b = buf_defined b && leb_ℤ (pos 0) b.len

pub buf_bptr : Buffer → Option ℕ
unfolding buf_valid
buf_bptr b = if buf_valid b then some b.offset else none

pub buf_len : Buffer → ℤ
unfolding buf_valid
buf_len b = if buf_valid b then b.len else pos 0

-- `BPTR + BLEN`; NULL stays NULL, since the length is then 0.
buf_bend : Buffer → Option ℕ
unfolding buf_bptr buf_len
buf_bend b = elim (buf_bptr b) [ none ↦ none | some i ↦ some (i + pos_part (buf_len b)) ]

pub buf_blast : Buffer → Option ℕ
unfolding buf_bend buf_len
buf_blast b =
    if ltb_ℤ (pos 0) (buf_len b)
    then elim (buf_bend b) [ none ↦ none | some i ↦ some (i - 1) ]
    else none

-- A fatal message ends the process: `none`.
pub alloc_buf : ℕ → Option Buffer
unfolding buf_size_valid
alloc_buf size =
    if buf_size_valid size
    then some (record { capacity = size; offset = 0; len = pos 0; block = some (replicate size 0) })
    else none

-- `malloc`'s bytes are whatever the caller of the model says; the first is set to 0.
alloc_buf_gc : List ℕ → ℕ → Option Buffer
unfolding buf_size_valid
alloc_buf_gc bytes size =
    if buf_size_valid size
    then some (record { capacity = size; offset = 0; len = pos 0; block = some (set bytes 0 0) })
    else none

buf_clear : Buffer → Buffer
buf_clear b = record b {
  len = pos 0;
  offset = 0;
  block = elim b.block [
    | none ↦ none
    | some m ↦ some (if ltb 0 b.capacity then replicate b.capacity 0 else m)
  ];
}

pub free_buf : Buffer → Buffer
unfolding clear_buf
free_buf b = clear_buf

pub buf_reset : Buffer → Buffer
buf_reset b = record { capacity = 0; offset = 0; len = pos 0; block = none }

buf_reset_len : Buffer → Buffer
buf_reset_len b = record b { len = pos 0; offset = 0 }

pub buf_init : Buffer → ℤ → Bool × Buffer
unfolding buf_defined
buf_init b off =
    if ltb_ℤ off (pos 0) || ltb_ℤ (pos b.capacity) off || not (buf_defined b)
    then (false, b)
    else (true, record b { len = pos 0; offset = pos_part off })

buf_set_write : Option (List ℕ) → ℤ → Option Buffer
unfolding buf_size_valid
buf_set_write mem size =
    if buf_size_valid (size_of_int size)
    then some (record {
      capacity = pos_part size;
      offset = 0;
      len = pos 0;
      block = elim mem [
        | none ↦ none
        | some m ↦ some (if ltb_ℤ (pos 0) size then set m 0 0 else m)
      ];
    })
    else none

buf_set_read : Option (List ℕ) → ℤ → Option Buffer
unfolding buf_size_valid
buf_set_read mem size =
    if buf_size_valid (size_of_int size)
    then some (record { capacity = pos_part size; offset = 0; len = size; block = mem })
    else none

pub buf_safe : Buffer → ℤ → Bool
unfolding buf_valid buf_size_valid
buf_safe b n =
    buf_valid b
    && buf_size_valid (size_of_int n)
    && leb_ℤ (pos b.offset +ℤ b.len +ℤ n) (pos b.capacity)

buf_safe_bidir : Buffer → ℤ → Bool
unfolding buf_valid buf_size_valid_signed
buf_safe_bidir b n =
    if buf_valid b && buf_size_valid_signed n
    then leb_ℤ (pos 0) (b.len +ℤ n) && leb_ℤ (pos b.offset +ℤ (b.len +ℤ n)) (pos b.capacity)
    else false

abbrev clamp_zero : ℤ → ℤ
clamp_zero n = if ltb_ℤ n (pos 0) then pos 0 else n

buf_forward_capacity : Buffer → ℤ
unfolding buf_valid
buf_forward_capacity b =
    if buf_valid b then clamp_zero (pos b.capacity -ℤ (pos b.offset +ℤ b.len)) else pos 0

buf_forward_capacity_total : Buffer → ℤ
unfolding buf_valid
buf_forward_capacity_total b =
    if buf_valid b then clamp_zero (pos b.capacity -ℤ pos b.offset) else pos 0

buf_reverse_capacity : Buffer → ℤ
unfolding buf_valid
buf_reverse_capacity b = if buf_valid b then pos b.offset else pos 0

pub buf_inc_len : Buffer → ℤ → Bool × Buffer
unfolding buf_safe_bidir
buf_inc_len b inc =
    if buf_safe_bidir b inc then (true, record b { len = b.len +ℤ inc }) else (false, b)

pub buf_prepend : Buffer → ℤ → Option ℕ × Buffer
unfolding buf_valid
buf_prepend b size =
    if not (buf_valid b) || ltb_ℤ size (pos 0) || ltb_ℤ (pos b.offset) size then (none, b) else (
      some (b.offset - pos_part size),
      record b { offset = b.offset - pos_part size; len = b.len +ℤ size },
    )

pub buf_advance : Buffer → ℤ → Bool × Buffer
unfolding buf_valid
buf_advance b size =
    if not (buf_valid b) || ltb_ℤ size (pos 0) || ltb_ℤ b.len size
    then (false, b)
    else (true, record b { offset = b.offset + pos_part size; len = b.len -ℤ size })

pub buf_write_alloc : Buffer → ℤ → Option ℕ × Buffer
unfolding buf_safe
buf_write_alloc b size =
    if buf_safe b size
    then (some (b.offset + pos_part b.len), record b { len = b.len +ℤ size })
    else (none, b)

pub buf_read_alloc : Buffer → ℤ → Option ℕ × Buffer
unfolding buf_bptr
buf_read_alloc b size =
    if ltb_ℤ size (pos 0) || ltb_ℤ b.len size
    then (none, b)
    else (buf_bptr b, record b { offset = b.offset + pos_part size; len = b.len -ℤ size })
