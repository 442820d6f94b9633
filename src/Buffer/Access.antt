-- ===== src/Buffer/Access.antt =====
-- `Treiber/lib/buffer.h` and `Treiber/lib/buffer.c`: reading from and writing to a buffer. The
-- memory that a `void*` argument points to is the list of its bytes.
pub mod Write
pub mod Read
pub mod Numbers
pub mod Copies
use treiber.Base.{
  ℕ, ◌+◌, ◌-◌, ◌*◌, ◌/◌, ◌%◌, ◌^◌, Bool, true, false, not, ◌&&◌, ◌||◌, Option, none, some, List, [],
  ◌∷◌, ltb, leb, if◌then◌else◌, get_or, take, replicate,
}
use treiber.Base.Int.{ℤ, pos, negsuc, pos_part, ◌+ℤ◌, ltb_ℤ}
use treiber.Buffer.{
  Buffer, buf_len, buf_bptr, buf_advance, buf_init, buf_prepend, buf_write_alloc, buf_read_alloc,
}
use treiber.Buffer.Memory.{peek, poke}

-- `memcpy` into and out of the memory of a buffer.
abbrev pub store : ℕ → List ℕ → Buffer → Buffer
store i src b = record b { block = elim b.block [ none ↦ none | some m ↦ some (poke i src m) ] }

abbrev pub fetch : ℕ → ℤ → Buffer → List ℕ
fetch i n b = elim b.block [ none ↦ [] | some m ↦ peek i (pos_part n) m ]

abbrev store_at : Option ℕ → List ℕ → Buffer → Bool × Buffer
store_at none src b = (false, b)
store_at (some i) src b = (true, store i src b)

pub buf_write : Buffer → List ℕ → ℤ → Bool × Buffer
buf_write dest src size =
    let (cp, d) = buf_write_alloc dest size in store_at cp (take (pos_part size) src) d

pub buf_write_prepend : Buffer → List ℕ → ℤ → Bool × Buffer
buf_write_prepend dest src size =
    let (cp, d) = buf_prepend dest size in store_at cp (take (pos_part size) src) d

-- `false` is NULL, where `buf_read` copies nothing.
abbrev fetch_at : Option ℕ → ℤ → Buffer → Option (List ℕ)
fetch_at none n b = none
fetch_at (some i) n b = some (fetch i n b)

pub buf_read : Buffer → ℤ → Option (List ℕ) × Buffer
buf_read src size = let (cp, s) = buf_read_alloc src size in (fetch_at cp size s, s)

-- The conversion of an `int` to an unsigned type of `2 ^ w` values.
abbrev pub wrap : ℕ → ℤ → ℕ
wrap modulus (pos n) = n % modulus
wrap modulus (negsuc n) = modulus - 1 - n % modulus

-- The bytes of `htons(v)` and of `htonl(v)` in memory: network order.
abbrev pub bytes_16 : ℕ → List ℕ
bytes_16 v = (v / 256) ∷ (v % 256) ∷ []

abbrev pub bytes_32 : ℕ → List ℕ
bytes_32 v = (v / 2 ^ 24) ∷ (v / 2 ^ 16 % 256) ∷ (v / 2 ^ 8 % 256) ∷ (v % 256) ∷ []

-- `ntohs` and `ntohl` of bytes in memory.
abbrev pub value_16 : List ℕ → ℕ
value_16 bs = get_or bs 0 0 * 256 + get_or bs 1 0

abbrev pub value_32 : List ℕ → ℕ
value_32 bs =
    get_or bs 0 0 * 2 ^ 24 + get_or bs 1 0 * 2 ^ 16 + get_or bs 2 0 * 2 ^ 8 + get_or bs 3 0

pub buf_write_u8 : Buffer → ℤ → Bool × Buffer
buf_write_u8 dest n = buf_write dest (wrap 256 n ∷ []) (pos 1)

pub buf_write_u16 : Buffer → ℤ → Bool × Buffer
buf_write_u16 dest n = buf_write dest (bytes_16 (wrap (2 ^ 16) n)) (pos 2)

pub buf_write_u32 : Buffer → ℤ → Bool × Buffer
buf_write_u32 dest n = buf_write dest (bytes_32 (wrap (2 ^ 32) n)) (pos 4)

-- `BPTR` with `BLEN` bytes.
pub content : Buffer → List ℕ
unfolding buf_bptr buf_len
content b = elim (buf_bptr b) [ none ↦ [] | some i ↦ fetch i (buf_len b) b ]

pub buf_copy : Buffer → Buffer → Bool × Buffer
buf_copy dest src = buf_write dest (content src) (buf_len src)

-- The answer, `dest` and `src`.
buf_copy_n : Buffer → Buffer → ℤ → Bool × Buffer × Buffer
buf_copy_n dest src n =
    let (bytes, src') = buf_read src n in
    elim bytes [
      | none ↦ (false, dest, src')
      | some bs ↦ let (done, dest') = buf_write dest bs n in (done, dest', src')
    ]

pub buf_copy_range : Buffer → ℤ → Buffer → ℤ → ℤ → Bool × Buffer
buf_copy_range dest dest_index src src_index src_len =
    if ltb_ℤ src_index (pos 0)
      || ltb_ℤ src_len (pos 0)
      || ltb_ℤ src.len (src_index +ℤ src_len)
      || ltb_ℤ dest_index (pos 0)
      || ltb_ℤ (pos dest.capacity) (pos dest.offset +ℤ dest_index +ℤ src_len)
    then (false, dest)
    else (let bytes = fetch (src.offset + pos_part src_index) src_len src in
        let dest' = store (dest.offset + pos_part dest_index) bytes dest in
        (
          true,
          if ltb_ℤ dest.len (dest_index +ℤ src_len)
              then record dest' { len = dest_index +ℤ src_len }
              else dest',
        ))

-- The answer, `dest` and `src`. `b` is a copy of the structure over the same memory.
pub buf_copy_excess : Buffer → Buffer → ℤ → Bool × Buffer × Buffer
buf_copy_excess dest src n =
    if ltb_ℤ n (pos 0)
    then (false, dest, src)
    else if ltb_ℤ n src.len
    then (let src' = record src { len = n } in
        let (moved, b) = buf_advance src n in
        let (done, dest') = buf_copy dest b in
        if moved then (done, dest', src') else (false, dest, src'))
    else (true, dest, src)

buf_assign : Buffer → Buffer → Bool × Buffer
buf_assign dest src =
    let (ready, d) = buf_init dest (pos src.offset) in
    if ready then buf_write d (content src) (buf_len src) else (false, d)

-- -1 at the end of the content.
pub buf_read_u8 : Buffer → ℤ × Buffer
buf_read_u8 b =
    if ltb_ℤ (buf_len b) (pos 1)
    then (negsuc 0, b)
    else (pos (get_or (content b) 0 0), (buf_advance b (pos 1)).1)

abbrev u16_of : Option (List ℕ) → ℤ
u16_of none = negsuc 0
u16_of (some bs) = pos (value_16 bs)

pub buf_read_u16 : Buffer → ℤ × Buffer
buf_read_u16 b = let (bytes, b') = buf_read b (pos 2) in (u16_of bytes, b')

-- The number and `*good`.
abbrev u32_of : Option (List ℕ) → ℕ × Bool
u32_of none = (0, false)
u32_of (some bs) = (value_32 bs, true)

pub buf_read_u32 : Buffer → (ℕ × Bool) × Buffer
buf_read_u32 b = let (bytes, b') = buf_read b (pos 4) in (u32_of bytes, b')
