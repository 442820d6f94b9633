-- ===== src/Wintun.antt =====
-- `Treiber/lib/ring_buffer.h` and the functions of `Treiber/lib/tun.h` on its rings, through which packets
-- pass between the program and the Wintun driver. The array `data` of a ring is a function from
-- index to byte, and an access beyond its end answers `none`; a `uint32_t` in it is little-endian.
-- ULONG has 32 bits. A read or a write is one step: the driver's changes come between two of them.
pub mod Bytes
pub mod Fifo
pub mod Reads
pub mod Writes
mod Tests
use treiber.Base.{
  ℕ, zero, suc, ◌+◌, ◌-◌, ◌*◌, ◌/◌, ◌%◌, ◌^◌, Bool, true, false, not, ◌&&◌, ◌||◌, Option, none,
  some, List, [], ◌∷◌, ltb, leb, ◌==◌, if◌then◌else◌, ◌>>=◌, get_elem?, length,
}
use treiber.Base.Int.{ℤ, pos, negsuc, pos_part}
use treiber.Buffer.{Buffer, buf_bptr, buf_len}
use treiber.Buffer.Access.{content, buf_write}

-- `WINTUN_RING_CAPACITY`, with `WINTUN_RING_TRAILING_BYTES` behind it, and `WINTUN_MAX_PACKET_SIZE`.
abbrev pub ring_capacity : ℕ
ring_capacity = 0x80_0000

abbrev pub ring_bytes : ℕ
ring_bytes = 0x81_0000

abbrev pub max_packet_size : ℕ
max_packet_size = 0xffff

-- `struct tun_ring`
pub record TunRing : Type 0 where
  pub head : ℕ
  pub tail : ℕ
  pub alertable : ℕ
  pub bytes : ℕ → ℕ

-- The `n` bytes from index `i` on.
unfoldable pub load : (ℕ → ℕ) → ℕ → ℕ → List ℕ
load m i zero = []
load m i (suc n) = m i ∷ load m (suc i) n

-- `m` with the bytes from index `i` on overwritten by a list.
unfoldable pub store : (ℕ → ℕ) → ℕ → List ℕ → ℕ → ℕ
store m i [] = m
store m i (x ∷ xs) = let rest = store m (suc i) xs in λ j. if j == i then x else rest j

abbrev pub load_u32 : (ℕ → ℕ) → ℕ → ℕ
load_u32 m i = m i + 256 * m (i + 1) + 2 ^ 16 * m (i + 2) + 2 ^ 24 * m (i + 3)

abbrev pub bytes_u32 : ℕ → List ℕ
bytes_u32 n = (n % 256) ∷ (n / 2 ^ 8 % 256) ∷ (n / 2 ^ 16 % 256) ∷ (n / 2 ^ 24 % 256) ∷ []

-- `wintun_ring_packet_align`
abbrev pub packet_align : ℕ → ℕ
packet_align size = (size + 3) % 2 ^ 32 / 4 * 4

-- `wintun_ring_wrap`
abbrev pub ring_wrap : ℕ → ℕ
ring_wrap value = value % ring_capacity

-- The difference of two ULONG.
abbrev sub_ulong : ℕ → ℕ → ℕ
sub_ulong a b = (a + 2 ^ 32 - b) % 2 ^ 32

-- `read_wintun` on the send ring, with the buffer that `reads.buf_init` gives. A length of -1 is an error.
pub read_wintun : TunRing → Buffer → Option (Buffer × TunRing)
read_wintun ring init =
    let buf = record init { len = pos 0 } in
    let failed = some (record init { len = negsuc 0 }, ring) in
    if leb ring_capacity ring.head || leb ring_capacity ring.tail
    then failed
    else if ring.head == ring.tail
    then some (buf, ring)
    else (let content_len = ring_wrap (sub_ulong ring.tail ring.head) in
        if ltb content_len 4
        then failed
        else (let size = load_u32 ring.bytes ring.head in
            if ltb max_packet_size size
            then failed
            else (let aligned = packet_align (4 + size) in
                if ltb content_len aligned
                then failed
                else (let (done, buf') =
                      buf_write buf (load ring.bytes (ring.head + 4) size) (pos size) in
                    if done && ltb ring_bytes (ring.head + 4 + size)
                    then none
                    else some (buf', record ring { head = ring_wrap (ring.head + aligned) })))))

-- `is_ip_packet_valid`: the version in the first byte, which is read whatever the length.
pub is_ip_packet_valid : Buffer → Option Bool
is_ip_packet_valid buf = do
  i ← buf_bptr buf
  block ← buf.block
  version_len ← get_elem? block i
  let version = version_len / 16 % 16
  some (
      if version == 4
      then not (ltb (pos_part (buf_len buf)) 20)
      else if version == 6
      then not (ltb (pos_part (buf_len buf)) 40)
      else false)

-- `write_wintun` on the receive ring: its result, the ring, and whether the event is set.
pub write_wintun : TunRing → Buffer → Option (ℤ × TunRing × Bool)
unfolding is_ip_packet_valid
write_wintun ring buf = do
  valid ← is_ip_packet_valid buf
  let size = pos_part (buf_len buf)
  let aligned = packet_align ((4 + size) % 2 ^ 32)
  let buf_space = ring_wrap (sub_ulong (sub_ulong ring.head ring.tail) 4)
  if not valid
      then some (pos 0, ring, false)
      else if leb ring_capacity ring.head || leb ring_capacity ring.tail
      then some (negsuc 0, ring, false)
      else if ltb buf_space aligned
      then some (pos 0, ring, false)
      else if ltb ring_bytes (ring.tail + 4 + size)
      then none
      else some (
        pos size,
        record ring {
          tail = ring_wrap (ring.tail + aligned);
          bytes = store (store ring.bytes ring.tail (bytes_u32 size)) (ring.tail + 4) (content buf);
        },
        not (ring.alertable == 0),
      )
