-- ===== src/Wintun/Reads.antt =====
-- `read_wintun` on a ring that holds packets is that of a queue.
use treiber.Base.{
  ℕ, ◌+◌, ◌-◌, ◌%◌, ◌≤◌, ◌<◌, ◌^◌, ◌≡◌, false, some, List, [], ◌∷◌, length, arith, leb, ltb, ◌==◌,
  if◌then◌else◌, drop, Bool-cases, inl, inr, take-of_length_le,
}
use treiber.Base.Int.{pos}
use treiber.Buffer.{Buffer}
use treiber.Buffer.Rep.{rep, Fits}
use treiber.Buffer.Access.{buf_write}
use treiber.Buffer.Access.Write.{write_room, write_full}
use treiber.Wintun.{
  ring_capacity, ring_bytes, max_packet_size, packet_align, ring_wrap, TunRing, read_wintun,
}
use treiber.Wintun.Fifo.{aligned, used, Holds}

-- What a read gives, by the packets that the ring holds: the first one, if the buffer has room for it.
pub received : List ℕ → List ℕ → List (List ℕ) → Buffer
received pre post [] = rep pre [] post
received pre post (c ∷ cs) =
    if leb (length c) (length post) then rep pre c (drop (length c) post) else rep pre [] post

-- The buffer that a read has written to.
received_write :
    (pre post c : List ℕ) (cs : List (List ℕ))
    → Fits pre [] post
    → length c ≤ max_packet_size
    → buf_write (rep pre [] post) c (pos (length c))
      ≡ (leb (length c) (length post), received pre post (c ∷ cs))
unfolding received
received_write pre post c cs f h = elim (Bool-cases (leb (length c) (length post))) [
  | inl fits ↦ ground (arith, write_room pre [] post c (length c) f, take-of_length_le (length c) c)
  | inr full ↦ ground (arith, write_full pre [] post c (length c))
]

-- The tests of a read at a ring with `u` bytes in use, the first of them of a packet of `n` bytes.
record ReadTests (head tail u n : ℕ) : Type 0 where
  head_in : leb ring_capacity head ≡ false
  tail_in : leb ring_capacity tail ≡ false
  some_left : (head == tail) ≡ false
  content : ring_wrap ((tail + 2 ^ 32 - head) % 2 ^ 32) ≡ u
  header : ltb u 4 ≡ false
  size : ltb max_packet_size n ≡ false
  room : packet_align (4 + n) ≡ aligned n
  whole : ltb u (aligned n) ≡ false
  in_bytes : ltb ring_bytes (head + 4 + n) ≡ false

read_tests :
    (head tail u n : ℕ)
    → head < ring_capacity
    → head % 4 ≡ 0
    → aligned n + u + 4 ≤ ring_capacity
    → tail ≡ (head + (aligned n + u)) % ring_capacity
    → n ≤ max_packet_size
    → ReadTests head tail (aligned n + u) n
read_tests head tail u n hi he hl ht hn = record {
  head_in = ground arith;
  tail_in = ground arith;
  some_left = ground arith;
  content = omega arith;
  header = ground arith;
  size = ground arith;
  room = omega arith;
  whole = ground arith;
  in_bytes = ground arith;
}

read_first :
    (ring : TunRing) (pre post c : List ℕ) (cs : List (List ℕ))
    → Holds ring (c ∷ cs)
    → Fits pre [] post
    → read_wintun ring (rep pre [] post)
      ≡ some (
        received pre post (c ∷ cs),
        record ring { head = (ring.head + aligned (length c)) % ring_capacity },
      )
unfolding read_wintun used
read_first ring pre post c cs h f =
    let t =
      read_tests ring.head ring.tail (used cs) (length c) h.inside h.even h.limits h.tail_at
        h.sizes.0 in
    rw
      (
        t.head_in,
        t.tail_in,
        t.some_left,
        t.content,
        t.header,
        h.stored.0,
        t.size,
        t.room,
        t.whole,
        h.stored.1,
        received_write pre post c cs f h.sizes.0,
        t.in_bytes,
      )
      (ground arith)

read_none :
    (ring : TunRing) (pre post : List ℕ)
    → Holds ring []
    → read_wintun ring (rep pre [] post) ≡ some (rep pre [] post, ring)
unfolding read_wintun used
read_none ring pre post h = ground (arith, h.tail_at, h.inside)

tail_of_read :
    (head tail n u : ℕ)
    → tail ≡ (head + (aligned n + u)) % ring_capacity
    → tail ≡ ((head + aligned n) % ring_capacity + u) % ring_capacity
tail_of_read head tail n u h = omega arith

-- A read takes the first packet off a ring that holds one, into the buffer if that has room for it, and
-- gives an empty buffer otherwise.
pub read_wintun_refines :
    (ring : TunRing) (pre post : List ℕ) (cs : List (List ℕ))
    → Holds ring cs
    → Fits pre [] post
    → (ring' : TunRing) × (read_wintun ring (rep pre [] post) ≡ some (received pre post cs, ring'))
      × Holds ring' (drop 1 cs)
unfolding received
read_wintun_refines ring pre post [] h f = (ring, read_none ring pre post h, h)
read_wintun_refines ring pre post (c ∷ cs) h f = (
  record ring { head = (ring.head + aligned (length c)) % ring_capacity },
  read_first ring pre post c cs h f,
  record {
    inside = omega arith;
    even = omega (arith, h.even);
    limits = unfold used in omega (arith, h.limits);
    tail_at = unfold used in tail_of_read ring.head ring.tail (length c) (used cs) h.tail_at;
    sizes = h.sizes.1;
    stored = h.stored.2;
  },
)
