-- ===== src/Wintun/Writes.antt =====
-- `write_wintun` on a ring that holds packets is that of a bounded queue.
use treiber.Base.{
  ℕ, suc, ◌+◌, ◌-◌, ◌/◌, ◌%◌, ◌≤◌, ◌<◌, ◌^◌, ◌≡◌, refl, sym, ap, ◌∙◌, Bool, true, false, not, ◌&&◌,
  ◌||◌, get_elem?, some, List, [], ◌∷◌, ◌++◌, length, arith, leb, ltb, ◌==◌, if◌then◌else◌,
  Bool-cases, inl, inr,
}
use mathlib.Core.Path.{subst}
use treiber.Base.Int.{pos}
use treiber.Buffer.Rep.{rep}
use treiber.Buffer.Access.Read.{content-rep, bptr-rep, len-rep}
use treiber.Wintun.{
  ring_capacity, ring_bytes, max_packet_size, packet_align, ring_wrap, TunRing, load, store,
  load_u32, bytes_u32, is_ip_packet_valid, write_wintun,
}
use treiber.Wintun.Bytes.{load_u32-store_apart, load_u32-store, load-store}
use treiber.Wintun.Fifo.{
  aligned, used, used-even, used-append, sizes-append, Stored-store, Stored-append, Holds,
}

-- An IP packet that the ring takes: a header of its version, whole.
pub is_ip : ℕ → List ℕ → Bool
is_ip v vs =
    let n = suc (length vs) in
    let version = v / 16 % 16 in (version == 4 && leb 20 n) || (version == 6 && leb 40 n)

elem_behind : (pre post : List ℕ) (v : ℕ) → get_elem? (pre ++ (v ∷ post)) (length pre) ≡ some v
elem_behind [] post v = refl
elem_behind (x ∷ pre) post v = elem_behind pre post v

is_ip_packet_valid-rep :
    (pre post : List ℕ) (v : ℕ) (vs : List ℕ)
    → is_ip_packet_valid (rep pre (v ∷ vs) post) ≡ some (is_ip v vs)
unfolding is_ip_packet_valid is_ip
is_ip_packet_valid-rep pre post v vs =
    rw (bptr-rep pre (v ∷ vs) post, elem_behind pre (vs ++ post) v, len-rep pre (v ∷ vs) post)
      (ground arith)

-- What a bounded queue of packets makes of one that is offered: the result, and the packets that it holds.
unfoldable pub offered : List (List ℕ) → ℕ → List ℕ → Bool
unfolding is_ip
offered cs v vs = is_ip v vs && leb (aligned (suc (length vs)) + used cs + 4) ring_capacity

-- The ring behind a write that goes through.
written : TunRing → List ℕ → TunRing
written ring c = record ring {
  tail = (ring.tail + aligned (length c)) % ring_capacity;
  bytes = store (store ring.bytes ring.tail (bytes_u32 (length c))) (ring.tail + 4) c;
}

-- The tests of a write at a ring with `u` bytes in use.
record WriteTests (head tail u n : ℕ) : Type 0 where
  head_in : leb ring_capacity head ≡ false
  tail_in : leb ring_capacity tail ≡ false
  room : packet_align ((4 + n) % 2 ^ 32) ≡ aligned n
  space :
      ring_wrap ((((head + 2 ^ 32 - tail) % 2 ^ 32) + 2 ^ 32 - 4) % 2 ^ 32) ≡ ring_capacity - 4 - u
  in_bytes : ltb ring_bytes (tail + 4 + n) ≡ false

write_tests :
    (head tail u n : ℕ)
    → head < ring_capacity
    → head % 4 ≡ 0
    → u % 4 ≡ 0
    → u + 4 ≤ ring_capacity
    → tail ≡ (head + u) % ring_capacity
    → n ≤ max_packet_size
    → WriteTests head tail u n
write_tests head tail u n hi he hu hl ht hn = record {
  head_in = ground arith;
  tail_in = ground arith;
  room = omega arith;
  space = omega arith;
  in_bytes = ground arith;
}

write_result :
    (ring : TunRing) (cs : List (List ℕ)) (pre post : List ℕ) (v : ℕ) (vs : List ℕ)
    → Holds ring cs
    → suc (length vs) ≤ max_packet_size
    → write_wintun ring (rep pre (v ∷ vs) post)
      ≡ some (
          if offered cs v vs
          then (pos (suc (length vs)), written ring (v ∷ vs), not (ring.alertable == 0))
          else (pos 0, ring, false))
unfolding write_wintun offered written
write_result ring cs pre post v vs h hn =
    let t =
      write_tests ring.head ring.tail (used cs) (suc (length vs)) h.inside h.even (used-even cs)
        h.limits h.tail_at hn in
    rw
      (
        is_ip_packet_valid-rep pre post v vs,
        len-rep pre (v ∷ vs) post,
        t.head_in,
        t.tail_in,
        t.room,
        t.space,
        t.in_bytes,
        content-rep pre (v ∷ vs) post,
      )
      (ground arith)

tail_of_write :
    (head tail u n : ℕ)
    → tail ≡ (head + u) % ring_capacity
    → (tail + n) % ring_capacity ≡ (head + (u + n)) % ring_capacity
tail_of_write head tail u n h = omega arith

written-Holds :
    (ring : TunRing) (cs : List (List ℕ)) (c : List ℕ)
    → Holds ring cs
    → length c ≤ max_packet_size
    → aligned (length c) + used cs + 4 ≤ ring_capacity
    → Holds (written ring c) (cs ++ (c ∷ []))
unfolding written
written-Holds ring cs c h hn room =
    let m' = store ring.bytes ring.tail (bytes_u32 (length c)) in
    let m'' = store m' (ring.tail + 4) c in
    let kept =
      Stored-store m' ring.head cs (ring.tail + 4) 4 c h.inside (omega (arith, h.tail_at))
        (omega arith)
        (Stored-store ring.bytes ring.head cs ring.tail 0 (bytes_u32 (length c)) h.inside
          (omega (arith, h.tail_at)) (omega arith) h.stored) in
    let size =
      load_u32-store_apart m' (ring.tail + 4) c ring.tail (inl (omega arith))
      ∙ load_u32-store ring.bytes ring.tail (length c) (omega arith) in
    record {
      inside = h.inside;
      even = h.even;
      limits = omega (arith, used-append cs c);
      tail_at =
          tail_of_write ring.head ring.tail (used cs) (aligned (length c)) h.tail_at
          ∙ ap (λ k. (ring.head + k) % ring_capacity) (sym (used-append cs c));
      sizes = sizes-append cs c h.sizes hn;
      stored =
          Stored-append m'' ring.head cs c h.inside kept
            (subst (λ k. load_u32 m'' k ≡ length c) h.tail_at size)
            (subst (λ k. load m'' (k + 4) (length c) ≡ c) h.tail_at
              (load-store m' (ring.tail + 4) c));
    }

offered-room :
    (cs : List (List ℕ)) (v : ℕ) (vs : List ℕ)
    → offered cs v vs ≡ true
    → aligned (suc (length vs)) + used cs + 4 ≤ ring_capacity
unfolding offered
offered-room cs v vs h = ground arith

-- A ring that holds packets and is offered one of 1 to 65535 bytes, which `write_wintun` does not test, takes
-- it behind them if it is an IP packet and the ring has room for it, and gives its length, with the event
-- set where the driver waits for it; otherwise it gives 0, and the ring stays as it is.
pub write_wintun_refines :
    (ring : TunRing) (cs : List (List ℕ)) (pre post : List ℕ) (v : ℕ) (vs : List ℕ)
    → Holds ring cs
    → suc (length vs) ≤ max_packet_size
    → (ring' : TunRing) × (write_wintun ring (rep pre (v ∷ vs) post)
        ≡ some (
            if offered cs v vs
            then (pos (suc (length vs)), ring', not (ring.alertable == 0))
            else (pos 0, ring, false)))
      × Holds ring' (if offered cs v vs then cs ++ ((v ∷ vs) ∷ []) else cs)
write_wintun_refines ring cs pre post v vs h hn = elim (Bool-cases (offered cs v vs)) [
  | inl took ↦ (
    written ring (v ∷ vs),
    rw (write_result ring cs pre post v vs h hn, took) refl,
    rw took (written-Holds ring cs (v ∷ vs) h hn (offered-room cs v vs took)),
  )
  | inr left ↦ (ring, rw (write_result ring cs pre post v vs h hn, left) refl, rw left h)
]
