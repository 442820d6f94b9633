-- ===== src/Workqueue/Refine.antt =====
-- A valid ring behaves as the bounded queue of the packets that it holds.
use treiber.Base.{
  ℕ, suc, ◌+◌, ◌-◌, ◌≤◌, ◌<◌, ◌≡◌, refl, sym, ap, ◌∙◌, inl, inr, Bool-cases, ◌^◌, List, [], ◌∷◌,
  ◌++◌, map, none, some, arith, length, take, drop, ltb, if◌then◌else◌, length-map, map-append,
  false, take-of_length_le, drop-of_length_le, get_or-set_self, take-map, drop-map, set,
}
use mathlib.Core.Path.{ap₂, subst}
use treiber.Workqueue.{
  WorkPacket, Workqueue, Pointer, got, create, push, remove, push_bytes, able_to_input_packet,
  add_to_end, pop_size, pop_size_locked, may_proceed, empty,
}
use treiber.Workqueue.Inv.{IsValid, advance, create-IsValid, push-IsValid, remove-IsValid}
use treiber.Workqueue.Copies.{window, length-window, window-append, window-eq-slice}
use treiber.Workqueue.Copies.{window-eq-slices, take-window, drop-window, window-set_ne}

-- The pointers that the ring holds, oldest first.
abbrev pub contents : Workqueue → List Pointer
contents q = window q.buffer q.capacity q.start q.size

-- A valid ring holds the packets `ps`, oldest first, behind pointers that are not null.
pub record Holds (q : Workqueue) (ps : List WorkPacket) : Type 0 where
  pub valid : IsValid q
  pub pointers : contents q ≡ map some ps

-- The ring's size is the number of its packets.
pub size-Holds : {q : Workqueue} {ps : List WorkPacket} → Holds q ps → q.size ≡ length ps
size-Holds {q} {ps} h =
    sym (length-window q.buffer q.capacity q.start q.size)
    ∙ ap length h.pointers
    ∙ length-map some ps

-- Two walks of different lengths, both below the capacity, end at different slots.
advance_ne : (c h k n : ℕ) → h < c → k < n → n < c → advance c h k ≡ advance c h n → ⊥
advance_ne c h k n hh hk hn e = ground arith

-- Writing behind the newest packet appends to the walk.
window-set_end :
    {q : Workqueue} (x : Pointer) (i : ℕ)
    → IsValid q
    → i ≡ advance q.capacity q.end 1
    → window (set q.buffer i x) q.capacity q.start (suc q.size) ≡ contents q ++ (x ∷ [])
window-set_end {q} x i v e =
    ap (window buf' q.capacity q.start) {x = suc q.size} {y = q.size + 1} (omega arith)
    ∙ window-append buf' q.capacity q.start q.size 1 v.start_in (omega arith)
    ∙ ap₂ ◌++◌ front last
  where
    buf' : List Pointer
    buf' = set q.buffer i x

    front : window buf' q.capacity q.start q.size ≡ contents q
    front =
        window-set_ne q.buffer q.capacity x i q.start q.size v.start_in (omega arith) (λ k hk e'.
          advance_ne q.capacity q.start k q.size v.start_in hk v.room (sym e' ∙ e ∙ sym v.ends))

    last : window buf' q.capacity (advance q.capacity q.start q.size) 1 ≡ x ∷ []
    last =
        rw (v.ends, ← e)
          (ap (λ y. y ∷ []) (get_or-set_self q.buffer i x none (rw e (rw v.slots (ground arith)))))

push_full : {q : Workqueue} (p : WorkPacket) → IsValid q → q.size ≡ q.capacity - 1 → push p q ≡ q
unfolding push
push_full p v e = ground arith

push_room :
    {q : Workqueue} (p : WorkPacket)
    → IsValid q
    → q.size < q.capacity - 1
    → push p q ≡ record q {
      end = advance q.capacity q.end 1;
      size = suc q.size;
      buffer = set q.buffer (advance q.capacity q.end 1) (some p);
    }
unfolding push
push_room p v e = ground arith

-- Inserting drops the packet when `capacity - 1` packets are held, and appends it otherwise.
pub push_refines :
    {q : Workqueue} {ps : List WorkPacket} (p : WorkPacket)
    → Holds q ps
    → Holds (push p q) (if ltb (length ps) (q.capacity - 1) then ps ++ (p ∷ []) else ps)
push_refines {q} {ps} p h = elim (Bool-cases (ltb (length ps) (q.capacity - 1))) [
  | inl room ↦
      rw (room, push_room p h.valid (ground (arith, size-Holds h)))
        (record {
          valid =
              rw (push_room p h.valid (ground (arith, size-Holds h))) at (push-IsValid p h.valid);
          pointers =
              window-set_end (some p) (advance q.capacity q.end 1) h.valid refl
              ∙ rw (h.pointers, map-append);
        })
  | inr full ↦ rw (full, push_full p h.valid (ground (arith, size-Holds h))) h
]

-- What a removal of `n` packets copies.
copied :
    {q : Workqueue} (n : ℕ) → n ≤ q.size → IsValid q → (remove n q).0 ≡ got (take n (contents q))
unfolding remove
copied {q} n hn v = ground (
  arith,
  take-window q.buffer q.capacity q.start n q.size v.start_in hn,
  window-eq-slice q.buffer q.capacity q.start n,
  window-eq-slices q.buffer q.capacity q.start n,
)

left :
    {q : Workqueue} (n : ℕ) → n ≤ q.size → IsValid q → contents (remove n q).1 ≡ drop n (contents q)
unfolding remove
left {q} n hn v = ground (arith, drop-window q.buffer q.capacity q.start n q.size v.start_in hn)

-- Removing `n` packets hands out the oldest `n`, in order, and keeps the others.
pub remove_refines :
    {q : Workqueue} {ps : List WorkPacket} (n : ℕ)
    → n ≤ length ps
    → Holds q ps
    → ((remove n q).0 ≡ got (map some (take n ps))) × Holds (remove n q).1 (drop n ps)
remove_refines {q} {ps} n hn h =
    let k : n ≤ q.size = omega (arith, size-Holds h) in
    (
      copied n k h.valid ∙ rw (h.pointers, take-map),
      record {
        valid = remove-IsValid n k h.valid;
        pointers = left n k h.valid ∙ rw (h.pointers, drop-map);
      },
    )

-- A new queue holds nothing.
pub create-Holds : (cap : ℕ) → 2 ≤ cap → cap ≤ 2 ^ 62 → Holds (create cap) []
unfolding create
create-Holds cap lo hi = record { valid = create-IsValid cap lo hi; pointers = refl }

-- The guards of `popSize` on an open queue with packets.
pop_size_open :
    {q : Workqueue} {p : WorkPacket} {ps : List WorkPacket} (n : ℕ)
    → q.released ≡ false
    → Holds q (p ∷ ps)
    → pop_size n q ≡ remove (if ltb q.size n then q.size else n) q
unfolding pop_size pop_size_locked may_proceed empty
pop_size_open {q} n u h = ground (arith, u, size-Holds h)

-- `popSize` on an open queue with packets gives at most `n` of the oldest, in their order.
pub pop_size_refines :
    {q : Workqueue} {p : WorkPacket} {ps : List WorkPacket} (n : ℕ)
    → q.released ≡ false
    → Holds q (p ∷ ps)
    → ((pop_size n q).0 ≡ got (map some (take n (p ∷ ps))))
      × Holds (pop_size n q).1 (drop n (p ∷ ps))
pop_size_refines {q} {p} {ps} n u h = elim (Bool-cases (ltb q.size n)) [
  | inr few ↦ rw (pop_size_open n u h, few) (remove_refines n (ground (arith, few, size-Holds h)) h)
  | inl many ↦
      let k : length (p ∷ ps) ≤ n = ground (arith, many, size-Holds h) in
      let z : q.size ≡ length (p ∷ ps) = size-Holds h in
      let r = remove_refines q.size (omega (arith, z)) h in
      rw (pop_size_open n u h, many, take-of_length_le n (p ∷ ps) k, drop-of_length_le n (p ∷ ps) k)
        (
          r.0 ∙ ap (λ xs. got (map some xs)) (take-of_length_le q.size (p ∷ ps) (omega (arith, z))),
          subst (Holds (remove q.size q).1) (drop-of_length_le q.size (p ∷ ps) (omega (arith, z)))
              r.1,
        )
]

-- The packet that `push` of bytes makes.
pub push_bytes_refines :
    {q : Workqueue} {ps : List WorkPacket} (bytes : List ℕ)
    → Holds q ps
    → Holds (push_bytes bytes (length bytes) q) (
        if ltb (length ps) (q.capacity - 1)
        then ps ++ (record { packet = bytes; packet_size = length bytes; sent = false } ∷ [])
        else ps)
unfolding push_bytes
push_bytes_refines bytes h =
    push_refines (record { packet = bytes; packet_size = length bytes; sent = false }) h

-- No push changes the capacity.
pub capacity-push_bytes :
    (bytes : List ℕ) (n : ℕ) (q : Workqueue) → (push_bytes bytes n q).capacity ≡ q.capacity
unfolding push_bytes push able_to_input_packet add_to_end
capacity-push_bytes bytes n q = ground arith

-- Nor does one release the queue.
pub released-push_bytes :
    (bytes : List ℕ) (n : ℕ) (q : Workqueue) → (push_bytes bytes n q).released ≡ q.released
unfolding push_bytes push able_to_input_packet add_to_end
released-push_bytes bytes n q = ground arith
