-- ===== src/Workqueue/Single.antt =====
-- `Workqueue::pop`, which nothing in the driver calls any more.
use treiber.Base.{
  ℕ, ◌+◌, ◌-◌, ◌≤◌, ◌<◌, ◌≡◌, refl, true, List, [], ◌∷◌, map, some, arith, ◌^◌, length, get_elem?,
  get_or, none, suc, zero,
}
use treiber.Workqueue.{WorkPacket, Workqueue, Pointer, out_of_bounds, got, remove, pop}
use treiber.Workqueue.Inv.{IsValid}
use treiber.Workqueue.Copies.{window}
use treiber.Workqueue.Refine.{Holds, size-Holds}

get_elem?-eq_some :
    (buf : List Pointer) (i : ℕ) → i < length buf → get_elem? buf i ≡ some (get_or buf i none)
get_elem?-eq_some [] i h = elim h [ ]
get_elem?-eq_some (x ∷ buf) zero h = refl
get_elem?-eq_some (x ∷ buf) (suc i) h = get_elem?-eq_some buf i (omega arith)

get_elem?-past : (buf : List Pointer) (i : ℕ) → length buf ≤ i → get_elem? buf i ≡ none
get_elem?-past [] i h = refl
get_elem?-past (x ∷ buf) zero h = absurd (omega arith)
get_elem?-past (x ∷ buf) (suc i) h = get_elem?-past buf i (omega arith)

-- The oldest packet of a walk over at least one slot.
first_pointer :
    (buf : List Pointer) (c h n : ℕ) (p : WorkPacket) (ps : List WorkPacket)
    → window buf c h n ≡ map some (p ∷ ps)
    → get_or buf h none ≡ some p
first_pointer buf c h zero p ps e = cc
first_pointer buf c h (suc n) p ps e = cc

-- While `start` is in front of the last slot, `pop` hands out the oldest packet and removes it, as
-- `popSize(1)` does.
pop-eq-remove_one :
    {q : Workqueue} (p : WorkPacket) (ps : List WorkPacket)
    → Holds q (p ∷ ps)
    → q.start + 1 < q.capacity
    → ((pop q).0 ≡ got (some p)) × ((pop q).1 ≡ (remove 1 q).1)
unfolding pop remove
pop-eq-remove_one {q} p ps h e = ground (
  arith,
  size-Holds h,
  h.valid,
  get_elem?-eq_some q.buffer q.start,
  first_pointer q.buffer q.capacity q.start q.size p ps h.pointers,
)

-- At the last slot `pop` leaves `start` behind the array instead of at slot 0: with two packets or
-- more in any such ring, the next `pop` reads out of bounds.
pub pop-pop_out_of_bounds :
    (q : Workqueue)
    → IsValid q
    → q.start + 1 ≡ q.capacity
    → 2 ≤ q.size
    → (pop (pop q).1).0 ≡ out_of_bounds
unfolding pop
pop-pop_out_of_bounds q v e two = ground (arith, v, get_elem?-past q.buffer (q.start + 1))

-- On a released ring with no packet `pop` makes the size 2^64 - 1.
pub size-pop_released :
    (q : Workqueue) → IsValid q → q.released ≡ true → q.size ≡ 0 → (pop q).1.size ≡ 2 ^ 64 - 1
unfolding pop
size-pop_released q v e z = ground (arith, v)
