-- ===== src/Workqueue/Schedule.antt =====
-- Every interleaving of the workers against the queue that they rely on.
use treiber.Base.{
  ℕ, ◌-◌, ◌≤◌, ◌≡◌, ◌≢◌, refl, sym, ap, ◌∙◌, inl, inr, true, false, Bool-cases, List, [], ◌∷◌, map,
  some, arith, length, take, drop, ltb, ◌==◌, if◌then◌else◌, ◌^◌, take-of_length_le,
  drop-of_length_le, All, ◌++◌,
}
use treiber.Workqueue.{
  WorkPacket, Workqueue, create, Pointer, Popped, waits, nothing, got, remove, push, release_all,
  pop_size_locked, pop_all_locked, may_proceed,
}
use treiber.Workqueue.{Section, insert, take_some, take_all, release, section, interleave}
use mathlib.Core.Path.{ap₂}
use treiber.Workqueue.Inv.{release_all-IsValid}
use treiber.Workqueue.Refine.{
  Holds, push_refines, remove_refines, contents, size-Holds, create-Holds,
}
use treiber.Workqueue.Fifo.{Fifo, serve, step, run, delivered, accepted, delivered-append-packets}

-- A ring stands for the queue of its packets.
pub record Models (q : Workqueue) (f : Fifo) : Type 0 where
  pub holds : Holds q f.packets
  pub limits : f.limit ≡ q.capacity - 1
  pub flags : f.closed ≡ q.released

-- Flags and limits that the operations leave alone.
flags_push :
    (p : WorkPacket) (q : Workqueue)
    → ((push p q).released ≡ q.released) × ((push p q).capacity ≡ q.capacity)
unfolding push
flags_push p q = ground arith

flags_remove :
    (n : ℕ) (q : Workqueue)
    → ((remove n q).1.released ≡ q.released) × ((remove n q).1.capacity ≡ q.capacity)
unfolding remove
flags_remove n q = ground arith

-- The tests of a consumer, answered by the queue that the ring stands for.
serve_closed : (n : ℕ) (f : Fifo) → f.closed ≡ true → serve n f ≡ (nothing, f)
unfolding serve
serve_closed n f e = ground arith

serve_empty : (n : ℕ) (f : Fifo) → f.closed ≡ false → length f.packets ≡ 0 → serve n f ≡ (waits, f)
unfolding serve
serve_empty n f e z = ground arith

serve_packets :
    (n : ℕ) (f : Fifo)
    → f.closed ≡ false
    → length f.packets ≢ 0
    → serve n f ≡ (got (map some (take n f.packets)), record f { packets = drop n f.packets })
unfolding serve
serve_packets n f e z = ground arith

-- The locked part of a consumer that removes `k` packets.
abbrev locked : ℕ → Workqueue → Popped (List Pointer) × Workqueue
locked k q = if may_proceed q then if q.released then (nothing, q) else remove k q else (waits, q)

locked_closed : (k : ℕ) (q : Workqueue) → q.released ≡ true → locked k q ≡ (nothing, q)
unfolding may_proceed
locked_closed k q e = ground arith

locked_empty : (k : ℕ) (q : Workqueue) → q.released ≡ false → q.size ≡ 0 → locked k q ≡ (waits, q)
unfolding may_proceed
locked_empty k q e z = ground arith

locked_some : (k : ℕ) (q : Workqueue) → q.released ≡ false → q.size ≢ 0 → locked k q ≡ remove k q
unfolding may_proceed
locked_some k q e z = ground arith

-- A consumer that removes `k` packets where the queue hands out `n` at most.
serve_refines :
    {q : Workqueue} {f : Fifo} (k n : ℕ)
    → k ≤ length f.packets
    → take k f.packets ≡ take n f.packets
    → drop k f.packets ≡ drop n f.packets
    → Models q f
    → ((locked k q).0 ≡ (serve n f).0) × Models (locked k q).1 (serve n f).1
serve_refines {q} {f} k n hk ht hd m = elim (Bool-cases q.released) [
  | inl e ↦ rw (locked_closed k q e, serve_closed n f (m.flags ∙ e)) (refl, m)
  | inr e ↦ elim (Bool-cases (length f.packets == 0)) [
    | inl z ↦
        rw
          (
            locked_empty k q e (ground (arith, size-Holds m.holds)),
            serve_empty n f (m.flags ∙ e) (ground arith),
          )
          (refl, m)
    | inr z ↦
        let (out, held) = remove_refines k hk m.holds in
        rw
          (
            locked_some k q e (ground (arith, size-Holds m.holds)),
            serve_packets n f (m.flags ∙ e) (ground arith),
          )
          (
            rw (← ht) out,
            record {
              holds = rw (← hd) held;
              limits = m.limits ∙ ap (λ c. c - 1) (sym (flags_remove k q).1);
              flags = m.flags ∙ sym (flags_remove k q).0;
            },
          )
  ]
]

insert_refines :
    {q : Workqueue} {f : Fifo} (p : WorkPacket)
    → Models q f
    → Models (push p q) (step (insert p) f).1
unfolding step
insert_refines {q} {f} p m = elim (Bool-cases (ltb (length f.packets) f.limit)) [
  | inl e ↦ rw e (record {
    holds = rw (← m.limits, e) at (push_refines p m.holds);
    limits = m.limits ∙ ap (λ c. c - 1) (sym (flags_push p q).1);
    flags = m.flags ∙ sym (flags_push p q).0;
  })
  | inr e ↦ rw e (record {
    holds = rw (← m.limits, e) at (push_refines p m.holds);
    limits = m.limits ∙ ap (λ c. c - 1) (sym (flags_push p q).1);
    flags = m.flags ∙ sym (flags_push p q).0;
  })
]

-- `popSize(n)` hands out `n` packets, or all if there are fewer.
some_refines :
    {q : Workqueue} {f : Fifo} (n : ℕ)
    → Models q f
    → ((pop_size_locked n q).0 ≡ (serve n f).0) × Models (pop_size_locked n q).1 (serve n f).1
unfolding pop_size_locked
some_refines {q} {f} n m = elim (Bool-cases (ltb q.size n)) [
  | inl few ↦ rw few (
      serve_refines q.size n (omega (arith, size-Holds m.holds))
        (take-of_length_le q.size f.packets (omega (arith, size-Holds m.holds))
          ∙ sym (take-of_length_le n f.packets (ground (arith, size-Holds m.holds))))
        (drop-of_length_le q.size f.packets (omega (arith, size-Holds m.holds))
          ∙ sym (drop-of_length_le n f.packets (ground (arith, size-Holds m.holds))))
        m)
  | inr enough ↦ rw enough (serve_refines n n (ground (arith, size-Holds m.holds)) refl refl m)
]

all_refines :
    {q : Workqueue} {f : Fifo}
    → Models q f
    → ((pop_all_locked q).0 ≡ (serve (length f.packets) f).0)
      × Models (pop_all_locked q).1 (serve (length f.packets) f).1
unfolding pop_all_locked
all_refines {q} {f} m =
    let e : q.size ≡ length f.packets = size-Holds m.holds in
    serve_refines q.size (length f.packets) (omega arith) (ap (λ k. take k f.packets) e)
      (ap (λ k. drop k f.packets) e) m

release_refines :
    {q : Workqueue} {f : Fifo} → Models q f → Models (release_all q) (record f { closed = true })
unfolding release_all
release_refines m = record {
  holds = record { valid = release_all-IsValid m.holds.valid; pointers = m.holds.pointers };
  limits = m.limits;
  flags = refl;
}

-- One section answers as the queue does, and leaves the ring standing for what the queue becomes.
section_refines :
    {q : Workqueue} {f : Fifo} (s : Section)
    → Models q f
    → ((section s q).0 ≡ (step s f).0) × Models (section s q).1 (step s f).1
unfolding section step
section_refines (insert p) m = (refl, insert_refines p m)
section_refines (take_some n) m = some_refines n m
section_refines take_all m = all_refines m
section_refines release m = (refl, release_refines m)

-- However the threads interleave, a ring that stands for a queue answers every section as that
-- bounded queue does, and still stands for it afterwards.
pub interleave_refines :
    (ss : List Section) {q : Workqueue} {f : Fifo}
    → Models q f
    → ((interleave ss q).0 ≡ (run ss f).0) × Models (interleave ss q).1 (run ss f).1
unfolding interleave run
interleave_refines [] m = (refl, m)
interleave_refines (s ∷ ss) m =
    let (out, m') = section_refines s m in
    let (outs, m'') = interleave_refines ss m' in (ap₂ ◌∷◌ out outs, m'')

-- A new ring of capacity `cap` stands for the empty open queue of at most `cap - 1` packets.
create-Models :
    (cap : ℕ)
    → 2 ≤ cap
    → cap ≤ 2 ^ 62
    → Models (create cap) (record { limit = cap - 1; packets = []; closed = false })
unfolding create
create-Models cap lo hi = record { holds = create-Holds cap lo hi; limits = refl; flags = refl }

-- Nothing is lost, made up or reordered: what the consumers were handed, and then what the ring
-- still holds, are the packets that it held and then those that it accepted.
pub delivered-append-contents :
    (ss : List Section) {q : Workqueue} {f : Fifo}
    → Models q f
    → delivered (interleave ss q).0 ++ contents (interleave ss q).1
      ≡ contents q ++ map some (accepted ss f)
delivered-append-contents ss {q} {f} m =
    let (outs, m') = interleave_refines ss m in
    rw (outs, m'.holds.pointers, m.holds.pointers) (delivered-append-packets ss f)

-- Once the ring is released a consumer is neither kept waiting nor handed a packet, whatever the
-- ring holds and however the threads interleave.
pub released_answers_nothing :
    (ss : List Section) (q : Workqueue)
    → q.released ≡ true
    → (delivered (interleave ss q).0 ≡ []) × All (λ r. r ≢ waits) (interleave ss q).0
unfolding interleave section delivered
released_answers_nothing [] q e = (refl, tt)
released_answers_nothing (insert p ∷ ss) q e =
    let (d, w) = released_answers_nothing ss (push p q) ((flags_push p q).0 ∙ e) in
    (d, (λ x. cc, w))
released_answers_nothing (take_some n ∷ ss) q e =
    let (d, w) = released_answers_nothing ss q e in
    rw (locked_closed (if ltb q.size n then q.size else n) q e) (d, (λ x. cc, w))
released_answers_nothing (take_all ∷ ss) q e =
    let (d, w) = released_answers_nothing ss q e in rw (locked_closed q.size q e) (d, (λ x. cc, w))
released_answers_nothing (release ∷ ss) q e =
    let (d, w) = released_answers_nothing ss (release_all q) refl in (d, (λ x. cc, w))
