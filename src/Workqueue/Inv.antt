-- ===== src/Workqueue/Inv.antt =====
-- The representation invariant of the ring in `Treiber Winttun/Workqueue.h`.
use treiber.Base.{ℕ, ◌+◌, ◌-◌, ◌^◌, ◌≤◌, ◌<◌, ◌≡◌, arith, length, length-set, length-replicate}
use treiber.Base.{leb, if◌then◌else◌, some, none}
use treiber.Workqueue.{WorkPacket, Workqueue, Pointer, create, release_all, push, remove}

-- `k` slots on from slot `h`, going round at `c`.
abbrev pub advance : ℕ → ℕ → ℕ → ℕ
advance c h k = if leb c (h + k) then h + k - c else h + k

-- One slot stays free, and `end` is the slot of the newest packet: `size` slots before the one
-- behind it stands `start`.
pub record IsValid (q : Workqueue) : Type 0 where
  pub slots : length q.buffer ≡ q.capacity
  pub two : 2 ≤ q.capacity
  pub small : q.capacity ≤ 2 ^ 62
  pub room : q.size < q.capacity
  pub start_in : q.start < q.capacity
  pub end_in : q.end < q.capacity
  pub ends : advance q.capacity q.start q.size ≡ advance q.capacity q.end 1

-- A new queue is valid for every capacity from 2 on (NS_QUEUE_SIZE is 100).
pub create-IsValid : (cap : ℕ) → 2 ≤ cap → cap ≤ 2 ^ 62 → IsValid (create cap)
unfolding create
create-IsValid cap lo hi = ground (arith, length-replicate {A = Pointer} cap none)

-- Inserting a packet, or dropping it, keeps the invariant.
pub push-IsValid : {q : Workqueue} (p : WorkPacket) → IsValid q → IsValid (push p q)
unfolding push
push-IsValid {q} p v =
    ground (arith, length-set q.buffer 0 (some p), length-set q.buffer (q.end + 1) (some p))

-- Removing at most as many packets as there are keeps the invariant.
pub remove-IsValid : {q : Workqueue} (n : ℕ) → n ≤ q.size → IsValid q → IsValid (remove n q).1
unfolding remove
remove-IsValid n h v = ground arith

pub release_all-IsValid : {q : Workqueue} → IsValid q → IsValid (release_all q)
unfolding release_all
release_all-IsValid v = ground arith
