-- ===== src/Workqueue.antt =====
-- `Treiber Winttun/WorkPacket.h`, `Treiber Winttun/Workqueue.h` and `Treiber Winttun/Workqueue.cpp`:
-- the bounded ring of packets between the worker threads. A method that holds the mutex is one step
-- on the state; a method that waits on `hasPackets` answers `waits` while its predicate is false.
pub mod Inv
pub mod Copies
pub mod Refine
pub mod Fifo
pub mod Schedule
pub mod Single
mod Tests
use treiber.Base.{ℕ, Bool, true, false, ◌||◌, not, Option, none, some}
use treiber.Base.{List, [], ◌∷◌, ◌++◌}
use treiber.Base.{ltb, leb, ◌==◌, if◌then◌else◌, get_elem?, set, take, drop, replicate}
use treiber.Base.Words.{add_size, sub_size}

-- A packet on the heap: its bytes, their number, and the flag that nothing reads.
pub record WorkPacket : Type 0 where
  pub packet : List ℕ
  pub packet_size : ℕ
  pub sent : Bool

-- `WorkPacket*`: `none` is the null pointer.
abbrev pub Pointer : Type 0
Pointer = Option WorkPacket

pub record Workqueue : Type 0 where
  pub released : Bool
  pub buffer : List Pointer
  pub capacity : ℕ
  pub size : ℕ
  pub end : ℕ
  pub start : ℕ

-- The constructor: `new WorkPacket*[_capacity]()` is all null.
unfoldable pub create : ℕ → Workqueue
create cap = record {
  released = false;
  buffer = replicate cap none;
  capacity = cap;
  size = 0;
  end = 0;
  start = 1;
}

pub empty : Workqueue → Bool
empty q = q.size == 0

get_capacity : Workqueue → ℕ
get_capacity q = q.capacity

get_size : Workqueue → ℕ
get_size q = q.size

pub release_all : Workqueue → Workqueue
release_all q = record q { released = true }

-- `addToEnd()`
pub add_to_end : Workqueue → Workqueue
add_to_end q =
    if q.end == sub_size q.capacity 1
    then record q { end = 0 }
    else record q { end = add_size q.end 1 }

-- `addToStart()`
add_to_start_one : Workqueue → Workqueue
add_to_start_one q =
    if q.start == q.capacity
    then record q { start = 0 }
    else record q { start = add_size q.start 1 }

-- `addToStart(size_t size)`
add_to_start : ℕ → Workqueue → Workqueue
add_to_start n q =
    let s = add_size q.start n in
    if leb q.capacity s then record q { start = sub_size s q.capacity } else record q { start = s }

needs_splitt : ℕ → Workqueue → Bool
needs_splitt wants_to_remove q = ltb q.capacity (add_size q.start wants_to_remove)

get_split_size : Workqueue → ℕ
get_split_size q = sub_size q.capacity q.start

pub able_to_input_packet : Workqueue → Bool
able_to_input_packet q = not (q.size == sub_size q.capacity 1)

-- `push(WorkPacket*)`: a full queue drops the packet and deletes it.
unfoldable pub push : WorkPacket → Workqueue → Workqueue
unfolding able_to_input_packet add_to_end
push p q =
    if able_to_input_packet q
    then (let q' = add_to_end q in
        record q' { size = add_size q'.size 1; buffer = set q'.buffer q'.end (some p) })
    else q

-- `push(BYTE*, DWORD)`
unfoldable pub push_bytes : List ℕ → ℕ → Workqueue → Workqueue
push_bytes bytes n = push (record { packet = bytes; packet_size = n; sent = false })

-- What a removal gives its caller; `out_of_bounds` is a read behind the array.
pub data Popped {ℓ} (A : Type ℓ) : Type ℓ where
  waits : Popped A
  out_of_bounds : Popped A
  nothing : Popped A
  got : A → Popped A

-- The predicate of `hasPackets.wait`.
pub may_proceed : Workqueue → Bool
unfolding empty
may_proceed q = not (empty q) || q.released

-- `pop()`
pub pop : Workqueue → Popped Pointer × Workqueue
unfolding may_proceed add_to_start_one
pop q =
    if may_proceed q
    then (let q' = add_to_start_one q in
        (
          elim (get_elem? q.buffer q.start) [ none ↦ out_of_bounds | some p ↦ got p ],
          record q' { size = sub_size q'.size 1 },
        ))
    else (waits, q)

-- `std::copy(&buffer[i], &buffer[i] + n, …)`
abbrev pub slice : List Pointer → ℕ → ℕ → List Pointer
slice buf i n = take n (drop i buf)

-- The copies of `popSize` and `popAll`, in one piece or in two, and the removal.
pub remove : ℕ → Workqueue → Popped (List Pointer) × Workqueue
unfolding needs_splitt get_split_size add_to_start
remove n q =
    let q' = add_to_start n q in
    let first = get_split_size q in
    (
      got (
          if needs_splitt n q
          then slice q.buffer q.start first ++ slice q.buffer 0 (sub_size n first)
          else slice q.buffer q.start n),
      record q' { size = sub_size q'.size n },
    )

-- `popSize` from the lock on.
pub pop_size_locked : ℕ → Workqueue → Popped (List Pointer) × Workqueue
unfolding may_proceed remove
pop_size_locked n q =
    if may_proceed q
    then if q.released then (nothing, q) else remove (if ltb q.size n then q.size else n) q
    else (waits, q)

-- `popSize` called where no other thread runs between its first test and the lock.
unfoldable pub pop_size : ℕ → Workqueue → Popped (List Pointer) × Workqueue
unfolding pop_size_locked
pop_size n q = if q.released then (nothing, q) else pop_size_locked n q

-- `popAll` from the lock on.
pub pop_all_locked : Workqueue → Popped (List Pointer) × Workqueue
unfolding may_proceed remove
pop_all_locked q =
    if may_proceed q then if q.released then (nothing, q) else remove q.size q else (waits, q)

pub pop_all : Workqueue → Popped (List Pointer) × Workqueue
unfolding pop_all_locked
pop_all q = if q.released then (nothing, q) else pop_all_locked q

-- The parts of the methods that run under the mutex, as the threads call them.
pub data Section : Type 0 where
  insert : WorkPacket → Section
  take_some : ℕ → Section
  take_all : Section
  release : Section

pub section : Section → Workqueue → Popped (List Pointer) × Workqueue
unfolding push pop_size_locked pop_all_locked release_all
section (insert p) q = (nothing, push p q)
section (take_some n) q = pop_size_locked n q
section take_all q = pop_all_locked q
section release q = (nothing, release_all q)

-- The mutex makes an interleaving of threads a sequence of sections. A waiting consumer's section
-- is run again whenever it wakes up.
pub interleave : List Section → Workqueue → List (Popped (List Pointer)) × Workqueue
interleave [] q = ([], q)
interleave (s ∷ ss) q =
    let (r, q') = section s q in let (rs, q'') = interleave ss q' in (r ∷ rs, q'')
