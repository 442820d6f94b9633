-- ===== src/Workqueue/Tests.antt =====
-- Runs of the ring, and its theorems at concrete inputs.
use treiber.Base.{ℕ, ◌≡◌, ◌≢◌, refl, true, false, List, [], ◌∷◌, ◌++◌, map, none, some, arith, All}
use treiber.Workqueue.{
  WorkPacket, Workqueue, waits, nothing, got, create, pop_size, Section, insert, take_some,
  take_all, release, section, interleave,
}
use treiber.Workqueue.Refine.{Holds, contents}
use treiber.Workqueue.Fifo.{Fifo, run, delivered, accepted}
use treiber.Workqueue.Schedule.{
  Models, interleave_refines, delivered-append-contents, released_answers_nothing,
}

abbrev packet_of : ℕ → WorkPacket
packet_of n = record { packet = n ∷ []; packet_size = 1; sent = false }

abbrev a_packet : WorkPacket
a_packet = packet_of 1

abbrev b_packet : WorkPacket
b_packet = packet_of 2

-- Two packets, in the last slot and in slot 0.
abbrev wrapped : Workqueue
wrapped = record {
  released = false;
  buffer = some b_packet ∷ none ∷ some a_packet ∷ [];
  capacity = 3;
  size = 2;
  end = 0;
  start = 2;
}

abbrev two_packets : Fifo
two_packets = record { limit = 2; packets = a_packet ∷ b_packet ∷ []; closed = false }

-- Three packets are inserted into a ring of capacity 3, which has room for two.
abbrev burst : List Section
burst = insert a_packet ∷ insert b_packet ∷ insert a_packet ∷ take_some 3 ∷ take_all ∷ release ∷ []

burst_answers :
    (interleave burst (create 3)).0
    ≡ nothing ∷ nothing ∷ nothing ∷ got (some a_packet ∷ some b_packet ∷ []) ∷ waits ∷ nothing ∷ []
unfolding interleave section create
burst_answers = refl

popped_across_the_end : (pop_size 3 wrapped).0 ≡ got (some a_packet ∷ some b_packet ∷ [])
unfolding pop_size
popped_across_the_end = refl

wrapped-Models : Models wrapped two_packets
wrapped-Models = record {
  holds = record { valid = omega arith; pointers = refl };
  limits = refl;
  flags = refl;
}

interleave_refines_example :
    ((interleave burst wrapped).0 ≡ (run burst two_packets).0)
    × Models (interleave burst wrapped).1 (run burst two_packets).1
interleave_refines_example = interleave_refines burst wrapped-Models

delivered-append-contents_example :
    delivered (interleave burst wrapped).0 ++ contents (interleave burst wrapped).1
    ≡ contents wrapped ++ map some (accepted burst two_packets)
delivered-append-contents_example = delivered-append-contents burst wrapped-Models

released_answers_nothing_example :
    (delivered (interleave burst (record wrapped { released = true })).0 ≡ [])
    × All (λ r. r ≢ waits) (interleave burst (record wrapped { released = true })).0
released_answers_nothing_example =
    released_answers_nothing burst (record wrapped { released = true }) refl

-- Two packets in slots 0 and 1.
abbrev straight : Workqueue
straight = record {
  released = false;
  buffer = some a_packet ∷ some b_packet ∷ none ∷ [];
  capacity = 3;
  size = 2;
  end = 1;
  start = 0;
}

straight-Holds : Holds straight (a_packet ∷ b_packet ∷ [])
straight-Holds = record { valid = omega arith; pointers = refl }

abbrev released_empty : Workqueue
released_empty = record wrapped { released = true; size = 0; end = 1 }
