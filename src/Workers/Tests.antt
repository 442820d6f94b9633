-- ===== src/Workers/Tests.antt =====
-- Rounds of the workers at concrete inputs.
use treiber.Base.{
  ℕ, suc, ◌+◌, ◌^◌, ◌≡◌, ◌≤◌, ◌<◌, refl, true, false, some, List, [], ◌∷◌, map, take, drop, arith,
  length,
}
use treiber.Base.Int.{pos}
use treiber.Workqueue.{WorkPacket, Workqueue, create, push, push_bytes, pop_size}
use treiber.Workqueue.Refine.{Holds, create-Holds}
use treiber.Statistics.{Statistics, start, udp_packet_sent, udp_packet_recieved}
use treiber.Workers.{
  SendResult, sent, would_block, send_failed, through, returned, Batch, send_batch, send_round,
  Round, receive_round, datagram,
}
use treiber.Workers.Batches.{
  Accounts, send_batch-Accounts, NeverFails, successes, attempted, send_batch_through,
}
use treiber.Workers.Rounds.{as_packet, tun_receive, tun_receive-send_round}

abbrev answers : List SendResult
answers = would_block ∷ sent ∷ would_block ∷ send_failed ∷ []

abbrev three : List WorkPacket
three = map as_packet ((1 ∷ []) ∷ (2 ∷ 3 ∷ []) ∷ (4 ∷ []) ∷ [])

abbrev counted : ℕ → ℕ → Statistics
counted n bits = record start { udp_packets_sent = n; bits_sent_current_second = bits }

-- The second packet fails after one more attempt.
abbrev cut_off : Batch
cut_off = record {
  transmitted = take 1 three;
  left = map some (drop 1 three);
  answers = [];
  stats = counted 4 6;
  ending = returned 2819;
}

cuts_off : send_batch answers (map some three) start ≡ some cut_off
unfolding send_batch udp_packet_sent
cuts_off = refl

send_batch-Accounts_example : Accounts answers three start cut_off
send_batch-Accounts_example = send_batch-Accounts answers three start cut_off cuts_off

abbrev patient : List SendResult
patient = would_block ∷ sent ∷ would_block ∷ would_block ∷ sent ∷ sent ∷ would_block ∷ []

abbrev all_sent : Batch
all_sent = record {
  transmitted = three;
  left = [];
  answers = would_block ∷ [];
  stats = counted 6 9;
  ending = through;
}

gets_through : send_batch patient (map some three) start ≡ some all_sent
unfolding send_batch udp_packet_sent
gets_through = refl

patient-NeverFails : NeverFails patient
unfolding NeverFails
patient-NeverFails = tt

three_successes : 3 ≤ successes patient
unfolding successes
three_successes = omega arith

small_bytes : start.bits_sent_current_second + attempted patient three < 2 ^ 31
unfolding attempted
small_bytes = omega arith

send_batch_through_example :
    (b : Batch) × (send_batch patient (map some three) start ≡ some b)
    × (b.ending ≡ through)
    × (b.transmitted ≡ three)
send_batch_through_example =
    send_batch_through patient three start patient-NeverFails three_successes small_bytes

abbrev empty_queue : Workqueue
empty_queue = create 5

empty-Holds : Holds empty_queue []
empty-Holds = create-Holds 5 (omega arith) (omega arith)

abbrev received : Round
received = record {
  queue = push_bytes (9 ∷ 8 ∷ []) 2 empty_queue;
  stats = record start { udp_packets_recieved = 1; bits_recieved_current_second = 2 };
  ending = through;
}

receives : receive_round true (datagram (9 ∷ 8 ∷ [])) empty_queue start ≡ some received
unfolding receive_round udp_packet_recieved
receives = refl

-- Packets of the tunnel behind a first one.
abbrev four : List (List ℕ)
four = (2 ∷ 3 ∷ []) ∷ (4 ∷ []) ∷ (5 ∷ []) ∷ []

abbrev filled : Workqueue
filled = (tun_receive ((1 ∷ []) ∷ four) (pos 11) empty_queue start).0

abbrev after_round : Workqueue
after_round = (pop_size 3 filled).1

sends : send_round true patient filled start ≡ some (all_sent, after_round)
unfolding send_round pop_size tun_receive push_bytes push create udp_packet_sent
sends = refl

open_queue : empty_queue.released ≡ false
unfolding create
open_queue = refl

room_for_four : suc (length four) < empty_queue.capacity
unfolding create
room_for_four = omega arith

tun_receive-send_round_example :
    (b : Batch) × (q' : Workqueue) × (send_round true patient
        (tun_receive ((1 ∷ []) ∷ four) (pos 11) empty_queue start).0
        start
      ≡ some (b, q'))
    × (b.transmitted ≡ take 3 (map as_packet ((1 ∷ []) ∷ four)))
    × Holds q' (drop 3 (map as_packet ((1 ∷ []) ∷ four)))
tun_receive-send_round_example =
    tun_receive-send_round (1 ∷ []) four (pos 11) empty_queue start start patient room_for_four
      open_queue empty-Holds patient-NeverFails three_successes small_bytes
