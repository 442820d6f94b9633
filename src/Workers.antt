-- ===== src/Workers.antt =====
-- The loops of the workers: `WorkSocket` of `Treiber Winttun/UPDSocketWorker.cpp`, and `ReceivePackets` and
-- `SendPackets` of `Treiber Winttun/WinTunLogic.h`. A round of a loop is one function, with what the system
-- answers and what the flag `isRunning` reads as parameters. `none` is undefined behaviour: a null
-- pointer, a read behind the queue, or the overflow of a counter.
pub mod Batches
pub mod Rounds
mod Tests
use treiber.Base.{
  ℕ, suc, ◌+◌, ◌-◌, Bool, true, false, not, Option, none, some, List, [], ◌∷◌, length,
  if◌then◌else◌, ◌>>=◌,
}
use treiber.Base.Int.{ℤ, pos, ◌-ℤ◌, leb_ℤ}
use treiber.Workqueue.{
  WorkPacket, Workqueue, Pointer, Popped, waits, out_of_bounds, nothing, got, push_bytes, pop_size,
  pop_all,
}
use treiber.Statistics.{
  Statistics, udp_packet_sent, udp_packet_recieved, tun_packet_sent, tun_packet_recieved,
}

-- What `sendto` answers: the socket's buffer may be full.
pub data SendResult : Type 0 where
  sent : SendResult
  would_block : SendResult
  send_failed : SendResult

-- How a part of a worker ends: it is through, it needs another answer of the system, the worker has been
-- stopped, or it has returned an error.
pub data Ending : Type 0 where
  through : Ending
  blocked : Ending
  stopped : Ending
  returned : ℕ → Ending

-- What the loop over the packets of one `popSize` leaves.
pub record Batch : Type 0 where
  pub transmitted : List WorkPacket
  pub left : List Pointer
  pub answers : List SendResult
  pub stats : Statistics
  pub ending : Ending

-- A packet whose `sendto` would block is tried again, and counted again.
pub send_batch : List SendResult → List Pointer → Statistics → Option Batch
send_batch rs [] s =
    some (record { transmitted = []; left = []; answers = rs; stats = s; ending = through })
send_batch [] (p ∷ ps) s =
    some (record { transmitted = []; left = p ∷ ps; answers = []; stats = s; ending = blocked })
send_batch (r ∷ rs) (none ∷ ps) s = none
send_batch (sent ∷ rs) (some p ∷ ps) s = do
  s' ← udp_packet_sent p.packet_size s
  b ← send_batch rs ps s'
  some (record b { transmitted = p ∷ b.transmitted })
send_batch (would_block ∷ rs) (some p ∷ ps) s = do
  s' ← udp_packet_sent p.packet_size s
  send_batch rs (some p ∷ ps) s'
send_batch (send_failed ∷ rs) (some p ∷ ps) s = do
  s' ← udp_packet_sent p.packet_size s
  some (record {
    transmitted = [];
    left = some p ∷ ps;
    answers = rs;
    stats = s';
    ending = returned 2819;
  })

-- A round of the sending loop of `WorkSocket`, with the flag as it reads behind `popSize`. Without packets
-- their number is unset, which only a stopped worker does not read.
pub send_round : Bool → List SendResult → Workqueue → Statistics → Option (Batch × Workqueue)
unfolding send_batch
send_round running rs q s =
    let (popped, q') = pop_size 3 q in
    elim popped [
      | waits ↦
          some
            (record { transmitted = []; left = []; answers = rs; stats = s; ending = blocked }, q')
      | out_of_bounds ↦ none
      | nothing ↦
          if running
          then none
          else some (
            record { transmitted = []; left = []; answers = rs; stats = s; ending = stopped },
            q',
          )
      | got ps ↦
          if running
          then (do b ← send_batch rs ps s; some (b, q'))
          else some (
            record { transmitted = []; left = ps; answers = rs; stats = s; ending = stopped },
            q',
          )
    ]

-- What `select` and `recvfrom` answer: an error is that of an empty buffer or another one.
pub data Receive : Type 0 where
  select_failed : Bool → Receive
  timeout : Receive
  datagram : List ℕ → Receive
  recv_failed : Bool → Receive

-- What a round leaves of the queue and the counters.
pub record Round : Type 0 where
  pub queue : Workqueue
  pub stats : Statistics
  pub ending : Ending

-- A round of the receiving loop of `WorkSocket`; a datagram without bytes is nothing.
pub receive_round : Bool → Receive → Workqueue → Statistics → Option Round
receive_round running (select_failed empty_buffer) q s =
    some (record { queue = q; stats = s; ending = if empty_buffer then through else returned 2820 })
receive_round running timeout q s =
    some (record { queue = q; stats = s; ending = if running then through else stopped })
receive_round running (datagram []) q s = some (record { queue = q; stats = s; ending = through })
receive_round running (datagram (b ∷ bs)) q s = do
  s' ← udp_packet_recieved (length (b ∷ bs)) s
  some (record {
    queue = push_bytes (b ∷ bs) (length (b ∷ bs)) q;
    stats = s';
    ending = if running then through else stopped;
  })
receive_round running (recv_failed empty_buffer) q s =
    some (record { queue = q; stats = s; ending = if empty_buffer then through else returned 2820 })

-- What `WintunReceivePacket` answers.
pub data TunReceive : Type 0 where
  packet : List ℕ → TunReceive
  no_more_items : TunReceive
  tun_failed : ℕ → TunReceive

-- A round of `ReceivePackets`, with the countdown `runFor`: at its end the worker waits for an event.
pub tun_receive_round : TunReceive → ℤ → Workqueue → Statistics → Round × ℤ
tun_receive_round (packet bs) run_for q s = (
  record { queue = push_bytes bs (length bs) q; stats = tun_packet_recieved s; ending = through },
  run_for -ℤ pos 1,
)
tun_receive_round no_more_items run_for q s = (
  record { queue = q; stats = s; ending = through },
  if leb_ℤ (run_for -ℤ pos 1) (pos 0) then pos 11 else run_for -ℤ pos 1,
)
tun_receive_round (tun_failed code) run_for q s =
    (record { queue = q; stats = s; ending = returned code }, run_for -ℤ pos 1)

-- Before each packet the flag is read; then `WintunAllocateSendPacket` has room for it or not.
record TunSend : Type 0 where
  pub running : Bool
  pub allocated : Bool

-- What the loop over the packets of one `popAll` hands to the adapter.
record TunBatch : Type 0 where
  pub written : List WorkPacket
  pub stats : Statistics
  pub ending : Ending

-- A packet for which there is no room is dropped.
tun_send_batch : List TunSend → List Pointer → Statistics → Option TunBatch
tun_send_batch as' [] s = some (record { written = []; stats = s; ending = through })
tun_send_batch [] (p ∷ ps) s = some (record { written = []; stats = s; ending = blocked })
tun_send_batch (a ∷ as') (none ∷ ps) s =
    if a.running then none else some (record { written = []; stats = s; ending = stopped })
tun_send_batch (a ∷ as') (some p ∷ ps) s =
    if a.running
    then if a.allocated
      then (do
        b ← tun_send_batch as' ps (tun_packet_sent s)
        some (record b { written = p ∷ b.written }))
      else tun_send_batch as' ps s
    else some (record { written = []; stats = s; ending = stopped })

-- A round of `SendPackets`. A released queue gives no packets; their number may be unset then, which only
-- a stopped worker does not read, and `shutdown` stops the workers before it releases the queues.
tun_send_round : Bool → List TunSend → Workqueue → Statistics → Option (TunBatch × Workqueue)
unfolding tun_send_batch
tun_send_round running as' q s =
    let (popped, q') = pop_all q in
    elim popped [
      | waits ↦ some (record { written = []; stats = s; ending = blocked }, q')
      | out_of_bounds ↦ none
      | nothing ↦
          if running then none else some (record { written = []; stats = s; ending = stopped }, q')
      | got ps ↦ do b ← tun_send_batch as' ps s; some (b, q')
    ]
