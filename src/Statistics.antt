-- ===== src/Statistics.antt =====
-- The class Statistics of `Treiber Winttun/diagnostics.h`: the counters of the packets, and those that its
-- thread moves on once a second. The counters of 64 bits are taken to be exact; `none` is the overflow of
-- an `int`, which is undefined. The methods run under a mutex and the thread does not: its statements
-- come in between those of a method, and each reads or writes one shared counter.
pub mod Thread
pub mod Totals
mod Tests
use treiber.Base.{
  ℕ, zero, suc, ◌+◌, ◌^◌, Bool, true, false, Option, none, some, List, [], ◌∷◌, ltb, if◌then◌else◌,
  ◌>>=◌,
}

pub record Statistics : Type 0 where
  pub running : Bool
  pub tun_packets_recieved : ℕ
  pub tun_packets_sent : ℕ
  pub udp_packets_recieved : ℕ
  pub udp_packets_sent : ℕ
  pub bits_sent_overall : ℕ
  pub bits_recieved_overall : ℕ
  pub bits_recieved_current_second : ℕ
  pub bits_sent_current_second : ℕ
  pub bits_recieved_last_second : ℕ
  pub bits_sent_last_second : ℕ
  pub max_sent_throughput : ℕ
  pub max_recieve_throughput : ℕ
  pub operating_seconds : ℕ

abbrev pub start : Statistics
start = record {
  running = true;
  tun_packets_recieved = 0;
  tun_packets_sent = 0;
  udp_packets_recieved = 0;
  udp_packets_sent = 0;
  bits_sent_overall = 0;
  bits_recieved_overall = 0;
  bits_recieved_current_second = 0;
  bits_sent_current_second = 0;
  bits_recieved_last_second = 0;
  bits_sent_last_second = 0;
  max_sent_throughput = 0;
  max_recieve_throughput = 0;
  operating_seconds = 0;
}

-- The sum of two values of an `int` that are not negative.
abbrev pub add_int : ℕ → ℕ → Option ℕ
add_int a b = if ltb (a + b) (2 ^ 31) then some (a + b) else none

pub shutdown : Statistics → Statistics
shutdown s = record s { running = false }

unfoldable pub tun_packet_sent : Statistics → Statistics
tun_packet_sent s = record s { tun_packets_sent = suc s.tun_packets_sent }

unfoldable pub tun_packet_recieved : Statistics → Statistics
tun_packet_recieved s = record s { tun_packets_recieved = suc s.tun_packets_recieved }

-- The end of `udpPacketSent` and `udpPacketRecieved`: what was read of the counter, and the bytes.
unfoldable pub store_sent : ℕ → ℕ → Statistics → Option Statistics
store_sent read bits s = do
  n ← add_int read bits
  some (record s { bits_sent_current_second = n; udp_packets_sent = suc s.udp_packets_sent })

unfoldable pub store_recieved : ℕ → ℕ → Statistics → Option Statistics
store_recieved read bits s = do
  n ← add_int read bits
  some (record s {
    bits_recieved_current_second = n;
    udp_packets_recieved = suc s.udp_packets_recieved;
  })

-- The two methods with no statement of the thread between their reading and their writing.
unfoldable pub udp_packet_sent : ℕ → Statistics → Option Statistics
unfolding store_sent
udp_packet_sent bits s = store_sent s.bits_sent_current_second bits s

unfoldable pub udp_packet_recieved : ℕ → Statistics → Option Statistics
unfolding store_recieved
udp_packet_recieved bits s = store_recieved s.bits_recieved_current_second bits s

-- The statements of a round of `calculateStats`, which takes no lock.
pub data Statement : Type 0 where
  keep_recieved : Statement
  keep_sent : Statement
  reset_recieved : Statement
  reset_sent : Statement
  add_recieved : Statement
  add_sent : Statement
  most_recieved : Statement
  most_sent : Statement
  count_second : Statement

abbrev pub next : Statement → Statement
next keep_recieved = keep_sent
next keep_sent = reset_recieved
next reset_recieved = reset_sent
next reset_sent = add_recieved
next add_recieved = add_sent
next add_sent = most_recieved
next most_recieved = most_sent
next most_sent = count_second
next count_second = keep_recieved

pub statement : Statement → Statistics → Option Statistics
statement keep_recieved s =
    some (record s { bits_recieved_last_second = s.bits_recieved_current_second })
statement keep_sent s = some (record s { bits_sent_last_second = s.bits_sent_current_second })
statement reset_recieved s = some (record s { bits_recieved_current_second = 0 })
statement reset_sent s = some (record s { bits_sent_current_second = 0 })
statement add_recieved s =
    some
      (record s { bits_recieved_overall = s.bits_recieved_overall + s.bits_recieved_last_second })
statement add_sent s =
    some (record s { bits_sent_overall = s.bits_sent_overall + s.bits_sent_last_second })
statement most_recieved s = some (record s {
  max_recieve_throughput =
      if ltb s.max_recieve_throughput s.bits_recieved_last_second
      then s.bits_recieved_last_second
      else s.max_recieve_throughput;
})
statement most_sent s = some (record s {
  max_sent_throughput =
      if ltb s.max_sent_throughput s.bits_sent_last_second
      then s.bits_sent_last_second
      else s.max_sent_throughput;
})
statement count_second s = do
  n ← add_int s.operating_seconds 1
  some (record s { operating_seconds = n })

-- The counters, and the statement that the thread is at.
pub record Counting : Type 0 where
  pub stats : Statistics
  pub at : Statement

pub tick : Counting → Option Counting
unfolding statement
tick c = do s ← statement c.at c.stats; some (record { stats = s; at = next c.at })

pub ticks : ℕ → Counting → Option Counting
unfolding tick
ticks zero c = some c
ticks (suc k) c = do c' ← tick c; ticks k c'

-- A round of `calculateStats` that no worker interrupts.
pub calculate_stats : Statistics → Option Statistics
unfolding ticks
calculate_stats s = do c ← ticks 9 (record { stats = s; at = keep_recieved }); some c.stats

-- What the workers and the thread do. A worker holds the lock while it counts a packet, so no other one counts
-- then; the thread may run any number of statements between its reading and its writing of the counter.
pub data Event : Type 0 where
  tun_sent : Event
  tun_recieved : Event
  udp_sent : ℕ → ℕ → Event
  udp_recieved : ℕ → ℕ → Event
  thread : Event

pub event : Event → Counting → Option Counting
unfolding tun_packet_sent tun_packet_recieved store_sent store_recieved ticks
event tun_sent c = some (record c { stats = tun_packet_sent c.stats })
event tun_recieved c = some (record c { stats = tun_packet_recieved c.stats })
event (udp_sent n k) c = do
  c' ← ticks k c
  s ← store_sent c.stats.bits_sent_current_second n c'.stats
  some (record c' { stats = s })
event (udp_recieved n k) c = do
  c' ← ticks k c
  s ← store_recieved c.stats.bits_recieved_current_second n c'.stats
  some (record c' { stats = s })
event thread c = tick c

pub events : List Event → Counting → Option Counting
unfolding event
events [] c = some c
events (e ∷ es) c = do c' ← event e c; events es c'
