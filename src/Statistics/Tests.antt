-- ===== src/Statistics/Tests.antt =====
-- The counters at a concrete run.
use treiber.Base.{◌≡◌, refl, some, true, List, [], ◌∷◌, ◌++◌}
use treiber.Statistics.{
  start, Counting, keep_recieved, Event, udp_sent, udp_recieved, tun_sent, thread, events,
  calculate_stats,
}
use treiber.Statistics.Thread.{held}
use treiber.Statistics.Totals.{sum_sent, count_sent, apart, begin, events-begin}

abbrev round : List Event
round = thread ∷ thread ∷ thread ∷ thread ∷ thread ∷ thread ∷ thread ∷ thread ∷ thread ∷ []

-- Two seconds and a part of a third; the thread begins a round while a packet is counted.
abbrev a_run : List Event
a_run =
    udp_sent 100 0
    ∷ (round
        ++ (udp_sent 700 1
            ∷ tun_sent
            ∷ udp_sent 50 0
            ∷ thread
            ∷ thread
            ∷ thread
            ∷ udp_recieved 9 0
            ∷ thread
            ∷ thread
            ∷ thread
            ∷ thread
            ∷ thread
            ∷ udp_sent 3 0
            ∷ []))

abbrev its_end : Counting
its_end = record {
  stats = record start {
    tun_packets_sent = 1;
    udp_packets_recieved = 1;
    udp_packets_sent = 4;
    bits_sent_overall = 850;
    bits_recieved_current_second = 9;
    bits_sent_current_second = 3;
    bits_sent_last_second = 750;
    max_sent_throughput = 750;
    operating_seconds = 2;
  };
  at = keep_recieved;
}

runs : events a_run begin ≡ some its_end
unfolding events
runs = refl

keeps_apart : apart keep_recieved a_run ≡ true
unfolding apart
keeps_apart = refl

events-begin_example :
    (held its_end.at its_end.stats ≡ sum_sent a_run)
    × (its_end.stats.udp_packets_sent ≡ count_sent a_run)
events-begin_example = events-begin a_run its_end runs keeps_apart

-- A packet that is counted between the two statements is lost.
abbrev lost : Counting
lost = record {
  stats = record start { udp_packets_sent = 1; operating_seconds = 1 };
  at = keep_recieved;
}

loses :
    events
      (thread
        ∷ thread
        ∷ udp_sent 5 0
        ∷ thread
        ∷ thread
        ∷ thread
        ∷ thread
        ∷ thread
        ∷ thread
        ∷ thread
        ∷ [])
      begin
    ≡ some lost
unfolding events
loses = refl

uninterrupted :
    calculate_stats (record start { bits_sent_current_second = 7 })
    ≡ some (record start {
      bits_sent_overall = 7;
      bits_sent_last_second = 7;
      max_sent_throughput = 7;
      operating_seconds = 1;
    })
unfolding calculate_stats
uninterrupted = refl
