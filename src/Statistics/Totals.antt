-- ===== src/Statistics/Totals.antt =====
-- The counters against sums over all events.
use treiber.Base.{
  ℕ, suc, ◌+◌, ◌≡◌, refl, sym, ap, ◌∙◌, Bool, true, false, ◌&&◌, some, List, [], ◌∷◌, arith,
  bind_some,
}
use treiber.Statistics.Thread.{held, kept, after, outside, tick-Continues, ticks-Continues}
use mathlib.Core.Option.{some-injective}
use mathlib.Core.Bool.{false≢true}
use mathlib.Core.Path.{subst}
use treiber.Statistics.{
  Statistics, start, add_int, Statement, keep_recieved, keep_sent, reset_recieved, reset_sent,
  add_recieved, add_sent, most_recieved, most_sent, count_second, next, Counting, Event, tun_sent,
  tun_recieved, udp_sent, udp_recieved, thread, event, events, ticks, tun_packet_sent,
  tun_packet_recieved, store_sent, store_recieved,
}

-- The bytes that were sent, and the number of the packets.
pub sum_sent : List Event → ℕ
sum_sent [] = 0
sum_sent (tun_sent ∷ es) = sum_sent es
sum_sent (tun_recieved ∷ es) = sum_sent es
sum_sent (udp_sent n k ∷ es) = n + sum_sent es
sum_sent (udp_recieved n k ∷ es) = sum_sent es
sum_sent (thread ∷ es) = sum_sent es

pub count_sent : List Event → ℕ
count_sent [] = 0
count_sent (tun_sent ∷ es) = count_sent es
count_sent (tun_recieved ∷ es) = count_sent es
count_sent (udp_sent n k ∷ es) = suc (count_sent es)
count_sent (udp_recieved n k ∷ es) = count_sent es
count_sent (thread ∷ es) = count_sent es

-- Whether no worker counts a packet that is sent while the thread has kept the bytes and not yet reset
-- them, and the thread does not come to this while a worker counts one.
unfoldable pub apart : Statement → List Event → Bool
unfolding after outside
apart i [] = true
apart i (tun_sent ∷ es) = apart i es
apart i (tun_recieved ∷ es) = apart i es
apart i (udp_sent n k ∷ es) = outside k i && apart (after k i) es
apart i (udp_recieved n k ∷ es) = apart (after k i) es
apart i (thread ∷ es) = apart (next i) es

add_int_value : (a b c : ℕ) → add_int a b ≡ some c → c ≡ a + b
add_int_value a b c h = ground (arith, h)

-- Outside, what the counters hold grows with the counter.
held-grows :
    (i : Statement) (s : Statistics) (m n : ℕ)
    → kept i ≡ false
    → m ≡ s.bits_sent_current_second + n
    → held i (record s { bits_sent_current_second = m; udp_packets_sent = suc s.udp_packets_sent })
      ≡ held i s + n
held-grows keep_recieved s m n o e = omega (arith, e)
held-grows keep_sent s m n o e = omega (arith, e)
held-grows reset_recieved s m n o e = absurd (false≢true (sym o))
held-grows reset_sent s m n o e = absurd (false≢true (sym o))
held-grows add_recieved s m n o e = omega (arith, e)
held-grows add_sent s m n o e = omega (arith, e)
held-grows most_recieved s m n o e = omega (arith, e)
held-grows most_sent s m n o e = omega (arith, e)
held-grows count_second s m n o e = omega (arith, e)

held-recieved :
    (i : Statement) (s : Statistics) (m n : ℕ)
    → held i (record s { bits_recieved_current_second = m; udp_packets_recieved = n }) ≡ held i s
held-recieved keep_recieved s m n = refl
held-recieved keep_sent s m n = refl
held-recieved reset_recieved s m n = refl
held-recieved reset_sent s m n = refl
held-recieved add_recieved s m n = refl
held-recieved add_sent s m n = refl
held-recieved most_recieved s m n = refl
held-recieved most_sent s m n = refl
held-recieved count_second s m n = refl

held-tun :
    (i : Statement) (s : Statistics)
    → (held i (tun_packet_sent s) ≡ held i s) × (held i (tun_packet_recieved s) ≡ held i s)
unfolding tun_packet_sent tun_packet_recieved
held-tun keep_recieved s = (refl, refl)
held-tun keep_sent s = (refl, refl)
held-tun reset_recieved s = (refl, refl)
held-tun reset_sent s = (refl, refl)
held-tun add_recieved s = (refl, refl)
held-tun add_sent s = (refl, refl)
held-tun most_recieved s = (refl, refl)
held-tun most_sent s = (refl, refl)
held-tun count_second s = (refl, refl)

-- What an event does to what the counters hold.
record Counts (bytes packets : ℕ) (i : Statement) (c c' : Counting) : Type 0 where
  reached : c'.at ≡ i
  bytes_held : held c'.at c'.stats ≡ held c.at c.stats + bytes
  packets_counted : c'.stats.udp_packets_sent ≡ c.stats.udp_packets_sent + packets

sent-Counts :
    (n k : ℕ) (c c' : Counting)
    → event (udp_sent n k) c ≡ some c'
    → outside k c.at ≡ true
    → Counts n 1 (after k c.at) c c'
unfolding event store_sent
sent-Counts n k c c' h o =
    let (d, e, g) = bind_some (ticks k c) _ c' h in
    let (s, f, g') = bind_some (store_sent c.stats.bits_sent_current_second n d.stats) _ c' g in
    let (m, a, b) = bind_some (add_int c.stats.bits_sent_current_second n) _ s f in
    let t = ticks-Continues k c d e in
    let (same, out) = t.current o in
    let v : m ≡ d.stats.bits_sent_current_second + n =
      add_int_value c.stats.bits_sent_current_second n m a ∙ ap (λ x. x + n) (sym same) in
    subst (Counts n 1 (after k c.at) c) (some-injective _ c' g') (
      subst (λ x. Counts n 1 (after k c.at) c (record d { stats = x })) (some-injective _ s b)
        (record {
          reached = t.reached;
          bytes_held = held-grows d.at d.stats m n out v ∙ ap (λ x. x + n) t.same;
          packets_counted = omega (arith, t.packets);
        }))

recieved-Counts :
    (n k : ℕ) (c c' : Counting)
    → event (udp_recieved n k) c ≡ some c'
    → Counts 0 0 (after k c.at) c c'
unfolding event store_recieved
recieved-Counts n k c c' h =
    let (d, e, g) = bind_some (ticks k c) _ c' h in
    let (s, f, g') =
      bind_some (store_recieved c.stats.bits_recieved_current_second n d.stats) _ c' g in
    let (m, a, b) = bind_some (add_int c.stats.bits_recieved_current_second n) _ s f in
    let t = ticks-Continues k c d e in
    let p = held-recieved d.at d.stats m (suc d.stats.udp_packets_recieved) in
    subst (Counts 0 0 (after k c.at) c) (some-injective _ c' g') (
      subst (λ x. Counts 0 0 (after k c.at) c (record d { stats = x })) (some-injective _ s b)
        (record {
          reached = t.reached;
          bytes_held = omega (arith, p, t.same);
          packets_counted = omega (arith, t.packets);
        }))

tun-Counts :
    (e : Statistics → Statistics) (c c' : Counting)
    → held c.at (e c.stats) ≡ held c.at c.stats
    → (e c.stats).udp_packets_sent ≡ c.stats.udp_packets_sent
    → some (record c { stats = e c.stats }) ≡ some c'
    → Counts 0 0 c.at c c'
tun-Counts e c c' b p h =
    subst (Counts 0 0 c.at c) (some-injective _ c' h)
      (record { reached = refl; bytes_held = omega (arith, b); packets_counted = omega (arith, p) })

thread-Counts : (c c' : Counting) → event thread c ≡ some c' → Counts 0 0 (next c.at) c c'
unfolding event
thread-Counts c c' h =
    let (t, reached) = tick-Continues c c' h in
    let e = ap (λ i. held i c'.stats) reached ∙ t.same in
    record {
      reached = reached;
      bytes_held = omega (arith, e);
      packets_counted = omega (arith, t.packets);
    }

-- An event and then others.
followed :
    (n p m q all count : ℕ) (i : Statement) (c d c' : Counting)
    → n + m ≡ all
    → p + q ≡ count
    → Counts n p i c d
    → (held c'.at c'.stats ≡ held d.at d.stats + m)
      × (c'.stats.udp_packets_sent ≡ d.stats.udp_packets_sent + q)
    → (held c'.at c'.stats ≡ held c.at c.stats + all)
      × (c'.stats.udp_packets_sent ≡ c.stats.udp_packets_sent + count)
followed n p m q all count i c d c' e f s (a, b) =
    (omega (arith, s.bytes_held, a, e), omega (arith, s.packets_counted, b, f))

at_reached : (i j : Statement) (es : List Event) → j ≡ i → apart i es ≡ true → apart j es ≡ true
at_reached i j es e h = ap (λ k. apart k es) e ∙ h

counted :
    (es : List Event) (c c' : Counting)
    → events es c ≡ some c'
    → apart c.at es ≡ true
    → (held c'.at c'.stats ≡ held c.at c.stats + sum_sent es)
      × (c'.stats.udp_packets_sent ≡ c.stats.udp_packets_sent + count_sent es)
unfolding events sum_sent count_sent apart
counted [] c c' h o =
    subst
      (λ (x : Counting).
        (held x.at x.stats ≡ held c.at c.stats + 0)
        × (x.stats.udp_packets_sent ≡ c.stats.udp_packets_sent + 0))
      (some-injective _ c' h) (omega arith, omega arith)
counted (tun_sent ∷ es) c c' h o =
    let (d, e, g) = bind_some (event tun_sent c) (events es) c' h in
    let s : Counts 0 0 c.at c d =
      unfold event tun_packet_sent in
      tun-Counts tun_packet_sent c d (held-tun c.at c.stats).0 refl e in
    followed 0 0 (sum_sent es) (count_sent es) (sum_sent es) (count_sent es) c.at c d c'
      (omega arith) (omega arith) s (counted es d c' g (at_reached c.at d.at es s.reached o))
counted (tun_recieved ∷ es) c c' h o =
    let (d, e, g) = bind_some (event tun_recieved c) (events es) c' h in
    let s : Counts 0 0 c.at c d =
      unfold event tun_packet_recieved in
      tun-Counts tun_packet_recieved c d (held-tun c.at c.stats).1 refl e in
    followed 0 0 (sum_sent es) (count_sent es) (sum_sent es) (count_sent es) c.at c d c'
      (omega arith) (omega arith) s (counted es d c' g (at_reached c.at d.at es s.reached o))
counted (udp_sent n k ∷ es) c c' h o =
    let (d, e, g) = bind_some (event (udp_sent n k) c) (events es) c' h in
    let s = sent-Counts n k c d e (ground (arith, o)) in
    followed n 1 (sum_sent es) (count_sent es) (n + sum_sent es) (suc (count_sent es))
      (after k c.at) c d c' (omega arith) (omega arith) s
      (counted es d c' g (at_reached (after k c.at) d.at es s.reached (ground (arith, o))))
counted (udp_recieved n k ∷ es) c c' h o =
    let (d, e, g) = bind_some (event (udp_recieved n k) c) (events es) c' h in
    let s = recieved-Counts n k c d e in
    followed 0 0 (sum_sent es) (count_sent es) (sum_sent es) (count_sent es) (after k c.at) c d c'
      (omega arith) (omega arith) s
      (counted es d c' g (at_reached (after k c.at) d.at es s.reached o))
counted (thread ∷ es) c c' h o =
    let (d, e, g) = bind_some (event thread c) (events es) c' h in
    let s = thread-Counts c d e in
    followed 0 0 (sum_sent es) (count_sent es) (sum_sent es) (count_sent es) (next c.at) c d c'
      (omega arith) (omega arith) s (counted es d c' g (at_reached (next c.at) d.at es s.reached o))

-- The counters of a new driver, with the thread in front of its first round.
abbrev pub begin : Counting
begin = record { stats = start; at = keep_recieved }

-- As long as no `int` overflows, and no worker counts a sent packet while the thread, which takes no lock, has
-- kept the bytes of the second and not yet reset them: at every statement of the thread the counters
-- hold the sum of the bytes of all packets that were sent, and the packets are counted.
pub events-begin :
    (es : List Event) (c : Counting)
    → events es begin ≡ some c
    → apart keep_recieved es ≡ true
    → (held c.at c.stats ≡ sum_sent es) × (c.stats.udp_packets_sent ≡ count_sent es)
events-begin es c h o =
    let (bytes, packets) = counted es begin c h o in (omega (arith, bytes), omega (arith, packets))
