-- ===== src/Workers/Batches.antt =====
-- What becomes of the packets that a worker has taken from its queue.
use treiber.Base.{
  ℕ, suc, ◌+◌, ◌^◌, ◌≤◌, ◌<◌, ◌≡◌, refl, sym, ap, Bool, true, false, some, List, [], ◌∷◌, ◌++◌, map,
  arith, length, bind_some,
}
use mathlib.Core.Option.{some-injective}
use mathlib.Core.Bool.{false≢true}
use mathlib.Core.Path.{subst}
use treiber.Workqueue.{WorkPacket}
use treiber.Statistics.{Statistics, add_int, udp_packet_sent}
use treiber.Workers.{
  SendResult, sent, would_block, send_failed, Ending, through, blocked, stopped, returned, Batch,
  send_batch,
}

-- A worker that counts a packet counts one packet.
udp_packet_sent_one :
    (n : ℕ) (s s' : Statistics)
    → udp_packet_sent n s ≡ some s'
    → s'.udp_packets_sent ≡ suc s.udp_packets_sent
unfolding udp_packet_sent
udp_packet_sent_one n s s' h =
    let (m, e, k) = bind_some (add_int s.bits_sent_current_second n) _ s' h in
    sym (ap (λ x. x.udp_packets_sent) (some-injective _ s' k))

is_through : Ending → Bool
is_through through = true
is_through blocked = false
is_through stopped = false
is_through (returned n) = false

-- What holds of the batch of the packets `ps`, with the answers `rs`.
pub record Accounts (rs : List SendResult) (ps : List WorkPacket) (s : Statistics) (b : Batch)
    : Type 0 where
  -- The packets that were sent and those that are left are the packets, in their order.
  pub order : map some b.transmitted ++ b.left ≡ map some ps
  -- Nothing is left at the end.
  pub finished : b.ending ≡ through → b.left ≡ []
  -- Each answer of the system is an attempt, and is counted.
  pub attempts : b.stats.udp_packets_sent + length b.answers ≡ s.udp_packets_sent + length rs

-- Whatever the system answers, the packets of a batch are sent in their order and each at most once; all of
-- them where the loop gets through. The counter of packets counts the attempts.
pub send_batch-Accounts :
    (rs : List SendResult) (ps : List WorkPacket) (s : Statistics) (b : Batch)
    → send_batch rs (map some ps) s ≡ some b
    → Accounts rs ps s b
unfolding send_batch is_through
send_batch-Accounts rs [] s b h =
    subst (Accounts rs [] s) (some-injective _ b h)
      (record { order = refl; finished = λ _. refl; attempts = refl })
send_batch-Accounts [] (p ∷ ps) s b h =
    subst (Accounts [] (p ∷ ps) s) (some-injective _ b h) (record {
      order = refl;
      finished = λ e. absurd (false≢true (ap is_through e));
      attempts = refl;
    })
send_batch-Accounts (sent ∷ rs) (p ∷ ps) s b h =
    let (s', e, k) = bind_some (udp_packet_sent p.packet_size s) _ b h in
    let (c, f, g) = bind_some (send_batch rs (map some ps) s') _ b k in
    let r = send_batch-Accounts rs ps s' c f in
    let n = udp_packet_sent_one p.packet_size s s' e in
    subst (Accounts (sent ∷ rs) (p ∷ ps) s) (some-injective _ b g) (record {
      order = ap (λ xs. some p ∷ xs) r.order;
      finished = r.finished;
      attempts = omega (arith, r.attempts, n);
    })
send_batch-Accounts (would_block ∷ rs) (p ∷ ps) s b h =
    let (s', e, k) = bind_some (udp_packet_sent p.packet_size s) _ b h in
    let r = send_batch-Accounts rs (p ∷ ps) s' b k in
    let n = udp_packet_sent_one p.packet_size s s' e in
    record { order = r.order; finished = r.finished; attempts = omega (arith, r.attempts, n) }
send_batch-Accounts (send_failed ∷ rs) (p ∷ ps) s b h =
    let (s', e, k) = bind_some (udp_packet_sent p.packet_size s) _ b h in
    let n = udp_packet_sent_one p.packet_size s s' e in
    subst (Accounts (send_failed ∷ rs) (p ∷ ps) s) (some-injective _ b k) (record {
      order = refl;
      finished = λ e. absurd (false≢true (ap is_through e));
      attempts = omega (arith, n);
    })

-- The answers that take a packet.
unfoldable pub successes : List SendResult → ℕ
successes [] = 0
successes (sent ∷ rs) = suc (successes rs)
successes (would_block ∷ rs) = successes rs
successes (send_failed ∷ rs) = successes rs

unfoldable pub NeverFails : List SendResult → Type 0
NeverFails [] = Unit
NeverFails (sent ∷ rs) = NeverFails rs
NeverFails (would_block ∷ rs) = NeverFails rs
NeverFails (send_failed ∷ rs) = ⊥

-- The bytes that are passed to `sendto`, those of a packet once for each attempt.
unfoldable pub attempted : List SendResult → List WorkPacket → ℕ
attempted rs [] = 0
attempted [] (p ∷ ps) = 0
attempted (sent ∷ rs) (p ∷ ps) = p.packet_size + attempted rs ps
attempted (would_block ∷ rs) (p ∷ ps) = p.packet_size + attempted rs (p ∷ ps)
attempted (send_failed ∷ rs) (p ∷ ps) = p.packet_size

counts :
    (n : ℕ) (s : Statistics)
    → s.bits_sent_current_second + n < 2 ^ 31
    → udp_packet_sent n s
      ≡ some (record s {
        bits_sent_current_second = s.bits_sent_current_second + n;
        udp_packets_sent = suc s.udp_packets_sent;
      })
unfolding udp_packet_sent
counts n s h = ground (arith, h)

-- If no error occurs but that the socket would block, the answers take at least as many packets as there are,
-- and the bytes of all attempts can be counted in the current second without an overflow, the loop gets
-- through and has sent all packets in their order.
pub send_batch_through :
    (rs : List SendResult) (ps : List WorkPacket) (s : Statistics)
    → NeverFails rs
    → length ps ≤ successes rs
    → s.bits_sent_current_second + attempted rs ps < 2 ^ 31
    → (b : Batch) × (send_batch rs (map some ps) s ≡ some b)
      × (b.ending ≡ through)
      × (b.transmitted ≡ ps)
unfolding send_batch successes NeverFails attempted
send_batch_through rs [] s n l h = (
  record { transmitted = []; left = []; answers = rs; stats = s; ending = through },
  refl,
  refl,
  refl,
)
send_batch_through [] (p ∷ ps) s n l h = absurd (omega (arith, l))
send_batch_through (sent ∷ rs) (p ∷ ps) s n l h =
    let s' : Statistics = record s {
      bits_sent_current_second = s.bits_sent_current_second + p.packet_size;
      udp_packets_sent = suc s.udp_packets_sent;
    } in
    let (c, e, through', all) =
      send_batch_through rs ps s' n (omega (arith, l)) (omega (arith, h)) in
    (
      record c { transmitted = p ∷ c.transmitted },
      rw (counts p.packet_size s (omega (arith, h)), e) refl,
      through',
      ap (λ xs. p ∷ xs) all,
    )
send_batch_through (would_block ∷ rs) (p ∷ ps) s n l h =
    let s' : Statistics = record s {
      bits_sent_current_second = s.bits_sent_current_second + p.packet_size;
      udp_packets_sent = suc s.udp_packets_sent;
    } in
    let (c, e, through', all) =
      send_batch_through rs (p ∷ ps) s' n (omega (arith, l)) (omega (arith, h)) in
    (c, rw (counts p.packet_size s (omega (arith, h))) e, through', all)
send_batch_through (send_failed ∷ rs) (p ∷ ps) s n l h = absurd n
