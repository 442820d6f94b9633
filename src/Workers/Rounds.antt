-- ===== src/Workers/Rounds.antt =====
-- The rounds of the workers on a queue that holds packets.
use treiber.Base.{
  ℕ, suc, ◌+◌, ◌-◌, ◌^◌, ◌≤◌, ◌<◌, ◌≡◌, refl, sym, ap, ◌∙◌, Bool, true, false, Option, some, List,
  [], ◌∷◌, ◌++◌, map, arith, length, if◌then◌else◌, ◌>>=◌, bind_some, lt→ltb, length-append,
  length-take, append-nil, append_assoc, ltb, take, drop,
}
use mathlib.Core.Option.{some-injective}
use mathlib.Core.Path.{subst}
use treiber.Workqueue.{WorkPacket, Workqueue, Pointer, got, pop_size, push_bytes}
use treiber.Workqueue.Refine.{
  Holds, pop_size_refines, push_bytes_refines, capacity-push_bytes, released-push_bytes,
}
use treiber.Statistics.{Statistics, add_int, udp_packet_recieved, tun_packet_recieved}
use treiber.Base.Int.{ℤ, pos, ◌-ℤ◌}
use treiber.Workers.{
  SendResult, Batch, send_batch, send_round, datagram, Round, receive_round, packet,
  tun_receive_round,
}
use treiber.Workers.Batches.{
  Accounts, send_batch-Accounts, NeverFails, successes, attempted, send_batch_through,
}

send_round_got :
    (rs : List SendResult) (q : Workqueue) (xs : List Pointer) (s : Statistics)
    (r : Batch × Workqueue)
    → (pop_size 3 q).0 ≡ got xs
    → send_round true rs q s ≡ some r
    → (send_batch rs xs s ≡ some r.0) × ((pop_size 3 q).1 ≡ r.1)
unfolding send_round
send_round_got rs q xs s r f e =
    let e' : (send_batch rs xs s >>= rest) ≡ some r = sym (rw (send_round, f) refl) ∙ e in
    let (c, g, i) = bind_some (send_batch rs xs s) rest r e' in
    let z = some-injective (c, (pop_size 3 q).1) r i in
    (g ∙ ap (λ x. some (x.0)) z, ap (λ x. x.1) z)
  where
    rest : Batch → Option (Batch × Workqueue)
    rest c = some (c, (pop_size 3 q).1)

-- A sending round on a queue with packets: at most the three oldest are taken, and sent in their order.
send_round-Holds :
    (rs : List SendResult) (q q' : Workqueue) (p : WorkPacket) (ps : List WorkPacket)
    (s : Statistics) (b : Batch)
    → q.released ≡ false
    → Holds q (p ∷ ps)
    → send_round true rs q s ≡ some (b, q')
    → Holds q' (drop 3 (p ∷ ps)) × Accounts rs (take 3 (p ∷ ps)) s b
send_round-Holds rs q q' p ps s b u h e =
    let (f, k) = pop_size_refines 3 u h in
    let (g, z) = send_round_got rs q (map some (take 3 (p ∷ ps))) s (b, q') f e in
    (subst (λ x. Holds x (drop 3 (p ∷ ps))) z k, send_batch-Accounts rs (take 3 (p ∷ ps)) s b g)

udp_packet_recieved_one :
    (n : ℕ) (s s' : Statistics)
    → udp_packet_recieved n s ≡ some s'
    → s'.udp_packets_recieved ≡ suc s.udp_packets_recieved
unfolding udp_packet_recieved
udp_packet_recieved_one n s s' h =
    let (m, e, k) = bind_some (add_int s.bits_recieved_current_second n) _ s' h in
    sym (ap (λ x. x.udp_packets_recieved) (some-injective _ s' k))

-- The datagram as the worker hands it on.
abbrev pub as_packet : List ℕ → WorkPacket
as_packet bs = record { packet = bs; packet_size = length bs; sent = false }

-- What the queue holds behind a packet that is handed to it: a full one drops the packet.
abbrev pub handed_on : ℕ → List WorkPacket → List ℕ → List WorkPacket
handed_on capacity ps bs = if ltb (length ps) (capacity - 1) then ps ++ (as_packet bs ∷ []) else ps

-- A datagram with bytes is handed on once, or dropped by a full queue, and counted either way.
pub receive_round-Holds :
    (running : Bool) (c : ℕ) (bs : List ℕ) (q : Workqueue) (ps : List WorkPacket) (s : Statistics)
    (r : Round)
    → Holds q ps
    → receive_round running (datagram (c ∷ bs)) q s ≡ some r
    → Holds r.queue (handed_on q.capacity ps (c ∷ bs))
      × (r.stats.udp_packets_recieved ≡ suc s.udp_packets_recieved)
unfolding receive_round
receive_round-Holds running c bs q ps s r h e =
    let (s', f, k) = bind_some (udp_packet_recieved (length (c ∷ bs)) s) _ r e in
    subst
      (λ x.
        Holds x.queue (handed_on q.capacity ps (c ∷ bs))
        × (x.stats.udp_packets_recieved ≡ suc s.udp_packets_recieved))
      (some-injective _ r k)
      (push_bytes_refines (c ∷ bs) h, udp_packet_recieved_one (length (c ∷ bs)) s s' f)

-- The packets of the tunnel that come in one after the other.
unfoldable pub tun_receive : List (List ℕ) → ℤ → Workqueue → Statistics → Workqueue × Statistics
unfolding tun_receive_round
tun_receive [] run_for q s = (q, s)
tun_receive (bs ∷ rest) run_for q s =
    let (r, run_for') = tun_receive_round (packet bs) run_for q s in
    tun_receive rest run_for' r.queue r.stats

-- Packets that come in while there is room are all in the queue, in their order, and counted.
tun_receive-Holds :
    (bss : List (List ℕ)) (run_for : ℤ) (q : Workqueue) (ps : List WorkPacket) (s : Statistics)
    → length ps + length bss < q.capacity
    → Holds q ps
    → Holds (tun_receive bss run_for q s).0 (ps ++ map as_packet bss)
      × ((tun_receive bss run_for q s).1.tun_packets_recieved ≡ s.tun_packets_recieved + length bss)
unfolding tun_receive tun_receive_round tun_packet_recieved
tun_receive-Holds [] run_for q ps s l h = (rw (append-nil ps) h, omega arith)
tun_receive-Holds (bs ∷ bss) run_for q ps s l h =
    let q₁ = push_bytes bs (length bs) q in
    let x = as_packet bs in
    let room : ltb (length ps) (q.capacity - 1) ≡ true =
      lt→ltb (length ps) (q.capacity - 1) (omega (arith, l)) in
    let k : Holds q₁ (ps ++ (x ∷ [])) =
      subst (λ b. Holds q₁ (if b then ps ++ (x ∷ []) else ps)) room (push_bytes_refines bs h) in
    let c = capacity-push_bytes bs (length bs) q in
    let n = length-append {A = WorkPacket} ps (x ∷ []) in
    let r =
      tun_receive-Holds bss (run_for -ℤ pos 1) q₁ (ps ++ (x ∷ [])) (tun_packet_recieved s)
        (omega (arith, l, c, n)) k in
    (
      subst (Holds (tun_receive bss (run_for -ℤ pos 1) q₁ (tun_packet_recieved s)).0)
          (append_assoc ps (x ∷ []) (map as_packet bss)) r.0,
      omega (arith, r.1),
    )

released-tun_receive :
    (bss : List (List ℕ)) (run_for : ℤ) (q : Workqueue) (s : Statistics)
    → (tun_receive bss run_for q s).0.released ≡ q.released
unfolding tun_receive tun_receive_round
released-tun_receive [] run_for q s = refl
released-tun_receive (bs ∷ bss) run_for q s =
    released-tun_receive bss (run_for -ℤ pos 1) (push_bytes bs (length bs) q)
      (tun_packet_recieved s)
    ∙ released-push_bytes bs (length bs) q

send_round_takes :
    (rs : List SendResult) (q : Workqueue) (xs : List Pointer) (s : Statistics) (b : Batch)
    → (pop_size 3 q).0 ≡ got xs
    → send_batch rs xs s ≡ some b
    → send_round true rs q s ≡ some (b, (pop_size 3 q).1)
unfolding send_round
send_round_takes rs q xs s b f g = rw (send_round, f, g) refl

-- From the tunnel to the socket: of the packets that the tunnel gives to an open empty queue that has room
-- for all of them, a sending round transmits the first three, in their order and unchanged, and the queue
-- holds the others. The socket may answer any number of times that it would block, but gives no other
-- error and takes at least three packets, and the bytes of all attempts can be counted in the current
-- second without an overflow.
pub tun_receive-send_round :
    (bs : List ℕ) (bss : List (List ℕ)) (run_for : ℤ) (q : Workqueue) (s s' : Statistics)
    (rs : List SendResult)
    → suc (length bss) < q.capacity
    → q.released ≡ false
    → Holds q []
    → NeverFails rs
    → 3 ≤ successes rs
    → s'.bits_sent_current_second + attempted rs (take 3 (map as_packet (bs ∷ bss))) < 2 ^ 31
    → (b : Batch) × (q' : Workqueue) × (send_round true rs (tun_receive (bs ∷ bss) run_for q s).0 s'
        ≡ some (b, q'))
      × (b.transmitted ≡ take 3 (map as_packet (bs ∷ bss)))
      × Holds q' (drop 3 (map as_packet (bs ∷ bss)))
tun_receive-send_round bs bss run_for q s s' rs l u h n k small =
    let q₁ = (tun_receive (bs ∷ bss) run_for q s).0 in
    let ps = map as_packet (bs ∷ bss) in
    let held = (tun_receive-Holds (bs ∷ bss) run_for q [] s (omega (arith, l)) h).0 in
    let open' = released-tun_receive (bs ∷ bss) run_for q s ∙ u in
    let (f, kept) = pop_size_refines 3 open' held in
    let (b, g, done, all) =
      send_batch_through rs (take 3 ps) s' n (omega (arith, length-take {A = WorkPacket} 3 ps, k))
        small in
    (b, (pop_size 3 q₁).1, send_round_takes rs q₁ (map some (take 3 ps)) s' b f g, all, kept)
