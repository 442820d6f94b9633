-- ===== src/Wintun/Tests.antt =====
-- Rings at concrete inputs.
use treiber.Base.{
  ℕ, not, false, ◌==◌, ◌≡◌, refl, some, List, [], ◌∷◌, replicate, arith, if◌then◌else◌, true,
}
use treiber.Base.Int.{pos}
use treiber.Buffer.Rep.{rep}
use treiber.Wintun.{TunRing, load, store, bytes_u32, read_wintun, write_wintun}
use treiber.Wintun.Fifo.{used, Holds}
use treiber.Wintun.Reads.{received, read_wintun_refines}
use treiber.Wintun.Writes.{offered, write_wintun_refines}

-- The smallest IPv4 header, behind its first byte.
abbrev header : List ℕ
header = replicate 19 7

abbrev packet : List ℕ
packet = 0x45 ∷ header

-- A ring with one packet, which begins four bytes before the capacity and ends in the bytes behind it.
abbrev one_left : TunRing
one_left = record {
  head = 0x7f_fffc;
  tail = 20;
  alertable = 1;
  bytes = store (store (λ i. 0) 0x7f_fffc (bytes_u32 20)) 0x80_0000 packet;
}

one_left-Holds : Holds one_left (packet ∷ [])
unfolding used load store
one_left-Holds = record {
  inside = omega arith;
  even = refl;
  limits = omega arith;
  tail_at = refl;
  sizes = (omega arith, tt);
  stored = (refl, refl, tt);
}

abbrev room : List ℕ
room = replicate 32 0

read_wintun_refines_example :
    (ring' : TunRing) × (read_wintun one_left (rep [] [] room)
      ≡ some (received [] room (packet ∷ []), ring'))
    × Holds ring' []
read_wintun_refines_example =
    read_wintun_refines one_left [] room (packet ∷ []) one_left-Holds (omega arith)

write_wintun_refines_example :
    (ring' : TunRing) × (write_wintun one_left (rep [] packet room)
      ≡ some (
          if offered (packet ∷ []) 0x45 header
          then (pos 20, ring', not (one_left.alertable == 0))
          else (pos 0, one_left, false)))
    × Holds ring' (if offered (packet ∷ []) 0x45 header then packet ∷ packet ∷ [] else packet ∷ [])
write_wintun_refines_example =
    write_wintun_refines one_left (packet ∷ []) [] room 0x45 header one_left-Holds (omega arith)

packet_accepted : offered (packet ∷ []) 0x45 header ≡ true
unfolding offered used
packet_accepted = refl
