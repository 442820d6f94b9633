-- ===== src/Wintun/Fifo.antt =====
-- A ring as a queue of packets: which packets it holds, and how they lie in its bytes.
use treiber.Base.{
  ℕ, ◌+◌, ◌*◌, ◌/◌, ◌%◌, ◌≤◌, ◌<◌, ◌≡◌, ◌⊎◌, refl, ◌∙◌, List, [], ◌∷◌, ◌++◌, length, arith, All,
}
use mathlib.Core.Path.{subst}
use treiber.Wintun.{ring_capacity, max_packet_size, TunRing, load, store, load_u32}
use treiber.Wintun.Bytes.{load-store_apart, load_u32-store_apart}

-- The room of a packet of `n` bytes, with its header.
abbrev pub aligned : ℕ → ℕ
aligned n = (n + 7) / 4 * 4

unfoldable pub used : List (List ℕ) → ℕ
used [] = 0
used (c ∷ cs) = aligned (length c) + used cs

-- The packets that stand one behind the other from index `p` on, each as a whole: the bytes behind the
-- capacity belong to the last one before the end.
abbrev pub Stored : (ℕ → ℕ) → ℕ → List (List ℕ) → Type 0
Stored m p [] = Unit
Stored m p (c ∷ cs) =
    (load_u32 m p ≡ length c)
    × (load m (p + 4) (length c) ≡ c)
    × Stored m ((p + aligned (length c)) % ring_capacity) cs

-- The ring holds these packets.
pub record Holds (ring : TunRing) (cs : List (List ℕ)) : Type 0 where
  pub inside : ring.head < ring_capacity
  pub even : ring.head % 4 ≡ 0
  pub limits : used cs + 4 ≤ ring_capacity
  pub tail_at : ring.tail ≡ (ring.head + used cs) % ring_capacity
  pub sizes : All (λ c. length c ≤ max_packet_size) cs
  pub stored : Stored ring.bytes ring.head cs

pub used-even : (cs : List (List ℕ)) → used cs % 4 ≡ 0
unfolding used
used-even [] = refl
used-even (c ∷ cs) = omega (arith, used-even cs)

pub used-append :
    (cs : List (List ℕ)) (c : List ℕ) → used (cs ++ (c ∷ [])) ≡ used cs + aligned (length c)
unfolding used
used-append [] c = omega arith
used-append (d ∷ cs) c = omega (arith, used-append cs c)

pub sizes-append :
    (cs : List (List ℕ)) (c : List ℕ)
    → All (λ d. length d ≤ max_packet_size) cs
    → length c ≤ max_packet_size
    → All (λ d. length d ≤ max_packet_size) (cs ++ (c ∷ []))
sizes-append [] c h k = (k, tt)
sizes-append (d ∷ cs) c (h, hs) k = (h, sizes-append cs c hs k)

-- The room behind the packets does not meet the first one.
apart :
    (p i u k d n : ℕ)
    → p < ring_capacity
    → i ≡ (p + (aligned k + u)) % ring_capacity + d
    → aligned k + u + d + n ≤ ring_capacity
    → (p + 4 + k ≤ i) ⊎ (i + n ≤ p)
apart p i u k d n hp hi room = ground arith

-- A write behind the packets leaves them as they are.
pub Stored-store :
    (m : ℕ → ℕ) (p : ℕ) (cs : List (List ℕ)) (i d : ℕ) (xs : List ℕ)
    → p < ring_capacity
    → i ≡ (p + used cs) % ring_capacity + d
    → used cs + d + length xs ≤ ring_capacity
    → Stored m p cs
    → Stored (store m i xs) p cs
unfolding used
Stored-store m p [] i d xs hp hi room s = tt
Stored-store m p (c ∷ cs) i d xs hp hi room (size, bytes, rest) =
    let away = apart p i (used cs) (length c) d (length xs) hp hi room in
    (
      load_u32-store_apart m i xs p (ground arith) ∙ size,
      load-store_apart m i xs (p + 4) (length c) (ground arith) ∙ bytes,
      Stored-store m ((p + aligned (length c)) % ring_capacity) cs i d xs (omega arith)
          (omega arith) (omega arith) rest,
    )

-- A packet behind the others.
pub Stored-append :
    (m : ℕ → ℕ) (p : ℕ) (cs : List (List ℕ)) (c : List ℕ)
    → p < ring_capacity
    → Stored m p cs
    → load_u32 m ((p + used cs) % ring_capacity) ≡ length c
    → load m ((p + used cs) % ring_capacity + 4) (length c) ≡ c
    → Stored m p (cs ++ (c ∷ []))
unfolding used
Stored-append m p [] c hp s a b =
    let e : (p + 0) % ring_capacity ≡ p = omega arith in
    (subst (λ k. load_u32 m k ≡ length c) e a, subst (λ k. load m (k + 4) (length c) ≡ c) e b, tt)
Stored-append m p (d ∷ cs) c hp (size, bytes, rest) a b =
    let p' = (p + aligned (length d)) % ring_capacity in
    let e : (p + used (d ∷ cs)) % ring_capacity ≡ (p' + used cs) % ring_capacity = omega arith in
    (
      size,
      bytes,
      Stored-append m p' cs c (omega arith) rest (subst (λ k. load_u32 m k ≡ length c) e a)
          (subst (λ k. load m (k + 4) (length c) ≡ c) e b),
    )
