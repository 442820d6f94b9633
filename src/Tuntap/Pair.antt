-- ===== src/Tuntap/Pair.antt =====
-- The two addresses of a tunnel between two points.
use treiber.Base.{
  ℕ, ◌+◌, ◌%◌, ◌-◌, ◌^◌, ◌≡◌, Bool, true, false, ◌&&◌, ◌||◌, Option, none, some, List, [], ◌∷◌,
  ◌++◌, ◌==◌, if◌then◌else◌, arith, Bool-cases, inl, inr,
}
use treiber.Tuntap.{
  dev_tun, Topology, Warning, Tuntap, AddrInfo, is_subnet, ifconfig_sanity_check, check_addrs,
  verify_255_255_255_252, setup_ipv6, cleared, init_tun,
}

-- The first address and the second one between the ends of a block of four, in either order.
abbrev pub paired : ℕ → ℕ → Bool
paired a b = (a % 4 == 1 && b == a + 1) || (b % 4 == 1 && a == b + 1)

verify_lem : (a b : ℕ) → verify_255_255_255_252 a b ≡ paired a b
unfolding verify_255_255_255_252
verify_lem a b = ground arith

-- A tunnel that is set up with these addresses.
pub configured : Topology → ℕ → ℕ → Tuntap
configured topology a b = record (cleared dev_tun topology) {
  local_address = a;
  remote_netmask = b;
  adapter_netmask = 2 ^ 32 - 4;
  did_ifconfig_setup = true;
}

-- The warnings, where they are asked for.
pub warned : Topology → List AddrInfo → List AddrInfo → Bool → ℕ → ℕ → List Warning
unfolding ifconfig_sanity_check check_addrs
warned topology ls rs strict_warn a b =
    if strict_warn
    then ifconfig_sanity_check true b topology
      ++ check_addrs "local" ls dev_tun a b
      ++ check_addrs "remote" rs dev_tun a b
    else []

-- A tun device whose topology is not a subnet, with addresses that are found: `init_tun` sets it up exactly
-- where the two are those between the ends of one block of four, in either order, and ends the
-- process otherwise. The warnings do not change that.
pub init_tun_lem :
    (getaddr : Bool → List ℕ → Option ℕ) (inet_pton : List ℕ → Option ℕ) (topology : Topology)
    (dev l r : List ℕ) (ls rs : List AddrInfo) (strict_warn : Bool) (netbits a b : ℕ)
    → is_subnet topology ≡ false
    → getaddr true l ≡ some a
    → getaddr true r ≡ some b
    → init_tun getaddr inet_pton
        (some dev)
        (some (b't' ∷ b'u' ∷ b'n' ∷ []))
        topology
        (some l)
        (some r)
        none
        netbits
        none
        ls
        rs
        strict_warn
      ≡ (if paired a b
          then some (configured topology a b, warned topology ls rs strict_warn a b)
          else none)
unfolding init_tun configured warned setup_ipv6
init_tun_lem getaddr inet_pton topology dev l r ls rs strict_warn netbits a b h ha hb =
    rw (h, ha, hb, verify_lem a b)
      (elim (Bool-cases (paired a b)) [ inl yes' ↦ rw yes' | inr no' ↦ rw no' ])
