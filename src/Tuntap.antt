-- ===== src/Tuntap.antt =====
-- `Treiber/main.cpp`, `init_tun`, and the functions of `Treiber/lib/tun.c` under it: what a tunnel is set up
-- with, on Windows and without a set of environment variables, as `main` calls it. An `in_addr_t` is
-- a number of 32 bits, an IPv6 address one of 128 bits; `x & ~3` is written with `/`. The lookup of
-- an address, `getaddr`, and `inet_pton` are parameters. `none` is a fatal message. The members of
-- `struct tuntap` that `init_tun` leaves cleared are left out.
pub mod Pair
mod Tests
use Prim.Native.Nat.{bit_and}
use Prim.Native.String.{String}
use treiber.Base.{
  ℕ, ◌*◌, ◌/◌, ◌%◌, ◌-◌, ◌^◌, Bool, true, false, not, ◌&&◌, ◌||◌, Option, none, some, List, [], ◌∷◌,
  ◌++◌, ◌==◌, if◌then◌else◌, ◌>>=◌,
}
use treiber.Adapters.{same_text}

-- `DEV_TYPE_x` and `TOP_x`
pub data DevType : Type 0 where
  dev_undef : DevType
  dev_null : DevType
  dev_tun : DevType
  dev_tap : DevType

pub data Topology : Type 0 where
  top_undef : Topology
  top_net30 : Topology
  top_p2p : Topology
  top_subnet : Topology

-- The warnings, with the name and the addresses that each one names.
pub data Warning : Type 0 where
  is_netmask : ℕ → Warning
  no_netmask : ℕ → Warning
  in_pair : String → ℕ → ℕ → ℕ → Warning
  near_pair : String → ℕ → ℕ → ℕ → Warning
  in_subnet : String → ℕ → ℕ → ℕ → Warning

-- `struct tuntap`
pub record Tuntap : Type 0 where
  pub type : DevType
  pub topology : Topology
  pub did_ifconfig_setup : Bool
  pub did_ifconfig_ipv6_setup : Bool
  pub local_address : ℕ
  pub remote_netmask : ℕ
  pub local_ipv6 : ℕ
  pub remote_ipv6 : ℕ
  pub netbits_ipv6 : ℕ
  pub adapter_netmask : ℕ

-- An element of a list of `struct addrinfo`: whether its family is AF_INET, and its `s_addr`.
pub record AddrInfo : Type 0 where
  pub is_inet : Bool
  pub s_addr : ℕ

-- `!strncmp(str, start, strlen(start))`
starts_with : List ℕ → List ℕ → Bool
starts_with str [] = true
starts_with [] (d ∷ start) = false
starts_with (c ∷ str) (d ∷ start) = c == d && starts_with str start

-- A string that may be NULL is `none` then.
is_dev_type : Option (List ℕ) → Option (List ℕ) → List ℕ → Bool
unfolding same_text starts_with
is_dev_type none dev_type match_type = false
is_dev_type (some dev) (some dev_type) match_type = same_text dev_type match_type
is_dev_type (some dev) none match_type = starts_with dev match_type

pub dev_type_enum : Option (List ℕ) → Option (List ℕ) → DevType
unfolding is_dev_type
dev_type_enum dev dev_type =
    if is_dev_type dev dev_type (b't' ∷ b'u' ∷ b'n' ∷ [])
    then dev_tun
    else if is_dev_type dev dev_type (b't' ∷ b'a' ∷ b'p' ∷ [])
    then dev_tap
    else if is_dev_type dev dev_type (b'n' ∷ b'u' ∷ b'l' ∷ b'l' ∷ [])
    then dev_null
    else dev_undef

abbrev pub is_subnet : Topology → Bool
is_subnet top_subnet = true
is_subnet top_undef = false
is_subnet top_net30 = false
is_subnet top_p2p = false

abbrev is_point_to_point : Topology → Bool
is_point_to_point top_net30 = true
is_point_to_point top_p2p = true
is_point_to_point top_undef = false
is_point_to_point top_subnet = false

abbrev pub is_tun_p2p : DevType → Topology → Option Bool
is_tun_p2p dev_tap topology = some false
is_tun_p2p dev_null topology = some false
is_tun_p2p dev_tun topology = some (not (is_subnet topology))
is_tun_p2p dev_undef topology = none

abbrev is_tun : DevType → Bool
is_tun dev_tun = true
is_tun dev_undef = false
is_tun dev_null = false
is_tun dev_tap = false

pub ifconfig_sanity_check : Bool → ℕ → Topology → List Warning
ifconfig_sanity_check tun addr topology =
    let looks_like_netmask = addr / 2 ^ 24 == 0xff in
    if tun
    then (if looks_like_netmask && is_point_to_point topology then is_netmask addr ∷ [] else [])
    else if looks_like_netmask
    then []
    else no_netmask addr ∷ []

pub check_addr_clash : String → DevType → ℕ → ℕ → ℕ → List Warning
check_addr_clash name type public_address ours remote =
    if public_address == 0 then [] else elim type [
      | dev_tun ↦
          (if public_address == ours || public_address == remote
            then in_pair name public_address ours remote ∷ []
            else [])
          ++ (if public_address / 256 == ours / 256 || public_address / 256 == remote / 256
              then near_pair name public_address ours remote ∷ []
              else [])
      | dev_tap ↦
          if bit_and public_address remote == bit_and ours remote
          then in_subnet name public_address ours remote ∷ []
          else []
      | dev_undef ↦ []
      | dev_null ↦ []
    ]

-- The loop on a list of addresses.
pub check_addrs : String → List AddrInfo → DevType → ℕ → ℕ → List Warning
unfolding check_addr_clash
check_addrs name [] type ours remote = []
check_addrs name (curele ∷ rest) type ours remote =
    (if curele.is_inet then check_addr_clash name type curele.s_addr ours remote else [])
    ++ check_addrs name rest type ours remote

-- Whether `verify_255_255_255_252` returns.
pub verify_255_255_255_252 : ℕ → ℕ → Bool
verify_255_255_255_252 ours remote =
    if ours == remote
    then false
    else if not (ours / 4 * 4 == remote / 4 * 4)
    then false
    else not (ours % 4 == 0 || ours % 4 == 3 || remote % 4 == 0 || remote % 4 == 3)

-- `getaddr` has the flag for names that are to be resolved.
pub setup_ipv4 :
    (Bool → List ℕ → Option ℕ)
    → Tuntap
    → Option (List ℕ)
    → Option (List ℕ)
    → List AddrInfo
    → List AddrInfo
    → Bool
    → Option (Tuntap × List Warning)
unfolding ifconfig_sanity_check check_addrs verify_255_255_255_252
setup_ipv4 getaddr tt none remote_parm local_public remote_public strict_warn = some (tt, [])
setup_ipv4 getaddr tt (some l) none local_public remote_public strict_warn = some (tt, [])
setup_ipv4 getaddr tt (some l) (some r) local_public remote_public strict_warn = do
  tun ← is_tun_p2p tt.type tt.topology
  ours ← getaddr true l
  remote ← getaddr tun r
  let warnings =
      if strict_warn
      then ifconfig_sanity_check (is_tun tt.type) remote tt.topology
        ++ check_addrs "local" local_public tt.type ours remote
        ++ check_addrs "remote" remote_public tt.type ours remote
      else []
  netmask ←
      if tun
      then (if verify_255_255_255_252 ours remote then some (2 ^ 32 - 4) else none)
      else some remote
  some (
    record tt {
      local_address = ours;
      remote_netmask = remote;
      adapter_netmask = netmask;
      did_ifconfig_setup = true;
    },
    warnings,
  )

pub setup_ipv6 :
    (List ℕ → Option ℕ) → Tuntap → Option (List ℕ) → ℕ → Option (List ℕ) → Option Tuntap
setup_ipv6 inet_pton tt none netbits remote_parm = some tt
setup_ipv6 inet_pton tt (some l) netbits none = some tt
setup_ipv6 inet_pton tt (some l) netbits (some r) = do
  ours ← inet_pton l
  remote ← inet_pton r
  some (record tt {
    local_ipv6 = ours;
    remote_ipv6 = remote;
    netbits_ipv6 = netbits;
    did_ifconfig_ipv6_setup = true;
  })

-- `clear_tuntap`, and the type and topology.
pub cleared : DevType → Topology → Tuntap
cleared type topology = record {
  type = type;
  topology = topology;
  did_ifconfig_setup = false;
  did_ifconfig_ipv6_setup = false;
  local_address = 0;
  remote_netmask = 0;
  local_ipv6 = 0;
  remote_ipv6 = 0;
  netbits_ipv6 = 0;
  adapter_netmask = 0;
}

pub init_tun :
    (Bool → List ℕ → Option ℕ)
    → (List ℕ → Option ℕ)
    → Option (List ℕ)
    → Option (List ℕ)
    → Topology
    → Option (List ℕ)
    → Option (List ℕ)
    → Option (List ℕ)
    → ℕ
    → Option (List ℕ)
    → List AddrInfo
    → List AddrInfo
    → Bool
    → Option (Tuntap × List Warning)
unfolding dev_type_enum cleared setup_ipv4 setup_ipv6
init_tun getaddr inet_pton dev dev_type topology local_parm remote_parm local6 netbits6 remote6
      local_public remote_public strict_warn =
    do
      let tt = cleared (dev_type_enum dev dev_type) topology
      r ← setup_ipv4 getaddr tt local_parm remote_parm local_public remote_public strict_warn
      tt' ← setup_ipv6 inet_pton r.0 local6 netbits6 remote6
      some (tt', r.1)
