-- ===== src/Tuntap/Tests.antt =====
-- Tunnels at concrete inputs: the one that `main` sets up, and one whose addresses do not fit.
use treiber.Base.{ℕ, ◌≡◌, refl, Bool, true, false, Option, none, some, List, [], ◌∷◌, if◌then◌else◌}
use treiber.Adapters.{same_text}
use treiber.Tuntap.{
  top_p2p, dev_tun, AddrInfo, in_pair, near_pair, check_addr_clash, verify_255_255_255_252,
  init_tun,
}
use treiber.Tuntap.Pair.{paired, configured, warned, init_tun_lem}

-- "127.0.0.1" and "127.0.0.2"
abbrev address : ℕ → List ℕ
address c = b'1' ∷ b'2' ∷ b'7' ∷ b'.' ∷ b'0' ∷ b'.' ∷ b'0' ∷ b'.' ∷ c ∷ []

abbrev lookup : Bool → List ℕ → Option ℕ
unfolding same_text
lookup resolve s =
    if same_text s (address b'1')
    then some 0x7f00_0001
    else if same_text s (address b'2')
    then some 0x7f00_0002
    else none

abbrev no_ipv6 : List ℕ → Option ℕ
no_ipv6 s = none

-- "tun"
abbrev tun : List ℕ
tun = b't' ∷ b'u' ∷ b'n' ∷ []

-- What `getaddrinfo` gives for "127.0.0.2", in the order of the network.
abbrev found : List AddrInfo
found = record { is_inet = true; s_addr = 0x0200_007f } ∷ []

found_first : lookup true (address b'1') ≡ some 0x7f00_0001
unfolding same_text
found_first = refl

found_second : lookup true (address b'2') ≡ some 0x7f00_0002
unfolding same_text
found_second = refl

init_tun_lem_example :
    init_tun lookup no_ipv6
      (some tun)
      (some (b't' ∷ b'u' ∷ b'n' ∷ []))
      top_p2p
      (some (address b'1'))
      (some (address b'2'))
      none
      0
      none
      found
      []
      true
    ≡ (if paired 0x7f00_0001 0x7f00_0002
        then some (
          configured top_p2p 0x7f00_0001 0x7f00_0002,
          warned top_p2p found [] true 0x7f00_0001 0x7f00_0002,
        )
        else none)
init_tun_lem_example =
    init_tun_lem lookup no_ipv6 top_p2p tun (address b'1') (address b'2') found [] true 0
      0x7f00_0001 0x7f00_0002 refl found_first found_second

-- The remote address in the order of the network is not seen to be that of the tunnel.
clash_unseen : check_addr_clash "local" dev_tun 0x0200_007f 0x7f00_0001 0x7f00_0002 ≡ []
unfolding check_addr_clash
clash_unseen = refl

clash_seen :
    check_addr_clash "local" dev_tun 0x7f00_0002 0x7f00_0001 0x7f00_0002
    ≡ in_pair "local" 0x7f00_0002 0x7f00_0001 0x7f00_0002
      ∷ near_pair "local" 0x7f00_0002 0x7f00_0001 0x7f00_0002
      ∷ []
unfolding check_addr_clash
clash_seen = refl

ends_refused : verify_255_255_255_252 0x7f00_0003 0x7f00_0002 ≡ false
unfolding verify_255_255_255_252
ends_refused = refl
