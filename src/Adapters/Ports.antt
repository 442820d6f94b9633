-- ===== src/Adapters/Ports.antt =====
-- What `generateUDPConfigs` makes: two configurations on one socket for each adapter in use, and the
-- ports that it gives them.
use treiber.Base.{
  ℕ, ◌==◌, zero, suc, ◌+◌, ◌*◌, ◌%◌, ◌^◌, ◌≤◌, ◌≡◌, refl, ap, ◌∙◌, ◌↔◌, inl, inr, false, not, ◌&&◌,
  some, List, [], ◌∷◌, arith, All, length, get_elem?, if◌then◌else◌, Bool-cases, Option-cases,
}
use treiber.AppConfig.{NsIpAddress}
use treiber.Adapters.{
  Entry, has_activated_network_adapters, Winsock, UdpWorkerConfig, Socket, unset, invalid, opened,
  closed, init_socket, address_number, sender, receiver, generate_loop, generate_udp_configs,
}

-- The addresses of the adapters in use, in their order.
unfoldable pub used_addresses : List Entry → List NsIpAddress
used_addresses [] = []
used_addresses (e ∷ es) =
    let rest = used_addresses es in if e.used then e.adapter.ip_adress ∷ rest else rest

-- Whatever Winsock answers, the call fills in the field `socket` at most.
init_socket_only :
    (w : Winsock) (c : UdpWorkerConfig) → (s : Socket) × (init_socket w c ≡ record c { socket = s })
unfolding init_socket
init_socket_only w c = elim (Bool-cases w.starts) [
  | inr e ↦ (c.socket, rw e refl)
  | inl e ↦ elim (Option-cases (w.create c.socket_ipv4_adress c.socket_port)) [
    | inl f ↦ (invalid, rw (e, f) refl)
    | inr (s, f) ↦
        elim (Bool-cases
          (w.binds s (address_number c.socket_ipv4_adress) c.socket_port && w.never_blocks s)) [
            | inl g ↦ (opened s, rw (e, f, g) refl)
            | inr g ↦ (closed s, rw (e, f, g) refl)
          ]
  ]
]

sender-port :
    (w : Winsock) (a : NsIpAddress) (port uid : ℕ)
    → (sender w a port uid).socket_port ≡ port % 2 ^ 16
unfolding sender
sender-port w a port uid =
    ap (λ c. c.socket_port)
      (init_socket_only w (record {
        socket_ipv4_adress = a;
        socket_port = port % 2 ^ 16;
        socket = unset;
        reciever = false;
        uid = uid % 256;
      })).1

receiver-port :
    (w : Winsock) (a : NsIpAddress) (port uid : ℕ)
    → (receiver w a port uid).socket_port ≡ port % 2 ^ 16
unfolding receiver
receiver-port w a port uid = refl

-- The pairs of configurations of these addresses, from this port and this number on.
pairs : Winsock → ℕ → ℕ → List NsIpAddress → List UdpWorkerConfig
pairs w port uid [] = []
pairs w port uid (a ∷ as') =
    sender w a port uid ∷ receiver w a port uid ∷ pairs w (port + 1) (uid + 2) as'

generate_loop-pairs :
    (w : Winsock) (port uid : ℕ) (es : List Entry)
    → generate_loop w port uid es ≡ pairs w port uid (used_addresses es)
unfolding generate_loop used_addresses pairs
generate_loop-pairs w port uid [] = refl
generate_loop-pairs w port uid (e ∷ es) = elim (Bool-cases e.used) [
  | inl u ↦ rw (u, generate_loop-pairs w (port + 1) (uid + 2) es) refl
  | inr u ↦ rw (u, generate_loop-pairs w port uid es) refl
]

length-pairs :
    (w : Winsock) (port uid : ℕ) (xs : List NsIpAddress)
    → length (pairs w port uid xs) ≡ 2 * length xs
unfolding pairs
length-pairs w port uid [] = refl
length-pairs w port uid (x ∷ xs) = omega (arith, length-pairs w (port + 1) (uid + 2) xs)

double_suc : (i : ℕ) → 2 * suc i ≡ suc (suc (2 * i))
double_suc i = omega arith

double_suc_succ : (i : ℕ) → suc (suc (2 * i)) + 1 ≡ suc (suc (2 * i + 1))
double_suc_succ i = omega arith

port_suc : (port i : ℕ) → port + suc i ≡ port + 1 + i
port_suc port i = omega arith

uid_suc : (uid k : ℕ) → uid + suc (suc k) ≡ uid + 2 + k
uid_suc uid k = omega arith

pairs_at :
    (w : Winsock) (port uid : ℕ) (xs : List NsIpAddress) (i : ℕ) (a : NsIpAddress)
    → get_elem? xs i ≡ some a
    → (get_elem? (pairs w port uid xs) (2 * i) ≡ some (sender w a (port + i) (uid + 2 * i)))
      × (get_elem? (pairs w port uid xs) (2 * i + 1) ≡ some (receiver w a (port + i) (uid + 2 * i)))
unfolding pairs
pairs_at w port uid [] i a h = ground (arith, h)
pairs_at w port uid (x ∷ xs) zero a h = ground (arith, h)
pairs_at w port uid (x ∷ xs) (suc i) a h =
    rw (double_suc i, double_suc_succ i, port_suc port i, uid_suc uid (2 * i))
      (pairs_at w (port + 1) (uid + 2) xs i a h)

pairs-ports_iff :
    (w : Winsock) (port uid : ℕ) (xs : List NsIpAddress)
    → 65530 ≤ port
    → port ≤ 65536
    → All (λ c. 65530 ≤ c.socket_port) (pairs w port uid xs) ↔ (port + length xs ≤ 65536)
unfolding pairs
pairs-ports_iff w port uid [] h k = ground arith
pairs-ports_iff w port uid (x ∷ xs) h k = ground (
  arith,
  pairs-ports_iff w (port + 1) (uid + 2) xs,
  sender-port w x port uid,
  receiver-port w x port uid,
)

-- All ports are at least 65530 exactly when at most six adapters are in use.
pub ports_iff :
    (w : Winsock) (es : List Entry)
    → All (λ c. 65530 ≤ c.socket_port) (generate_udp_configs w es)
      ↔ (length (used_addresses es) ≤ 6)
unfolding generate_udp_configs
ports_iff w es =
    rw (generate_loop-pairs w 65530 0 es)
      (ground (arith, pairs-ports_iff w 65530 0 (used_addresses es) (omega arith) (omega arith)))

-- The adapter that is the i-th in use, from 0 on, has the configurations 2 i and 2 i + 1, on the port
-- 65530 + i modulo 2 ^ 16: one that sends, and one that receives on the same socket. There are no others.
pub generate_udp_configs_at :
    (w : Winsock) (es : List Entry) (i : ℕ) (a : NsIpAddress)
    → get_elem? (used_addresses es) i ≡ some a
    → (length (generate_udp_configs w es) ≡ 2 * length (used_addresses es))
      × (get_elem? (generate_udp_configs w es) (2 * i) ≡ some (sender w a (65530 + i) (2 * i)))
      × (get_elem? (generate_udp_configs w es) (2 * i + 1)
          ≡ some (receiver w a (65530 + i) (2 * i)))
unfolding generate_udp_configs
generate_udp_configs_at w es i a h =
    let at = pairs_at w 65530 0 (used_addresses es) i a h in
    let e : 0 + 2 * i ≡ 2 * i = omega arith in
    rw (generate_loop-pairs w 65530 0 es) (
      length-pairs w 65530 0 (used_addresses es),
      at.0 ∙ ap (λ k. some (sender w a (65530 + i) k)) e,
      at.1 ∙ ap (λ k. some (receiver w a (65530 + i) k)) e,
    )

-- The driver finds an adapter in use exactly where there are configurations.
has_activated_used :
    (es : List Entry) → has_activated_network_adapters es ≡ not (length (used_addresses es) == 0)
unfolding has_activated_network_adapters used_addresses
has_activated_used [] = refl
has_activated_used (e ∷ es) = ground (arith, has_activated_used es)
