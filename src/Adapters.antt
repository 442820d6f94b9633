-- ===== src/Adapters.antt =====
-- `Treiber Winttun/NetworkAdapter.h`, `Treiber Winttun/NetworkAdapterList.h`,
-- `Treiber Winttun/UDPWorkerConfig.h`, `parseIpString` of `Treiber Winttun/utils.cpp`, and `initSocket` of
-- `Treiber Winttun/UPDSocketWorker.cpp`. The shared pointer to the Config that every UDP configuration
-- holds is left out: it is the same in all of them. What the system answers is a parameter.
pub mod Texts
pub mod Ports
pub mod Names
mod Tests
use treiber.Base.{
  ℕ, zero, suc, ◌+◌, ◌-◌, ◌*◌, ◌%◌, ◌^◌, Bool, true, false, not, ◌&&◌, ◌||◌, Option, none, some,
  List, [], ◌∷◌, ◌++◌, map, min, ltb, leb, ◌==◌, if◌then◌else◌,
}
use treiber.Base.Int.{ℤ, pos, negsuc}
use treiber.Buffer.Access.{wrap}
use treiber.AppConfig.{NsIpAddress, same_address}

abbrev pub is_digit : ℕ → Bool
is_digit c = leb b'0' c && leb c b'9'

abbrev is_space : ℕ → Bool
is_space c = c == 32 || leb 9 c && leb c 13

pub skip_space : List ℕ → List ℕ
skip_space [] = []
skip_space (c ∷ s) = let rest = skip_space s in if is_space c then rest else c ∷ s

-- The number that the digits at the front make behind the number `n`.
pub digits_value : ℕ → List ℕ → ℕ
digits_value n [] = n
digits_value n (c ∷ s) =
    let rest = digits_value (10 * n + (c - b'0')) s in if is_digit c then rest else n

-- -n, at least the least `int`.
abbrev negative : ℕ → ℤ
negative zero = pos 0
negative (suc n) = negsuc (min n (2 ^ 31 - 1))

-- n, at most the largest `int`.
abbrev pub positive : ℕ → ℤ
positive n = pos (min n (2 ^ 31 - 1))

pub atoi_signed : List ℕ → ℤ
unfolding digits_value
atoi_signed [] = pos 0
atoi_signed (c ∷ s) =
    if c == b'-'
    then negative (digits_value 0 s)
    else if c == b'+'
    then positive (digits_value 0 s)
    else positive (digits_value 0 (c ∷ s))

-- The C library's `atoi`; a number that no `int` holds gives the nearest one.
pub atoi : List ℕ → ℤ
unfolding skip_space atoi_signed
atoi s = atoi_signed (skip_space s)

-- `s.substr(0, s.find("."))`
pub before_dot : List ℕ → List ℕ
before_dot [] = []
before_dot (c ∷ s) = let rest = before_dot s in if c == b'.' then [] else c ∷ rest

pub find_dot : List ℕ → Option (List ℕ)
find_dot [] = none
find_dot (c ∷ s) = let rest = find_dot s in if c == b'.' then some s else rest

-- `s.substr(s.find(".") + 1, s.length())`: where there is no dot, `npos + 1` is 0.
pub after_dot : List ℕ → List ℕ
unfolding find_dot
after_dot s = elim (find_dot s) [ none ↦ s | some rest ↦ rest ]

abbrev to_uint8 : ℤ → ℕ
to_uint8 n = wrap 256 n

-- `parseIpString`, which the constructor of NetworkAdapter repeats.
pub parse_ip_string : List ℕ → NsIpAddress
parse_ip_string s₁ =
    let s₂ = after_dot s₁ in
    let s₃ = after_dot s₂ in
    let s₄ = after_dot s₃ in
    record {
      ipp1 = to_uint8 (atoi (before_dot s₁));
      ipp2 = to_uint8 (atoi (before_dot s₂));
      ipp3 = to_uint8 (atoi (before_dot s₃));
      ipp4 = to_uint8 (atoi s₄);
    }

pub record NetworkAdapter : Type 0 where
  pub name : List ℕ
  pub desc : List ℕ
  pub ip_adress : NsIpAddress

-- The fields of the system's IP_ADAPTER_INFO that are read.
pub record AdapterInfo : Type 0 where
  pub adapter_name : List ℕ
  pub description : List ℕ
  pub ip_address : List ℕ

-- A pair of the list: whether the adapter is in use, and the adapter.
pub record Entry : Type 0 where
  pub used : Bool
  pub adapter : NetworkAdapter

new_adapter : AdapterInfo → NetworkAdapter
unfolding parse_ip_string
new_adapter i = record {
  name = i.adapter_name;
  desc = i.description;
  ip_adress = parse_ip_string i.ip_address;
}

abbrev zero_address : NsIpAddress
zero_address = record { ipp1 = 0; ipp2 = 0; ipp3 = 0; ipp4 = 0 }

is_viable : NetworkAdapter → Bool
unfolding same_address
is_viable a = not (same_address a.ip_adress zero_address)

new_entry : AdapterInfo → Entry
unfolding new_adapter is_viable
new_entry i = record { used = is_viable (new_adapter i); adapter = new_adapter i }

-- `init`, with what GetAdaptersInfo answers; `none` is an error. Its own result is never read.
unfoldable pub init : Option (List AdapterInfo) → List Entry → List Entry
unfolding new_entry
init none es = es
init (some infos) es = es ++ map new_entry infos

unfoldable pub same_text : List ℕ → List ℕ → Bool
same_text [] [] = true
same_text [] (d ∷ t) = false
same_text (c ∷ s) [] = false
same_text (c ∷ s) (d ∷ t) = c == d && same_text s t

-- The inner loop of `deactiveEverythingBut`.
pub has_name : List (List ℕ) → List ℕ → Bool
unfolding same_text
has_name [] name = false
has_name (n ∷ names) name = same_text n name || has_name names name

unfoldable pub deactive_everything_but : List (List ℕ) → List Entry → List Entry
unfolding has_name
deactive_everything_but names [] = []
deactive_everything_but names (e ∷ es) =
    record e { used = has_name names e.adapter.name } ∷ deactive_everything_but names es

activate_viable : List Entry → List Entry
unfolding is_viable
activate_viable [] = []
activate_viable (e ∷ es) =
    (if is_viable e.adapter then record e { used = true } else e) ∷ activate_viable es

unfoldable pub has_activated_network_adapters : List Entry → Bool
has_activated_network_adapters [] = false
has_activated_network_adapters (e ∷ es) = if e.used then true else has_activated_network_adapters es

-- What stands in the field `socket`.
pub data Socket : Type 0 where
  unset : Socket
  invalid : Socket
  opened : ℕ → Socket
  closed : ℕ → Socket

pub record UdpWorkerConfig : Type 0 where
  pub socket_ipv4_adress : NsIpAddress
  pub socket_port : ℕ
  pub socket : Socket
  pub reciever : Bool
  pub uid : ℕ

-- What Winsock answers to the calls of `initSocket` for an address and a port.
pub record Winsock : Type 0 where
  pub starts : Bool
  pub create : NsIpAddress → ℕ → Option ℕ
  pub binds : ℕ → ℕ → ℕ → Bool
  pub never_blocks : ℕ → Bool

-- The bytes of an address in one number.
pub address_number : NsIpAddress → ℕ
address_number a = ((a.ipp1 * 256 + a.ipp2) * 256 + a.ipp3) * 256 + a.ipp4

-- `initSocket`, whose result is never read.
pub init_socket : Winsock → UdpWorkerConfig → UdpWorkerConfig
unfolding address_number
init_socket w c = if not w.starts then c else elim (w.create c.socket_ipv4_adress c.socket_port) [
  | none ↦ record c { socket = invalid }
  | some s ↦
      if w.binds s (address_number c.socket_ipv4_adress) c.socket_port && w.never_blocks s
      then record c { socket = opened s }
      else record c { socket = closed s }
]

-- The two configurations of one adapter: to send, and to receive on the same socket.
pub sender : Winsock → NsIpAddress → ℕ → ℕ → UdpWorkerConfig
unfolding init_socket
sender w a port uid = init_socket w (record {
  socket_ipv4_adress = a;
  socket_port = port % 2 ^ 16;
  socket = unset;
  reciever = false;
  uid = uid % 256;
})

pub receiver : Winsock → NsIpAddress → ℕ → ℕ → UdpWorkerConfig
unfolding sender
receiver w a port uid = record {
  socket_ipv4_adress = a;
  socket_port = port % 2 ^ 16;
  socket = (sender w a port uid).socket;
  reciever = true;
  uid = (uid + 1) % 256;
}

-- The loop of `generateUDPConfigs`.
pub generate_loop : Winsock → ℕ → ℕ → List Entry → List UdpWorkerConfig
generate_loop w port uid [] = []
generate_loop w port uid (e ∷ es) =
    let made = generate_loop w (port + 1) (uid + 2) es in
    let skipped = generate_loop w port uid es in
    if e.used
    then sender w e.adapter.ip_adress port uid ∷ receiver w e.adapter.ip_adress port uid ∷ made
    else skipped

pub generate_udp_configs : Winsock → List Entry → List UdpWorkerConfig
unfolding generate_loop
generate_udp_configs w es = generate_loop w 65530 0 es
