-- ===== src/Address.antt =====
-- `Treiber/lib/socket.c`: which texts of addresses may be passed on to the system and its tools.
-- NULL is `none`. `scan_quad` is `sscanf` with four numbers and dots between them, or none where it
-- does not find them; `inet_pton` answers whether a text is an IPv6 address.
pub mod Safe
mod Tests
use treiber.Base.{
  ℕ, suc, ◌+◌, ◌*◌, ◌^◌, Bool, true, false, not, ◌&&◌, ◌||◌, Option, none, some, List, [], ◌∷◌, ltb,
  leb, ◌==◌, if◌then◌else◌, length,
}
use treiber.Chars.{string_class}

-- The address in host order with OIA_IP, and the two other answers.
pub data Oia : Type 0 where
  oia_ip : ℕ → Oia
  oia_error : Oia
  oia_hostname : Oia

abbrev cc_digit_dot : ℕ
cc_digit_dot = 2 ^ 6 + 2 ^ 17

pub openvpn_inet_aton : (List ℕ → Option (ℕ × ℕ × ℕ × ℕ)) → List ℕ → Oia
openvpn_inet_aton scan_quad dotted_quad =
    let failed = if string_class dotted_quad cc_digit_dot 0 then oia_error else oia_hostname in
    elim (scan_quad dotted_quad) [
      | none ↦ failed
      | some (a, b, c, d) ↦
          if ltb a 256 && ltb b 256 && ltb c 256 && ltb d 256
          then oia_ip (a * 2 ^ 24 + b * 2 ^ 16 + c * 2 ^ 8 + d)
          else failed
    ]

-- The loop over the characters, after `nnum` digits.
pub quad_loop : List ℕ → ℕ → Bool
quad_loop [] nnum = true
quad_loop (c ∷ p) nnum =
    let digit = quad_loop p (suc nnum) in
    let dot = quad_loop p 0 in
    if leb b'0' c && leb c b'9'
    then if ltb 3 (suc nnum) then false else digit
    else if c == b'.'
    then dot
    else false

pub ip_addr_dotted_quad_safe : (List ℕ → Option (ℕ × ℕ × ℕ × ℕ)) → Option (List ℕ) → Bool
unfolding quad_loop openvpn_inet_aton
ip_addr_dotted_quad_safe scan_quad none = false
ip_addr_dotted_quad_safe scan_quad (some s) =
    if ltb 15 (length s)
    then false
    else if not (quad_loop s 0)
    then false
    else elim (openvpn_inet_aton scan_quad s) [ oia_ip a ↦ true | _ ↦ false ]

-- `max_len` is INET6_ADDRSTRLEN, which the system's headers define.
ipv6_addr_safe : ℕ → (List ℕ → Bool) → Option (List ℕ) → Bool
ipv6_addr_safe max_len inet_pton none = false
ipv6_addr_safe max_len inet_pton (some s) = if ltb max_len (length s) then false else inet_pton s

-- CC_ALNUM, CC_DASH and CC_DOT.
abbrev pub cc_host : ℕ
cc_host = 2 ^ 2 + 2 ^ 16 + 2 ^ 17

pub dns_addr_safe : Option (List ℕ) → Bool
dns_addr_safe none = false
dns_addr_safe (some s) = ltb 0 (length s) && leb (length s) 255 && string_class s cc_host 0

pub ip_or_dns_addr_safe : (List ℕ → Option (ℕ × ℕ × ℕ × ℕ)) → Option (List ℕ) → Bool → Bool
unfolding ip_addr_dotted_quad_safe dns_addr_safe
ip_or_dns_addr_safe scan_quad addr allow_fqdn =
    if ip_addr_dotted_quad_safe scan_quad addr
    then true
    else if allow_fqdn
    then dns_addr_safe addr
    else false

abbrev is_hex : ℕ → Bool
is_hex c = leb b'0' c && leb c b'9' || leb b'a' c && leb c b'f' || leb b'A' c && leb c b'F'

mac_loop : List ℕ → ℕ → Bool
mac_loop [] nnum = true
mac_loop (c ∷ p) nnum =
    let digit = mac_loop p (suc nnum) in
    let colon = mac_loop p 0 in
    if is_hex c
    then if ltb 2 (suc nnum) then false else digit
    else if c == b':'
    then colon
    else false

mac_addr_safe : Option (List ℕ) → Bool
unfolding mac_loop
mac_addr_safe none = false
mac_addr_safe (some s) = if ltb 17 (length s) then false else mac_loop s 0
