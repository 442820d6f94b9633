-- ===== src/Address/Tests.antt =====
-- Theorems on addresses at concrete inputs.
use treiber.Base.{ℕ, ◌≡◌, refl, true, Option, some, List, [], ◌∷◌}
use treiber.Address.{quad_loop, openvpn_inet_aton, ip_addr_dotted_quad_safe, ip_or_dns_addr_safe}

-- "10.0.0.1"
abbrev ten : List ℕ
ten = b'1' ∷ b'0' ∷ b'.' ∷ b'0' ∷ b'.' ∷ b'0' ∷ b'.' ∷ b'1' ∷ []

-- A scanner that knows this address.
abbrev scan_ten : List ℕ → Option (ℕ × ℕ × ℕ × ℕ)
scan_ten s = some (10, 0, 0, 1)

ten_accepted : ip_or_dns_addr_safe scan_ten (some ten) true ≡ true
unfolding ip_or_dns_addr_safe ip_addr_dotted_quad_safe quad_loop openvpn_inet_aton
ten_accepted = refl
