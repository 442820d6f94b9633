-- ===== src/Address/Safe.antt =====
-- What an address that passes the tests is made of.
use treiber.Base.{ℕ, suc, ◌≡◌, ◌≤◌, refl, Bool, true, Option, some, List, [], ◌∷◌, arith, length}
use treiber.Chars.{string_class}
use treiber.Chars.Classes.{host_class}
use treiber.Address.{
  quad_loop, ip_addr_dotted_quad_safe, cc_host, dns_addr_safe, ip_or_dns_addr_safe,
}

quad_class : (s : List ℕ) (n : ℕ) → quad_loop s n ≡ true → string_class s cc_host 0 ≡ true
unfolding quad_loop string_class
quad_class [] n h = refl
quad_class (c ∷ s) n h = ground (arith, quad_class s (suc n), quad_class s 0, host_class c)

-- An address that `ip_or_dns_addr_safe` accepts, whatever `sscanf` says of it, has at most 255
-- characters, and only letters, digits, dashes and dots.
pub addr_safe_class :
    (scan_quad : List ℕ → Option (ℕ × ℕ × ℕ × ℕ)) (s : List ℕ) (allow_fqdn : Bool)
    → ip_or_dns_addr_safe scan_quad (some s) allow_fqdn ≡ true
    → (string_class s cc_host 0 ≡ true) × (length s ≤ 255)
unfolding ip_or_dns_addr_safe ip_addr_dotted_quad_safe dns_addr_safe
addr_safe_class scan_quad s allow_fqdn h = (ground (arith, quad_class s 0), ground arith)
