-- ===== src/Adapters/Tests.antt =====
-- Adapters at concrete inputs.
use treiber.Base.{
  ◌+◌, ◌*◌, ◌≤◌, ◌≡◌, ◌↔◌, refl, true, false, some, List, [], ◌∷◌, arith, All, length, get_elem?,
  replicate,
}
use treiber.AppConfig.{NsIpAddress}
use treiber.Adapters.{
  Entry, Winsock, sender, receiver, generate_udp_configs, parse_ip_string, atoi, before_dot,
  after_dot,
}
use treiber.Adapters.Texts.{dotted, parse_ip_string-dotted}
use treiber.Adapters.Ports.{used_addresses, ports_iff, generate_udp_configs_at}

abbrev an_address : NsIpAddress
an_address = record { ipp1 = 192; ipp2 = 168; ipp3 = 0; ipp4 = 10 }

abbrev an_entry : Entry
an_entry = record {
  used = true;
  adapter = record { name = b'a' ∷ []; desc = []; ip_adress = an_address };
}

abbrev an_unused_entry : Entry
an_unused_entry = record {
  used = false;
  adapter = record { name = b'b' ∷ []; desc = []; ip_adress = an_address };
}

abbrev a_winsock : Winsock
a_winsock = record {
  starts = true;
  create = λ a p. some p;
  binds = λ s a p. true;
  never_blocks = λ s. true;
}

abbrev seven : List Entry
seven = replicate 7 an_entry

no_dot : parse_ip_string (b'7' ∷ []) ≡ record { ipp1 = 7; ipp2 = 7; ipp3 = 7; ipp4 = 7 }
unfolding parse_ip_string atoi before_dot after_dot
no_dot = refl

parse_ip_string-dotted_example : parse_ip_string (dotted an_address) ≡ an_address
parse_ip_string-dotted_example =
    parse_ip_string-dotted an_address
      (record { ipp1 = omega arith; ipp2 = omega arith; ipp3 = omega arith; ipp4 = omega arith })

ports_iff_example :
    All (λ c. 65530 ≤ c.socket_port) (generate_udp_configs a_winsock seven)
    ↔ (length (used_addresses seven) ≤ 6)
ports_iff_example = ports_iff a_winsock seven

abbrev two : List Entry
two = an_unused_entry ∷ an_entry ∷ []

in_use : get_elem? (used_addresses two) 0 ≡ some an_address
unfolding used_addresses
in_use = refl

generate_udp_configs_at_example :
    (length (generate_udp_configs a_winsock two) ≡ 2 * length (used_addresses two))
    × (get_elem? (generate_udp_configs a_winsock two) (2 * 0)
        ≡ some (sender a_winsock an_address (65530 + 0) (2 * 0)))
    × (get_elem? (generate_udp_configs a_winsock two) (2 * 0 + 1)
        ≡ some (receiver a_winsock an_address (65530 + 0) (2 * 0)))
generate_udp_configs_at_example = generate_udp_configs_at a_winsock two 0 an_address in_use
