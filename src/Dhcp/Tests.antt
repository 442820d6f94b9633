-- ===== src/Dhcp/Tests.antt =====
-- Options of a tunnel at concrete inputs.
use treiber.Base.{
  ℕ, suc, ◌≡◌, refl, false, true, none, some, List, [], ◌∷◌, length, drop, replicate, arith,
}
use treiber.Buffer.Rep.{rep}
use treiber.Dhcp.Writers.{bytes_of}
use treiber.Dhcp.{TuntapOptions, build_dhcp_options_string, search_loop}
use treiber.Dhcp.Search.{encode, encode_all, search_loop_overflow}
use treiber.Dhcp.Build.{options, emit_all, answer, build_dhcp_options_string_lem}
use treiber.Dhcp.Wire.{wire, sendable, parse, build_dhcp_options_string-parse}

abbrev tmp_buf : List ℕ
tmp_buf = replicate 256 7

abbrev room : List ℕ
room = replicate 80 0

-- The domain "vpn", two servers and the domain to search "a.bc".
abbrev some_options : TuntapOptions
some_options = record {
  domain = some (b'v' ∷ b'p' ∷ b'n' ∷ []);
  netbios_scope = none;
  netbios_node_type = 2;
  dns = 0x0a00_0001 ∷ 0x0a00_0002 ∷ [];
  wins = [];
  ntp = [];
  nbdd = [];
  domain_search_list = (b'a' ∷ b'.' ∷ b'b' ∷ b'c' ∷ []) ∷ [];
  disable_nbt = true;
}

build_dhcp_options_string_lem_example :
    build_dhcp_options_string tmp_buf (rep [] [] room) some_options
    ≡ some (
        answer []
          (emit_all (options some_options) (record { failed = false; content = []; room = room })))
unfolding encode_all encode
build_dhcp_options_string_lem_example =
    build_dhcp_options_string_lem tmp_buf [] [] room some_options refl (omega arith) (omega arith)

build_dhcp_options_string-parse_example :
    (build_dhcp_options_string tmp_buf (rep [] [] room) some_options
      ≡ some (
        true,
        rep [] (wire (options some_options)) (drop (length (wire (options some_options))) room),
      ))
    × (parse (suc (length (options some_options))) (wire (options some_options))
        ≡ some (options some_options))
unfolding encode_all encode options wire sendable bytes_of
build_dhcp_options_string-parse_example =
    build_dhcp_options_string-parse tmp_buf [] [] room some_options refl (omega arith) (omega arith)
      refl (omega arith)

search_loop_overflow_example : search_loop (replicate 255 b'a' ∷ []) tmp_buf 0 ≡ none
search_loop_overflow_example = search_loop_overflow (replicate 255 b'a') tmp_buf [] refl refl
