-- ===== src/AppConfig/Tests.antt =====
-- A configuration that is written and read.
use treiber.Base.{◌≡◌, some, [], ◌∷◌, ◌++◌, map, arith}
use treiber.Base.Int.{pos, negsuc}
use treiber.Buffer.Lines.{c_string}
use treiber.AppConfig.{AppConfig, write, read}
use treiber.AppConfig.RoundTrip.{InRange, read-write}

-- The second name has a NUL in it.
abbrev stored : AppConfig
stored = record {
  adapter_ip = record { ipp1 = 10; ipp2 = 0; ipp3 = 0; ipp4 = 3 };
  adapter_subnet_bits = pos 24;
  server_ip = record { ipp1 = 178; ipp2 = 63; ipp3 = 3; ipp4 = 159 };
  server_port = negsuc 4;
  log_level = pos 2;
  names = (b'e' ∷ b't' ∷ b'h' ∷ []) ∷ (b'a' ∷ 0 ∷ b'b' ∷ []) ∷ [];
}

stored-InRange : InRange stored
stored-InRange = record {
  bits = (omega arith, omega arith);
  port = (omega arith, omega arith);
  level = (omega arith, omega arith);
  count = omega arith;
  sizes = (omega arith, (omega arith, tt));
}

read-write_example :
    read (write stored ++ (7 ∷ []))
    ≡ some (record stored { names = map c_string stored.names }, 7 ∷ [])
read-write_example = read-write stored (7 ∷ []) stored-InRange
