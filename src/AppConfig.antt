-- ===== src/AppConfig.antt =====
-- `Treiber Winttun/AppConfig.h`, `Treiber Winttun/AppConfig.cpp` and the class `NsIpAddress` of
-- `Treiber Winttun/Config.h`: the driver's own configuration file. `write` and `read` copy the memory of
-- numbers, which is little-endian: an `int` has 4 bytes and a `size_t` 8. A stream is the list of the
-- bytes that are left; `none` is a stream that ends too early, which leaves variables unset.
pub mod Bytes
pub mod RoundTrip
mod Tests
use treiber.Base.{
  ℕ, zero, suc, ◌+◌, ◌-◌, ◌*◌, ◌/◌, ◌%◌, ◌^◌, Bool, true, false, not, ◌&&◌, Option, none, some,
  List, [], ◌∷◌, ◌++◌, ltb, leb, ◌==◌, if◌then◌else◌, length, take, drop, ◌>>=◌,
}
use treiber.Base.Int.{ℤ, pos, negsuc}
use treiber.Buffer.Access.{wrap}
use treiber.Buffer.Lines.{c_string}

pub record NsIpAddress : Type 0 where
  pub ipp1 : ℕ
  pub ipp2 : ℕ
  pub ipp3 : ℕ
  pub ipp4 : ℕ

-- `operator==`
unfoldable pub same_address : NsIpAddress → NsIpAddress → Bool
same_address a b = a.ipp1 == b.ipp1 && a.ipp2 == b.ipp2 && a.ipp3 == b.ipp3 && a.ipp4 == b.ipp4

-- The log level is an enumeration, stored as an `int`.
pub record AppConfig : Type 0 where
  pub adapter_ip : NsIpAddress
  pub adapter_subnet_bits : ℤ
  pub server_ip : NsIpAddress
  pub server_port : ℤ
  pub log_level : ℤ
  pub names : List (List ℕ)

-- The memory of a number of `k` bytes, and the number in memory.
pub to_bytes : ℕ → ℕ → List ℕ
to_bytes zero v = []
to_bytes (suc k) v = (v % 256) ∷ to_bytes k (v / 256)

pub of_bytes : List ℕ → ℕ
of_bytes [] = 0
of_bytes (b ∷ bs) = b + 256 * of_bytes bs

-- The `int` with these 32 bits.
abbrev pub int_of : ℕ → ℤ
int_of v = if ltb v (2 ^ 31) then pos v else negsuc (2 ^ 32 - 1 - v)

pub write_ip : NsIpAddress → List ℕ
write_ip a = a.ipp1 ∷ a.ipp2 ∷ a.ipp3 ∷ a.ipp4 ∷ []

pub write_int : ℤ → List ℕ
unfolding to_bytes
write_int n = to_bytes 4 (wrap (2 ^ 32) n)

pub write_size : ℕ → List ℕ
unfolding to_bytes
write_size n = to_bytes 8 n

pub write_string : List ℕ → List ℕ
write_string s = write_size (length s) ++ s

pub write_strings : List (List ℕ) → List ℕ
write_strings [] = []
write_strings (s ∷ ss) = write_string s ++ write_strings ss

-- `AppConfig::write`
pub write : AppConfig → List ℕ
write c =
    write_ip c.adapter_ip
    ++ (write_int c.adapter_subnet_bits
        ++ (write_ip c.server_ip
            ++ (write_int c.server_port
                ++ (write_int c.log_level
                    ++ (write_size (length c.names) ++ write_strings c.names)))))

-- `file.read` of `n` bytes.
pub read_bytes : ℕ → List ℕ → Option (List ℕ × List ℕ)
read_bytes n file = if leb n (length file) then some (take n file, drop n file) else none

pub read_ip : List ℕ → Option (NsIpAddress × List ℕ)
read_ip (a ∷ b ∷ c ∷ d ∷ rest) = some (record { ipp1 = a; ipp2 = b; ipp3 = c; ipp4 = d }, rest)
read_ip file = none

pub read_int : List ℕ → Option (ℤ × List ℕ)
unfolding read_bytes
read_int file = do (bytes, rest) ← read_bytes 4 file; some (int_of (of_bytes bytes), rest)

pub read_size : List ℕ → Option (ℕ × List ℕ)
unfolding read_bytes
read_size file = do (bytes, rest) ← read_bytes 8 file; some (of_bytes bytes, rest)

-- `*s = data` takes the characters in front of the first NUL.
pub read_string : List ℕ → Option (List ℕ × List ℕ)
unfolding read_size read_bytes
read_string file = do
  (size, rest) ← read_size file
  (bytes, rest') ← read_bytes size rest
  some (c_string bytes, rest')

pub read_strings : ℕ → List ℕ → Option (List (List ℕ) × List ℕ)
unfolding read_string
read_strings zero file = some ([], file)
read_strings (suc n) file = do
  (s, rest) ← read_string file
  (ss, rest') ← read_strings n rest
  some (s ∷ ss, rest')

-- `AppConfig::read`
pub read : List ℕ → Option (AppConfig × List ℕ)
read file₀ = do
  (adapter, file₁) ← read_ip file₀
  (bits, file₂) ← read_int file₁
  (server, file₃) ← read_ip file₂
  (port, file₄) ← read_int file₃
  (level, file₅) ← read_int file₄
  (count, file₆) ← read_size file₅
  (names, file₇) ← read_strings count file₆
  some (
    record {
      adapter_ip = adapter;
      adapter_subnet_bits = bits;
      server_ip = server;
      server_port = port;
      log_level = level;
      names = names;
    },
    file₇,
  )
