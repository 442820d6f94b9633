-- ===== src/AppConfig/RoundTrip.antt =====
-- What `AppConfig::write` stores, `AppConfig::read` gives back, but for names with a NUL in them.
use treiber.Base.{
  ℕ, ◌<◌, ◌^◌, ◌≡◌, ◌≢◌, refl, ap, ◌∙◌, some, List, [], ◌∷◌, ◌++◌, map, arith, length, All,
  append_assoc,
}
use mathlib.Core.Path.{ap₂}
use treiber.Base.Int.{IsInt}
use treiber.Buffer.Lines.{c_string}
use treiber.AppConfig.{
  AppConfig, write_ip, write_int, write_size, write_string, write_strings, write, read_string,
  read_strings, read,
}
use treiber.AppConfig.Bytes.{
  read_bytes-append, read_ip-write_ip, read_int-write_int, read_size-write_size,
}

-- The numbers are values of their types.
pub record InRange (c : AppConfig) : Type 0 where
  pub bits : IsInt c.adapter_subnet_bits
  pub port : IsInt c.server_port
  pub level : IsInt c.log_level
  pub count : length c.names < 2 ^ 64
  pub sizes : All (λ s. length s < 2 ^ 64) c.names

read_string-write_string :
    (s rest : List ℕ)
    → length s < 2 ^ 64
    → read_string (write_string s ++ rest) ≡ some (c_string s, rest)
unfolding read_string write_string
read_string-write_string s rest h =
    rw
      (
        append_assoc (write_size (length s)) s rest,
        read_size-write_size (length s) (s ++ rest) h,
        read_bytes-append (length s) s rest refl,
      )
      refl

read_strings-write_strings :
    (ss : List (List ℕ)) (rest : List ℕ)
    → All (λ s. length s < 2 ^ 64) ss
    → read_strings (length ss) (write_strings ss ++ rest) ≡ some (map c_string ss, rest)
unfolding read_strings write_strings
read_strings-write_strings [] rest h = refl
read_strings-write_strings (s ∷ ss) rest h =
    rw
      (
        append_assoc (write_string s) (write_strings ss) rest,
        read_string-write_string s (write_strings ss ++ rest) h.0,
        read_strings-write_strings ss rest h.1,
      )
      refl

-- A configuration whose numbers fit their types is read as it was written, with each name cut in front
-- of its first NUL, and what stands behind it in the file is left.
pub read-write :
    (c : AppConfig) (rest : List ℕ)
    → InRange c
    → read (write c ++ rest) ≡ some (record c { names = map c_string c.names }, rest)
unfolding read write
read-write c rest h =
    let f₆ = write_strings c.names ++ rest in
    let f₅ = write_size (length c.names) ++ f₆ in
    let f₄ = write_int c.log_level ++ f₅ in
    let f₃ = write_int c.server_port ++ f₄ in
    let f₂ = write_ip c.server_ip ++ f₃ in
    let f₁ = write_int c.adapter_subnet_bits ++ f₂ in
    simp append_assoc (
      rw
        (
          read_ip-write_ip c.adapter_ip f₁,
          read_int-write_int c.adapter_subnet_bits f₂ h.bits,
          read_ip-write_ip c.server_ip f₃,
          read_int-write_int c.server_port f₄ h.port,
          read_int-write_int c.log_level f₅ h.level,
          read_size-write_size (length c.names) f₆ h.count,
          read_strings-write_strings c.names rest h.sizes,
        )
        refl)

map-c_string : (ss : List (List ℕ)) → All (All (λ c. c ≢ 0)) ss → map c_string ss ≡ ss
map-c_string [] h = refl
map-c_string (s ∷ ss) h = ap₂ (λ x y. x ∷ y) (whole s h.0) (map-c_string ss h.1)
  where
    whole : (s : List ℕ) → All (λ c. c ≢ 0) s → c_string s ≡ s
    whole [] h = refl
    whole (c ∷ s) h = ground (arith, h.0, whole s h.1)

-- Without a NUL in a name the whole configuration comes back.
pub read-write_same :
    (c : AppConfig) (rest : List ℕ)
    → InRange c
    → All (All (λ k. k ≢ 0)) c.names
    → read (write c ++ rest) ≡ some (c, rest)
read-write_same c rest h n =
    read-write c rest h ∙ ap (λ v. some (record c { names = v }, rest)) (map-c_string c.names n)
