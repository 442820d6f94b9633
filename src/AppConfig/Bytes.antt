-- ===== src/AppConfig/Bytes.antt =====
-- Numbers in memory: what `write` stores `read` gives back.
use treiber.Base.{
  ℕ, zero, suc, ◌*◌, ◌/◌, ◌^◌, ◌<◌, ◌≡◌, refl, ap, some, List, ◌++◌, arith, length, take-append,
  drop-append, length-append,
}
use treiber.Base.Int.{ℤ, IsInt}
use treiber.Buffer.Access.{wrap}
use treiber.AppConfig.{
  NsIpAddress, to_bytes, of_bytes, int_of, write_ip, write_int, write_size, read_bytes, read_ip,
  read_int, read_size,
}

-- The number of values of `k` bytes.
power : ℕ → ℕ
power zero = 1
power (suc k) = 256 * power k

length-to_bytes : (k v : ℕ) → length (to_bytes k v) ≡ k
unfolding to_bytes
length-to_bytes zero v = refl
length-to_bytes (suc k) v = ap suc (length-to_bytes k (v / 256))

of_bytes-to_bytes : (k v : ℕ) → v < power k → of_bytes (to_bytes k v) ≡ v
unfolding to_bytes of_bytes power
of_bytes-to_bytes zero v h = omega arith
of_bytes-to_bytes (suc k) v h = omega (arith, of_bytes-to_bytes k (v / 256) (omega arith))

pub read_bytes-append :
    (n : ℕ) (xs rest : List ℕ) → length xs ≡ n → read_bytes n (xs ++ rest) ≡ some (xs, rest)
unfolding read_bytes
read_bytes-append n xs rest e =
    ground (arith, take-append n xs rest e, drop-append n xs rest e, length-append {A = ℕ} xs rest)

int_of-wrap : (n : ℤ) → IsInt n → int_of (wrap (2 ^ 32) n) ≡ n
int_of-wrap n h = ground arith

pub read_ip-write_ip :
    (a : NsIpAddress) (rest : List ℕ) → read_ip (write_ip a ++ rest) ≡ some (a, rest)
unfolding read_ip write_ip
read_ip-write_ip a rest = refl

pub read_int-write_int :
    (n : ℤ) (rest : List ℕ) → IsInt n → read_int (write_int n ++ rest) ≡ some (n, rest)
unfolding read_int write_int power
read_int-write_int n rest h =
    let v : ℕ = wrap (2 ^ 32) n in
    rw
      (
        read_bytes-append 4 (to_bytes 4 v) rest (length-to_bytes 4 v),
        of_bytes-to_bytes 4 v (ground arith),
        int_of-wrap n h,
      )
      refl

pub read_size-write_size :
    (n : ℕ) (rest : List ℕ) → n < 2 ^ 64 → read_size (write_size n ++ rest) ≡ some (n, rest)
unfolding read_size write_size power
read_size-write_size n rest h =
    rw
      (
        read_bytes-append 8 (to_bytes 8 n) rest (length-to_bytes 8 n),
        of_bytes-to_bytes 8 n (omega arith),
      )
      refl
