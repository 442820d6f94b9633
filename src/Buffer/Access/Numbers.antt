-- ===== src/Buffer/Access/Numbers.antt =====
-- Numbers in network order: what the `buf_write_u…` functions append, the `buf_read_u…` functions
-- take back.
use treiber.Base.{
  ℕ, ◌-◌, ◌≤◌, ◌^◌, ◌≡◌, refl, ap, true, List, [], ◌∷◌, ◌++◌, arith, length, Bool, drop, drop-drop,
  length-drop,
}
use treiber.Base.Int.{ℤ, pos}
use treiber.Buffer.{Buffer}
use treiber.Buffer.Rep.{rep, Fits}
use treiber.Buffer.Access.{
  wrap, bytes_16, bytes_32, value_16, value_32, buf_write_u8, buf_write_u16, buf_write_u32,
  buf_read_u8, buf_read_u16, buf_read_u32,
}
use treiber.Buffer.Access.Write.{write_room}
use treiber.Buffer.Access.Read.{read_front, read_u8_front}

pub write_u8_room :
    (pre c post : List ℕ) (n : ℤ)
    → Fits pre c post
    → 1 ≤ length post
    → buf_write_u8 (rep pre c post) n ≡ (true, rep pre (c ++ (wrap 256 n ∷ [])) (drop 1 post))
unfolding buf_write_u8
write_u8_room pre c post n f h = write_room pre c post (wrap 256 n ∷ []) 1 f (omega arith) h

write_u16_room :
    (pre c post : List ℕ) (n : ℤ)
    → Fits pre c post
    → 2 ≤ length post
    → buf_write_u16 (rep pre c post) n
      ≡ (true, rep pre (c ++ bytes_16 (wrap (2 ^ 16) n)) (drop 2 post))
unfolding buf_write_u16
write_u16_room pre c post n f h =
    write_room pre c post (bytes_16 (wrap (2 ^ 16) n)) 2 f (omega arith) h

pub write_u32_room :
    (pre c post : List ℕ) (n : ℤ)
    → Fits pre c post
    → 4 ≤ length post
    → buf_write_u32 (rep pre c post) n
      ≡ (true, rep pre (c ++ bytes_32 (wrap (2 ^ 32) n)) (drop 4 post))
unfolding buf_write_u32
write_u32_room pre c post n f h =
    write_room pre c post (bytes_32 (wrap (2 ^ 32) n)) 4 f (omega arith) h

read_u16_front :
    (pre : List ℕ) (v : ℕ) (c post : List ℕ)
    → buf_read_u16 (rep pre (bytes_16 v ++ c) post) ≡ (pos v, rep (pre ++ bytes_16 v) c post)
unfolding buf_read_u16
read_u16_front pre v c post =
    rw (read_front pre (bytes_16 v) c post 2 refl)
      (ap (λ k. (pos k, rep (pre ++ bytes_16 v) c post)) {x = value_16 (bytes_16 v)} (omega arith))

read_u32_front :
    (pre : List ℕ) (v : ℕ) (c post : List ℕ)
    → buf_read_u32 (rep pre (bytes_32 v ++ c) post) ≡ ((v, true), rep (pre ++ bytes_32 v) c post)
unfolding buf_read_u32
read_u32_front pre v c post = rw (read_front pre (bytes_32 v) c post 4 refl) (
    ap (λ k. ((k, true), rep (pre ++ bytes_32 v) c post)) {x = value_32 (bytes_32 v)} (omega arith))

-- A byte, a 16-bit and a 32-bit number written one after the other, and read back in order.
pub record Exchange : Type 0 where
  pub done : Bool × Bool × Bool
  pub u8 : ℤ
  pub u16 : ℤ
  pub u32 : ℕ × Bool
  pub left : Buffer

abbrev pub exchange : Buffer → ℤ → ℤ → ℤ → Exchange
exchange s a b d =
    let (p, s₁) = buf_write_u8 s a in
    let (q, s₂) = buf_write_u16 s₁ b in
    let (r, s₃) = buf_write_u32 s₂ d in
    let (x, r₁) = buf_read_u8 s₃ in
    let (y, r₂) = buf_read_u16 r₁ in
    let (z, r₃) = buf_read_u32 r₂ in
    record { done = (p, q, r); u8 = x; u16 = y; u32 = z; left = r₃ }

-- In a buffer with no content and room for seven bytes the three writes succeed, the reads give
-- each number modulo its width, and nothing is left in front of the bytes that were not used.
pub exchange_lem :
    (pre post : List ℕ) (a b d : ℤ)
    → Fits pre [] post
    → 7 ≤ length post
    → exchange (rep pre [] post) a b d ≡ record {
      done = (true, true, true);
      u8 = pos (wrap 256 a);
      u16 = pos (wrap (2 ^ 16) b);
      u32 = (wrap (2 ^ 32) d, true);
      left =
          rep
            (pre ++ (wrap 256 a ∷ []) ++ bytes_16 (wrap (2 ^ 16) b) ++ bytes_32 (wrap (2 ^ 32) d))
            []
            (drop 7 post);
    }
exchange_lem pre post a b d f h = rw (
  write_u8_room pre [] post a f (omega arith),
  write_u16_room pre xs (drop 1 post) b (omega (arith, n₁)) (omega (arith, n₁)),
  drop-drop 1 2 post,
  write_u32_room pre (xs ++ ys) (drop 3 post) d (omega (arith, n₃)) (omega (arith, n₃)),
  drop-drop 3 4 post,
  read_u8_front pre (wrap 256 a) (ys ++ zs) (drop 7 post),
  read_u16_front (pre ++ xs) (wrap (2 ^ 16) b) zs (drop 7 post),
  read_u32_front (pre ++ xs ++ ys) (wrap (2 ^ 32) d) [] (drop 7 post),
)
  where
    xs : List ℕ
    xs = wrap 256 a ∷ []

    ys : List ℕ
    ys = bytes_16 (wrap (2 ^ 16) b)

    zs : List ℕ
    zs = bytes_32 (wrap (2 ^ 32) d)

    n₁ : length (drop 1 post) ≡ length post - 1
    n₁ = length-drop 1 post

    n₃ : length (drop 3 post) ≡ length post - 3
    n₃ = length-drop 3 post
