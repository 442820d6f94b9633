-- ===== src/StreamBuf/Packet.antt =====
-- `stream_buf_added` on a packet that is there as a whole.
use treiber.Base.{
  ℕ, ◌-◌, ◌<◌, ◌≤◌, ◌≡◌, refl, true, some, List, [], ◌∷◌, ◌++◌, arith, length, drop, length-append,
  if◌then◌else◌, append-nil,
}
use treiber.Base.Int.{pos, negsuc, ltb_ℤ, ◌+ℤ◌}
use treiber.Buffer.{Buffer}
use treiber.Buffer.Rep.{rep, Fits, init_empty}
use treiber.Buffer.Access.{bytes_16, value_16}
use treiber.Buffer.Access.Read.{read_front}
use treiber.Buffer.Access.Copies.{copy_excess_room}
use treiber.StreamBuf.{StreamBuf, added_end, stream_buf_added}

-- The end of `stream_buf_added` with the packet `x` and the bytes `y` behind it.
end_packet :
    (sb : StreamBuf) (pre x y post room : List ℕ)
    → sb.buf ≡ rep pre (x ++ y) post
    → sb.residual ≡ rep [] [] room
    → sb.len ≡ pos (length x)
    → 0 < length x
    → Fits [] [] room
    → length y ≤ length room
    → added_end sb
      ≡ some (
        true,
        record sb { buf = rep pre x (y ++ post); residual = rep [] y (drop (length y) room) },
      )
unfolding added_end
end_packet sb pre x [] post room b r l p f k = ground (arith, init_empty room, append-nil x)
end_packet sb pre x (c ∷ y) post room b r l p f k = ground (
  arith,
  init_empty room,
  length-append {A = ℕ} x (c ∷ y),
  copy_excess_room [] [] room pre x (c ∷ y) post f (omega arith) k,
)

value_16-bytes_16 : (v : ℕ) → value_16 (bytes_16 v) ≡ v
value_16-bytes_16 v = omega arith

-- The content once `k` bytes have been received behind the others.
received :
    (b : Buffer) (pre c post : List ℕ) (k : ℕ)
    → b ≡ record (rep pre c post) { len = pos (length c - k) }
    → k ≤ length c
    → (if ltb_ℤ (pos 0) (pos k) then record b { len = b.len +ℤ pos k } else b) ≡ rep pre c post
unfolding ◌+ℤ◌
received b pre c post k e h = ground arith

-- A packet `x` of up to `maxlen` bytes with its length in front of it, and bytes `y` of the next packet
-- behind it for which `residual` has room, all of it there once `k` bytes are added: the answer is
-- true, `buf` holds the packet and `residual` the bytes behind it.
pub added_packet :
    (sb : StreamBuf) (pre x y post room : List ℕ) (k m : ℕ)
    → let c = bytes_16 (length x) ++ (x ++ y) in
      sb.buf ≡ record (rep pre c post) { len = pos (length c - k) }
      → k ≤ length (bytes_16 (length x) ++ (x ++ y))
      → sb.residual ≡ rep [] [] room
      → sb.len ≡ negsuc 0
      → sb.maxlen ≡ pos m
      → 0 < length x
      → length x ≤ m
      → Fits [] [] room
      → length y ≤ length room
      → stream_buf_added sb (pos k)
        ≡ some (
          true,
          record sb {
            buf = rep (pre ++ bytes_16 (length x)) x (y ++ post);
            residual = rep [] y (drop (length y) room);
            len = pos (length x);
          },
        )
unfolding stream_buf_added
added_packet sb pre x y post room k m b h r l e p q f g =
    let n : ℕ = length x in
    let sb' : StreamBuf = record sb { buf = rep (pre ++ bytes_16 n) (x ++ y) post; len = pos n } in
    ground (
      arith,
      received sb.buf pre (bytes_16 n ++ (x ++ y)) post k b h,
      read_front pre (bytes_16 n) (x ++ y) post 2 refl,
      value_16-bytes_16 n,
      end_packet sb' (pre ++ bytes_16 n) x y post room refl r refl p f g,
    )
