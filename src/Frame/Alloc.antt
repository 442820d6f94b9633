-- ===== src/Frame/Alloc.antt =====
-- The buffers that `alloc_buf_sock_tun` gives: aligned, and with room in front of their content.
use Prim.Native.Nat.{bit_and}
use treiber.Base.{
  ℕ, ◌+◌, ◌-◌, ◌*◌, ◌%◌, ◌≤◌, ◌<◌, ◌≡◌, Bool, true, false, some, arith, ◌==◌, if◌then◌else◌,
  Bool-cases, inl, inr,
}
use treiber.Base.Int.{pos, ◌+ℤ◌, ◌-ℤ◌}
use treiber.Buffer.{buf_size_max}
use treiber.Buffer.Rep.{placed, alloc_init, placed-safe}
use treiber.Frame.{
  low_bits, max_rw_size_tun, max_rw_size_link, Frame, frame_headroom, frame_headroom_base, buf_size,
  alloc_buf_sock_tun,
}

-- The frame of a tunnel with packets of `t` bytes: all that is added to them counts upwards.
pub frame : ℕ → ℕ → ℕ → ℕ → ℕ → ℕ → ℕ → Frame
frame t extra_frame extra_buffer extra_tun extra_link flags adjust = record {
  link_mtu = pos (t + extra_frame + extra_tun);
  link_mtu_dynamic = pos (t + extra_frame + extra_tun);
  extra_frame = pos extra_frame;
  extra_buffer = pos extra_buffer;
  extra_tun = pos extra_tun;
  extra_link = pos extra_link;
  align_flags = flags;
  align_adjust = pos adjust;
}

base :
    (t e b u l flags adjust : ℕ)
    → frame_headroom_base (frame t e b u l flags adjust) ≡ pos (e + u + b + l)
unfolding frame ◌+ℤ◌
base t e b u l flags adjust = ground arith

size :
    (t e b u l flags adjust : ℕ)
    → buf_size (frame t e b u l flags adjust) ≡ pos (t + (e + u + b + l) * 2)
unfolding frame ◌+ℤ◌ ◌-ℤ◌
size t e b u l flags adjust = ground arith

-- The most bytes that are read or written at once.
abbrev pub most : Bool → ℕ → ℕ → ℕ → ℕ → ℕ
most tuntap t e u l = if tuntap then t + u else t + e + u + l

lens :
    (t e b u l flags adjust : ℕ) (tuntap : Bool)
    → (if tuntap
        then max_rw_size_tun (frame t e b u l flags adjust)
        else max_rw_size_link (frame t e b u l flags adjust))
      ≡ pos (most tuntap t e u l)
unfolding frame ◌+ℤ◌ ◌-ℤ◌
lens t e b u l flags adjust true = ground arith
lens t e b u l flags adjust false = ground arith

fits :
    (t e b u l d : ℕ) (tuntap : Bool)
    → d < 4
    → 3 ≤ b
    → e + u + b + l + d + most tuntap t e u l ≤ t + (e + u + b + l) * 2
fits t e b u l d true h k = omega arith
fits t e b u l d false h k = omega arith

-- What the offset is rounded up for: the alignment, where it is asked for.
abbrev pub aligned_by : ℕ → ℕ → ℕ → ℕ
aligned_by mask flags adjust = if bit_and mask flags == 0 then 0 else adjust

rounded :
    (o a : ℕ)
    → o + a ≤ 0x400_0000
    → (d : ℕ) × (pos o +ℤ pos (low_bits (pos 0x400_0000 -ℤ (pos o +ℤ pos a))) ≡ pos (o + d))
      × (d < 4)
      × ((o + d + a) % 4 ≡ 0)
unfolding ◌+ℤ◌ ◌-ℤ◌
rounded o a h = ((0x400_0000 - (o + a)) % 4, ground arith, omega arith, omega arith)

headroom :
    (t e b u l flags adjust mask : ℕ)
    → e + u + b + l + adjust ≤ 0x400_0000
    → (d : ℕ) × (frame_headroom (frame t e b u l flags adjust) mask ≡ pos (e + u + b + l + d))
      × (d < 4)
      × ((e + u + b + l + d + aligned_by mask flags adjust) % 4 ≡ 0)
unfolding frame_headroom frame
headroom t e b u l flags adjust mask h =
    let o : pos e +ℤ pos u +ℤ pos b +ℤ pos l ≡ pos (e + u + b + l) = base t e b u l flags adjust in
    elim (Bool-cases (bit_and mask flags == 0)) [
      | inl off ↦ rw (off, o) (rounded (e + u + b + l) 0 (omega arith))
      | inr on ↦ rw (on, o) (rounded (e + u + b + l) adjust (omega arith))
    ]

-- A buffer is given where its size is in range and compression may add at least three bytes: its content may
-- have the most bytes that are read or written at once, in front of it there is room for all that may
-- be added, and it begins at an index that the alignment asks for.
pub alloc_buf_sock_tun_lem :
    (t e b u l flags adjust mask : ℕ) (tuntap : Bool)
    → t + (e + u + b + l) * 2 < buf_size_max
    → adjust < buf_size_max
    → 3 ≤ b
    → (off : ℕ) × (alloc_buf_sock_tun (frame t e b u l flags adjust) tuntap mask
        ≡ some
            (record (placed (t + (e + u + b + l) * 2) off 0) { len = pos (most tuntap t e u l) }))
      × (e + u + b + l ≤ off)
      × (off + most tuntap t e u l ≤ t + (e + u + b + l) * 2)
      × ((off + aligned_by mask flags adjust) % 4 ≡ 0)
unfolding alloc_buf_sock_tun
alloc_buf_sock_tun_lem t e b u l flags adjust mask tuntap h ha hb =
    let (d, k, small, al) = headroom t e b u l flags adjust mask (omega arith) in
    let n = t + (e + u + b + l) * 2 in
    let off = e + u + b + l + d in
    let (buf, new, init) = alloc_init n off h (omega arith) in
    let len : (if tuntap
          then max_rw_size_tun (frame t e b u l flags adjust)
          else max_rw_size_link (frame t e b u l flags adjust))
        ≡ pos (most tuntap t e u l) =
      lens t e b u l flags adjust tuntap in
    let room : off + most tuntap t e u l ≤ n = fits t e b u l d tuntap small hb in
    (
      off,
      rw (
        size t e b u l flags adjust,
        new,
        k,
        init,
        len,
        placed-safe n off (most tuntap t e u l) room,
      ),
      omega arith,
      room,
      al,
    )
