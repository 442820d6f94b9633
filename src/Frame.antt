-- ===== src/Frame.antt =====
-- `Treiber/lib/mtu.h` and `Treiber/lib/mtu.c`: the sizes of packets, and the buffers that hold them. C's `int`
-- is ℤ. A failed assertion or a fatal message answers `none`.
pub mod Dynamic
pub mod Alloc
mod Tests
use Prim.Native.Nat.{bit_and}
use treiber.Base.{
  ℕ, ◌-◌, ◌%◌, Bool, true, false, not, ◌&&◌, ◌||◌, Option, none, some, ◌==◌, if◌then◌else◌, ◌>>=◌,
}
use treiber.Base.Int.{ℤ, pos, negsuc, ◌+ℤ◌, ◌-ℤ◌, ltb_ℤ, leb_ℤ}
use treiber.Integer.{constrain_int}
use treiber.Buffer.{Buffer, size_of_int, alloc_buf, buf_init, buf_safe}

abbrev pub tun_mtu_min : ℕ
tun_mtu_min = 100

-- `struct frame`
pub record Frame : Type 0 where
  pub link_mtu : ℤ
  pub link_mtu_dynamic : ℤ
  pub extra_frame : ℤ
  pub extra_buffer : ℤ
  pub extra_tun : ℤ
  pub extra_link : ℤ
  pub align_flags : ℕ
  pub align_adjust : ℤ

-- The macros on a frame.
abbrev pub tun_link_delta : Frame → ℤ
tun_link_delta f = f.extra_frame +ℤ f.extra_tun

abbrev pub tun_mtu_size : Frame → ℤ
tun_mtu_size f = f.link_mtu -ℤ tun_link_delta f

abbrev pub tun_mtu_size_dynamic : Frame → ℤ
tun_mtu_size_dynamic f = f.link_mtu_dynamic -ℤ tun_link_delta f

abbrev pub expanded_size_min : Frame → ℤ
expanded_size_min f = pos tun_mtu_min +ℤ tun_link_delta f

abbrev pub max_rw_size_tun : Frame → ℤ
max_rw_size_tun f = f.link_mtu -ℤ f.extra_frame

abbrev pub max_rw_size_link : Frame → ℤ
max_rw_size_link f = f.link_mtu +ℤ f.extra_link

abbrev pub frame_headroom_base : Frame → ℤ
frame_headroom_base f = tun_link_delta f +ℤ f.extra_buffer +ℤ f.extra_link

abbrev pub buf_size : Frame → ℤ
buf_size f = tun_mtu_size f +ℤ (frame_headroom_base f +ℤ frame_headroom_base f)

-- `n & 3` of an `int`.
abbrev pub low_bits : ℤ → ℕ
low_bits (pos n) = n % 4
low_bits (negsuc n) = 3 - n % 4

pub frame_headroom : Frame → ℕ → ℤ
frame_headroom f flag_mask =
    let offset = frame_headroom_base f in
    let adjust = if bit_and flag_mask f.align_flags == 0 then pos 0 else f.align_adjust in
    offset +ℤ pos (low_bits (pos 0x400_0000 -ℤ (offset +ℤ adjust)))

pub alloc_buf_sock_tun : Frame → Bool → ℕ → Option Buffer
unfolding frame_headroom
alloc_buf_sock_tun f tuntap_buffer align_mask = do
  buf ← alloc_buf (size_of_int (buf_size f))
  let r = buf_init buf (frame_headroom f align_mask)
  let buf' = record (r.1) { len = if tuntap_buffer then max_rw_size_tun f else max_rw_size_link f }
  if not r.0 then none else if buf_safe buf' (pos 0) then some buf' else none

-- `frame_finalize`: one of the two sizes is given.
pub frame_finalize : Frame → Option ℤ → Option ℤ → Option Frame
frame_finalize f link_mtu tun_mtu = do
  m ← elim tun_mtu [
    | some t ↦ elim link_mtu [ none ↦ some (t +ℤ tun_link_delta f) | some l ↦ none ]
    | none ↦ link_mtu
  ]
  let f' = record f { link_mtu = m }
  if ltb_ℤ (tun_mtu_size f') (pos tun_mtu_min)
      then none
      else some (record f' { link_mtu_dynamic = m })

-- `frame_set_mtu_dynamic`, with the flags SET_MTU_TUN and SET_MTU_UPPER_BOUND.
pub frame_set_mtu_dynamic : Frame → ℤ → Bool → Bool → Option Frame
frame_set_mtu_dynamic f mtu tun upper_bound =
    if ltb_ℤ mtu (pos 0)
    then none
    else (let mtu' = if tun then mtu +ℤ tun_link_delta f else mtu in
        some (
          if not upper_bound || ltb_ℤ mtu' f.link_mtu_dynamic
          then record f { link_mtu_dynamic = constrain_int mtu' (expanded_size_min f) f.link_mtu }
          else f))

-- `frame_init_mssfix`, where `--mssfix` is given.
pub frame_init_mssfix : Frame → ℤ → Option Frame
unfolding frame_set_mtu_dynamic
frame_init_mssfix f mssfix =
    if leb_ℤ mssfix (pos 0) && leb_ℤ (pos 0) mssfix
    then some f
    else frame_set_mtu_dynamic f mssfix false true

pub frame_subtract_extra : Frame → Frame → Frame
frame_subtract_extra f src = record f {
  extra_frame = f.extra_frame -ℤ src.extra_frame;
  extra_tun = f.extra_tun +ℤ src.extra_frame;
}

pub frame_add_to_link_mtu : Frame → ℤ → Frame
frame_add_to_link_mtu f increment = record f { link_mtu = f.link_mtu +ℤ increment }

pub frame_add_to_extra_frame : Frame → ℕ → Frame
frame_add_to_extra_frame f increment = record f { extra_frame = f.extra_frame +ℤ pos increment }

pub frame_remove_from_extra_frame : Frame → ℕ → Frame
frame_remove_from_extra_frame f decrement = record f {
  extra_frame = f.extra_frame -ℤ pos decrement;
}

pub frame_align_to_extra_frame : Frame → Frame
frame_align_to_extra_frame f = record f { align_adjust = f.extra_frame +ℤ f.extra_link }
