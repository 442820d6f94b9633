-- ===== src/Frame/Dynamic.antt =====
-- The size that may change.
use treiber.Base.{ℕ, Bool, List, [], ◌∷◌, Option, some, ◌>>=◌}
use treiber.Base.Int.{ℤ, pos, ◌+ℤ◌, ◌≤ℤ◌}
use treiber.Integer.{constrain_int}
use treiber.Frame.{Frame, tun_link_delta, frame_set_mtu_dynamic, expanded_size_min}

-- The tunnel's packets may have at least TUN_MTU_MIN bytes, and at most what they may have at all.
pub record InRange (f : Frame) : Type 0 where
  pub least : expanded_size_min f ≤ℤ f.link_mtu_dynamic
  pub most : f.link_mtu_dynamic ≤ℤ f.link_mtu

finalized : Frame → ℕ → Frame
finalized f t = record f {
  link_mtu = pos t +ℤ tun_link_delta f;
  link_mtu_dynamic = pos t +ℤ tun_link_delta f;
}

set_dynamic : Frame → ℤ → Frame
set_dynamic f mtu = record f {
  link_mtu_dynamic = constrain_int mtu (expanded_size_min f) f.link_mtu;
}

-- A setting: the size, and the flags SET_MTU_TUN and SET_MTU_UPPER_BOUND.
abbrev pub Setting : Type 0
Setting = ℕ × Bool × Bool

pub set_all : Frame → List Setting → Option Frame
set_all f [] = some f
set_all f ((m, tun, upper_bound) ∷ ss) = do
  f' ← frame_set_mtu_dynamic f (pos m) tun upper_bound
  set_all f' ss
