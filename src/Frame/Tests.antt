-- ===== src/Frame/Tests.antt =====
-- Frames at concrete inputs.
use treiber.Base.{ℕ, ◌+◌, ◌*◌, ◌%◌, ◌≤◌, ◌≡◌, true, false, some, List, [], ◌∷◌, ◌>>=◌, arith}
use treiber.Base.Int.{pos}
use treiber.Buffer.Rep.{placed}
use treiber.Frame.{Frame, alloc_buf_sock_tun}
use treiber.Frame.Dynamic.{Setting}
use treiber.Frame.Alloc.{frame, most, aligned_by, alloc_buf_sock_tun_lem}

abbrev a_frame : Frame
a_frame = frame 1500 40 3 4 0 1 44

abbrev settings : List Setting
settings = (1450, false, true) ∷ (20, true, false) ∷ []

alloc_buf_sock_tun_lem_example :
    (off : ℕ) × (alloc_buf_sock_tun a_frame true 1
      ≡ some (record (placed (1500 + (40 + 4 + 3 + 0) * 2) off 0) {
        len = pos (most true 1500 40 4 0);
      }))
    × (40 + 4 + 3 + 0 ≤ off)
    × (off + most true 1500 40 4 0 ≤ 1500 + (40 + 4 + 3 + 0) * 2)
    × ((off + aligned_by 1 1 44) % 4 ≡ 0)
alloc_buf_sock_tun_lem_example =
    alloc_buf_sock_tun_lem 1500 40 3 4 0 1 44 1 true (omega arith) (omega arith) (omega arith)
