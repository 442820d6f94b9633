-- ===== src/BufferList/Tests.antt =====
-- Theorems on buffer lists at concrete inputs.
use treiber.Base.{ℕ, ◌≡◌, ◌≤◌, refl, some, List, [], ◌∷◌, arith, length, take, leb, if◌then◌else◌}
use treiber.Base.Int.{pos}
use treiber.BufferList.{BufferList, buffer_list_aggregate}
use treiber.BufferList.Holds.{Entry, buf_of, contents, Holds}
use treiber.BufferList.Queue.{filled}
use treiber.BufferList.Aggregate.{joined, merged, Most, aggregate-stream}

abbrev ab : List ℕ
ab = b'a' ∷ b'b' ∷ []

abbrev two_entries : List Entry
two_entries = filled (b'a' ∷ b'b' ∷ []) ∷ filled (b'c' ∷ []) ∷ []

abbrev two_buffers : BufferList
two_buffers = record {
  chain = buf_of (filled (b'a' ∷ b'b' ∷ [])) ∷ buf_of (filled (b'c' ∷ [])) ∷ [];
  tail = some 1;
  size = pos 2;
  max_size = pos 3;
}

two-Holds : Holds two_buffers two_entries
two-Holds = record {
  linked = refl;
  ended = refl;
  sized = refl;
  fits = (omega arith, (omega arith, tt));
}

aggregate-stream_example :
    (k : ℕ) × (bl' : BufferList) × (es' : List Entry) × (buffer_list_aggregate two_buffers 100
      ≡ some bl')
    × Holds bl' es'
    × (contents es'
        ≡ (if leb 2 k then merged [] k (contents two_entries) else contents two_entries))
    × (length (joined [] (take k (contents two_entries))) ≤ 100)
    × Most [] 0 100 k (contents two_entries)
    × (joined [] (contents es') ≡ joined [] (contents two_entries))
aggregate-stream_example = aggregate-stream two_buffers two_entries 100 two-Holds (omega arith)
