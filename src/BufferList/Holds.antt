-- ===== src/BufferList/Holds.antt =====
-- What a `struct buffer_list` stands for: a queue of the contents of its entries.
use treiber.Base.{ℕ, ◌-◌, ◌≡◌, Option, none, some, List, map, length, All, ◌==◌, if◌then◌else◌}
use treiber.Base.Int.{pos}
use treiber.Buffer.{Buffer}
use treiber.Buffer.Rep.{rep, Fits}
use treiber.BufferList.{BufferList}

-- An entry: a content, with what stands before and behind it in its buffer.
pub record Entry : Type 0 where
  pub front : List ℕ
  pub bytes : List ℕ
  pub back : List ℕ

abbrev pub buf_of : Entry → Buffer
buf_of e = rep e.front e.bytes e.back

abbrev pub contents : List Entry → List (List ℕ)
contents es = map (λ (e : Entry). e.bytes) es

-- The index of the last of `n` entries.
abbrev last_index : ℕ → Option ℕ
last_index n = if n == 0 then none else some (n - 1)

-- The list has the entries `es`, its `tail` is the last of them, and its `size` their number.
pub record Holds (bl : BufferList) (es : List Entry) : Type 0 where
  pub linked : bl.chain ≡ map buf_of es
  pub ended : bl.tail ≡ last_index (length es)
  pub sized : bl.size ≡ pos (length es)
  pub fits : All (λ (e : Entry). Fits e.front e.bytes e.back) es
