-- ===== src/BufferList.antt =====
-- `Treiber/lib/buffer.c` and `Treiber/lib/buffer.h`: `struct buffer_list`. The entries that are
-- linked from `head` on are a list, and `tail` is the index in it of the entry that it points to.
-- `none` is a failed assertion or a fatal message.
pub mod Holds
pub mod Queue
pub mod Aggregate
mod Tests
use treiber.Base.{
  ℕ, suc, ◌+◌, ◌-◌, Bool, true, false, not, ◌&&◌, ◌||◌, Option, none, some, List, [], ◌∷◌, ◌++◌,
  ltb, leb, ◌==◌, if◌then◌else◌, length, take, drop, set, get_elem?,
}
use treiber.Base.Int.{ℤ, pos, negsuc, ◌+ℤ◌, ◌-ℤ◌, ltb_ℤ}
use treiber.Base.Words.{add_size}
use treiber.Buffer.{Buffer, alloc_buf, buf_len, buf_advance, size_of_int}
use treiber.Buffer.Access.{store, buf_write, buf_copy}
use treiber.Buffer.Lines.{eq_ℤ}

pub record BufferList : Type 0 where
  pub chain : List Buffer
  pub tail : Option ℕ
  pub size : ℤ
  pub max_size : ℤ

abbrev pub no_head : List Buffer → Bool
no_head [] = true
no_head (b ∷ bs) = false

buffer_list_new : ℤ → BufferList
buffer_list_new max_size = record { chain = []; tail = none; size = pos 0; max_size = max_size }

buffer_list_defined : BufferList → Bool
buffer_list_defined ol = not (no_head ol.chain)

-- Every entry is freed.
buffer_list_reset : BufferList → BufferList
buffer_list_reset ol = record ol { chain = []; tail = none; size = pos 0 }

-- The buffer of a new entry: a copy of `size` bytes of the data.
pub entry_buf : List ℕ → ℕ → Option Buffer
entry_buf data_bytes size = elim (alloc_buf size) [
  | none ↦ none
  | some b ↦ some (record (store 0 (take size data_bytes) b) { len = pos size })
]

-- `ol->tail->next = e`, or `ol->head = e` in an empty list, with the assertion on `head`.
pub link : BufferList → Buffer → Option (Option ℕ × BufferList)
link ol b = elim ol.tail [
  | none ↦
      if no_head ol.chain
      then some (some 0, record ol { chain = b ∷ []; tail = some 0; size = ol.size +ℤ pos 1 })
      else none
  | some t ↦
      if no_head ol.chain
      then none
      else some (
        some (suc t),
        record ol {
          chain = take (suc t) ol.chain ++ (b ∷ []);
          tail = some (suc t);
          size = ol.size +ℤ pos 1;
        },
      )
]

-- The new entry, by its index, or NULL.
pub buffer_list_push_data : BufferList → Option (List ℕ) → ℕ → Option (Option ℕ × BufferList)
unfolding link entry_buf
buffer_list_push_data ol none size = some (none, ol)
buffer_list_push_data ol (some data_bytes) size =
    if eq_ℤ ol.max_size (pos 0) || ltb_ℤ ol.size ol.max_size
    then elim (entry_buf data_bytes size) [ none ↦ none | some b ↦ link ol b ]
    else some (none, ol)

abbrev set_len : ℕ → ℕ → BufferList → BufferList
set_len i n ol = elim (get_elem? ol.chain i) [
  | none ↦ ol
  | some b ↦ record ol { chain = set ol.chain i (record b { len = pos n }) }
]

-- `str` without its final NUL, which is stored but does not count.
buffer_list_push : BufferList → Option (List ℕ) → Option BufferList
unfolding buffer_list_push_data
buffer_list_push ol none = some ol
buffer_list_push ol (some str) =
    elim (buffer_list_push_data ol (some (str ++ (0 ∷ []))) (length str + 1)) [
      | none ↦ none
      | some (none, ol') ↦ some ol'
      | some (some i, ol') ↦ some (set_len i (length str) ol')
    ]

pub buffer_list_peek : BufferList → Option Buffer
buffer_list_peek ol = get_elem? ol.chain 0

-- How many entries fit into `max_len` bytes, and their bytes, `count` and `size` being counted.
pub count_loop : List Buffer → ℕ → ℕ → ℕ → ℕ → ℕ × ℕ
count_loop [] max_len sep_len count size = (count, size)
count_loop (b ∷ more) max_len sep_len count size =
    let extra_len = add_size (size_of_int (buf_len b)) sep_len in
    let rest = count_loop more max_len sep_len (suc count) (add_size size extra_len) in
    if ltb max_len (add_size size extra_len) then (count, size) else rest

-- The copies into the new entry; the answers of the two calls are ignored.
pub copy_loop : List Buffer → List ℕ → Buffer → Buffer
copy_loop [] sep f = f
copy_loop (e ∷ next) sep f =
    copy_loop next sep (buf_write (buf_copy f e).1 sep (pos (length sep))).1

pub buffer_list_aggregate_separator : BufferList → ℕ → List ℕ → Option BufferList
unfolding count_loop copy_loop
buffer_list_aggregate_separator bl max_len sep =
    let (count, size) = count_loop bl.chain max_len (length sep) 0 0 in
    let more = drop count bl.chain in
    if leb 2 count
    then elim (alloc_buf (add_size size 1)) [
      | none ↦ none
      | some f ↦ some (record bl {
        chain = copy_loop (take count bl.chain) sep f ∷ more;
        size = bl.size -ℤ (pos count -ℤ pos 1);
        tail =
            if no_head more
            then some 0
            else elim bl.tail [ none ↦ none | some t ↦ some (suc t - count) ];
      })
    ]
    else some bl

pub buffer_list_aggregate : BufferList → ℕ → Option BufferList
unfolding buffer_list_aggregate_separator
buffer_list_aggregate bl max_len = buffer_list_aggregate_separator bl max_len []

pub buffer_list_pop : BufferList → BufferList
buffer_list_pop ol = if no_head ol.chain then ol else record ol {
  chain = drop 1 ol.chain;
  size = ol.size -ℤ pos 1;
  tail =
      if no_head (drop 1 ol.chain)
      then none
      else elim ol.tail [ none ↦ none | some t ↦ some (t - 1) ];
}

pub buffer_list_advance : BufferList → ℤ → Option BufferList
unfolding buffer_list_pop
buffer_list_advance ol n = elim (buffer_list_peek ol) [
  | none ↦ some ol
  | some b ↦
      let (moved, b') = buf_advance b n in
      let ol' = record ol { chain = b' ∷ drop 1 ol.chain } in
      if moved
      then if eq_ℤ (buf_len b') (pos 0) then some (buffer_list_pop ol') else some ol'
      else none
]
