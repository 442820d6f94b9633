-- ===== src/BufferList/Queue.antt =====
-- A `struct buffer_list` as a queue: entries are added behind and taken off in front.
use treiber.Base.{
  ℕ, ◌+◌, ◌<◌, ◌≡◌, refl, true, false, ◌||◌, none, some, List, [], ◌∷◌, ◌++◌, arith, map, length,
  drop, All, length-append, length-map, map-append, take-of_length_le, length-replicate, replicate,
  drop-of_length_le, append-nil,
}
use treiber.Base.Int.{pos, ◌+ℤ◌, ◌-ℤ◌, ltb_ℤ}
use treiber.Buffer.{buf_size_max}
use treiber.Buffer.Rep.{alloc_buf_lem, Fits}
use treiber.Buffer.Access.Read.{advance_front, len-rep}
use treiber.Buffer.Lines.{eq_ℤ}
use treiber.BufferList.{
  BufferList, entry_buf, link, buffer_list_push_data, buffer_list_peek, buffer_list_pop,
  buffer_list_advance,
}
use treiber.BufferList.Holds.{Entry, buf_of, Holds}

-- The entry of `n` bytes that an allocation of as many holds.
abbrev pub filled : List ℕ → Entry
filled bytes = record { front = []; bytes = bytes; back = [] }

entry_buf_lem :
    (bytes : List ℕ) (n : ℕ)
    → length bytes ≡ n
    → n < buf_size_max
    → entry_buf bytes n ≡ some (buf_of (filled bytes))
unfolding entry_buf
entry_buf_lem bytes n e h = ground (
  arith,
  alloc_buf_lem n h,
  take-of_length_le n bytes,
  length-replicate {A = ℕ} n 0,
  drop-of_length_le {A = ℕ} n (replicate n 0),
  append-nil bytes,
)

All-append_one :
    (P : Entry → Type 0) (es : List Entry) (e : Entry) → All P es → P e → All P (es ++ (e ∷ []))
All-append_one P [] e h k = (k, tt)
All-append_one P (x ∷ es) e h k = (h.0, All-append_one P es e h.1 k)

link_lem :
    (bl : BufferList) (es : List Entry) (e : Entry)
    → Holds bl es
    → Fits e.front e.bytes e.back
    → (bl' : BufferList) × (link bl (buf_of e) ≡ some (some (length es), bl'))
      × Holds bl' (es ++ (e ∷ []))
unfolding link ◌+ℤ◌
link_lem bl [] e h f = (
  record bl { chain = buf_of e ∷ []; tail = some 0; size = pos 1 },
  ground (arith, h.linked, h.ended, h.sized),
  record { linked = refl; ended = refl; sized = refl; fits = (f, tt) },
)
link_lem bl (x ∷ es) e h f = (
  record bl {
    chain = map buf_of ((x ∷ es) ++ (e ∷ []));
    tail = some (length (x ∷ es));
    size = pos (length (x ∷ es) + 1);
  },
  ground (
    arith,
    h.linked,
    h.ended,
    h.sized,
    length-map buf_of (x ∷ es),
    take-of_length_le (length (x ∷ es)) (map buf_of (x ∷ es)),
    map-append buf_of (x ∷ es) (e ∷ []),
  ),
  record {
    linked = refl;
    ended = ground (arith, length-append (x ∷ es) (e ∷ []));
    sized = ground (arith, length-append (x ∷ es) (e ∷ []));
    fits = All-append_one _ (x ∷ es) e h.fits f;
  },
)

-- In a list with no limit or below it, the bytes go into a new last entry.
push_data_lem :
    (bl : BufferList) (es : List Entry) (bytes : List ℕ)
    → Holds bl es
    → (eq_ℤ bl.max_size (pos 0) || ltb_ℤ (pos (length es)) bl.max_size) ≡ true
    → length bytes < buf_size_max
    → (bl' : BufferList) × (buffer_list_push_data bl (some bytes) (length bytes)
        ≡ some (some (length es), bl'))
      × Holds bl' (es ++ (filled bytes ∷ []))
unfolding buffer_list_push_data
push_data_lem bl es bytes h r k =
    let l = link_lem bl es (filled bytes) h (omega arith) in
    (l.0, ground (arith, h.sized, entry_buf_lem bytes (length bytes) refl k, l.1), l.2)

-- At the limit nothing changes and the answer is NULL.
push_data_full :
    (bl : BufferList) (es : List Entry) (bytes : List ℕ) (n : ℕ)
    → Holds bl es
    → (eq_ℤ bl.max_size (pos 0) || ltb_ℤ (pos (length es)) bl.max_size) ≡ false
    → buffer_list_push_data bl (some bytes) n ≡ some (none, bl)
unfolding buffer_list_push_data
push_data_full bl es bytes n h r = ground (arith, h.sized)

-- `buffer_list_pop` takes the first entry off, and leaves an empty list alone.
pop-Holds :
    (bl : BufferList) (es : List Entry) → Holds bl es → Holds (buffer_list_pop bl) (drop 1 es)
unfolding buffer_list_pop ◌-ℤ◌
pop-Holds bl [] h = record {
  linked = ground (arith, h.linked);
  ended = ground (arith, h.linked, h.ended);
  sized = ground (arith, h.linked, h.sized);
  fits = tt;
}
pop-Holds bl (e ∷ []) h = record {
  linked = ground (arith, h.linked);
  ended = ground (arith, h.linked, h.ended);
  sized = ground (arith, h.linked, h.sized);
  fits = tt;
}
pop-Holds bl (e ∷ x ∷ es) h = record {
  linked = ground (arith, h.linked);
  ended = ground (arith, h.linked, h.ended);
  sized = ground (arith, h.linked, h.sized);
  fits = h.fits.1;
}

-- What is left of the first entry once its bytes `x` are taken off.
abbrev rest_of : List ℕ → List ℕ → List ℕ → List ℕ → List Entry
rest_of pre x [] post = []
rest_of pre x (c ∷ cs) post = record { front = pre ++ x; bytes = c ∷ cs; back = post } ∷ []

-- The list with `x` taken off its first entry, before an empty entry is taken off.
abbrev shortened : BufferList → Entry → List Entry → BufferList
shortened bl e es = record bl { chain = buf_of e ∷ map buf_of es }

shortened-Holds :
    (bl : BufferList) (pre x c post : List ℕ) (es : List Entry)
    → Holds bl (record { front = pre; bytes = x ++ c; back = post } ∷ es)
    → let e : Entry = record { front = pre ++ x; bytes = c; back = post } in
      Holds (shortened bl e es) (e ∷ es)
shortened-Holds bl pre x c post es h = record {
  linked = refl;
  ended = h.ended;
  sized = h.sized;
  fits =
      (omega (arith, h.fits.0, length-append {A = ℕ} pre x, length-append {A = ℕ} x c), h.fits.1);
}

-- `buffer_list_advance` takes bytes off the first entry, and the entry too once it has none left.
advance-Holds :
    (bl : BufferList) (pre x c post : List ℕ) (es : List Entry)
    → Holds bl (record { front = pre; bytes = x ++ c; back = post } ∷ es)
    → (bl' : BufferList) × (buffer_list_advance bl (pos (length x)) ≡ some bl')
      × Holds bl' (rest_of pre x c post ++ es)
unfolding buffer_list_advance buffer_list_peek
advance-Holds bl pre x [] post es h =
    let e : Entry = record { front = pre ++ x; bytes = []; back = post } in
    let s = shortened bl e es in
    (
      buffer_list_pop s,
      ground (
        arith,
        h.linked,
        advance_front pre x [] post (length x) refl,
        len-rep (pre ++ x) [] post,
      ),
      pop-Holds s (e ∷ es) (shortened-Holds bl pre x [] post es h),
    )
advance-Holds bl pre x (c ∷ cs) post es h =
    let e : Entry = record { front = pre ++ x; bytes = c ∷ cs; back = post } in
    (
      shortened bl e es,
      ground (
        arith,
        h.linked,
        advance_front pre x (c ∷ cs) post (length x) refl,
        len-rep (pre ++ x) (c ∷ cs) post,
      ),
      shortened-Holds bl pre x (c ∷ cs) post es h,
    )
