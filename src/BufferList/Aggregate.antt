-- ===== src/BufferList/Aggregate.antt =====
-- `buffer_list_aggregate_separator` and `buffer_list_aggregate`: the first entries become one.
use treiber.Base.{
  ℕ, suc, zero, ◌⊎◌, ◌+◌, ◌-◌, ◌<◌, ◌≤◌, ◌^◌, ◌≡◌, refl, sym, ap, ◌∙◌, Bool, none, some, List, [],
  ◌∷◌, ◌++◌, arith, map, length, take, drop, All, ltb, leb, ◌==◌, if◌then◌else◌, length-append,
  length-replicate, replicate, length-drop, Bool-cases, inl, inr, drop-drop, append-nil,
  append_assoc, take-append-drop, take-map, drop-map, take-of_length_le,
}
use mathlib.Core.Path.{ap₂}
use treiber.Base.Int.{pos, ◌-ℤ◌}
use treiber.Base.Words.{size_mod}
use treiber.Buffer.{Buffer, buf_size_max}
use treiber.Buffer.Rep.{rep, Fits, alloc_buf_lem}
use treiber.Buffer.Access.{buf_write, buf_copy}
use treiber.Buffer.Access.Write.{write_room}
use treiber.Buffer.Access.Copies.{copy_room}
use treiber.Buffer.Access.Read.{len-rep}
use treiber.BufferList.{
  BufferList, no_head, count_loop, copy_loop, buffer_list_aggregate_separator,
  buffer_list_aggregate,
}
use treiber.BufferList.Holds.{Entry, buf_of, contents, Holds}

-- The contents one after the other, each with the separator behind it.
pub joined : List ℕ → List (List ℕ) → List ℕ
joined sep [] = []
joined sep (c ∷ cs) = c ++ (sep ++ joined sep cs)

-- The first `k` contents made one.
abbrev pub merged : List ℕ → ℕ → List (List ℕ) → List (List ℕ)
merged sep k cs = joined sep (take k cs) ∷ drop k cs

-- One round of the copies.
copy_step :
    (c sep pre d post front back : List ℕ)
    → Fits pre d post
    → length c + length sep ≤ length post
    → (buf_write (buf_copy (rep pre d post) (rep front c back)).1 sep (pos (length sep))).1
      ≡ rep pre (d ++ (c ++ sep)) (drop (length c + length sep) post)
copy_step c sep pre d post front back f h =
    let n : length (drop (length c) post) ≡ length post - length c = length-drop (length c) post in
    rw (copy_room pre d post front c back f (omega arith)) (
      ap (λ (r : Bool × Buffer). r.1)
        (write_room pre (d ++ c) (drop (length c) post) sep (length sep)
          (omega (arith, f, n, length-append {A = ℕ} d c)) (omega arith) (omega (arith, n)))
      ∙ rw (
        take-of_length_le (length sep) sep (omega arith),
        drop-drop (length c) (length sep) post,
        append_assoc d c sep,
      ))

-- The copies append each content and the separator, if there is room for all of them.
copy_loop_lem :
    (es : List Entry) (sep pre d post : List ℕ)
    → Fits pre d post
    → length (joined sep (contents es)) ≤ length post
    → copy_loop (map buf_of es) sep (rep pre d post)
      ≡ rep pre (d ++ joined sep (contents es)) (drop (length (joined sep (contents es))) post)
unfolding copy_loop joined
copy_loop_lem [] sep pre d post f h = rw append-nil refl
copy_loop_lem (e ∷ es) sep pre d post f h =
    let c = e.bytes in
    let more = joined sep (contents es) in
    let k : ℕ = length c + length sep in
    let l : length (c ++ (sep ++ more)) ≡ k + length more =
      omega (arith, length-append {A = ℕ} c (sep ++ more), length-append {A = ℕ} sep more) in
    let n : length (drop k post) ≡ length post - k = length-drop k post in
    ap (copy_loop (map buf_of es) sep)
      (copy_step c sep pre d post e.front e.back f (omega (arith, l)))
    ∙ copy_loop_lem es sep pre (d ++ (c ++ sep)) (drop k post)
        (omega (arith, n, length-append {A = ℕ} d (c ++ sep), length-append {A = ℕ} c sep))
        (omega (arith, n, l))
    ∙ rw
        (l, drop-drop k (length more) post, append_assoc d (c ++ sep) more, append_assoc c sep more)

-- No more entries than the first `k` stay, with their separators, within a limit.
abbrev pub Most : List ℕ → ℕ → ℕ → ℕ → List (List ℕ) → Type 0
Most sep size max_len k cs =
    (k ≡ length cs) ⊎ (max_len < size + length (joined sep (take (suc k) cs)))

Most-suc :
    (sep c : List ℕ) (cs : List (List ℕ)) (size max_len k : ℕ)
    → Most sep (size + (length c + length sep)) max_len k cs
    → Most sep size max_len (suc k) (c ∷ cs)
unfolding joined
Most-suc sep c cs size max_len k (inl all) = inl (ap suc all)
Most-suc sep c cs size max_len k (inr over) =
    let more = joined sep (take (suc k) cs) in
    inr (omega (arith, over, length-append {A = ℕ} c (sep ++ more), length-append {A = ℕ} sep more))

Most-zero :
    (sep c : List ℕ) (cs : List (List ℕ)) (size max_len : ℕ)
    → max_len < size + (length c + length sep)
    → Most sep size max_len 0 (c ∷ cs)
unfolding joined
Most-zero sep c cs size max_len over =
    inr (omega (arith, over, length-append {A = ℕ} c (sep ++ []), length-append {A = ℕ} sep []))

-- The count is of the longest first part of the list whose bytes with their separators do not exceed
-- the limit, and the size is the number of these bytes.
count_loop_lem :
    (es : List Entry) (sep : List ℕ) (max_len count size : ℕ)
    → All (λ (e : Entry). Fits e.front e.bytes e.back) es
    → max_len + buf_size_max + length sep < size_mod
    → size ≤ max_len
    → (k : ℕ) × (count_loop (map buf_of es) max_len (length sep) count size
        ≡ (count + k, size + length (joined sep (take k (contents es)))))
      × (k ≤ length es)
      × (size + length (joined sep (take k (contents es))) ≤ max_len)
      × Most sep size max_len k (contents es)
unfolding count_loop joined
count_loop_lem [] sep max_len count size f w h =
    (0, ground arith, omega arith, omega arith, inl refl)
count_loop_lem (e ∷ es) sep max_len count size f w h =
    let c = e.bytes in
    let extra : ℕ = length c + length sep in
    let small : extra < size_mod - max_len = omega (arith, f.0) in
    elim (Bool-cases (ltb max_len (size + extra))) [
      | inl over ↦ (
        0,
        ground (arith, len-rep e.front c e.back),
        omega arith,
        omega arith,
        Most-zero sep c (contents es) size max_len (ground (arith, over)),
      )
      | inr fits ↦
          let r = count_loop_lem es sep max_len (suc count) (size + extra) f.1 w (ground arith) in
          (
            suc r.0,
            ground (
              arith,
              len-rep e.front c e.back,
              r.1,
              length-append {A = ℕ} c (sep ++ joined sep (take r.0 (contents es))),
              length-append {A = ℕ} sep (joined sep (take r.0 (contents es))),
            ),
            omega (arith, r.2),
            omega (
              arith,
              r.3,
              length-append {A = ℕ} c (sep ++ joined sep (take r.0 (contents es))),
              length-append {A = ℕ} sep (joined sep (take r.0 (contents es))),
            ),
            Most-suc sep c (contents es) size max_len r.0 r.4,
          )
    ]

-- The list with its first `k` entries, of `size` bytes, made one.
abbrev aggregated : List Entry → List ℕ → ℕ → ℕ → List Entry
aggregated es sep k size =
    let text = joined sep (contents (take k es)) in
    record { front = []; bytes = text; back = drop (length text) (replicate (size + 1) 0) }
    ∷ drop k es

drop-All : (P : Entry → Type 0) (k : ℕ) (es : List Entry) → All P es → All P (drop k es)
drop-All P zero es h = h
drop-All P (suc k) [] h = h
drop-All P (suc k) (e ∷ es) h = drop-All P k es h.1

no_head-map : (es : List Entry) → no_head (map buf_of es) ≡ (length es == 0)
no_head-map [] = refl
no_head-map (e ∷ es) = ground arith

aggregated-Holds :
    (bl : BufferList) (es : List Entry) (sep : List ℕ) (k size : ℕ)
    → Holds bl es
    → 2 ≤ k
    → k ≤ length es
    → size ≡ length (joined sep (contents (take k es)))
    → size + 1 < buf_size_max
    → Holds
        (record bl {
          chain = map buf_of (aggregated es sep k size);
          size = bl.size -ℤ (pos k -ℤ pos 1);
          tail =
              if no_head (map buf_of (drop k es))
              then some 0
              else elim bl.tail [ none ↦ none | some t ↦ some (suc t - k) ];
        })
        (aggregated es sep k size)
unfolding ◌-ℤ◌
aggregated-Holds bl es sep k size h two le e s =
    let n : length (drop k es) ≡ length es - k = length-drop k es in
    let t : List ℕ = joined sep (contents (take k es)) in
    record {
      linked = refl;
      ended = rw (no_head-map (drop k es)) (ground (arith, h.ended, n));
      sized = ground (arith, h.sized, n);
      fits = (
        omega (
          arith,
          length-drop {A = ℕ} (length t) (replicate (size + 1) 0),
          length-replicate {A = ℕ} (size + 1) 0,
        ),
        drop-All _ k es h.fits,
      );
    }

-- What the copies put into the new buffer.
copied :
    (es : List Entry) (sep : List ℕ) (k size : ℕ)
    → size ≡ length (joined sep (contents (take k es)))
    → size + 1 < buf_size_max
    → let text = joined sep (contents (take k es)) in
      copy_loop (take k (map buf_of es)) sep (rep [] [] (replicate (size + 1) 0))
      ≡ rep [] text (drop (length text) (replicate (size + 1) 0))
copied es sep k size e s =
    let n : length {A = ℕ} (replicate (size + 1) 0) ≡ size + 1 = length-replicate (size + 1) 0 in
    rw (take-map buf_of k es) (
      copy_loop_lem (take k es) sep [] [] (replicate (size + 1) 0) (omega (arith, n))
        (omega (arith, n)))

-- In a list of entries whose sizes do not overflow, and with a limit below BUF_SIZE_MAX - 1, the first
-- `k` entries whose bytes, each with the separator behind it, do not exceed the limit become one
-- entry of these bytes if there are two or more; the others stay as they are.
pub aggregate_separator-Holds :
    (bl : BufferList) (es : List Entry) (max_len : ℕ) (sep : List ℕ)
    → Holds bl es
    → max_len + 1 < buf_size_max
    → length sep < 2 ^ 31
    → (k : ℕ) × (bl' : BufferList) × (es' : List Entry) × (buffer_list_aggregate_separator bl
          max_len sep
        ≡ some bl')
      × Holds bl' es'
      × (contents es' ≡ (if leb 2 k then merged sep k (contents es) else contents es))
      × (length (joined sep (take k (contents es))) ≤ max_len)
      × Most sep 0 max_len k (contents es)
unfolding buffer_list_aggregate_separator
aggregate_separator-Holds bl es max_len sep h m w =
    let r = count_loop_lem es sep max_len 0 0 h.fits (omega arith) (omega arith) in
    let k : ℕ = r.0 in
    let size : ℕ = length (joined sep (take k (contents es))) in
    elim (Bool-cases (leb 2 k)) [
      | inl two ↦ (
        k,
        _,
        aggregated es sep k size,
        ground (
          arith,
          h.linked,
          r.1,
          two,
          alloc_buf_lem (size + 1),
          drop-map buf_of k es,
          copied es sep k size,
          take-map (λ (e : Entry). e.bytes) k es,
        ),
        aggregated-Holds bl es sep k size h (ground arith) r.2
            (ap (λ cs. length (joined sep cs)) (take-map (λ (e : Entry). e.bytes) k es))
            (omega (arith, r.3)),
        rw two (
            ap₂ (λ x y. joined sep x ∷ y) (sym (take-map (λ (e : Entry). e.bytes) k es))
              (sym (drop-map (λ (e : Entry). e.bytes) k es))),
        omega (arith, r.3),
        r.4,
      )
      | inr less ↦
          (k, bl, es, ground (arith, h.linked, r.1, less), h, rw less refl, omega (arith, r.3), r.4)
    ]

joined-append :
    (sep : List ℕ) (xs ys : List (List ℕ)) → joined sep (xs ++ ys) ≡ joined sep xs ++ joined sep ys
unfolding joined
joined-append sep [] ys = refl
joined-append sep (x ∷ xs) ys =
    rw
      (
        joined-append sep xs ys,
        append_assoc x (sep ++ joined sep xs) (joined sep ys),
        append_assoc sep (joined sep xs) (joined sep ys),
      )
      refl

-- Without a separator nothing of the stream of bytes changes.
merged-stream : (k : ℕ) (cs : List (List ℕ)) → joined [] (merged [] k cs) ≡ joined [] cs
unfolding joined
merged-stream k cs =
    sym (joined-append [] (take k cs) (drop k cs)) ∙ ap (joined []) (take-append-drop k cs)

-- `buffer_list_aggregate` with a limit below BUF_SIZE_MAX - 1 succeeds. It makes one entry of the most first
-- entries whose contents stay within the limit, if these are two or more, and leaves the others; the
-- contents of all entries, one after the other, are as they were.
pub aggregate-stream :
    (bl : BufferList) (es : List Entry) (max_len : ℕ)
    → Holds bl es
    → max_len + 1 < buf_size_max
    → (k : ℕ) × (bl' : BufferList) × (es' : List Entry) × (buffer_list_aggregate bl max_len
        ≡ some bl')
      × Holds bl' es'
      × (contents es' ≡ (if leb 2 k then merged [] k (contents es) else contents es))
      × (length (joined [] (take k (contents es))) ≤ max_len)
      × Most [] 0 max_len k (contents es)
      × (joined [] (contents es') ≡ joined [] (contents es))
unfolding buffer_list_aggregate
aggregate-stream bl es max_len h m =
    let (k, bl', es', e, h', c, l, most) =
      aggregate_separator-Holds bl es max_len [] h m (omega arith) in
    (
      k,
      bl',
      es',
      e,
      h',
      c,
      l,
      most,
      ap (joined []) c ∙ elim (Bool-cases (leb 2 k)) [
        | inl two ↦ rw two (merged-stream k (contents es))
        | inr less ↦ rw less refl
      ],
    )
