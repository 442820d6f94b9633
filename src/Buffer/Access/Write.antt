-- ===== src/Buffer/Access/Write.antt =====
-- What `buf_write` and `buf_write_prepend` do to the content of a buffer.
use treiber.Base.{
  ℕ, ◌+◌, ◌-◌, ◌≤◌, ◌<◌, ◌^◌, ◌≡◌, ap, true, false, List, ◌++◌, arith, length, take, drop,
  length-append, length-take, length-drop, append_assoc,
}
use treiber.Base.Int.{pos}
use treiber.Buffer.Memory.{poke-append, poke-front}
use treiber.Buffer.Rep.{rep, Fits, alloc_room, alloc_full, prepend_room, prepend_full}
use treiber.Buffer.Access.{store, buf_write, buf_write_prepend}

-- `src` stored behind the content, once the content has been lengthened.
store_end :
    (pre c post src : List ℕ) (n : ℕ)
    → length src ≡ n
    → n ≤ length post
    → store (length pre + length c) src (record (rep pre c post) { len = pos (length c + n) })
      ≡ rep pre (c ++ src) (drop n post)
store_end pre c post src n e h = ground (
  arith,
  length-append {A = ℕ} c src,
  length-append {A = ℕ} pre c,
  length-drop {A = ℕ} n post,
  poke-append (pre ++ c) post src (length pre + length c),
  append_assoc pre c post,
  append_assoc pre c (src ++ drop n post),
  append_assoc c src (drop n post),
)

-- `src` stored in front of the content, once the offset has been moved down.
store_front :
    (pre c post src : List ℕ) (n : ℕ)
    → length src ≡ n
    → n ≤ length pre
    → store
        (length pre - n)
        src
        (record (rep pre c post) { offset = length pre - n; len = pos (length c + n) })
      ≡ rep (take (length pre - n) pre) (src ++ c) post
store_front pre c post src n e h = ground (
  arith,
  length-append {A = ℕ} src c,
  length-take {A = ℕ} (length pre - n) pre,
  poke-front pre (c ++ post) src (length pre - n),
  append_assoc src c post,
)

-- With room behind the content `buf_write` appends the bytes and says so.
pub write_room :
    (pre c post src : List ℕ) (n : ℕ)
    → Fits pre c post
    → n ≤ length src
    → n ≤ length post
    → buf_write (rep pre c post) src (pos n) ≡ (true, rep pre (c ++ take n src) (drop n post))
unfolding buf_write
write_room pre c post src n f hs hp = rw (alloc_room pre c post n f hp) (
    ap (λ b. (true, b))
      (store_end pre c post (take n src) n (omega (arith, length-take {A = ℕ} n src)) hp))

-- Without it `buf_write` refuses and changes nothing.
pub write_full :
    (pre c post src : List ℕ) (n : ℕ)
    → length post < n
    → n < 2 ^ 31
    → buf_write (rep pre c post) src (pos n) ≡ (false, rep pre c post)
unfolding buf_write
write_full pre c post src n h k = rw (alloc_full pre c post n h k)

-- `buf_write_prepend` puts the bytes in front, if there is room before the content.
write_prepend_room :
    (pre c post src : List ℕ) (n : ℕ)
    → n ≤ length src
    → n ≤ length pre
    → buf_write_prepend (rep pre c post) src (pos n)
      ≡ (true, rep (take (length pre - n) pre) (take n src ++ c) post)
unfolding buf_write_prepend
write_prepend_room pre c post src n hs hp = rw (prepend_room pre c post n hp) (
    ap (λ b. (true, b))
      (store_front pre c post (take n src) n (omega (arith, length-take {A = ℕ} n src)) hp))

write_prepend_full :
    (pre c post src : List ℕ) (n : ℕ)
    → length pre < n
    → buf_write_prepend (rep pre c post) src (pos n) ≡ (false, rep pre c post)
unfolding buf_write_prepend
write_prepend_full pre c post src n h = rw (prepend_full pre c post n h)
