-- ===== src/Buffer/Memory.antt =====
-- Bytes at an index of a block of memory: `memcpy` to it and from it.
use treiber.Base.{
  ℕ, ◌+◌, ◌≡◌, sym, ap, ◌∙◌, List, ◌++◌, length, take, drop, arith, take-append, drop-append,
  drop-drop, take-append_le,
}
use mathlib.Core.Path.{ap₂}

-- The `n` bytes from index `i` on.
abbrev pub peek : ℕ → ℕ → List ℕ → List ℕ
peek i n mem = take n (drop i mem)

-- `mem` with the bytes from index `i` on overwritten by `src`.
abbrev pub poke : ℕ → List ℕ → List ℕ → List ℕ
poke i src mem = take i mem ++ (src ++ drop (i + length src) mem)

pub peek-append :
    (pre c post : List ℕ) (i n : ℕ)
    → i ≡ length pre
    → n ≡ length c
    → peek i n (pre ++ (c ++ post)) ≡ c
peek-append pre c post i n hi hn =
    ap (take n) (drop-append i pre (c ++ post) (sym hi)) ∙ take-append n c post (sym hn)

-- Bytes written behind `pre` replace as many as they are.
pub poke-append :
    (pre rest src : List ℕ) (i : ℕ)
    → i ≡ length pre
    → poke i src (pre ++ rest) ≡ pre ++ (src ++ drop (length src) rest)
poke-append pre rest src i hi =
    ap₂ (λ a b. a ++ (src ++ b)) (take-append i pre rest (sym hi))
      (sym (drop-drop i (length src) (pre ++ rest))
        ∙ ap (drop (length src)) (drop-append i pre rest (sym hi)))

-- Bytes written over the end of `pre`.
pub poke-front :
    (pre rest src : List ℕ) (i : ℕ)
    → i + length src ≡ length pre
    → poke i src (pre ++ rest) ≡ take i pre ++ (src ++ rest)
poke-front pre rest src i h =
    ap₂ (λ a b. a ++ (src ++ b)) (take-append_le i pre rest (omega arith))
      (drop-append (i + length src) pre rest (sym h))
