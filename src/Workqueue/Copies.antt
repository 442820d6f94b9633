-- ===== src/Workqueue/Copies.antt =====
-- The copies of `popSize` and `popAll` against a walk round the ring, slot by slot.
use treiber.Base.{
  ℕ, zero, suc, ◌+◌, ◌-◌, ◌≤◌, ◌<◌, ◌≡◌, ◌≢◌, refl, ◌∙◌, ap, List, [], ◌∷◌, ◌++◌, none, arith,
  length, get_or, set, take, drop, drop-eq-cons, get_or-set_ne, take-append, drop-append,
}
use mathlib.Core.Path.{ap₂}
use native.Mathlib.Nat.{zero-add}
use treiber.Workqueue.{Pointer, slice}
use treiber.Workqueue.Inv.{advance}

-- One slot and then `k` more are `k + 1` slots.
advance_one : (c h k : ℕ) → h < c → k < c → advance c (advance c h 1) k ≡ advance c h (suc k)
advance_one c h k hh hk = ground arith

module _ (buf : List Pointer) (c : ℕ) where
  -- The `n` pointers from slot `h` on.
  abbrev pub window : ℕ → ℕ → List Pointer
  window h zero = []
  window h (suc n) = get_or buf h none ∷ window (advance c h 1) n

  pub length-window : (h n : ℕ) → length (window h n) ≡ n
  length-window h zero = refl
  length-window h (suc n) = ap suc (length-window (advance c h 1) n)

  pub window-append :
      (h k n : ℕ) → h < c → k ≤ c → window h (k + n) ≡ window h k ++ window (advance c h k) n
  window-append h zero n hh hk = let e : advance c h 0 ≡ h = ground arith in rw (e, zero-add)
  window-append h (suc k) n hh hk =
      let e : suc k + n ≡ suc (k + n) = omega arith in
      ap (window h) e
      ∙ ap (λ ws. get_or buf h none ∷ ws)
          (window-append (advance c h 1) k n (ground arith) (omega arith)
            ∙ ap (λ j. window (advance c h 1) k ++ window j n) (advance_one c h k hh hk))

  -- Up to the end of the array the walk is one copy.
  pub window-eq-slice : (h n : ℕ) → c ≤ length buf → h + n ≤ c → window h n ≡ slice buf h n
  window-eq-slice h zero hs hn = refl
  window-eq-slice h (suc zero) hs hn = rw (drop-eq-cons h buf none (omega arith))
  window-eq-slice h (suc (suc n)) hs hn =
      let e : advance c h 1 ≡ suc h = ground arith in
      rw (drop-eq-cons h buf none (omega arith), e)
        (ap (λ ws. get_or buf h none ∷ ws) (window-eq-slice (suc h) (suc n) hs (omega arith)))

  -- Past the end it is two: to the end, and the rest from slot 0.
  pub window-eq-slices :
      (h n : ℕ)
      → c ≤ length buf
      → h < c
      → c < h + n
      → n ≤ c
      → window h n ≡ slice buf h (c - h) ++ slice buf 0 (n - (c - h))
  window-eq-slices h n hs hh hn hc =
      let e : n ≡ (c - h) + (n - (c - h)) = omega arith in
      let w : advance c h (c - h) ≡ 0 = ground arith in
      ap (window h) e
      ∙ window-append h (c - h) (n - (c - h)) hh (omega arith)
      ∙ rw w (
          ap₂ ◌++◌ (window-eq-slice h (c - h) hs (omega arith))
            (window-eq-slice 0 (n - (c - h)) hs (omega arith)))

  -- A removal takes a front part of the walk, and leaves the walk from behind it.
  pub take-window : (h k n : ℕ) → h < c → k ≤ n → n ≤ c → take k (window h n) ≡ window h k
  take-window h k n hh hk hn =
      let e : n ≡ k + (n - k) = omega arith in
      ap (λ m. take k (window h m)) e
      ∙ ap (take k) (window-append h k (n - k) hh (omega arith))
      ∙ take-append k (window h k) (window (advance c h k) (n - k)) (length-window h k)

  pub drop-window :
      (h k n : ℕ) → h < c → k ≤ n → n ≤ c → drop k (window h n) ≡ window (advance c h k) (n - k)
  drop-window h k n hh hk hn =
      let e : n ≡ k + (n - k) = omega arith in
      ap (λ m. drop k (window h m)) e
      ∙ ap (drop k) (window-append h k (n - k) hh (omega arith))
      ∙ drop-append k (window h k) (window (advance c h k) (n - k)) (length-window h k)

-- A write to a slot that the walk does not meet leaves the walk alone.
pub window-set_ne :
    (buf : List Pointer) (c : ℕ) (x : Pointer) (i h n : ℕ)
    → h < c
    → n ≤ c
    → ((k : ℕ) → k < n → i ≢ advance c h k)
    → window (set buf i x) c h n ≡ window buf c h n
window-set_ne buf c x i h zero hh hn ne = refl
window-set_ne buf c x i h (suc n) hh hn ne =
    ap₂ ◌∷◌ (get_or-set_ne buf i h x none (λ e. ne 0 (omega arith) (e ∙ ground arith))) (
      window-set_ne buf c x i (advance c h 1) n (ground arith) (omega arith)
        (λ k hk e. ne (suc k) (omega arith) (e ∙ advance_one c h k hh (omega arith))))
