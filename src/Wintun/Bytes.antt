-- ===== src/Wintun/Bytes.antt =====
-- Bytes of a ring: what is read after a write, at the same place and apart from it.
use treiber.Base.{
  ℕ, zero, suc, ◌+◌, ◌≤◌, ◌<◌, ◌^◌, ◌≡◌, ◌⊎◌, refl, ◌∙◌, List, [], ◌∷◌, length, arith,
}
use mathlib.Core.Path.{ap₂}
use treiber.Wintun.{load, store, load_u32, bytes_u32}

pub store_apart :
    (m : ℕ → ℕ) (i : ℕ) (xs : List ℕ) (j : ℕ) → (j < i) ⊎ (i + length xs ≤ j) → store m i xs j ≡ m j
unfolding store
store_apart m i [] j h = refl
store_apart m i (x ∷ xs) j h = ground (arith, store_apart m (suc i) xs j)

-- The same bytes, from functions that agree there.
load_same :
    (f g : ℕ → ℕ) (i n : ℕ) → ((j : ℕ) → i ≤ j → j < i + n → f j ≡ g j) → load f i n ≡ load g i n
unfolding load
load_same f g i zero h = refl
load_same f g i (suc n) h =
    let e = h i (omega arith) (omega arith) in
    let rest = load_same f g (suc i) n (λ j p q. h j (omega arith) (omega arith)) in cc

pub load-store_apart :
    (m : ℕ → ℕ) (i : ℕ) (xs : List ℕ) (j n : ℕ)
    → (j + n ≤ i) ⊎ (i + length xs ≤ j)
    → load (store m i xs) j n ≡ load m j n
load-store_apart m i xs j n h =
    load_same (store m i xs) m j n (λ k p q. store_apart m i xs k (ground arith))

store_here : (m : ℕ → ℕ) (i x : ℕ) (xs : List ℕ) → store m i (x ∷ xs) i ≡ x
unfolding store
store_here m i x xs = ground arith

store_behind :
    (m : ℕ → ℕ) (i x : ℕ) (xs : List ℕ) (j : ℕ)
    → i < j
    → store m i (x ∷ xs) j ≡ store m (suc i) xs j
unfolding store
store_behind m i x xs j h = ground arith

pub load-store : (m : ℕ → ℕ) (i : ℕ) (xs : List ℕ) → load (store m i xs) i (length xs) ≡ xs
unfolding load
load-store m i [] = refl
load-store m i (x ∷ xs) =
    ap₂ (λ y ys. y ∷ ys) (store_here m i x xs)
      (load_same (store m i (x ∷ xs)) (store m (suc i) xs) (suc i) (length xs)
          (λ j p q. store_behind m i x xs j (omega arith))
        ∙ load-store m (suc i) xs)

pub load_u32-store : (m : ℕ → ℕ) (i n : ℕ) → n < 2 ^ 32 → load_u32 (store m i (bytes_u32 n)) i ≡ n
unfolding store
load_u32-store m i n h = ground arith

pub load_u32-store_apart :
    (m : ℕ → ℕ) (i : ℕ) (xs : List ℕ) (j : ℕ)
    → (j + 4 ≤ i) ⊎ (i + length xs ≤ j)
    → load_u32 (store m i xs) j ≡ load_u32 m j
load_u32-store_apart m i xs j h = ground (
  arith,
  store_apart m i xs j,
  store_apart m i xs (j + 1),
  store_apart m i xs (j + 2),
  store_apart m i xs (j + 3),
)
