-- ===== src/EnvSet/Array.antt =====
-- `make_env_array`: the array of a set, and that its assertion holds.
use treiber.Base.{
  ℕ, zero, suc, ◌+◌, ◌-◌, ◌<◌, ◌≤◌, ◌≡◌, refl, ap, Bool, not, ◌||◌, Option, none, some, List, [],
  ◌∷◌, ◌++◌, arith, map, length, set, replicate, if◌then◌else◌, length-append, length-map,
  append_assoc, set-append,
}
use treiber.EnvSet.{EnvSet, env_allowed, fill_array, make_env_array}

-- The items that the array is to hold.
pub kept : Bool → Bool → List (List ℕ) → List (List ℕ)
kept passwords check [] = []
kept passwords check (e ∷ l) =
    if not check || env_allowed passwords e
    then e ∷ kept passwords check l
    else kept passwords check l

length-kept-le :
    (passwords check : Bool) (l : List (List ℕ)) → length (kept passwords check l) ≤ length l
unfolding kept
length-kept-le passwords check [] = omega arith
length-kept-le passwords check (e ∷ l) = ground (arith, length-kept-le passwords check l)

-- `k` entries are left; those in use are `done`.
fill_lem :
    (passwords check : Bool) (n : ℕ) (l : List (List ℕ)) (done : List (Option (List ℕ))) (k : ℕ)
    → length done + length l ≤ n
    → length l ≤ k
    → let new = kept passwords check l in
      fill_array passwords check n l (length done) (done ++ replicate k none)
      ≡ some (done ++ (map some new ++ replicate (k - length new) none), length done + length new)
unfolding fill_array kept
fill_lem passwords check n [] done k h g = ground arith
fill_lem passwords check n (e ∷ l) done zero h g = absurd (omega arith)
fill_lem passwords check n (e ∷ l) done (suc k) h g = ground (
  arith,
  fill_lem passwords check n l (done ++ (some e ∷ [])) k,
  fill_lem passwords check n l done (suc k),
  set-append done none (replicate k none) (some e),
  length-append done (some e ∷ []),
  append_assoc done (some e ∷ []) (replicate k none),
  append_assoc done (some e ∷ [])
      (map some (kept passwords check l) ++ replicate (k - length (kept passwords check l)) none),
)

-- The final NULL is there already.
set_null :
    (xs : List (Option (List ℕ))) (k i : ℕ)
    → i ≡ length xs
    → set (xs ++ replicate k none) i none ≡ xs ++ replicate k none
set_null [] zero i e = refl
set_null [] (suc k) zero e = refl
set_null [] (suc k) (suc i) e = absurd (omega arith)
set_null (x ∷ xs) k zero e = absurd (omega arith)
set_null (x ∷ xs) k (suc i) e = ap (λ ys. x ∷ ys) (set_null xs k i (omega arith))

-- The array of a set is its items, in order and without the forbidden ones if those are left out,
-- and NULL in every entry behind them; there is at least one such entry, and no assertion fails.
make_env_array_lem :
    (passwords check : Bool) (es : EnvSet)
    → let new = kept passwords check es.list in
      (make_env_array passwords check es
        ≡ some (map some new ++ replicate (length es.list + 1 - length new) none))
      × (length new < length es.list + 1)
unfolding make_env_array
make_env_array_lem passwords check es =
    let new = kept passwords check es.list in
    let less : length new ≤ length es.list = length-kept-le passwords check es.list in
    (
      rw
          (
            make_env_array,
            fill_lem passwords check (length es.list) es.list [] (length es.list + 1) (omega arith)
                (omega arith),
          )
          (ap some (
            set_null (map some new) (length es.list + 1 - length new) _
              (omega (arith, length-map some new)))),
      omega arith,
    )
