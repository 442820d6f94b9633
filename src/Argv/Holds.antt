-- ===== src/Argv/Holds.antt =====
-- The arguments that a `struct argv` holds, with NULL in every entry behind them.
use treiber.Base.{
  ℕ, zero, suc, ◌+◌, ◌-◌, ◌<◌, ◌≤◌, ◌^◌, ◌≡◌, refl, sym, ap, ◌∙◌, false, Option, none, some, List,
  [], ◌∷◌, ◌++◌, arith, map, length, take, drop, set, replicate, ltb, ◌==◌, Bool-cases, inl, inr,
  length-append, length-replicate, take-append, append_assoc, set-append, append-nil, drop-append,
  drop-eq-cons, get_or,
}
use treiber.Base.Words.{add_size}
use treiber.Argv.{
  Argv, array_mult_safe, argv_extend, argv_new, argv_grow, argv_append, append_all, argv_clone,
  argv_insert_head, argv_reset, clear_first, append_fields,
}
use treiber.Argv.Grow.{adjust_power_of_2_lem}

-- The array is larger than the number of arguments, so that it ends in NULL.
pub record Holds (a : Argv) (xs : List (Option (List ℕ))) : Type 0 where
  pub counted : a.argc ≡ length xs
  pub room : length xs < a.capacity
  pub stored : a.argv ≡ xs ++ replicate (a.capacity - length xs) none

-- More arguments than these do not fit an array that `array_mult_safe` allows.
abbrev pub max_args : ℕ
max_args = 2 ^ 27

-- Entries that are NULL.
abbrev nulls : ℕ → List (Option (List ℕ))
nulls n = replicate n none

drop-nulls : (n k : ℕ) → drop n (nulls k) ≡ nulls (k - n)
drop-nulls zero k = ap nulls {x = k} (omega arith)
drop-nulls (suc n) zero = ap nulls {x = 0} (omega arith)
drop-nulls (suc n) (suc k) = drop-nulls n k ∙ ap nulls {x = k - n} (omega arith)

set-nulls :
    (xs : List (Option (List ℕ))) (x : Option (List ℕ)) (k : ℕ)
    → 0 < k
    → set (xs ++ nulls k) (length xs) x ≡ (xs ++ (x ∷ [])) ++ nulls (k - 1)
set-nulls xs x zero h = elim h [ ]
set-nulls xs x (suc k) h =
    set-append xs none (nulls k) x
    ∙ sym (append_assoc xs (x ∷ []) (nulls k))
    ∙ ap (λ m. (xs ++ (x ∷ [])) ++ nulls m) {x = k} (omega arith)

extend-Holds :
    (a : Argv) (xs : List (Option (List ℕ))) (n : ℕ)
    → Holds a xs
    → n < 2 ^ 29
    → (b : Argv) × (argv_extend a n ≡ some b) × Holds b xs × (n ≤ b.capacity)
unfolding argv_extend array_mult_safe
extend-Holds a xs n h l = elim (Bool-cases (ltb a.capacity n)) [
  | inl more ↦ (
    record { capacity = n; argc = length xs; argv = xs ++ nulls (n - length xs) },
    ground (
      arith,
      h.counted,
      h.stored,
      take-append (length xs) xs (nulls (a.capacity - length xs)),
      drop-nulls (length xs) n,
    ),
    record { counted = refl; room = ground (arith, h.room); stored = refl },
    omega arith,
  )
  | inr enough ↦ (a, ground arith, h, ground arith)
]

-- One more argument and the NULL behind it have room.
grow-Holds :
    (a : Argv) (xs : List (Option (List ℕ)))
    → Holds a xs
    → length xs < max_args
    → (b : Argv) × (argv_grow a 1 ≡ some b) × Holds b xs × (length xs + 2 ≤ b.capacity)
unfolding argv_grow
grow-Holds a xs h l =
    let g = adjust_power_of_2_lem (length xs + 2) (omega arith) (omega arith) in
    let e = extend-Holds a xs g.0 h (omega (arith, g.3)) in
    let n : a.argc ≡ length xs = h.counted in
    (e.0, ground (arith, n, g.1, e.1), e.2, omega (arith, e.3, g.2))

stored-append :
    (b : Argv) (xs : List (Option (List ℕ))) (x : Option (List ℕ))
    → Holds b xs
    → length xs + 2 ≤ b.capacity
    → set b.argv b.argc x ≡ (xs ++ (x ∷ [])) ++ nulls (b.capacity - length (xs ++ (x ∷ [])))
stored-append b xs x h r =
    rw (h.stored, h.counted)
      (set-nulls xs x (b.capacity - length xs) (omega arith)
        ∙ ap (λ m. (xs ++ (x ∷ [])) ++ nulls m) (omega (arith, length-append xs (x ∷ []))))

-- With fewer than 2 ^ 27 arguments, `argv_append` succeeds and adds one behind them.
append-Holds :
    (a : Argv) (xs : List (Option (List ℕ))) (x : Option (List ℕ))
    → Holds a xs
    → length xs < max_args
    → (b : Argv) × (argv_append a x ≡ some b) × Holds b (xs ++ (x ∷ []))
unfolding argv_append
append-Holds a xs x h l =
    let g = grow-Holds a xs h l in
    let b = g.0 in
    let held : Holds b xs = g.2 in
    (
      record b { argv = set b.argv b.argc x; argc = add_size b.argc 1 },
      rw (argv_append, g.1) refl,
      record {
        counted = omega (arith, held.counted, length-append xs (x ∷ []));
        room = omega (arith, g.3, length-append xs (x ∷ []));
        stored = stored-append b xs x held g.3;
      },
    )

append_all-Holds :
    (ys : List (Option (List ℕ))) (a : Argv) (xs : List (Option (List ℕ)))
    → Holds a xs
    → length xs + length ys < max_args
    → (b : Argv) × (append_all a ys ≡ some b) × Holds b (xs ++ ys)
unfolding append_all
append_all-Holds [] a xs h l = (a, refl, rw append-nil h)
append_all-Holds (y ∷ ys) a xs h l =
    let g = append-Holds a xs y h (omega arith) in
    let r =
      append_all-Holds ys g.0 (xs ++ (y ∷ [])) g.2 (omega (arith, length-append xs (y ∷ []))) in
    (r.0, rw (append_all, g.1) r.1, (rw (append_assoc xs (y ∷ []) ys) at r.2))

pub append_fields-Holds :
    (ss : List (List ℕ)) (a : Argv) (xs : List (Option (List ℕ)))
    → Holds a xs
    → length xs + length ss < max_args
    → (b : Argv) × (append_fields a ss ≡ some b) × Holds b (xs ++ map some ss)
unfolding append_fields
append_fields-Holds [] a xs h l = (a, refl, rw append-nil h)
append_fields-Holds (s ∷ ss) a xs h l =
    let g = append-Holds a xs (some s) h (omega arith) in
    let r =
      append_fields-Holds ss g.0 (xs ++ (some s ∷ [])) g.2
        (omega (arith, length-append xs (some s ∷ []))) in
    (r.0, rw (append_fields, g.1) r.1, (rw (append_assoc xs (some s ∷ []) (map some ss)) at r.2))

new-Holds : (a : Argv) × (argv_new ≡ some a) × Holds a []
unfolding argv_new argv_extend array_mult_safe
new-Holds = (
  record { capacity = 8; argc = 0; argv = nulls 8 },
  refl,
  record { counted = refl; room = omega arith; stored = refl },
)

-- What is in front of the NULLs.
taken : (a : Argv) (xs : List (Option (List ℕ))) → Holds a xs → take a.argc a.argv ≡ xs
taken a xs h =
    rw (h.counted, h.stored) (take-append (length xs) xs (nulls (a.capacity - length xs)) refl)

-- A clone holds NULL in its headroom and then the arguments of its source.
clone-Holds :
    (a : Argv) (xs : List (Option (List ℕ))) (headroom : ℕ)
    → Holds a xs
    → headroom + length xs < max_args
    → (b : Argv) × (argv_clone (some a) headroom ≡ some b) × Holds b (nulls headroom ++ xs)
unfolding argv_clone
clone-Holds a xs headroom h l =
    let len : length (nulls headroom) ≡ headroom = length-replicate headroom none in
    let n = new-Holds in
    let r = append_all-Holds (nulls headroom) n.0 [] n.2 (omega (arith, len)) in
    let t = append_all-Holds xs r.0 (nulls headroom) r.2 (omega (arith, len)) in
    (t.0, rw (argv_clone, n.1, r.1, taken a xs h) t.1, t.2)

-- `argv_insert_head` gives the program's name and then the arguments.
insert_head-Holds :
    (a : Argv) (xs : List (Option (List ℕ))) (head : List ℕ)
    → Holds a xs
    → suc (length xs) < max_args
    → (b : Argv) × (argv_insert_head a head ≡ some b) × Holds b (some head ∷ xs)
unfolding argv_insert_head
insert_head-Holds a xs head h l =
    let c = clone-Holds a xs 1 h (omega arith) in
    let held : Holds c.0 (none ∷ xs) = c.2 in
    (
      record c.0 { argv = set c.0.argv 0 (some head) },
      rw (argv_insert_head, c.1) refl,
      record {
        counted = held.counted;
        room = held.room;
        stored = ap (λ ys. set ys 0 (some head)) held.stored;
      },
    )

nulls_snoc : (n : ℕ) (ys : List (Option (List ℕ))) → nulls n ++ (none ∷ ys) ≡ nulls (suc n) ++ ys
nulls_snoc zero ys = refl
nulls_snoc (suc n) ys = ap (λ zs. none ∷ zs) (nulls_snoc n ys)

nulls_append : (m n : ℕ) → nulls m ++ nulls n ≡ nulls (m + n)
nulls_append zero n = ap nulls {x = n} (omega arith)
nulls_append (suc m) n =
    ap (λ zs. none ∷ zs) (nulls_append m n) ∙ ap nulls {x = suc (m + n)} (omega arith)

clear_lem :
    (n : ℕ) (xs : List (Option (List ℕ))) → n ≤ length xs → clear_first n xs ≡ nulls n ++ drop n xs
unfolding clear_first
clear_lem zero xs h = refl
clear_lem (suc n) xs h =
    let rest = drop (suc n) xs in
    ap (λ ys. set ys n none)
      (clear_lem n xs (omega arith)
        ∙ ap (λ ys. nulls n ++ ys) (drop-eq-cons n xs none (omega arith)))
    ∙ ap (λ i. set (nulls n ++ (get_or xs n none ∷ rest)) i none) (sym (length-replicate n none))
    ∙ set-append (nulls n) (get_or xs n none) rest none
    ∙ nulls_snoc n rest

cleared :
    (a : Argv) (xs : List (Option (List ℕ)))
    → Holds a xs
    → clear_first a.argc a.argv ≡ nulls a.capacity
cleared a xs h =
    let k : ℕ = a.capacity - length xs in
    rw (h.counted, h.stored)
      (clear_lem (length xs) (xs ++ nulls k) (omega (arith, length-append xs (nulls k)))
        ∙ ap (λ ys. nulls (length xs) ++ ys) (drop-append (length xs) xs (nulls k) refl)
        ∙ nulls_append (length xs) k
        ∙ ap nulls (omega (arith, h.room)))

-- `argv_reset` leaves no argument.
pub reset-Holds : (a : Argv) (xs : List (Option (List ℕ))) → Holds a xs → Holds (argv_reset a) []
unfolding argv_reset
reset-Holds a [] h = rw h.counted (record { counted = refl; room = h.room; stored = h.stored })
reset-Holds a (x ∷ xs) h =
    let some_args : (a.argc == 0) ≡ false = ground (arith, h.counted) in
    rw some_args (record {
      counted = refl;
      room = omega (arith, h.room);
      stored = cleared a (x ∷ xs) h ∙ ap nulls {x = a.capacity} (omega arith);
    })
