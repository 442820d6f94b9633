-- ===== src/Argv.antt =====
-- `Treiber/lib/argv.c`, with `array_mult_safe` of `Treiber/lib/buffer.c` and `adjust_power_of_2` of
-- `Treiber/lib/integer.h`: the arguments of a program that is started. A string is the list of its
-- characters, and a NULL pointer is `none`. The outer `none` is a fatal message or a failed
-- assertion. What `vsnprintf` makes of a format is a parameter.
pub mod Grow
pub mod Holds
pub mod Words
pub mod Printf
mod Tests
use treiber.Base.{
  ℕ, zero, suc, ◌+◌, ◌*◌, ◌%◌, ◌^◌, Bool, true, false, not, ◌||◌, Option, none, some, List, [], ◌∷◌,
  ◌++◌, ltb, ◌==◌, if◌then◌else◌, length, take, drop, set, replicate, get_or,
}
use treiber.Base.Words.{size_mod, add_size}

-- `argv` is the array of `capacity` entries.
pub record Argv : Type 0 where
  pub capacity : ℕ
  pub argc : ℕ
  pub argv : List (Option (List ℕ))

-- A product above 0xFFFFFFFF is fatal.
pub array_mult_safe : ℕ → ℕ → ℕ → Option ℕ
array_mult_safe m1 m2 extra =
    let limit : ℕ = 4_294_967_295 in
    let res : ℕ = (m1 * m2 + extra) % size_mod in
    if ltb limit m1 || ltb limit m2 || ltb limit extra || ltb limit res then none else some res

-- The loop on fuel: a one that is shifted 64 times is 0, and fails the assertion.
pub adjust_loop : ℕ → ℕ → ℕ → Option ℕ
adjust_loop zero ret u = none
adjust_loop (suc fuel) ret u =
    let next : ℕ = ret * 2 % size_mod in
    let rest = adjust_loop fuel next u in
    if ltb ret u then if next == 0 then none else rest else some ret

pub adjust_power_of_2 : ℕ → Option ℕ
adjust_power_of_2 u = adjust_loop 65 1 u

-- A pointer has 8 bytes.
pub argv_extend : Argv → ℕ → Option Argv
unfolding array_mult_safe
argv_extend a newcap =
    if ltb a.capacity newcap
    then elim (array_mult_safe 8 newcap 0) [
      | none ↦ none
      | some bytes ↦ some (record {
        capacity = newcap;
        argc = a.argc;
        argv = take a.argc a.argv ++ drop a.argc (replicate newcap none);
      })
    ]
    else some a

pub argv_new : Option Argv
unfolding argv_extend
argv_new = argv_extend (record { capacity = 0; argc = 0; argv = [] }) 8

-- The loop over the first entries.
pub clear_first : ℕ → List (Option (List ℕ)) → List (Option (List ℕ))
clear_first zero xs = xs
clear_first (suc n) xs = set (clear_first n xs) n none

pub argv_reset : Argv → Argv
unfolding clear_first
argv_reset a =
    if not (a.argc == 0) then record a { argv = clear_first a.argc a.argv; argc = 0 } else a

pub argv_grow : Argv → ℕ → Option Argv
argv_grow a add =
    let newargc = add_size (add_size a.argc add) 1 in
    if ltb a.argc newargc
    then elim (adjust_power_of_2 newargc) [ none ↦ none | some n ↦ argv_extend a n ]
    else none

pub argv_append : Argv → Option (List ℕ) → Option Argv
unfolding argv_grow
argv_append a str = elim (argv_grow a 1) [
  | none ↦ none
  | some b ↦ some (record b { argv = set b.argv b.argc str; argc = add_size b.argc 1 })
]

pub append_all : Argv → List (Option (List ℕ)) → Option Argv
unfolding argv_append
append_all a [] = some a
append_all a (x ∷ xs) = elim (argv_append a x) [ none ↦ none | some b ↦ append_all b xs ]

-- `string_alloc` copies a string, and NULL gives NULL.
pub argv_clone : Option Argv → ℕ → Option Argv
argv_clone source headroom = elim argv_new [
  | none ↦ none
  | some r ↦ elim (append_all r (replicate headroom none)) [
    | none ↦ none
    | some r' ↦ elim source [ none ↦ some r' | some a ↦ append_all r' (take a.argc a.argv) ]
  ]
]

pub argv_insert_head : Argv → List ℕ → Option Argv
unfolding argv_clone
argv_insert_head a head = elim (argv_clone (some a) 1) [
  | none ↦ none
  | some r ↦ some (record r { argv = set r.argv 0 (some head) })
]

-- The loop of `argv_prep_format`: what it writes from here on, and `*count`. `written` is `j > 0`.
pub prep_loop : List ℕ → ℕ → Bool → Bool → ℕ → List ℕ × ℕ
prep_loop [] delim in_token written count = ([], count)
prep_loop (c ∷ s) delim in_token written count =
    let skipped = prep_loop s delim false written count in
    let (inside, n) = prep_loop s delim true true count in
    let (first, k) = prep_loop s delim true true (add_size count 1) in
    if c == 32
    then skipped
    else if in_token
    then (c ∷ inside, n)
    else ((if written then delim ∷ c ∷ first else c ∷ first), k)

pub argv_prep_format : List ℕ → ℕ → ℕ → List ℕ × ℕ
unfolding prep_loop
argv_prep_format format delim count = prep_loop format delim false false count

-- ASCII Group Separator.
abbrev pub group_separator : ℕ
group_separator = 29

-- The string up to the first delimiter, and the strings behind it.
pub split : List ℕ → ℕ → List ℕ × List (List ℕ)
split [] delim = ([], [])
split (c ∷ s) delim =
    let (field, rest) = split s delim in
    if c == delim then ([], field ∷ rest) else (c ∷ field, rest)

-- The arguments that the loop over the delimiters appends.
pub append_fields : Argv → List (List ℕ) → Option Argv
append_fields a [] = some a
append_fields a (s ∷ ss) = elim (argv_append a (some s)) [
  | none ↦ none
  | some b ↦ append_fields b ss
]

-- `print` is `vsnprintf` with the arguments: the string of a format, or none where it fails.
pub argv_printf_arglist : (List ℕ → Option (List ℕ)) → Argv → List ℕ → Option (Bool × Argv)
argv_printf_arglist print argres format =
    let (f, argc) = argv_prep_format format group_separator argres.argc in
    elim (print f) [
      | none ↦ some (false, argres)
      | some buf ↦
          let (field, rest) = split buf group_separator in
          elim (append_fields argres (field ∷ rest)) [
            | none ↦ none
            | some a ↦ some (if not (a.argc == argc) then (false, argv_reset a) else (true, a))
          ]
    ]

pub argv_printf : (List ℕ → Option (List ℕ)) → Argv → List ℕ → Option (Bool × Argv)
argv_printf print argres format = argv_printf_arglist print (argv_reset argres) format

argv_printf_cat : (List ℕ → Option (List ℕ)) → Argv → List ℕ → Option (Bool × Argv)
argv_printf_cat print argres format = argv_printf_arglist print argres format

-- `parse_line` of the option parser is a parameter: the words of a command.
argv_parse_cmd : (List ℕ → List (List ℕ)) → Argv → List ℕ → Option Argv
argv_parse_cmd parse_line argres cmdstr =
    let a = argv_reset argres in
    elim (parse_line cmdstr) [
      | [] ↦ argv_append a (some cmdstr)
      | s ∷ ss ↦ append_fields a (s ∷ ss)
    ]
