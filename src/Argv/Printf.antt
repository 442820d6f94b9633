-- ===== src/Argv/Printf.antt =====
-- `argv_printf`: the words of a format become the arguments.
use treiber.Base.{
  ℕ, ◌+◌, ◌<◌, ◌≤◌, ◌≡◌, ◌≢◌, refl, sym, ap, ◌∙◌, Bool, true, false, not, Option, some, List, [],
  ◌∷◌, ◌++◌, map, arith, length, All, ◌==◌, if◌then◌else◌, Bool-cases, inl, inr, append-nil,
  length-map,
}
use mathlib.Core.Path.{subst}
use treiber.Base.Words.{size_mod}
use treiber.Argv.Words.{cons_word, scan, words, delimited, between, prep_format_lem}
use treiber.Argv.{
  Argv, argv_prep_format, group_separator, split, append_fields, argv_reset, argv_printf_arglist,
  argv_printf,
}
use treiber.Argv.Holds.{Holds, max_args, append_fields-Holds, reset-Holds}

-- The strings between the delimiters.
pub fields : ℕ → List ℕ → List (List ℕ)
fields delim s = (split s delim).0 ∷ (split s delim).1

length-fields-le : (delim : ℕ) (s : List ℕ) → length (fields delim s) ≤ length s + 1
unfolding fields split
length-fields-le delim [] = omega arith
length-fields-le delim (c ∷ s) = ground (arith, length-fields-le delim s)

-- The calls of `argv_printf_arglist`, where each of them succeeds.
arglist_lem :
    (print : List ℕ → Option (List ℕ)) (a b : Argv) (format buf f : List ℕ) (k : ℕ)
    → argv_prep_format format group_separator a.argc ≡ (f, k)
    → print f ≡ some buf
    → append_fields a (fields group_separator buf) ≡ some b
    → argv_printf_arglist print a format
      ≡ some (if not (b.argc == k) then (false, argv_reset b) else (true, b))
unfolding argv_printf_arglist fields
arglist_lem print a b format buf f k e p q = ground arith

-- For every `print`: if it makes `buf` of the prepared format, `argv_printf` answers whether `buf` has
-- as many fields as the format has words. If so the fields are the arguments; if not, as where an
-- argument brings in a delimiter, there are none.
pub printf-Holds :
    (print : List ℕ → Option (List ℕ)) (a : Argv) (xs : List (Option (List ℕ)))
    (format buf : List ℕ)
    → Holds a xs
    → length format < size_mod
    → length buf + 1 < max_args
    → print (between group_separator (words format)) ≡ some buf
    → let fs = fields group_separator buf in
      (b : Argv) × (argv_printf print a format ≡ some (length fs == length (words format), b))
      × Holds b (if length fs == length (words format) then map some fs else [])
unfolding argv_printf
printf-Holds print a xs format buf h l k p =
    let start : Holds (argv_reset a) [] = reset-Holds a xs h in
    let fs = fields group_separator buf in
    let r =
      append_fields-Holds fs (argv_reset a) [] start
        (omega (arith, length-fields-le group_separator buf)) in
    let n : r.0.argc ≡ length fs = r.2.counted ∙ length-map some fs in
    let prepared : argv_prep_format format group_separator (argv_reset a).argc
        ≡ (between group_separator (words format), length (words format)) =
      rw start.counted (
        prep_format_lem format group_separator 0 (omega arith)
        ∙ ap (λ k. (between group_separator (words format), k)) (omega arith)) in
    let result : Bool → Option (Bool × Argv) =
      λ t. some (if not t then (false, argv_reset r.0) else (true, r.0)) in
    let answer =
      arglist_lem print (argv_reset a) r.0 format buf (between group_separator (words format))
        (length (words format)) prepared p r.1 in
    elim (Bool-cases (length fs == length (words format))) [
      | inl e ↦ (
        r.0,
        answer
            ∙ ap result (ap (λ m. m == length (words format)) n ∙ e)
            ∙ ap (λ t. some (t, r.0)) (sym e),
        rw e r.2,
      )
      | inr e ↦ (
        argv_reset r.0,
        answer
            ∙ ap result (ap (λ m. m == length (words format)) n ∙ e)
            ∙ ap (λ t. some (t, argv_reset r.0)) (sym e),
        rw e (reset-Holds r.0 (map some fs) r.2),
      )
    ]

-- Words that have no delimiter in them come back from between the delimiters.
fields-append :
    (delim : ℕ) (w : List ℕ) (ws : List (List ℕ))
    → All (λ c. c ≢ delim) w
    → fields delim (w ++ delimited delim ws)
      ≡ (w ++ (split (delimited delim ws) delim).0) ∷ (split (delimited delim ws) delim).1
unfolding fields split
fields-append delim [] ws h = refl
fields-append delim (c ∷ w) ws h = ground (arith, h.0, fields-append delim w ws h.1)

split-delimited :
    (delim : ℕ) (ws : List (List ℕ))
    → All (All (λ c. c ≢ delim)) ws
    → split (delimited delim ws) delim ≡ ([], ws)
unfolding split delimited fields
split-delimited delim [] h = refl
split-delimited delim (w ∷ ws) h =
    ground (arith, fields-append delim w ws h.0, split-delimited delim ws h.1, append-nil w)

scan-All : (P : ℕ → Type 0) (s : List ℕ) → All P s → All P (scan s).0 × All (All P) (scan s).1
unfolding scan
scan-All P [] h = (tt, tt)
scan-All P (c ∷ s) h =
    let r = scan-All P s h.1 in
    elim (Bool-cases (c == 32)) [
      | inl e ↦ rw e (tt, cons-All P (scan s).0 (scan s).1 r.0 r.1)
      | inr e ↦ rw e ((h.0, r.0), r.1)
    ]
  where
    cons-All :
        (P : ℕ → Type 0) (w : List ℕ) (ws : List (List ℕ))
        → All P w
        → All (All P) ws
        → All (All P) (cons_word w ws)
    cons-All P [] ws h k = k
    cons-All P (c ∷ w) ws h k = (h, k)

cons_word-All :
    (P : ℕ → Type 0) (w : List ℕ) (ws : List (List ℕ))
    → All P w
    → All (All P) ws
    → All (All P) (cons_word w ws)
cons_word-All P [] ws h k = k
cons_word-All P (c ∷ w) ws h k = (h, k)

words-All : (P : ℕ → Type 0) (s : List ℕ) → All P s → All (All P) (words s)
unfolding words
words-All P s h = let r = scan-All P s h in cons_word-All P (scan s).0 (scan s).1 r.0 r.1

fields-between :
    (delim : ℕ) (w : List ℕ) (ws : List (List ℕ))
    → All (All (λ c. c ≢ delim)) (w ∷ ws)
    → fields delim (between delim (w ∷ ws)) ≡ w ∷ ws
unfolding between
fields-between delim w ws h =
    ground (arith, fields-append delim w ws h.0, split-delimited delim ws h.1, append-nil w)

-- A format that `print` leaves as it is, with a word in it and without the delimiter: its words become
-- the arguments.
pub printf_plain :
    (print : List ℕ → Option (List ℕ)) (a : Argv) (xs : List (Option (List ℕ))) (format w : List ℕ)
    (ws : List (List ℕ))
    → Holds a xs
    → length format < size_mod
    → All (λ c. c ≢ group_separator) format
    → words format ≡ w ∷ ws
    → length (between group_separator (w ∷ ws)) + 1 < max_args
    → ((f : List ℕ) → print f ≡ some f)
    → (b : Argv) × (argv_printf print a format ≡ some (true, b)) × Holds b (map some (w ∷ ws))
printf_plain print a xs format w ws h l g e k p =
    let buf = between group_separator (w ∷ ws) in
    let clean : All (All (λ c. c ≢ group_separator)) (w ∷ ws) =
      subst (All (All (λ c. c ≢ group_separator))) e (words-All _ format g) in
    let fs : fields group_separator buf ≡ w ∷ ws = fields-between group_separator w ws clean in
    let r =
      printf-Holds print a xs format buf h l k
        (ap (λ v. print (between group_separator v)) e ∙ p buf) in
    let same : (length (fields group_separator buf) == length (words format)) ≡ true =
      ground (arith, ap length fs, ap length e) in
    (
      r.0,
      r.1 ∙ ap (λ t. some (t, r.0)) same,
      subst (Holds r.0)
          (ap (λ t. if t then map some (fields group_separator buf) else []) same
            ∙ ap (map some) fs)
          r.2,
    )
