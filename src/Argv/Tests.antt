-- ===== src/Argv/Tests.antt =====
-- Theorems on the arguments of a program at concrete inputs.
use treiber.Base.{
  ℕ, ◌≡◌, ◌≤◌, ◌<◌, ◌*◌, refl, Option, none, some, List, [], ◌∷◌, map, replicate, arith, length,
  ◌==◌, if◌then◌else◌, ◌+◌,
}
use treiber.Argv.{Argv, adjust_power_of_2, argv_printf, group_separator}
use treiber.Argv.Grow.{adjust_power_of_2_lem}
use treiber.Argv.Words.{words, scan, between, delimited}
use treiber.Argv.Printf.{fields, printf-Holds}
use treiber.Argv.Holds.{max_args, Holds}

abbrev ip : List ℕ
ip = b'i' ∷ b'p' ∷ []

abbrev one : Argv
one = record { capacity = 8; argc = 1; argv = some ip ∷ replicate 7 none }

one-Holds : Holds one (some ip ∷ [])
one-Holds = record { counted = refl; room = omega arith; stored = refl }

adjust_power_of_2_lem_example : (r : ℕ) × (adjust_power_of_2 9 ≡ some r) × (9 ≤ r) × (r < 2 * 9)
adjust_power_of_2_lem_example = adjust_power_of_2_lem 9 (omega arith) (omega arith)

-- "ip a": two words.
abbrev ip_a : List ℕ
ip_a = b'i' ∷ b'p' ∷ 32 ∷ b'a' ∷ []

two_words_of_it : words ip_a ≡ ip ∷ (b'a' ∷ []) ∷ []
unfolding words scan
two_words_of_it = refl

ip_a_length : length (between group_separator (ip ∷ (b'a' ∷ []) ∷ [])) + 1 < max_args
unfolding between delimited
ip_a_length = omega arith

-- An argument that brings in a delimiter.
abbrev sneaky : List ℕ → Option (List ℕ)
sneaky f = some (b'i' ∷ group_separator ∷ b'p' ∷ group_separator ∷ b'a' ∷ [])

printf-Holds_example :
    let fs = fields group_separator (b'i' ∷ group_separator ∷ b'p' ∷ group_separator ∷ b'a' ∷ []) in
    (b : Argv) × (argv_printf sneaky one ip_a ≡ some (length fs == length (words ip_a), b))
    × Holds b (if length fs == length (words ip_a) then map some fs else [])
printf-Holds_example =
    printf-Holds sneaky one (some ip ∷ []) ip_a
      (b'i' ∷ group_separator ∷ b'p' ∷ group_separator ∷ b'a' ∷ []) one-Holds (omega arith)
      (omega arith) refl
