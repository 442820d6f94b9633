-- ===== src/EnvSet/Tests.antt =====
-- Runs of the functions on environment variables, and their theorems at concrete inputs.
use treiber.Base.{ℕ, ◌≡◌, refl, some, List, [], ◌∷◌, ◌++◌, arith, if◌then◌else◌}
use treiber.Chars.{char_class, char_inc_exc, string_class, string_mod}
use treiber.Chars.Mod.{length-string_mod-le}
use treiber.EnvSet.{
  decimal_loop, EnvSet, env_string_equal, env_set_get, setenv_str, cc_print, decimal,
}
use treiber.EnvSet.Names.{name_of}
use treiber.EnvSet.Lookup.{Distinct}
use treiber.EnvSet.Setenv.{setenv_str-get}

-- "ab" and "cd", and the items "ab=1" and "cd=2".
abbrev ab : List ℕ
ab = b'a' ∷ b'b' ∷ []

abbrev cd : List ℕ
cd = b'c' ∷ b'd' ∷ []

abbrev ab_1 : List ℕ
ab_1 = b'a' ∷ b'b' ∷ b'=' ∷ b'1' ∷ []

abbrev cd_2 : List ℕ
cd_2 = b'c' ∷ b'd' ∷ b'=' ∷ b'2' ∷ []

abbrev two : EnvSet
two = record { list = ab_1 ∷ cd_2 ∷ [] }

two-Distinct : Distinct two.list
unfolding name_of
two-Distinct = (((λ e. absurd (ground arith)), tt), (tt, tt))

decimal_of_1204 : decimal 1204 ≡ b'1' ∷ b'2' ∷ b'0' ∷ b'4' ∷ []
unfolding decimal decimal_loop
decimal_of_1204 = refl

setenv_str-get_example :
    (es' : EnvSet) × (setenv_str two ab (some cd) ≡ some es')
    × (env_set_get es' ab ≡ (
        if env_string_equal ab ab
        then some (ab ++ (b'=' ∷ (string_mod cd cc_print 0 0).1))
        else env_set_get two ab))
unfolding string_class char_inc_exc char_class
setenv_str-get_example =
    setenv_str-get two ab cd ab (omega arith) refl
      (omega (arith, length-string_mod-le cc_print 0 0 cd))
