-- ===== src/EnvSet/Names.antt =====
-- `env_string_equal` compares the names of two items.
use treiber.Base.{
  ℕ, ◌≡◌, ◌↔◌, refl, sym, ◌∙◌, Bool, true, false, List, [], ◌∷◌, ◌++◌, arith, ◌==◌, if◌then◌else◌,
}
use treiber.EnvSet.{name_char, env_string_equal}

-- The characters in front of the first `=`, or of the end of the string.
unfoldable pub name_of : List ℕ → List ℕ
name_of [] = []
name_of (c ∷ s) = if name_char c == 0 then [] else c ∷ name_of s

equal→name : (s t : List ℕ) → env_string_equal s t ≡ true → name_of s ≡ name_of t
unfolding env_string_equal name_of
equal→name [] [] h = refl
equal→name [] (d ∷ t) h = ground arith
equal→name (c ∷ s) [] h = ground arith
equal→name (c ∷ s) (d ∷ t) h = ground (arith, equal→name s t)

name→equal : (s t : List ℕ) → name_of s ≡ name_of t → env_string_equal s t ≡ true
unfolding env_string_equal name_of
name→equal [] [] h = refl
name→equal [] (d ∷ t) h = ground arith
name→equal (c ∷ s) [] h = ground arith
name→equal (c ∷ s) (d ∷ t) h = ground (arith, name→equal s t)

-- `env_string_equal` answers true exactly for two strings with the same characters in front of
-- their first `=`.
pub env_string_equal_iff : (s t : List ℕ) → (env_string_equal s t ≡ true) ↔ (name_of s ≡ name_of t)
env_string_equal_iff s t = (equal→name s t, name→equal s t)

-- A name in front of `=` and a value is the name of the whole string.
pub name_of-append : (n v : List ℕ) → name_of n ≡ n → name_of (n ++ (b'=' ∷ v)) ≡ n
unfolding name_of
name_of-append [] v h = refl
name_of-append (c ∷ n) v h = ground (arith, name_of-append n v)

Bool_of_iff : (a b : Bool) → (a ≡ true → b ≡ true) → (b ≡ true → a ≡ true) → a ≡ b
Bool_of_iff true b f g = sym (f refl)
Bool_of_iff false true f g = g refl
Bool_of_iff false false f g = refl

-- Only the name of an item matters.
pub equal-name :
    (s t n : List ℕ) → name_of s ≡ name_of t → env_string_equal s n ≡ env_string_equal t n
equal-name s t n e =
    Bool_of_iff (env_string_equal s n) (env_string_equal t n)
      (λ h. name→equal t n (sym e ∙ equal→name s n h)) (λ h. name→equal s n (e ∙ equal→name t n h))
