-- ===== src/Chars/Mod.antt =====
-- `string_mod` and `string_class`.
use treiber.Base.{ℕ, ◌≤◌, ◌≡◌, ◌≢◌, refl, true, ◌||◌, List, [], ◌∷◌, arith, length, All, ◌==◌}
use treiber.Chars.{char_inc_exc, string_class, string_mod}

module _ (inclusive exclusive replace : ℕ) where
  -- `string_mod` never makes a string longer.
  pub length-string_mod-le :
      (s : List ℕ) → length (string_mod s inclusive exclusive replace).1 ≤ length s
  unfolding string_mod
  length-string_mod-le [] = omega arith
  length-string_mod-le (c ∷ s) = ground (arith, length-string_mod-le s)

  -- If the replacement is NUL or itself allowed, what `string_mod` leaves has allowed characters
  -- only.
  pub string_class-string_mod :
      (s : List ℕ)
      → (replace == 0 || char_inc_exc replace inclusive exclusive) ≡ true
      → string_class (string_mod s inclusive exclusive replace).1 inclusive exclusive ≡ true
  unfolding string_mod string_class
  string_class-string_mod [] h = refl
  string_class-string_mod (c ∷ s) h = ground (arith, string_class-string_mod s h)

  -- `string_mod` answers as `string_class` does.
  pub string_mod-eq-string_class :
      (s : List ℕ)
      → (string_mod s inclusive exclusive replace).0 ≡ string_class s inclusive exclusive
  unfolding string_mod string_class
  string_mod-eq-string_class [] = refl
  string_mod-eq-string_class (c ∷ s) = ground (arith, string_mod-eq-string_class s)

  -- A string of allowed characters is left alone.
  pub string_mod_of_class :
      (s : List ℕ)
      → All (λ c. c ≢ 0) s
      → string_class s inclusive exclusive ≡ true
      → string_mod s inclusive exclusive replace ≡ (true, s)
  unfolding string_mod string_class
  string_mod_of_class [] nz h = refl
  string_mod_of_class (c ∷ s) nz h = ground (arith, nz.0, string_mod_of_class s nz.1)
