-- ===== src/EnvSet/Setenv.antt =====
-- What `env_set_get` finds after the functions that set a variable.
use treiber.Base.{
  ℕ, zero, suc, ◌+◌, ◌<◌, ◌≤◌, ◌≡◌, ◌≢◌, refl, sym, ap, ◌∙◌, true, false, Option, none, some, List,
  [], ◌∷◌, ◌++◌, arith, length, ◌==◌, All, Bool-cases, inl, inr, if◌then◌else◌,
}
use treiber.Buffer.{buf_size_max, buf_size_valid}
use treiber.Chars.{char_class, char_inc_exc, string_class, string_mod}
use treiber.Chars.Mod.{string_mod_of_class}
use treiber.EnvSet.{
  EnvSet, name_char, env_string_equal, env_set_get, env_set_add, env_set_del, construct_name_value,
  setenv_str_ex, setenv_str, setenv_del, cc_name, cc_print, numbered, incr_loop, setenv_str_incr,
}
use treiber.EnvSet.Names.{name_of, name_of-append, equal-name}
use treiber.EnvSet.Lookup.{Distinct, get-add, get-del}

-- Neither NUL nor `=` is a character of CC_NAME.
name_char-class : (c : ℕ) → char_inc_exc c cc_name 0 ≡ true → (name_char c == 0) ≡ false
unfolding char_inc_exc char_class
name_char-class c h = elim (Bool-cases (name_char c == 0)) [
  | inr e ↦ e
  | inl e ↦ elim (Bool-cases (c == 0)) [
    | inl z ↦ (let z' : c ≡ 0 = ground arith in absurd (cc (rw z' at h)))
    | inr z ↦ (let z' : c ≡ b'=' = ground arith in absurd (cc (rw z' at h)))
  ]
]

class-nonzero : (s : List ℕ) → string_class s cc_name 0 ≡ true → All (λ c. c ≢ 0) s
unfolding string_class
class-nonzero [] h = tt
class-nonzero (c ∷ s) h = ((λ z. ground (arith, name_char-class c)), class-nonzero s (ground arith))

name_of-class : (s : List ℕ) → string_class s cc_name 0 ≡ true → name_of s ≡ s
unfolding string_class name_of
name_of-class [] h = refl
name_of-class (c ∷ s) h = ground (arith, name_char-class c, name_of-class s)

fits-buffer : (n : ℕ) → n < buf_size_max → buf_size_valid n ≡ true
unfolding buf_size_valid
fits-buffer n h = ground arith

-- A value is set under a name of at least two characters of CC_NAME, if the two are short enough
-- for a buffer: the name has the item of the name, `=` and the printable characters of the value,
-- and every other name is found as before.
pub setenv_str-get :
    (es : EnvSet) (name value n : List ℕ)
    → 1 < length name
    → string_class name cc_name 0 ≡ true
    → length name + length (string_mod value cc_print 0 0).1 + 2 < buf_size_max
    → (es' : EnvSet) × (setenv_str es name (some value) ≡ some es')
      × (env_set_get es' n ≡ (
          if env_string_equal name n
          then some (name ++ (b'=' ∷ (string_mod value cc_print 0 0).1))
          else env_set_get es n))
unfolding setenv_str setenv_str_ex construct_name_value
setenv_str-get es name value n h k s =
    let printed = (string_mod value cc_print 0 0).1 in
    let own = name_of-class name k in
    let item = name ++ (b'=' ∷ printed) in
    (
      env_set_add es item,
      ground (
        arith,
        string_mod_of_class cc_name 0 0 name (class-nonzero name k) k,
        fits-buffer (length name + length printed + 2) s,
      ),
      get-add es item n
          ∙ ap (λ b. if b then some item else env_set_get es n)
              (equal-name item name n (name_of-append name printed own ∙ sym own)),
    )

-- Deleting a variable with such a name leaves none of that name, in a set with distinct names.
setenv_del-get :
    (es : EnvSet) (name n : List ℕ)
    → 1 < length name
    → string_class name cc_name 0 ≡ true
    → Distinct es.list
    → (es' : EnvSet) × (setenv_del es name ≡ some es')
      × (env_set_get es' n ≡ (if env_string_equal name n then none else env_set_get es n))
unfolding setenv_del setenv_str setenv_str_ex
setenv_del-get es name n h k d = (
  (env_set_del es name).1,
  ground (arith, string_mod_of_class cc_name 0 0 name (class-nonzero name k) k),
  get-del es name n d,
)

-- The names that `setenv_str_incr` tries, in order.
abbrev candidate : List ℕ → ℕ → List ℕ
candidate name zero = name
candidate name (suc k) = numbered name (suc k)

-- The name is in use.
abbrev Taken : EnvSet → List ℕ → Type 0
Taken es n = (item : List ℕ) × (env_set_get es n ≡ some item)

incr_loop_free :
    (fuel k d : ℕ) (es : EnvSet) (name : List ℕ)
    → k ≤ d
    → d < k + fuel
    → ((j : ℕ) → j < d → Taken es (candidate name j))
    → env_set_get es (candidate name d) ≡ none
    → incr_loop fuel es name (suc k) (candidate name k) ≡ some (candidate name d)
unfolding incr_loop
incr_loop_free zero k d es name l h t f = absurd (omega arith)
incr_loop_free (suc fuel) k d es name l h t f = elim (Bool-cases (k == d)) [
  | inl e ↦
      let e' : k ≡ d = ground arith in
      let f' : env_set_get es (candidate name k) ≡ none = rw e' f in
      rw (incr_loop, f') (ap (λ i. some (candidate name i)) e')
  | inr e ↦
      let less : k < d = ground arith in
      rw (incr_loop, (t k less).1)
        (incr_loop_free fuel (suc k) d es name (omega arith) (omega arith) t f)
]

incr_loop-Taken :
    (fuel k : ℕ) (es : EnvSet) (name : List ℕ)
    → ((j : ℕ) → j < k + fuel → Taken es (candidate name j))
    → incr_loop fuel es name (suc k) (candidate name k) ≡ none
unfolding incr_loop
incr_loop-Taken zero k es name t = refl
incr_loop-Taken (suc fuel) k es name t =
    rw (incr_loop, (t k (omega arith)).1)
      (incr_loop-Taken fuel (suc k) es name (λ j l. t j (omega arith)))

-- `setenv_str_incr` sets the first of the name, name_1 up to name_998 that is not in use.
setenv_str_incr_free :
    (d : ℕ) (es : EnvSet) (name : List ℕ) (value : Option (List ℕ))
    → d < 999
    → ((j : ℕ) → j < d → Taken es (candidate name j))
    → env_set_get es (candidate name d) ≡ none
    → setenv_str_incr es name value ≡ setenv_str es (candidate name d) value
unfolding setenv_str_incr
setenv_str_incr_free d es name value h t f =
    rw (setenv_str_incr, incr_loop_free 999 0 d es name (omega arith) h t f) refl

-- Where all of these are in use it sets nothing, also if name_999 is free.
setenv_str_incr-Taken :
    (es : EnvSet) (name : List ℕ) (value : Option (List ℕ))
    → ((j : ℕ) → j < 999 → Taken es (candidate name j))
    → setenv_str_incr es name value ≡ some es
unfolding setenv_str_incr
setenv_str_incr-Taken es name value t = rw (setenv_str_incr, incr_loop-Taken 999 0 es name t) refl
