-- ===== src/EnvSet/Lookup.antt =====
-- A set of environment variables as a map from names to items: what `env_set_get` finds after the
-- functions that change a set.
use treiber.Base.{
  ℕ, ◌≡◌, ◌≢◌, refl, sym, ◌∙◌, true, Option, none, some, List, [], ◌∷◌, arith, All, Bool-cases, inl,
  inr, if◌then◌else◌,
}
use treiber.EnvSet.{
  EnvSet, env_string_equal, remove_env_item, find_item, env_set_get, env_set_add, env_set_del,
  env_set_create, add_all, env_set_inherit, add_env_item,
}
use treiber.EnvSet.Names.{name_of, env_string_equal_iff}

-- No item has the name of `s`.
abbrev Fresh : List ℕ → List (List ℕ) → Type 0
Fresh s l = All (λ t. name_of t ≢ name_of s) l

-- No two items have the same name.
abbrev pub Distinct : List (List ℕ) → Type 0
Distinct [] = Unit
Distinct (s ∷ l) = Fresh s l × Distinct l

equal_name : (s t : List ℕ) → env_string_equal s t ≡ true → name_of s ≡ name_of t
equal_name s t = (env_string_equal_iff s t).0

name_equal : (s t : List ℕ) → name_of s ≡ name_of t → env_string_equal s t ≡ true
name_equal s t = (env_string_equal_iff s t).1

find-remove_other :
    (l : List (List ℕ)) (str n : List ℕ)
    → name_of str ≢ name_of n
    → find_item (remove_env_item str l).1 n ≡ find_item l n
unfolding find_item remove_env_item
find-remove_other [] str n h = refl
find-remove_other (c ∷ l) str n h =
    ground (arith, find-remove_other l str n h, equal_name c str, equal_name c n)

find-Fresh :
    (l : List (List ℕ)) (s n : List ℕ) → Fresh s l → name_of s ≡ name_of n → find_item l n ≡ none
unfolding find_item
find-Fresh [] s n h e = refl
find-Fresh (c ∷ l) s n h e = ground (arith, h.0, find-Fresh l s n h.1 e, equal_name c n)

remove-Fresh : (l : List (List ℕ)) (s str : List ℕ) → Fresh s l → Fresh s (remove_env_item str l).1
unfolding remove_env_item
remove-Fresh [] s str h = tt
remove-Fresh (c ∷ l) s str h = elim (Bool-cases (env_string_equal c str)) [
  | inl e ↦ rw e h.1
  | inr e ↦ rw e (h.0, remove-Fresh l s str h.1)
]

Fresh-remove_self :
    (l : List (List ℕ)) (str : List ℕ) → Distinct l → Fresh str (remove_env_item str l).1
unfolding remove_env_item
Fresh-remove_self [] str d = tt
Fresh-remove_self (c ∷ l) str d = elim (Bool-cases (env_string_equal c str)) [
  | inl e ↦ rw (e, sym (equal_name c str e)) d.0
  | inr e ↦ rw e ((λ p. cc (name_equal c str p, e)), Fresh-remove_self l str d.1)
]

remove-Distinct :
    (l : List (List ℕ)) (str : List ℕ) → Distinct l → Distinct (remove_env_item str l).1
unfolding remove_env_item
remove-Distinct [] str d = tt
remove-Distinct (c ∷ l) str d = elim (Bool-cases (env_string_equal c str)) [
  | inl e ↦ rw e d.1
  | inr e ↦ rw e (remove-Fresh l c str d.0, remove-Distinct l str d.1)
]

-- What `add` puts in is found under its name; every other name is found as before.
pub get-add :
    (es : EnvSet) (str n : List ℕ)
    → env_set_get (env_set_add es str) n
      ≡ (if env_string_equal str n then some str else env_set_get es n)
unfolding env_set_get env_set_add add_env_item find_item
get-add es str n = elim (Bool-cases (env_string_equal str n)) [
  | inl e ↦ rw e refl
  | inr e ↦ rw e (find-remove_other es.list str n (λ p. cc (name_equal str n p, e)))
]

-- In a set with distinct names `del` leaves no item of the name, and every other name is found as
-- before.
pub get-del :
    (es : EnvSet) (str n : List ℕ)
    → Distinct es.list
    → env_set_get (env_set_del es str).1 n
      ≡ (if env_string_equal str n then none else env_set_get es n)
unfolding env_set_get env_set_del
get-del es str n d = elim (Bool-cases (env_string_equal str n)) [
  | inl e ↦ rw e (
      find-Fresh (remove_env_item str es.list).1 str n (Fresh-remove_self es.list str d)
        (equal_name str n e))
  | inr e ↦ rw e (find-remove_other es.list str n (λ p. cc (name_equal str n p, e)))
]

add-Distinct : (es : EnvSet) (str : List ℕ) → Distinct es.list → Distinct (env_set_add es str).list
unfolding env_set_add add_env_item
add-Distinct es str d = (Fresh-remove_self es.list str d, remove-Distinct es.list str d)

add_all-Distinct :
    (es : EnvSet) (l : List (List ℕ)) → Distinct es.list → Distinct (add_all es l).list
unfolding add_all
add_all-Distinct es [] d = d
add_all-Distinct es (e ∷ l) d = add_all-Distinct (env_set_add es e) l (add-Distinct es e d)

-- A new set has no two items of the same name, and the functions that change a set keep it so.
pub changes-Distinct :
    (es src : EnvSet) (str : List ℕ)
    → Distinct es.list
    → Distinct (env_set_add es str).list
      × Distinct (env_set_del es str).1.list
      × Distinct (env_set_inherit es src).list
      × Distinct env_set_create.list
unfolding env_set_del env_set_inherit env_set_create
changes-Distinct es src str d =
    (add-Distinct es str d, remove-Distinct es.list str d, add_all-Distinct es src.list d, tt)

-- The first of the two that is there.
abbrev first_of : Option (List ℕ) → Option (List ℕ) → Option (List ℕ)
first_of none o = o
first_of (some x) o = some x

get-add_all :
    (l : List (List ℕ)) (es : EnvSet) (n : List ℕ)
    → Distinct l
    → env_set_get (add_all es l) n ≡ first_of (find_item l n) (env_set_get es n)
unfolding add_all find_item
get-add_all [] es n d = refl
get-add_all (e ∷ l) es n d =
    get-add_all l (env_set_add es e) n d.1
    ∙ rw (get-add es e n) (elim (Bool-cases (env_string_equal e n)) [
      | inl h ↦ rw (h, find-Fresh l e n d.0 (equal_name e n h)) refl
      | inr h ↦ rw h refl
    ])

-- A set that inherits another one finds the items of that one first.
get-inherit :
    (es src : EnvSet) (n : List ℕ)
    → Distinct src.list
    → env_set_get (env_set_inherit es src) n ≡ first_of (env_set_get src n) (env_set_get es n)
unfolding env_set_inherit env_set_get
get-inherit es src n d = get-add_all src.list es n d
