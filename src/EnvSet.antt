-- ===== src/EnvSet.antt =====
-- `Treiber/lib/env_set.c` and `Treiber/lib/env_set.h`: the environment variables of the programs that
-- are started. A string is the list of its characters without the final NUL; freeing the items of a
-- set that has no arena is not observed. `none` is a failed assertion or a fatal message.
pub mod Names
pub mod Lookup
pub mod Setenv
pub mod Array
mod Tests
use treiber.Base.{
  ℕ, zero, suc, ◌+◌, ◌/◌, ◌%◌, ◌^◌, Bool, true, false, not, ◌&&◌, ◌||◌, Option, none, some, List,
  [], ◌∷◌, ◌++◌, ltb, ◌==◌, if◌then◌else◌, length, take, set, replicate,
}
use treiber.Base.Int.{ℤ, pos, negsuc, leb_ℤ}
use treiber.Buffer.{buf_size_valid}
use treiber.Buffer.Lines.{same_bytes}
use treiber.Chars.{string_mod}

-- The items from `list` on.
pub record EnvSet : Type 0 where
  pub list : List (List ℕ)

-- A character as the comparison of names sees it: `=` ends a name as NUL does.
abbrev pub name_char : ℕ → ℕ
name_char c = if c == b'=' then 0 else c

pub env_string_equal : List ℕ → List ℕ → Bool
env_string_equal [] [] = true
env_string_equal [] (d ∷ t) = name_char d == 0
env_string_equal (c ∷ s) [] = name_char c == 0
env_string_equal (c ∷ s) (d ∷ t) =
    let rest = env_string_equal s t in
    if name_char c == 0 && name_char d == 0
    then true
    else if not (name_char c == name_char d)
    then false
    else rest

-- The loop and the unlinking of the first item with the name.
pub remove_env_item : List ℕ → List (List ℕ) → Bool × List (List ℕ)
unfolding env_string_equal
remove_env_item str [] = (false, [])
remove_env_item str (current ∷ next) =
    let (found, rest) = remove_env_item str next in
    if env_string_equal current str then (true, next) else (found, current ∷ rest)

pub add_env_item : List ℕ → List (List ℕ) → List (List ℕ)
add_env_item str list = str ∷ list

pub env_set_create : EnvSet
env_set_create = record { list = [] }

pub env_set_del : EnvSet → List ℕ → Bool × EnvSet
unfolding remove_env_item
env_set_del es str =
    let (found, rest) = remove_env_item str es.list in (found, record { list = rest })

pub env_set_add : EnvSet → List ℕ → EnvSet
unfolding remove_env_item add_env_item
env_set_add es str = record { list = add_env_item str (remove_env_item str es.list).1 }

-- The loop of `env_set_get`.
pub find_item : List (List ℕ) → List ℕ → Option (List ℕ)
find_item [] name = none
find_item (item ∷ next) name = if env_string_equal item name then some item else find_item next name

pub env_set_get : EnvSet → List ℕ → Option (List ℕ)
unfolding find_item
env_set_get es name = find_item es.list name

pub add_all : EnvSet → List (List ℕ) → EnvSet
unfolding env_set_add
add_all es [] = es
add_all es (e ∷ next) = add_all (env_set_add es e) next

pub env_set_inherit : EnvSet → EnvSet → EnvSet
unfolding add_all
env_set_inherit es src = add_all es src.list

-- `alloc_buf_gc` refuses a string that is too long; what it gives has room for the whole string.
pub construct_name_value : List ℕ → List ℕ → Option (List ℕ)
construct_name_value name value =
    if buf_size_valid (length name + length value + 2) then some (name ++ (b'=' ∷ value)) else none

-- The classes and the replacement of the name, and those of the value.
pub record Classes : Type 0 where
  pub name_include : ℕ
  pub name_exclude : ℕ
  pub name_replace : ℕ
  pub value_include : ℕ
  pub value_exclude : ℕ
  pub value_replace : ℕ

-- A `value` of NULL deletes the variable.
pub setenv_str_ex : EnvSet → List ℕ → Option (List ℕ) → Classes → Option EnvSet
unfolding env_set_add env_set_del construct_name_value
setenv_str_ex es name value k =
    let name_tmp = (string_mod name k.name_include k.name_exclude k.name_replace).1 in
    if not (ltb 1 (length name)) then none else elim value [
      | none ↦ some (env_set_del es name_tmp).1
      | some v ↦
          elim (construct_name_value name_tmp
            (string_mod v k.value_include k.value_exclude k.value_replace).1) [
              | none ↦ none
              | some str ↦ some (env_set_add es str)
            ]
    ]

-- CC_NAME and CC_PRINT.
abbrev pub cc_name : ℕ
cc_name = 2 ^ 2 + 2 ^ 15

abbrev pub cc_print : ℕ
cc_print = 2 ^ 7

abbrev str_classes : Classes
str_classes = record {
  name_include = cc_name;
  name_exclude = 0;
  name_replace = 0;
  value_include = cc_print;
  value_exclude = 0;
  value_replace = 0;
}

pub setenv_str : EnvSet → List ℕ → Option (List ℕ) → Option EnvSet
unfolding setenv_str_ex
setenv_str es name value = setenv_str_ex es name value str_classes

pub setenv_del : EnvSet → List ℕ → Option EnvSet
unfolding setenv_str
setenv_del es name = setenv_str es name none

-- "OPENVPN_"
abbrev prefix : List ℕ
prefix = b'O' ∷ b'P' ∷ b'E' ∷ b'N' ∷ b'V' ∷ b'P' ∷ b'N' ∷ b'_' ∷ []

-- Its buffer has 64 bytes; a name that overflows it is ignored with a warning.
setenv_str_safe : EnvSet → List ℕ → Option (List ℕ) → Option EnvSet
unfolding setenv_str
setenv_str_safe es name value =
    if ltb (length (prefix ++ name)) 64 then setenv_str es (prefix ++ name) value else some es

-- "%u", on fuel: one more than the number is enough.
decimal_loop : ℕ → ℕ → List ℕ
decimal_loop zero n = []
decimal_loop (suc fuel) n =
    let rest = decimal_loop fuel (n / 10) in
    if ltb n 10 then (b'0' + n) ∷ [] else rest ++ ((b'0' + n % 10) ∷ [])

pub decimal : ℕ → List ℕ
unfolding decimal_loop
decimal n = decimal_loop (n + 1) n

-- "%d"
decimal_ℤ : ℤ → List ℕ
unfolding decimal
decimal_ℤ (pos n) = decimal n
decimal_ℤ (negsuc n) = b'-' ∷ decimal (n + 1)

setenv_int : EnvSet → List ℕ → ℤ → Option EnvSet
unfolding setenv_str decimal_ℤ
setenv_int es name value = setenv_str es name (some (decimal_ℤ value))

-- "%s_%u"
pub numbered : List ℕ → ℕ → List ℕ
numbered name n = name ++ (b'_' ∷ decimal n)

-- The loop of `setenv_str_incr` with `fuel` rounds left before `counter` is 1000: the name it leaves
-- in `tmpname`, or none where the counter got there.
pub incr_loop : ℕ → EnvSet → List ℕ → ℕ → List ℕ → Option (List ℕ)
unfolding env_set_get
incr_loop zero es name counter tmpname = none
incr_loop (suc fuel) es name counter tmpname =
    let rest = incr_loop fuel es name (suc counter) (numbered name counter) in
    elim (env_set_get es tmpname) [ none ↦ some tmpname | some item ↦ rest ]

pub setenv_str_incr : EnvSet → List ℕ → Option (List ℕ) → Option EnvSet
unfolding incr_loop setenv_str
setenv_str_incr es name value = elim (incr_loop 999 es name 1 name) [
  | none ↦ some es
  | some tmpname ↦ setenv_str es tmpname value
]

setenv_format_indexed_name : List ℕ → ℤ → Option (List ℕ)
unfolding numbered
setenv_format_indexed_name name (pos i) =
    if buf_size_valid (length name + 16) then some (numbered name i) else none
setenv_format_indexed_name name (negsuc i) =
    if buf_size_valid (length name + 16) then some name else none

setenv_str_i : EnvSet → List ℕ → Option (List ℕ) → ℤ → Option EnvSet
unfolding setenv_format_indexed_name setenv_str
setenv_str_i es name value i = elim (setenv_format_indexed_name name i) [
  | none ↦ none
  | some n ↦ setenv_str es n value
]

setenv_int_i : EnvSet → List ℕ → ℤ → ℤ → Option EnvSet
unfolding setenv_format_indexed_name setenv_int
setenv_int_i es name value i = elim (setenv_format_indexed_name name i) [
  | none ↦ none
  | some n ↦ setenv_int es n value
]

-- "password"
abbrev password : List ℕ
password = b'p' ∷ b'a' ∷ b's' ∷ b's' ∷ b'w' ∷ b'o' ∷ b'r' ∷ b'd' ∷ []

is_password_env_var : List ℕ → Bool
is_password_env_var str = same_bytes (take 8 str) password

-- `passwords` is `script_security() >= SSEC_PW_ENV`, a setting outside this library.
pub env_allowed : Bool → List ℕ → Bool
unfolding is_password_env_var
env_allowed passwords str = passwords || not (is_password_env_var str)

-- The loop that fills the array of `n + 1` entries, `i` of them being used: the array and the entries
-- used at its end. `none`: the assertion `i < n` fails.
pub fill_array :
    Bool
    → Bool
    → ℕ
    → List (List ℕ)
    → ℕ
    → List (Option (List ℕ))
    → Option (List (Option (List ℕ)) × ℕ)
unfolding env_allowed
fill_array passwords check n [] i ret = some (ret, i)
fill_array passwords check n (e ∷ next) i ret =
    if not check || env_allowed passwords e
    then if ltb i n then fill_array passwords check n next (i + 1) (set ret i (some e)) else none
    else fill_array passwords check n next i ret

pub make_env_array : Bool → Bool → EnvSet → Option (List (Option (List ℕ)))
unfolding fill_array
make_env_array passwords check es =
    let n = length es.list in
    elim (fill_array passwords check n es.list 0 (replicate (n + 1) none)) [
      | none ↦ none
      | some (ret, i) ↦ some (set ret i none)
    ]
