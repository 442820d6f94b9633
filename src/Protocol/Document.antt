-- ===== src/Protocol/Document.antt =====
-- Parsed documents of RapidJSON as far as the driver looks at them. A text ends in front of its first NUL,
-- as `GetString` is used.
use Prim.Native.String.{String}
use text.Mathlib.Text.{◌==◌ as str_eq}
use treiber.Base.{ℕ, suc, Bool, Option, none, some, if◌then◌else◌, ◌>>=◌}
use treiber.Base.Int.{ℤ}

mutual
  pub data Json : Type 0 where
    null : Json
    boolean : Bool → Json
    -- A number that an `int` holds.
    int : ℤ → Json
    number : Json
    string : String → Json
    array : Items → Json
    object : Members → Json

  pub data Items : Type 0 where
    nil : Items
    cons : Json → Items → Items

  pub data Members : Type 0 where
    end : Members
    member : String → Json → Members → Members

unfoldable pub size : Items → ℕ
size nil = 0
size (cons j js) = suc (size js)

-- What the driver takes of the library: the parser, and the value that a variable of type Value gets
-- from `PopBack`, with what is left of the array.
pub record Rapidjson : Type 0 where
  pub parse : String → Option Json
  pub pop_back : Items → Json × Items

-- The first member of this name.
unfoldable pub lookup : String → Members → Option Json
lookup k end = none
lookup k (member n j ms) = let rest = lookup k ms in if str_eq k n then some j else rest

-- `HasMember` and `operator[]`: of what is no object they are undefined.
unfoldable pub find_member : String → Json → Option (Option Json)
unfolding lookup
find_member k (object ms) = some (lookup k ms)
find_member k null = none
find_member k (boolean b) = none
find_member k (int n) = none
find_member k number = none
find_member k (string s) = none
find_member k (array js) = none

-- A member that is looked for with a type: it is missing, of another type, or there.
pub data Found {ℓ} (A : Type ℓ) : Type ℓ where
  absent : Found A
  mistyped : Found A
  found : A → Found A

-- `IsString` and `GetString`, and so on.
unfoldable pub as_string : Json → Found String
as_string (string s) = found s
as_string null = mistyped
as_string (boolean b) = mistyped
as_string (int n) = mistyped
as_string number = mistyped
as_string (array js) = mistyped
as_string (object ms) = mistyped

unfoldable pub as_int : Json → Found ℤ
as_int (int n) = found n
as_int null = mistyped
as_int (boolean b) = mistyped
as_int (string s) = mistyped
as_int number = mistyped
as_int (array js) = mistyped
as_int (object ms) = mistyped

unfoldable pub as_array : Json → Found Items
as_array (array js) = found js
as_array null = mistyped
as_array (boolean b) = mistyped
as_array (int n) = mistyped
as_array (string s) = mistyped
as_array number = mistyped
as_array (object ms) = mistyped

unfoldable pub as_object : Json → Found Members
as_object (object ms) = found ms
as_object null = mistyped
as_object (boolean b) = mistyped
as_object (int n) = mistyped
as_object (string s) = mistyped
as_object number = mistyped
as_object (array js) = mistyped

-- A member of an object that is known to be one.
unfoldable pub get_member {ℓ} : {A : Type ℓ} → (Json → Found A) → String → Members → Found A
unfolding lookup
get_member as' k ms = elim (lookup k ms) [ none ↦ absent | some j ↦ as' j ]

-- A member of any document.
unfoldable pub member_of {ℓ} : {A : Type ℓ} → (Json → Found A) → String → Json → Option (Found A)
unfolding find_member
member_of as' k doc = do j ← find_member k doc; some (elim j [ none ↦ absent | some v ↦ as' v ])
