-- ===== src/Client/Configure.antt =====
-- `NetShareCLI/configureDriver.cpp`: the command that asks the driver for its adapters.
use Prim.Native.String.{String}
use treiber.Base.{
  Bool, true, false, not, ◌&&◌, Bool-cases, bind_some, inl, inr, Option, none, some, List, [], ◌∷◌,
  ◌++◌, ◌≡◌, refl, ap, if◌then◌else◌, ◌>>=◌,
}
use treiber.Protocol.Document.{
  Json, null, boolean, int, number, string, array, object, Items, nil, cons, end, member, Found,
  absent, mistyped, found, as_string, as_array, member_of, find_member,
}
use treiber.Client.{is_response}

-- `Adapter`
pub record Adapter : Type 0 where
  pub name : String
  pub display_name : String
  pub ip : String

-- `getAdapterNameRequest`
abbrev pub get_adapter_name_request : Json
get_adapter_name_request =
    object (member "type" (string "Get") (member "on" (string "adapter.names") end))

-- The three members of an element, in the order in which they are looked at; `none` is a missing one.
take_adapter : Json → Option (Option Adapter)
unfolding member_of as_string
take_adapter j = do
  n ← member_of as_string "name" j
  elim n [
    | absent ↦ some none
    | mistyped ↦ some none
    | found name ↦ do
      i ← member_of as_string "ip" j
      elim i [
        | absent ↦ some none
        | mistyped ↦ some none
        | found ip ↦ do
          d ← member_of as_string "displayName" j
          some (elim d [
            | absent ↦ none
            | mistyped ↦ none
            | found dn ↦ some (record { name = name; display_name = dn; ip = ip })
          ])
      ]
  ]

-- `IsObject`
is_object : Json → Bool
is_object (object ms) = true
is_object null = false
is_object (boolean b) = false
is_object (int n) = false
is_object number = false
is_object (string s) = false
is_object (array js) = false

-- The loop on the elements, with what is in the vector.
take_adapters : List Adapter → Items → Option (Bool × List Adapter)
unfolding take_adapter is_object
take_adapters names nil = some (true, names)
take_adapters names (cons j js) = elim (not (is_object j)) [
  | false ↦ take_adapters names js
  | true ↦ do
    a ← take_adapter j
    elim a [
      | none ↦ some (false, names)
      | some adapter ↦ take_adapters (names ++ (adapter ∷ [])) js
    ]
]

-- `parseGetAdapterNameResponse` behind the look at the member "names".
take_names : List Adapter → Found Items → Option (Bool × List Adapter)
unfolding take_adapters
take_names names absent = some (false, names)
take_names names mistyped = some (false, names)
take_names names (found js) = take_adapters names js

-- `parseGetAdapterNameResponse`. The `<<` in its first test is false whenever there is a member "data",
-- and looks at this member in any case.
unfoldable pub parse_get_adapter_name_response : List Adapter → Json → Option (Bool × List Adapter)
unfolding take_names find_member member_of as_array
parse_get_adapter_name_response names doc = do
  looked ← find_member "data" doc
  contents ← looked
  ns ← member_of as_array "names" contents
  take_names names ns

-- `configureDriver` with the line that it receives: what it writes.
configure_driver : Option Json → Option (List String)
unfolding parse_get_adapter_name_response is_response
configure_driver line =
    let failed =
      "Getting adapter informations"
      ∷ "Error getting adapter information. Driver retuned an invalid response" ∷ [] in
    elim line [
      | none ↦ some failed
      | some doc ↦ do
        answer ← is_response doc
        if not answer then some failed else (do
          r ← parse_get_adapter_name_response [] doc
          some (if not r.0 then failed else "Getting adapter informations" ∷ []))
    ]

take_adapter_other : (j : Json) → is_object j ≡ false → take_adapter j ≡ none
unfolding take_adapter is_object member_of find_member
take_adapter_other (object ms) h = cc
take_adapter_other null h = refl
take_adapter_other (boolean b) h = refl
take_adapter_other (int n) h = refl
take_adapter_other number h = refl
take_adapter_other (string s) h = refl
take_adapter_other (array js) h = refl

-- The loop leaves the vector as it is.
take_adapters-same :
    (names : List Adapter) (js : Items) (r : Bool × List Adapter)
    → take_adapters names js ≡ some r
    → r ≡ (true, names)
unfolding take_adapters
take_adapters-same names nil r h = cc
take_adapters-same names (cons j js) r h = elim (Bool-cases (is_object j)) [
  | inl o ↦ take_adapters-same names js r (rw (o, take_adapters) at h)
  | inr n ↦ cc (rw (n, take_adapter_other j n, take_adapters) at h)
]

take_names-same :
    (names : List Adapter) (ns : Found Items) (r : Bool × List Adapter)
    → take_names names ns ≡ some r
    → r.1 ≡ names
unfolding take_names
take_names-same names absent r h = cc
take_names-same names mistyped r h = cc
take_names-same names (found js) r h = ap (λ p. p.1) (take_adapters-same names js r h)

-- Whatever the driver answers, the client takes no adapter from it: its loop skips the elements that are
-- objects, and looks for members in those that are none.
pub parse_get_adapter_name_response-same :
    (names : List Adapter) (doc : Json) (r : Bool × List Adapter)
    → parse_get_adapter_name_response names doc ≡ some r
    → r.1 ≡ names
unfolding parse_get_adapter_name_response
parse_get_adapter_name_response-same names doc r h =
    let (looked, e, k) = bind_some (find_member "data" doc) _ r h in
    let (contents, e', k') = bind_some looked _ r k in
    let (ns, e'', k'') = bind_some (member_of as_array "names" contents) _ r k' in
    take_names-same names ns r k''

-- An answer that lists adapters.
abbrev pub names_response : Items → Json
names_response js =
    object (
      member "type" (string "Response")
        (member "data" (object (member "names" (array js) end)) end))

pub all_objects : Items → Bool
unfolding is_object
all_objects nil = true
all_objects (cons j js) = is_object j && all_objects js

take_adapters_lem :
    (names : List Adapter) (js : Items)
    → take_adapters names js ≡ (if all_objects js then some (true, names) else none)
unfolding take_adapters all_objects
take_adapters_lem names nil = refl
take_adapters_lem names (cons j js) = elim (Bool-cases (is_object j)) [
  | inl o ↦ rw (o, take_adapters) (take_adapters_lem names js)
  | inr n ↦ rw (n, take_adapter_other j n, take_adapters)
]

-- An answer that lists adapters is accepted where all elements are objects, and the client still has no
-- adapter but those it had; with any other element it looks for a member in what is no object.
pub parse_get_adapter_name_response_lem :
    (names : List Adapter) (js : Items)
    → parse_get_adapter_name_response names (names_response js)
      ≡ (if all_objects js then some (true, names) else none)
unfolding parse_get_adapter_name_response
parse_get_adapter_name_response_lem names js = take_adapters_lem names js
