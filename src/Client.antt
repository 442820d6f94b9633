-- ===== src/Client.antt =====
-- `NetShareCLI/startDriver.cpp`, `stopDriver.cpp`, `KillDeamon.cpp` and `utils.cpp`: the client of the
-- configuration port. It sends one request and reads lines until the connection ends. A line is what the
-- parser of RapidJSON makes of it, `none` where it is no JSON, which an empty line is not either. What
-- `std::cout` gets is a list of lines; `none` as a result is undefined behaviour of RapidJSON.
pub mod Configure
pub mod Sessions
mod Tests
use Prim.Native.String.{String}
use text.Mathlib.Text.{◌==◌ as str_eq}
use treiber.Base.{
  ℕ, suc, Bool, true, false, not, Option, none, some, List, [], ◌∷◌, ◌++◌, if◌then◌else◌, ◌>>=◌,
}
use treiber.Protocol.Document.{
  Json, Members, string, object, end, member, Found, absent, mistyped, found, as_string, as_object,
  get_member, member_of,
}

-- The requests to put a state.
abbrev pub put_request : String → String → Json
put_request on state = object (
    member "type" (string "Put")
      (member "on" (string on) (member "data" (object (member "state" (string state) end)) end)))

-- `getStopConnectionRequest`
abbrev pub get_stop_connection_request : Json
get_stop_connection_request = put_request "connection.state" "closed"

-- `isValidResponse`
unfoldable is_valid_response : Json → Option Bool
unfolding member_of as_string as_object
is_valid_response doc = do
  type ← member_of as_string "type" doc
  looked ← member_of as_object "data" doc
  some (elim type [
    | absent ↦ false
    | mistyped ↦ false
    | found t ↦ elim looked [ absent ↦ false | mistyped ↦ false | found ms ↦ true ]
  ])

-- The member "state" of the member "data" of a valid response.
unfoldable response_state : Json → Option (Found String)
unfolding member_of as_string as_object get_member
response_state doc = do
  looked ← member_of as_object "data" doc
  elim looked [
    | absent ↦ none
    | mistyped ↦ none
    | found ms ↦ some (get_member as_string "state" ms)
  ]

-- `isConnectionCloseResponse`
unfoldable is_connection_close_response : Json → Option Bool
unfolding response_state
is_connection_close_response doc = do
  state ← response_state doc
  some (elim state [ absent ↦ false | mistyped ↦ false | found s ↦ str_eq s "closed" ])

-- `isResponse`
unfoldable is_response : Json → Option Bool
unfolding member_of as_string
is_response doc = do
  type ← member_of as_string "type" doc
  elim type [ absent ↦ none | mistyped ↦ none | found t ↦ some (str_eq t "Response") ]

-- What is written for a state, by `startDriver`, `stopDriver` and `killDeamon`.
unfoldable pub say_start : String → List String
say_start s =
    if str_eq s "startup"
    then "VPN Worker is starting up..." ∷ []
    else if str_eq s "crashed"
    then "VPN Worker crashed during startup. Please view the logs for more information!" ∷ []
    else if str_eq s "running"
    then "VPN Worker successfully started" ∷ []
    else []

unfoldable pub say_stop : String → List String
say_stop s =
    if str_eq s "startup"
    then "VPN Worker is starting up! Please try again after the Worker has fully started" ∷ []
    else if str_eq s "running"
    then "VPN Worker currently running. Shutting down..." ∷ []
    else if str_eq s "stopped"
    then "VPN Worker is stopped" ∷ []
    else []

unfoldable say_kill : String → List String
say_kill s =
    if str_eq s "stopped"
    then "VPN Worker Deamon has stopped" ∷ []
    else if str_eq s "worker.startup"
    then "VPN Worker ist starting up. Waiting for it to finish..." ∷ []
    else if str_eq s "worker.running"
    then "VPN Worker is currently running. Shutting it down..." ∷ []
    else if str_eq s "worker.stopped"
    then "VPN Worker is now not running. Killing deamon..." ∷ []
    else []

-- What the loop has written, and how often it has asked to end the connection.
pub record Session : Type 0 where
  pub written : List String
  pub close_requests : ℕ

abbrev over : List String → Option Session
over ws = some (record { written = ws; close_requests = 0 })

-- The loop that the three functions share, on the lines that come in; no more lines end the connection.
unfoldable pub client_loop : (String → List String) → List (Option Json) → Option Session
unfolding is_valid_response is_connection_close_response is_response response_state
client_loop say [] = over []
client_loop say (none ∷ lines) = over []
client_loop say (some doc ∷ lines) = do
  valid ← is_valid_response doc
  if not valid then over ("Worker returned an invalid Resposne" ∷ []) else (do
    closed ← is_connection_close_response doc
    if closed then over [] else (do
      state ← response_state doc
      elim state [
        | absent ↦ over ("Worker returned invalid response object" ∷ [])
        | mistyped ↦ over ("Worker returned invalid response object" ∷ [])
        | found s ↦ do
          answer ← is_response doc
          rest ← client_loop say lines
          some (record {
            written = say s ++ rest.written;
            close_requests = if answer then suc rest.close_requests else rest.close_requests;
          })
      ]))
