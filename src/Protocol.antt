-- ===== src/Protocol.antt =====
-- `Treiber Winttun/ConfigurationWorker.h` and `Treiber Winttun/ConfigurationWorker.cpp`: the messages of
-- the configuration port. A parsed document is a tree; the parser of RapidJSON and its PopBack are
-- parameters, and so is what the system answers. A message is handled as a whole before the next one.
-- `none` is undefined behaviour: that of the driver, or a member looked for in what is no object.
pub mod Document
pub mod Gives
pub mod Dispatch
pub mod States
pub mod Replies
pub mod Requests
pub mod Settings
mod Tests
use Prim.Native.String.{String, ◌++◌ as str_append}
use text.Mathlib.Text.{◌==◌ as str_eq}
use treiber.Base.{
  ℕ, zero, suc, Bool, true, false, not, ◌||◌, Option, none, some, ◌⊎◌, inl, inr, List, [], ◌∷◌,
  ◌++◌, ltb, if◌then◌else◌, ◌>>=◌,
}
use treiber.Base.Int.{ℤ, pos}
use treiber.AppConfig.{AppConfig, read, write}
use treiber.Adapters.{parse_ip_string}
use treiber.Driver.Signals.{run_exit_handlers}
use treiber.Driver.{
  Environment, Application, codes, is_running, is_starting_up, init_run, run, shutdown,
}
use treiber.Protocol.Document.{
  Json, Items, size, Rapidjson, Found, absent, mistyped, found, as_string, as_int, as_array,
  as_object, get_member, member_of,
}

-- A line that is sent: its member "type", and the members of its member "data".
pub data Kind : Type 0 where
  response : Kind
  update : Kind

pub record Message : Type 0 where
  pub kind : Kind
  pub data_members : List (String × String)

get_error_response : String → Message
get_error_response m = record { kind = response; data_members = ("error", m) ∷ [] }

get_deamon_state_update : String → Message
get_deamon_state_update s = record { kind = update; data_members = ("state", s) ∷ [] }

get_deamon_state_response : String → Message
get_deamon_state_response s = record { kind = response; data_members = ("state", s) ∷ [] }

unfoldable pub get_driver_state_update : String → Message
get_driver_state_update s = record { kind = update; data_members = ("state", s) ∷ [] }

-- The reason is only sent after a crash.
unfoldable pub get_driver_state_response : String → Option String → Message
get_driver_state_response s none = record { kind = response; data_members = ("state", s) ∷ [] }
get_driver_state_response s (some r) = record {
  kind = response;
  data_members = ("state", s) ∷ ("crashReason", r) ∷ [];
}

-- What a handler leaves: the lines it sent, the driver, whether the connection goes on, and whether
-- the process ended.
pub record Outcome : Type 0 where
  pub sent : List Message
  pub app : Application
  pub running : Bool
  pub ended : Bool

-- A handler that answers and returns.
abbrev answered : List Message → Application → Option Outcome
answered ms app = some (record { sent = ms; app = app; running = true; ended = false })

-- The guards that three handlers share: the member "state" of "data", or the error that is sent. The
-- first message is the handler's own.
pub data_state : String → Json → Option (String ⊎ String)
data_state missing doc = do
  looked ← member_of as_object "data" doc
  elim looked [
    | absent ↦ some (inl missing)
    | mistyped ↦ some (inl "Member \"data\" needs to be an object")
    | found ms ↦ elim (get_member as_string "state" ms) [
      | absent ↦ some (inl "Member \"data\" needs to have a member \"state\"")
      | mistyped ↦ some (inl "Member \"data.state\" needs to be a string")
      | found s ↦ some (inr s)
    ]
  ]

-- `parseDriverStatePutMessage` for "running", behind `initRun`.
pub after_init : Environment → Bool × Application → Option Outcome
unfolding get_driver_state_update get_driver_state_response
after_init env (ok, app) =
    if ok
    then (do
      app' ← run env app
      answered (get_driver_state_update "startup" ∷ get_driver_state_response "running" none ∷ [])
          app')
    else answered
        (get_driver_state_update "startup"
          ∷ get_driver_state_response "crashed" (some app.crash_reason)
          ∷ [])
        app

-- `parseDriverStatePutMessage` for "running".
pub start_driver : Environment → Application → Option Outcome
unfolding after_init get_driver_state_response
start_driver env app =
    if is_starting_up app
    then answered (get_driver_state_response "startup" none ∷ []) app
    else if is_running app
    then answered (get_driver_state_response "running" none ∷ []) app
    else do r ← init_run env app; after_init env r

-- `parseDriverStatePutMessage` for "stopped".
pub stop_driver : Application → Option Outcome
unfolding get_driver_state_response
stop_driver app =
    if is_starting_up app
    then answered (get_driver_state_response "startup" none ∷ []) app
    else if is_running app
    then (do
      app' ← shutdown app
      if is_running app'
          then answered
              (get_driver_state_response "running" none
                ∷ get_driver_state_response "running" none
                ∷ [])
              app'
          else answered
              (get_driver_state_response "running" none
                ∷ get_driver_state_response "stopped" none
                ∷ [])
              app')
    else answered (get_driver_state_response "stopped" none ∷ []) app

-- `parseDriverStatePutMessage`
pub parse_driver_state_put_message : Environment → Json → Application → Option Outcome
unfolding data_state start_driver stop_driver get_error_response
parse_driver_state_put_message env doc app = do
  guarded ← data_state "The Put request needs a \"type\" member" doc
  elim guarded [
    | inl e ↦ answered (get_error_response e ∷ []) app
    | inr state ↦
        if str_eq state "running"
        then start_driver env app
        else if str_eq state "stopped"
        then stop_driver app
        else answered
            (get_error_response "Member \"data.state\" needs to be ether \"running\" or \"stopped\""
              ∷ [])
            app
  ]

-- The loop that stops the driver, on fuel: what it sends and leaves; `none` where the fuel is too little.
pub stop_loop : ℕ → Application → Option (Option (List Message × Application))
unfolding get_deamon_state_update
stop_loop zero app = some none
stop_loop (suc fuel) app = do
  let startup = if is_starting_up app then get_deamon_state_update "worker.startup" ∷ [] else []
  let working = if is_running app then get_deamon_state_update "worker.running" ∷ [] else []
  app' ← (if is_running app then shutdown app else some app)
  let sent = startup ++ working
  rest ← (if is_running app' then stop_loop fuel app' else some none)
  if is_running app'
      then some (elim rest [ none ↦ none | some r ↦ some (sent ++ r.0, r.1) ])
      else some (some (sent ++ (get_deamon_state_update "worker.stopped" ∷ []), app'))

-- `parseDeamonStatePutMessage`: after the loop the process ends.
pub parse_deamon_state_put_message : Json → Application → Option Outcome
unfolding data_state stop_loop get_deamon_state_response get_error_response
parse_deamon_state_put_message doc app = do
  guarded ← data_state "The Put request needs a \"data\" member" doc
  elim guarded [
    | inl e ↦ answered (get_error_response e ∷ []) app
    | inr state ↦
        if str_eq state "stopped"
        then (do
          rounds ← stop_loop 1 app
          (sent, app₁) ← rounds
          app₂ ← run_exit_handlers app₁.exit_handlers app₁
          some (record {
            sent = sent ++ (get_deamon_state_response "stopped" ∷ []);
            app = app₂;
            running = true;
            ended = true;
          }))
        else answered (get_error_response "Member \"data.state\" can only be \"stopped\"" ∷ []) app
  ]

-- `parseConnectionStatePutMessage`: no other state than "closed" is answered.
pub parse_connection_state_put_message : Json → Application → Option Outcome
unfolding data_state get_error_response
parse_connection_state_put_message doc app = do
  guarded ← data_state "The Put request needs a \"data\" member" doc
  elim guarded [
    | inl e ↦ answered (get_error_response e ∷ []) app
    | inr state ↦
        if str_eq state "closed"
        then some (record {
          sent = record { kind = response; data_members = ("state", "closed") ∷ [] } ∷ [];
          app = app;
          running = false;
          ended = false;
        })
        else answered [] app
  ]

-- `getLogLevelFromString`: whatever the text, the first level, which is trace.
get_log_level_from_string : String → ℤ
get_log_level_from_string s = pos 0

-- A value that a member of the document replaces, where it is there with its type.
abbrev pub or_keep {ℓ κ} : {A : Type ℓ} {B : Type κ} → Found A → B → (A → B) → B
or_keep absent b f = b
or_keep mistyped b f = b
or_keep (found a) b f = f a

-- The loop over "names", of which every round takes from the array.
pub names_loop : Rapidjson → ℕ → ℕ → Items → List (List ℕ) → List (List ℕ)
names_loop lib zero i items names = names
names_loop lib (suc fuel) i items names =
    let (value, left) = lib.pop_back items in
    let names' = or_keep (as_string value) names (λ s. names ++ (codes s ∷ [])) in
    let rest = names_loop lib fuel (suc i) left names' in if ltb i (size items) then rest else names

-- `parseConfigPutMessage` between the reading and the writing: the members are those of the document.
pub change_config : Rapidjson → Json → AppConfig → Option AppConfig
unfolding get_log_level_from_string names_loop
change_config lib doc c₀ = do
  level ← member_of as_string "logLevel" doc
  server ← member_of as_string "serverIp" doc
  port ← member_of as_int "serverPort" doc
  adapter ← member_of as_string "adapterIp" doc
  bits ← member_of as_int "adapterSubnetBits" doc
  names ← member_of as_array "names" doc
  some (record {
    log_level = or_keep level c₀.log_level get_log_level_from_string;
    server_ip = or_keep server c₀.server_ip (λ s. parse_ip_string (codes s));
    server_port = or_keep port c₀.server_port (λ n. n);
    adapter_ip = or_keep adapter c₀.adapter_ip (λ s. parse_ip_string (codes s));
    adapter_subnet_bits = or_keep bits c₀.adapter_subnet_bits (λ n. n);
    names = or_keep names c₀.names (λ items. names_loop lib (size items) 0 items c₀.names);
  })

-- `parseConfigPutMessage`: a file that cannot be read leaves the number of names unset.
pub parse_config_put_message : Rapidjson → Json → Application → Option Outcome
unfolding data_state change_config get_error_response
parse_config_put_message lib doc app = do
  looked ← member_of as_object "data" doc
  elim looked [
    | absent ↦ answered (get_error_response "The Put request needs a \"type\" member" ∷ []) app
    | mistyped ↦ answered (get_error_response "Member \"data\" needs to be an object" ∷ []) app
    | found ms ↦ do
      file ← app.conf_file
      (c, rest) ← read file
      c' ← change_config lib doc c
      answered [] (record app { conf_file = some (write c') })
  ]

-- `parsePutMessage`
pub parse_put_message : Rapidjson → Environment → Json → Application → Option Outcome
unfolding parse_driver_state_put_message parse_deamon_state_put_message
    parse_connection_state_put_message parse_config_put_message get_error_response
parse_put_message lib env doc app = do
  looked ← member_of as_string "on" doc
  elim looked [
    | absent ↦ answered (get_error_response "No member \"on\" provided." ∷ []) app
    | mistyped ↦ answered (get_error_response "Member \"on\" needs to be a string" ∷ []) app
    | found on ↦
        if str_eq on "driver.state"
        then parse_driver_state_put_message env doc app
        else if str_eq on "deamon.state"
        then parse_deamon_state_put_message doc app
        else if str_eq on "connection.state"
        then parse_connection_state_put_message doc app
        else if str_eq on "config"
        then parse_config_put_message lib doc app
        else answered (get_error_response (str_append "Unknown ressource of \"on\": " on) ∷ []) app
  ]

-- `parseGetMessage`, with `parseAdapterGetMessage`, which lists the adapters and sends nothing.
pub parse_get_message : Json → Application → Option Outcome
unfolding get_error_response
parse_get_message doc app = do
  looked ← member_of as_string "on" doc
  elim looked [
    | absent ↦ answered (get_error_response "No member \"on\" provided." ∷ []) app
    | mistyped ↦ answered (get_error_response "Member \"on\" needs to be a string" ∷ []) app
    | found on ↦
        if str_eq on "adapter.names"
        then answered [] app
        else answered (get_error_response (str_append "Unknown ressource of \"on\": " on) ∷ []) app
  ]

-- `parseMessage` of a document.
pub parse_document : Rapidjson → Environment → Json → Application → Option Outcome
unfolding parse_put_message parse_get_message get_error_response
parse_document lib env doc app = do
  looked ← member_of as_string "type" doc
  elim looked [
    | absent ↦ answered (get_error_response "No member \"type\" found. Please provide one" ∷ []) app
    | mistyped ↦ answered (get_error_response "Member \"type\" needs to be a string" ∷ []) app
    | found type ↦
        if str_eq type "Get"
        then parse_get_message doc app
        else if str_eq type "Put"
        then parse_put_message lib env doc app
        else if str_eq type "Delete"
        then answered [] app
        else answered
            (get_error_response "Member \"type\" needs to be one of [\"Get\", \"Put\", \"Delete\"]"
              ∷ [])
            app
  ]

-- `parseMessage`
pub parse_message : Rapidjson → Environment → String → Application → Option Outcome
unfolding parse_document get_error_response
parse_message lib env request app = elim (lib.parse request) [
  | none ↦
      answered (get_error_response "Invalid JSON. You need to provide a vaild JSON document!" ∷ [])
        app
  | some doc ↦ parse_document lib env doc app
]

-- `run` on the lines that are received, each with what the system answers meanwhile: an empty line, the
-- end of the connection or that of the process ends the loop.
pub run_connection : Rapidjson → List (Environment × String) → Application → Option Outcome
unfolding parse_message
run_connection lib [] app = answered [] app
run_connection lib ((env, line) ∷ lines) app = if str_eq line "" then answered [] app else do
  o ← parse_message lib env line app
  if o.ended || not o.running then some o else (do
    rest ← run_connection lib lines o.app
    some (record rest { sent = o.sent ++ rest.sent }))
