-- ===== src/Protocol/Tests.antt =====
-- Messages at concrete inputs.
use Prim.Native.String.{String}
use text.Mathlib.Text.{◌==◌ as str_eq}
use treiber.Base.{
  ℕ, ◌+◌, append-nil, All, ◌≤◌, ◌≡◌, ◌≢◌, refl, true, false, inl, none, some, List, [], ◌∷◌, map,
  arith, if◌then◌else◌,
}
use mathlib.Core.Path.{subst}
use treiber.Base.Int.{pos}
use treiber.Buffer.Lines.{c_string}
use treiber.AppConfig.{AppConfig, read, write}
use treiber.AppConfig.RoundTrip.{InRange, read-write_same}
use treiber.Adapters.{UdpWorkerConfig}
use treiber.Driver.{Environment, Application, codes, initial, is_running, is_starting_up}
use treiber.Driver.Phases.{Settled, Stopped, left_over}
use treiber.Driver.Examples.{
  environment, fresh, fresh-Loadable, fresh-Stopped, pending, running_app, running_app-Running,
}
use treiber.Protocol.{
  Outcome, start_driver, stop_driver, run_connection, parse_config_put_message,
  get_driver_state_response, response,
}
use treiber.Protocol.Document.{
  as_string, get_member, Json, Items, null, string, object, nil, cons, end, member, size, Rapidjson,
  as_object, member_of,
}
use treiber.Protocol.Replies.{Answered, start_driver-Answered, stop_driver-Running}
use treiber.Protocol.States.{run_connection-Settled}
use treiber.Protocol.Settings.{settings, with_settings, put_settings-read}
use treiber.Adapters.Texts.{dotted, digits, digits_loop}
use treiber.AppConfig.{NsIpAddress}

abbrev put : String → String → Json
put on state = object (
    member "type" (string "Put")
      (member "on" (string on) (member "data" (object (member "state" (string state) end)) end)))

abbrev take_first : Items → Json × Items
take_first nil = (null, nil)
take_first (cons j js) = (j, js)

-- The lines of the tests are the names of their documents.
abbrev library : Rapidjson
library = record {
  parse = λ line.
      if str_eq line "stop"
      then some (put "driver.state" "stopped")
      else if str_eq line "close"
      then some (put "connection.state" "closed")
      else none;
  pop_back = take_first;
}

abbrev lines : List (Environment × String)
lines = (environment, "stop") ∷ (environment, "close") ∷ (environment, "stop") ∷ []

abbrev stays_stopped : Outcome
stays_stopped = record {
  sent =
      get_driver_state_response "stopped" none
      ∷ record { kind = response; data_members = ("state", "closed") ∷ [] }
      ∷ [];
  app = fresh;
  running = false;
  ended = false;
}

answers_stopped : run_connection library lines fresh ≡ some stays_stopped
unfolding run_connection member_of get_member as_string as_object is_running is_starting_up initial
answers_stopped = refl

run_connection-Settled_example :
    Settled stays_stopped.app × (stays_stopped.ended ≡ true → Stopped stays_stopped.app)
run_connection-Settled_example =
    run_connection-Settled library lines fresh stays_stopped (inl fresh-Stopped) answers_stopped

abbrev stays_pending : Outcome
stays_pending = record {
  sent =
      get_driver_state_response "startup" none
      ∷ record { kind = response; data_members = ("state", "closed") ∷ [] }
      ∷ [];
  app = pending;
  running = false;
  ended = false;
}

start_driver-Answered_example :
    (o : Outcome) × (start_driver environment fresh ≡ some o) × Answered fresh.held o
start_driver-Answered_example =
    start_driver-Answered environment fresh refl refl fresh-Loadable fresh-Stopped

stop_driver-Running_example :
    (o : Outcome) × (us : List UdpWorkerConfig) × (stop_driver running_app ≡ some o)
    × (o.sent
        ≡ get_driver_state_response "running" none ∷ get_driver_state_response "stopped" none ∷ [])
    × Stopped o.app
    × (running_app.udpconfigs ≡ some us)
    × (o.app.held ≡ left_over us fresh.held)
stop_driver-Running_example = stop_driver-Running fresh.held running_app running_app-Running

abbrev names : Items
names = cons (string "a") (cons null (cons (string "b") nil))

shorter : (js : Items) → size (library.pop_back js).1 ≤ size js
unfolding size
shorter nil = omega arith
shorter (cons j js) = omega arith

size_of_names : size names ≤ 0 + 3
unfolding size
size_of_names = omega arith

size_below : size names ≤ 0 + 5
unfolding size
size_below = omega arith

abbrev stored : AppConfig
stored = record {
  adapter_ip = record { ipp1 = 10; ipp2 = 0; ipp3 = 0; ipp4 = 3 };
  adapter_subnet_bits = pos 24;
  server_ip = record { ipp1 = 178; ipp2 = 63; ipp3 = 3; ipp4 = 159 };
  server_port = pos 5555;
  log_level = pos 2;
  names = codes "eth0" ∷ [];
}

abbrev configured : Application
configured = record fresh { conf_file = some (write stored) }

in_range : InRange stored
in_range = record {
  bits = (omega arith, omega arith);
  port = (omega arith, omega arith);
  level = (omega arith, omega arith);
  count = omega arith;
  sizes = (omega arith, tt);
}

no_nul : All (All (λ k. k ≢ 0)) stored.names
no_nul = ground arith

reads : read (write stored) ≡ some (stored, [])
reads =
    subst (λ f. read f ≡ some (stored, [])) (append-nil (write stored))
      (read-write_same stored [] in_range no_nul)

has_file : configured.conf_file ≡ some (write stored)
has_file = refl

abbrev first : NsIpAddress
first = record { ipp1 = 10; ipp2 = 20; ipp3 = 30; ipp4 = 40 }

abbrev second : NsIpAddress
second = record { ipp1 = 192; ipp2 = 168; ipp3 = 0; ipp4 = 7 }

text_of_first : codes "10.20.30.40" ≡ dotted first
unfolding dotted digits digits_loop
text_of_first = refl

text_of_second : codes "192.168.0.7" ≡ dotted second
unfolding dotted digits digits_loop
text_of_second = refl

put_settings-read_example :
    (o : Outcome) × (file : List ℕ) × (parse_config_put_message library
        (settings (string "Put") end "10.20.30.40" (pos 99) "192.168.0.7" (pos 16))
        configured
      ≡ some o)
    × (o.sent ≡ [])
    × (o.app.conf_file ≡ some file)
    × (read file
        ≡ some (
          record (with_settings stored first (pos 99) second (pos 16)) {
            names = map c_string stored.names;
          },
          [],
        ))
put_settings-read_example =
    put_settings-read library (string "Put") end "10.20.30.40" "192.168.0.7" first second (pos 99)
      (pos 16) configured (write stored) [] stored has_file reads in_range text_of_first
      text_of_second
      (record { ipp1 = omega arith; ipp2 = omega arith; ipp3 = omega arith; ipp4 = omega arith })
      (record { ipp1 = omega arith; ipp2 = omega arith; ipp3 = omega arith; ipp4 = omega arith })
      (omega arith, omega arith) (omega arith, omega arith)
