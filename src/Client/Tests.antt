-- ===== src/Client/Tests.antt =====
-- Sessions of the client at concrete inputs.
use treiber.Base.{true, if◌then◌else◌, ◌≡◌, refl, none, some, [], ◌∷◌}
use treiber.Driver.Phases.{Stopped}
use treiber.Driver.Examples.{
  environment, fresh, fresh-Loadable, fresh-Stopped, running_app, running_app-Running,
}
use treiber.Protocol.{Outcome, parse_document}
use treiber.Protocol.Document.{Rapidjson, Items, null, cons, nil, object, member, end, string}
use treiber.Client.{put_request, say_start, say_stop, Session, client_loop}
use treiber.Client.Configure.{
  names_response, all_objects, parse_get_adapter_name_response, parse_get_adapter_name_response_lem,
}
use treiber.Client.Sessions.{received, Told, start_request-Told, stop_request-Stopped}

abbrev library : Rapidjson
library = record { parse = λ line. none; pop_back = λ js. (null, js) }

start_request-Told_example :
    (o : Outcome) × (s : Session) × (parse_document library environment
        (put_request "driver.state" "running")
        fresh
      ≡ some o)
    × (client_loop say_start (received o.sent) ≡ some s)
    × Told fresh.held o.app s
    × (s.close_requests ≡ 1)
start_request-Told_example =
    start_request-Told library environment fresh refl refl fresh-Loadable fresh-Stopped

stop_request-Stopped_example :
    (o : Outcome) × (s : Session) × (parse_document library environment
        (put_request "driver.state" "stopped")
        running_app
      ≡ some o)
    × (client_loop say_stop (received o.sent) ≡ some s)
    × (s.written ≡ "VPN Worker currently running. Shutting down..." ∷ "VPN Worker is stopped" ∷ [])
    × (s.close_requests ≡ 2)
    × Stopped o.app
stop_request-Stopped_example =
    stop_request-Stopped library environment fresh.held running_app running_app-Running

-- One adapter as an object, as a driver would send it.
abbrev one_adapter : Items
one_adapter =
    cons
      (object (
        member "name" (string "eth0")
          (member "ip" (string "10.0.0.1") (member "displayName" (string "Ethernet") end))))
      nil

parse_get_adapter_name_response_lem_example :
    parse_get_adapter_name_response [] (names_response one_adapter)
    ≡ (if all_objects one_adapter then some (true, []) else none)
parse_get_adapter_name_response_lem_example = parse_get_adapter_name_response_lem [] one_adapter

one_adapter_skipped :
    parse_get_adapter_name_response [] (names_response one_adapter) ≡ some (true, [])
unfolding parse_get_adapter_name_response
one_adapter_skipped = refl
