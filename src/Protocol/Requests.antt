-- ===== src/Protocol/Requests.antt =====
-- The requests of the client reach the handlers that they are for.
use treiber.Base.{true, ◌≡◌, refl, false, some, [], ◌∷◌}
use treiber.Driver.{Environment, Application}
use treiber.Protocol.{Message, response, start_driver, stop_driver, parse_document}
use treiber.Client.{put_request, get_stop_connection_request}
use treiber.Client.Configure.{get_adapter_name_request}
use treiber.Protocol.Document.{Rapidjson, member_of, as_string, as_object, get_member}

pub put_start :
    (lib : Rapidjson) (env : Environment) (app : Application)
    → parse_document lib env (put_request "driver.state" "running") app ≡ start_driver env app
unfolding parse_document member_of as_string as_object get_member
put_start lib env app = refl

pub put_stop :
    (lib : Rapidjson) (env : Environment) (app : Application)
    → parse_document lib env (put_request "driver.state" "stopped") app ≡ stop_driver app
unfolding parse_document member_of as_string as_object get_member
put_stop lib env app = refl

-- The answer to the request to end the connection.
abbrev pub close_reply : Message
close_reply = record { kind = response; data_members = ("state", "closed") ∷ [] }

put_close :
    (lib : Rapidjson) (env : Environment) (app : Application)
    → parse_document lib env get_stop_connection_request app
      ≡ some (record { sent = close_reply ∷ []; app = app; running = false; ended = false })
unfolding parse_document member_of as_string as_object get_member
put_close lib env app = refl

-- The request of `configureDriver` for the adapters is not answered.
get_names :
    (lib : Rapidjson) (env : Environment) (app : Application)
    → parse_document lib env get_adapter_name_request app
      ≡ some (record { sent = []; app = app; running = true; ended = false })
unfolding parse_document member_of as_string
get_names lib env app = refl
