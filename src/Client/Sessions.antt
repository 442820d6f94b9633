-- ===== src/Client/Sessions.antt =====
-- The client and the driver together.
use Prim.Native.String.{String}
use treiber.Base.{
  ◌≡◌, refl, ap, ◌∙◌, ◌⊎◌, inl, inr, true, Option, none, some, List, [], ◌∷◌, ◌++◌, map,
}
use treiber.Driver.{Environment, Held, Application}
use treiber.Driver.Phases.{Stopped, Running, Refused}
use treiber.Driver.Start.{Loadable}
use treiber.Protocol.{
  get_driver_state_update, get_driver_state_response, Message, Outcome, response, update, Kind,
  parse_document,
}
use treiber.Protocol.Document.{Json, Members, string, object, end, member, Rapidjson}
use treiber.Protocol.Replies.{
  Answered, started, not_started, no_adapter, start_driver-Answered, stop_driver-Running,
}
use treiber.Protocol.Requests.{put_start, put_stop, close_reply}
use treiber.Client.{put_request, say_start, say_stop, Session, client_loop}

-- A line as the writer of the driver makes it and the parser of the client reads it.
unfoldable kind_text : Kind → String
kind_text response = "Response"
kind_text update = "Update"

unfoldable to_members : List (String × String) → Members
to_members [] = end
to_members ((k, v) ∷ rest) = member k (string v) (to_members rest)

unfoldable pub to_json : Message → Json
unfolding kind_text to_members
to_json m = object (
    member "type" (string (kind_text m.kind))
      (member "data" (object (to_members m.data_members)) end))

-- What the client reads: the lines of a request, and the one that ends the connection.
abbrev pub received : List Message → List (Option Json)
received ms = map (λ m. some (to_json m)) (ms ++ (close_reply ∷ []))

-- What the user is told of a start, and whether it is so.
pub data Told (h : Held) (app : Application) (s : Session) : Type 0 where
  told_started :
      s.written ≡ "VPN Worker is starting up..." ∷ "VPN Worker successfully started" ∷ []
      → Running h app
      → Told h app s
  told_crashed :
      s.written
        ≡ "VPN Worker is starting up..."
          ∷ "VPN Worker crashed during startup. Please view the logs for more information!" ∷ []
      → Stopped app ⊎ Refused app
      → Told h app s

-- The lines that a start sends, and then the answer to the request to end the connection.
start_lines : (state : String) (reason : Option String) → List Message
start_lines state reason =
    get_driver_state_update "startup" ∷ get_driver_state_response state reason ∷ []

hears_running :
    client_loop say_start (received (start_lines "running" none))
    ≡ some (record {
      written = "VPN Worker is starting up..." ∷ "VPN Worker successfully started" ∷ [];
      close_requests = 1;
    })
unfolding client_loop say_start start_lines to_json get_driver_state_update
    get_driver_state_response
hears_running = refl

hears_crashed :
    (reason : String)
    → client_loop say_start (received (start_lines "crashed" (some reason)))
      ≡ some (record {
        written =
            "VPN Worker is starting up..."
            ∷ "VPN Worker crashed during startup. Please view the logs for more information!" ∷ [];
        close_requests = 1;
      })
unfolding client_loop say_start start_lines to_json get_driver_state_update
    get_driver_state_response
hears_crashed reason = refl

-- What the client makes of the answer to a start.
hears_answer :
    (h : Held) (o : Outcome)
    → Answered h o
    → (s : Session) × (client_loop say_start (received o.sent) ≡ some s)
      × Told h o.app s
      × (s.close_requests ≡ 1)
unfolding start_lines
hears_answer h o (started e r) =
    (_, ap (λ ms. client_loop say_start (received ms)) e ∙ hears_running, told_started refl r, refl)
hears_answer h o (not_started e s) = (
  _,
  ap (λ ms. client_loop say_start (received ms)) e ∙ hears_crashed "",
  told_crashed refl (inl s),
  refl,
)
hears_answer h o (no_adapter e r) = (
  _,
  ap (λ ms. client_loop say_start (received ms)) e ∙ hears_crashed "NO_ACTIVATED_ADAPTERS",
  told_crashed refl (inr r),
  refl,
)

-- The request of the client to start a stopped driver with a configuration to load: the user is told that
-- it started where it runs, and that it crashed where it is stopped or refused the start, and the client
-- asks once to end the connection. The handler of the console is installed, and a function that ends
-- without a `return` answers true.
pub start_request-Told :
    (lib : Rapidjson) (env : Environment) (app : Application)
    → env.handler_installs ≡ true
    → env.no_return ≡ true
    → Loadable app
    → Stopped app
    → (o : Outcome) × (s : Session) × (parse_document lib env
          (put_request "driver.state" "running")
          app
        ≡ some o)
      × (client_loop say_start (received o.sent) ≡ some s)
      × Told app.held o.app s
      × (s.close_requests ≡ 1)
start_request-Told lib env app i n l k =
    let (o, e, a) = start_driver-Answered env app i n l k in
    let (s, f, t, c) = hears_answer app.held o a in (o, s, put_start lib env app ∙ e, f, t, c)

hears_stopped :
    client_loop say_stop (
      received
        (get_driver_state_response "running" none ∷ get_driver_state_response "stopped" none ∷ []))
    ≡ some (record {
      written = "VPN Worker currently running. Shutting down..." ∷ "VPN Worker is stopped" ∷ [];
      close_requests = 2;
    })
unfolding client_loop say_stop to_json get_driver_state_response
hears_stopped = refl

-- The request of the client to stop a running driver: the user is told that it is shut down and then that
-- it is stopped, which it is, and the client asks twice to end the connection.
pub stop_request-Stopped :
    (lib : Rapidjson) (env : Environment) (h : Held) (app : Application)
    → Running h app
    → (o : Outcome) × (s : Session) × (parse_document lib env
          (put_request "driver.state" "stopped")
          app
        ≡ some o)
      × (client_loop say_stop (received o.sent) ≡ some s)
      × (s.written
          ≡ "VPN Worker currently running. Shutting down..." ∷ "VPN Worker is stopped" ∷ [])
      × (s.close_requests ≡ 2)
      × Stopped o.app
stop_request-Stopped lib env h app r =
    let (o, us, e, m, k, u, held) = stop_driver-Running h app r in
    (
      o,
      _,
      put_stop lib env app ∙ e,
      ap (λ ms. client_loop say_stop (received ms)) m ∙ hears_stopped,
      refl,
      refl,
      k,
    )
