-- ===== src/Protocol/Replies.antt =====
-- What the driver answers to the requests to start and to stop it.
use treiber.Base.{◌≡◌, refl, ap, Bool, true, false, none, some, List, [], ◌∷◌}
use mathlib.Core.Path.{subst}
use treiber.Adapters.{UdpWorkerConfig}
use treiber.Driver.{Environment, Held, Application}
use treiber.Driver.Phases.{
  Stopped, Running, Refused, left_over, is_running-Stopped, is_starting_up-Stopped,
  is_running_app-Running, is_starting_up-Running,
}
use treiber.Driver.Start.{Started, ready, failed, refused, Loadable, init_run-Started}
use treiber.Driver.Stop.{shutdown-Running, run-Running}
use treiber.Protocol.{
  Outcome, start_driver, after_init, stop_driver, get_driver_state_update,
  get_driver_state_response,
}

-- The answer to the start of a stopped driver says what became of it.
pub data Answered (h : Held) (o : Outcome) : Type 0 where
  started :
      o.sent ≡ get_driver_state_update "startup" ∷ get_driver_state_response "running" none ∷ []
      → Running h o.app
      → Answered h o
  not_started :
      o.sent
        ≡ get_driver_state_update "startup" ∷ get_driver_state_response "crashed" (some "") ∷ []
      → Stopped o.app
      → Answered h o
  no_adapter :
      o.sent
        ≡ get_driver_state_update "startup"
          ∷ get_driver_state_response "crashed" (some "NO_ACTIVATED_ADAPTERS")
          ∷ []
      → Refused o.app
      → Answered h o

-- The rest of the handler behind `initRun`, where a function without a `return` answers true.
answer-Started :
    (env : Environment) (h : Held) (r : Bool × Application)
    → env.handler_installs ≡ true
    → Started true h r
    → (o : Outcome) × (after_init env r ≡ some o) × Answered h o
unfolding after_init
answer-Started env h r i (ready app k) =
    let (a, e, s) = run-Running env h app i k in
    (
      record {
        sent = get_driver_state_update "startup" ∷ get_driver_state_response "running" none ∷ [];
        app = a;
        running = true;
        ended = false;
      },
      rw e refl,
      started refl s,
    )
answer-Started env h r i (failed app k e) = (
  record {
    sent =
        get_driver_state_update "startup"
        ∷ get_driver_state_response "crashed" (some app.crash_reason)
        ∷ [];
    app = app;
    running = true;
    ended = false;
  },
  refl,
  not_started
      (ap
        (λ s. get_driver_state_update "startup" ∷ get_driver_state_response "crashed" (some s) ∷ [])
        e)
      k,
)
answer-Started env h r i (refused app k) = (
  record {
    sent =
        get_driver_state_update "startup"
        ∷ get_driver_state_response "crashed" (some app.crash_reason)
        ∷ [];
    app = app;
    running = true;
    ended = false;
  },
  refl,
  no_adapter
      (ap
        (λ s. get_driver_state_update "startup" ∷ get_driver_state_response "crashed" (some s) ∷ [])
        k.reason)
      k,
)

-- A stopped driver with a configuration to load answers "running" and runs, or "crashed" without a reason
-- and is stopped, or "crashed" with the reason that no adapter is in use. The handler of the console is
-- installed, and a function that ends without a `return` answers true.
pub start_driver-Answered :
    (env : Environment) (app : Application)
    → env.handler_installs ≡ true
    → env.no_return ≡ true
    → Loadable app
    → Stopped app
    → (o : Outcome) × (start_driver env app ≡ some o) × Answered app.held o
unfolding start_driver
start_driver-Answered env app i n l s =
    let (r, e, k) = init_run-Started env app s.idle l in
    let (o, f, a) = answer-Started env app.held r i (subst (λ b. Started b app.held r) n k) in
    (o, rw (is_starting_up-Stopped app s, is_running-Stopped app s, e, f) refl, a)

-- A running driver that is stopped answers "running" and then "stopped", and keeps nothing but the
-- library and the uses of Winsock after the first.
pub stop_driver-Running :
    (h : Held) (app : Application)
    → Running h app
    → (o : Outcome) × (us : List UdpWorkerConfig) × (stop_driver app ≡ some o)
      × (o.sent
          ≡ get_driver_state_response "running" none
            ∷ get_driver_state_response "stopped" none
            ∷ [])
      × Stopped o.app
      × (app.udpconfigs ≡ some us)
      × (o.app.held ≡ left_over us h)
unfolding stop_driver
stop_driver-Running h app r =
    let (b, us, e, s, u, k) = shutdown-Running h app r in
    (
      record {
        sent =
            get_driver_state_response "running" none
            ∷ get_driver_state_response "stopped" none
            ∷ [];
        app = b;
        running = true;
        ended = false;
      },
      us,
      rw (is_starting_up-Running h app r, is_running_app-Running h app r, e, is_running-Stopped b s)
          refl,
      refl,
      s,
      u,
      k,
    )
