-- ===== src/Driver/Phases.antt =====
-- The states in which the driver waits for messages, and the state between `initRun` and `run`.
use treiber.Base.{
  refl, suc, ◌+◌, ◌-◌, ◌≡◌, ◌⊎◌, inl, inr, true, false, none, some, List, length, arith,
}
use treiber.Adapters.{UdpWorkerConfig}
use treiber.Driver.{Config, Held, Application, is_running, is_starting_up, open_sockets}

pub record Stopped (app : Application) : Type 0 where
  pub idle : app.workers ≡ none
  pub exited : app.exited ≡ true
  pub settled : app.starting_up ≡ false

-- What the process holds after a successful `initRun`, where it held `h` before.
abbrev pub acquired : List UdpWorkerConfig → Held → Held
acquired us h = record h {
  modules = suc h.modules;
  events = suc h.events;
  sockets = h.sockets + open_sockets us;
  winsocks = h.winsocks + open_sockets us;
  adapters = suc h.adapters;
  sessions = suc h.sessions;
}

-- What it holds after the shutdown: the library, and all uses of Winsock but one.
abbrev pub left_over : List UdpWorkerConfig → Held → Held
left_over us h = record h { modules = suc h.modules; winsocks = h.winsocks + open_sockets us - 1 }

-- After a successful `initRun`.
pub record Ready (h : Held) (app : Application) : Type 0 where
  pub idle : app.workers ≡ none
  pub started : app.exited ≡ false
  pub unsettled : app.starting_up ≡ true
  pub configured : (c : Config) × (app.conf ≡ some c)
  pub working :
      (us : List UdpWorkerConfig) × (app.udpconfigs ≡ some us) × (app.held ≡ acquired us h)

pub record Running (h : Held) (app : Application) : Type 0 where
  pub started : app.exited ≡ false
  pub settled : app.starting_up ≡ false
  pub configured : (c : Config) × (app.conf ≡ some c) × (c.is_running ≡ true)
  pub working :
      (us : List UdpWorkerConfig) × (app.udpconfigs ≡ some us)
      × (app.workers ≡ some (length us + 2))
      × (app.held ≡ record (acquired us h) { workers = h.workers + (length us + 2) })

-- After a start without an adapter in use.
pub record Refused (app : Application) : Type 0 where
  pub idle : app.workers ≡ none
  pub started : app.exited ≡ false
  pub unsettled : app.starting_up ≡ true
  pub crashed : app.crashed ≡ true
  pub reason : app.crash_reason ≡ "NO_ACTIVATED_ADAPTERS"

-- A start has begun and has neither succeeded nor been given up.
pub record Pending (app : Application) : Type 0 where
  pub idle : app.workers ≡ none
  pub started : app.exited ≡ false
  pub unsettled : app.starting_up ≡ true

-- Between two messages the driver is stopped, running or pending.
abbrev pub Settled : Application → Type 0
Settled app = Stopped app ⊎ ((h : Held) × Running h app) ⊎ Pending app

pub Refused-Pending : (app : Application) → Refused app → Pending app
Refused-Pending app r = record { idle = r.idle; started = r.started; unsettled = r.unsettled }

pub Ready-Pending : (h : Held) (app : Application) → Ready h app → Pending app
Ready-Pending h app r = record { idle = r.idle; started = r.started; unsettled = r.unsettled }

-- Only the stopped driver does not run.
pub Settled-Stopped : (app : Application) → Settled app → is_running app ≡ false → Stopped app
unfolding is_running
Settled-Stopped app (inl s) e = s
Settled-Stopped app (inr (inl (h, r))) e = ground (arith, r.started, e)
Settled-Stopped app (inr (inr p)) e = ground (arith, p.started, e)

pub is_running-Stopped : (app : Application) → Stopped app → is_running app ≡ false
unfolding is_running
is_running-Stopped app s = rw s.exited refl

pub is_running-Pending : (app : Application) → Pending app → is_running app ≡ true
unfolding is_running
is_running-Pending app p = rw p.started refl

pub is_starting_up-Pending : (app : Application) → Pending app → is_starting_up app ≡ true
unfolding is_starting_up
is_starting_up-Pending app p = p.unsettled

pub Pending-Stopped : (app : Application) → Pending app → ¬ Stopped app
Pending-Stopped app p s = ground (arith, p.started, s.exited)

pub is_starting_up-Stopped : (app : Application) → Stopped app → is_starting_up app ≡ false
unfolding is_starting_up
is_starting_up-Stopped app s = s.settled

pub is_running_app-Running : (h : Held) (app : Application) → Running h app → is_running app ≡ true
unfolding is_running
is_running_app-Running h app r = rw r.started refl

pub is_starting_up-Running :
    (h : Held) (app : Application) → Running h app → is_starting_up app ≡ false
unfolding is_starting_up
is_starting_up-Running h app r = r.settled
