-- ===== src/Driver/Stop.antt =====
-- `run` and `shutdown`, and what the process holds after both.
use treiber.Base.{
  ℕ, zero, suc, ◌+◌, ◌-◌, ◌≡◌, refl, sym, ap, ◌∙◌, inl, inr, true, false, none, some, List, arith,
  length, Option-cases, Bool-cases,
}
use mathlib.Core.Path.{subst}
use mathlib.Core.Option.{some-injective, none-ne-some}
use treiber.Adapters.{UdpWorkerConfig}
use treiber.Driver.Signals.{run_exit_handlers}
use treiber.Driver.{
  Environment, Held, Application, open_sockets, close_sockets, clear_workers, give_back,
  start_workers, end_start, release_resources, shutdown, init_run, run,
}
use treiber.Driver.Start.{Loadable, init_run-Ready}
use treiber.Driver.Phases.{acquired, left_over, Stopped, Running, Ready, Pending, Settled}

give_back-acquired :
    (us : List UdpWorkerConfig) (h : Held) (n : ℕ)
    → give_back n us (record (acquired us h) { workers = h.workers + n }) ≡ left_over us h
unfolding give_back clear_workers close_sockets
give_back-acquired us h n =
    rw
      (
        add_sub h.workers n,
        add_sub h.sockets (open_sockets us),
        suc_sub h.sessions,
        suc_sub h.adapters,
        suc_sub h.events,
      )
      refl
  where
    add_sub : (a b : ℕ) → a + b - b ≡ a
    add_sub a b = omega arith

    suc_sub : (a : ℕ) → suc a - 1 ≡ a
    suc_sub a = omega arith

-- Where the handler of the console is installed, `run` leads to the running driver.
pub run-Running :
    (env : Environment) (h : Held) (app : Application)
    → env.handler_installs ≡ true
    → Ready h app
    → (app' : Application) × (run env app ≡ some app') × Running h app'
unfolding run start_workers end_start
run-Running env h app i r =
    let (c, e) = r.configured in
    let (us, f, k) = r.working in
    let n = length us + 2 in
    (
      end_start (start_workers n c app),
      rw (e, f, i) refl,
      record {
        started = r.started;
        settled = refl;
        configured = (record c { is_running = true }, refl, refl);
        working =
            (us, f, refl, ap {A = Held} {B = Held} (λ x. record x { workers = x.workers + n }) k);
      },
    )

-- A running driver can be shut down: everything is given back but the library and the uses of Winsock
-- after the first.
pub shutdown-Running :
    (h : Held) (app : Application)
    → Running h app
    → (app' : Application) × (us : List UdpWorkerConfig) × (shutdown app ≡ some app')
      × Stopped app'
      × (app.udpconfigs ≡ some us)
      × (app'.held ≡ left_over us h)
unfolding shutdown release_resources
shutdown-Running h app r =
    let (c, e, _) = r.configured in
    let (us, f, g, k) = r.working in
    let n = length us + 2 in
    (
      record app {
        exited = true;
        conf = none;
        workers = none;
        udpconfigs = none;
        held = give_back n us app.held;
      },
      us,
      rw (r.started, e, g, f) refl,
      record { idle = refl; exited = refl; settled = r.settled },
      f,
      ap (give_back n us) k ∙ give_back-acquired us h n,
    )

-- Where no workers run, the configuration can be loaded and the handler of the console is installed, a start
-- that answers true leads with `run` to the running driver, and then `shutdown` to the stopped
-- one, which holds what it held before, the library once more and all uses of Winsock but one.
pub start_stop_cycle :
    (env : Environment) (app ready : Application)
    → app.workers ≡ none
    → Loadable app
    → env.handler_installs ≡ true
    → init_run env app ≡ some (true, ready)
    → (running : Application) × (stopped : Application) × (us : List UdpWorkerConfig) × (run env
          ready
        ≡ some running)
      × Running app.held running
      × (shutdown running ≡ some stopped)
      × Stopped stopped
      × (running.udpconfigs ≡ some us)
      × (stopped.held ≡ left_over us app.held)
start_stop_cycle env app ready w l i e =
    let (a, f, r) = run-Running env app.held ready i (init_run-Ready env app ready w l e) in
    let (b, us, g, s, u, k) = shutdown-Running app.held a r in (a, b, us, f, r, g, s, u, k)

-- Without workers and with something to stop, `shutdown` is undefined.
pub shutdown-Pending : (app : Application) → Pending app → shutdown app ≡ none
unfolding shutdown release_resources
shutdown-Pending app p = elim (Option-cases app.conf) [
  | inl e ↦ rw (p.started, e) refl
  | inr (c, e) ↦ rw (p.started, e, p.idle) refl
]

shutdown-Stopped : (app : Application) → Stopped app → shutdown app ≡ some app
unfolding shutdown
shutdown-Stopped app s = rw s.exited refl

-- A shutdown that is defined leads from each of these states to the stopped one.
pub shutdown-Settled :
    (app app' : Application) → Settled app → shutdown app ≡ some app' → Stopped app'
shutdown-Settled app app' (inl s) e =
    subst Stopped (some-injective app app' (sym (shutdown-Stopped app s) ∙ e)) s
shutdown-Settled app app' (inr (inl (h, r))) e =
    let (b, us, g, s, u, k) = shutdown-Running h app r in
    subst Stopped (some-injective b app' (sym g ∙ e)) s
shutdown-Settled app app' (inr (inr p)) e =
    absurd (none-ne-some app' (sym (shutdown-Pending app p) ∙ e))

-- Without the handler of the console, `run` leads to the stopped driver.
run-Stopped :
    (env : Environment) (h : Held) (app : Application)
    → env.handler_installs ≡ false
    → Ready h app
    → (app' : Application) × (run env app ≡ some app') × Stopped app'
unfolding run shutdown release_resources start_workers end_start
run-Stopped env h app i r =
    let (c, e) = r.configured in
    let (us, f, _) = r.working in
    let n = length us + 2 in
    let held = record app.held { workers = app.held.workers + n } in
    (
      end_start (record app {
        exited = true;
        conf = none;
        workers = none;
        udpconfigs = none;
        held = give_back n us held;
      }),
      rw (e, f, i, r.started) refl,
      record { idle = refl; exited = refl; settled = refl },
    )

-- `run` behind a start that answered true leads to the running or the stopped driver.
pub run-Settled :
    (env : Environment) (h : Held) (app app' : Application)
    → Ready h app
    → run env app ≡ some app'
    → Settled app'
run-Settled env h app app' r e = elim (Bool-cases env.handler_installs) [
  | inl i ↦
      let (a, f, k) = run-Running env h app i r in
      subst Settled (some-injective a app' (sym f ∙ e)) (inr (inl (h, k)))
  | inr i ↦
      let (a, f, k) = run-Stopped env h app i r in
      subst Settled (some-injective a app' (sym f ∙ e)) (inl k)
]

-- The handlers of `atexit` have nothing to do for a stopped driver.
pub run_exit_handlers-Stopped :
    (n : ℕ) (app : Application) → Stopped app → run_exit_handlers n app ≡ some app
unfolding run_exit_handlers
run_exit_handlers-Stopped zero app s = refl
run_exit_handlers-Stopped (suc n) app s =
    rw (run_exit_handlers, shutdown-Stopped app s) (run_exit_handlers-Stopped n app s)
