-- ===== src/Driver/Start.antt =====
-- What `initRun` and `run` leave.
use treiber.Base.{
  ℕ, suc, ◌≡◌, refl, sym, ap, ◌∙◌, ◌⊎◌, inl, inr, Bool, true, false, none, some, List, [], arith,
  Bool-cases, Option-cases,
}
use mathlib.Core.Path.{subst}
use mathlib.Core.Bool.{false≢true}
use mathlib.Core.Option.{some-injective}
use treiber.AppConfig.{AppConfig, read, write}
use treiber.Adapters.{
  UdpWorkerConfig, init, deactive_everything_but, has_activated_network_adapters,
  generate_udp_configs,
}
use treiber.Driver.{
  Config, Environment, Held, Application, load_config, default_config, starting, new_config,
  get_adapter_handle, start_session, init_wintun, init_adapters, init_run,
}
use treiber.Driver.Phases.{
  acquired, Stopped, Refused, Ready, Pending, Ready-Pending, Refused-Pending,
}

-- What a start did: it went on to the end, it failed at Wintun, or it found no adapter.
pub data Started (no_return : Bool) (h : Held) : Bool × Application → Type 0 where
  ready : (app : Application) → Ready h app → Started no_return h (no_return, app)
  failed :
      (app : Application) → Stopped app → app.crash_reason ≡ "" → Started no_return h (false, app)
  refused : (app : Application) → Refused app → Started no_return h (false, app)

start_session-Started :
    (env : Environment) (h : Held) (app : Application) (us : List UdpWorkerConfig)
    → app.workers ≡ none
    → app.exited ≡ false
    → app.starting_up ≡ true
    → ((c : Config) × (app.conf ≡ some c))
    → app.udpconfigs ≡ some us
    → record app.held { sessions = suc app.held.sessions } ≡ acquired us h
    → app.crash_reason ≡ ""
    → Started env.no_return h (start_session env app)
unfolding start_session
start_session-Started env h app us w x b c u k r = elim (Bool-cases env.session_starts) [
  | inl e ↦ rw e (
      ready _
        (record { idle = w; started = x; unsettled = b; configured = c; working = (us, u, k) }))
  | inr e ↦ rw e (failed _ (record { idle = w; exited = refl; settled = refl }) r)
]

init_wintun-Started :
    (env : Environment) (app : Application)
    → app.workers ≡ none
    → app.exited ≡ false
    → app.starting_up ≡ true
    → ((c : Config) × (app.conf ≡ some c))
    → app.crash_reason ≡ ""
    → Started env.no_return app.held (init_wintun env app)
unfolding init_wintun
init_wintun-Started env app w x b c r = elim (Bool-cases env.wintun_loads) [
  | inr e ↦ rw e (failed _ (record { idle = w; exited = refl; settled = refl }) r)
  | inl e ↦ elim (Bool-cases (get_adapter_handle env)) [
    | inr f ↦ rw (e, f) (failed _ (record { idle = w; exited = refl; settled = refl }) r)
    | inl f ↦
        rw (e, f)
          (start_session-Started env app.held _ (generate_udp_configs env.winsock app.adapter_list)
            w x b c refl refl r)
  ]
]

init_adapters-Started :
    (env : Environment) (app : Application)
    → app.workers ≡ none
    → app.exited ≡ false
    → app.starting_up ≡ true
    → app.crash_reason ≡ ""
    → Started env.no_return app.held (init_adapters env app)
unfolding init_adapters
init_adapters-Started env app w x s r =
    elim (Bool-cases (
      has_activated_network_adapters
        (deactive_everything_but app.internal_config.names (init env.adapter_infos [])))) [
          | inl e ↦ rw e (init_wintun-Started env _ w x s (new_config app.internal_config, refl) r)
          | inr e ↦ rw e (
              refused _
                (record { idle = w; started = x; unsettled = s; crashed = refl; reason = refl }))
        ]

-- The configuration can be loaded: a file that is there is read to its end, and a missing one is not
-- missing at a second start.
abbrev pub Loadable : Application → Type 0
Loadable app =
    ((app.conf_file ≡ none) × (app.adapter_names ≡ false))
    ⊎ ((bytes : List ℕ) × (app.conf_file ≡ some bytes)
        × (r : AppConfig × List ℕ) × (read bytes ≡ some r))

-- Loading leaves all else as the first assignments made it.
load_config-Loadable :
    (app : Application)
    → Loadable app
    → (app' : Application) × (load_config (starting app) ≡ some app')
      × (app'.workers ≡ app.workers)
      × (app'.exited ≡ false)
      × (app'.starting_up ≡ true)
      × (app'.crash_reason ≡ "")
      × (app'.held ≡ app.held)
unfolding load_config starting
load_config-Loadable app (inl (e, f)) = (
  record (starting app) {
    conf_file = some (write (default_config app.internal_config));
    internal_config = default_config app.internal_config;
    adapter_names = true;
  },
  rw (e, f) refl,
  refl,
  refl,
  refl,
  refl,
  refl,
)
load_config-Loadable app (inr (bytes, e, r, f)) = (
  record (starting app) { internal_config = r.0; adapter_names = true },
  rw (e, f) refl,
  refl,
  refl,
  refl,
  refl,
  refl,
)

-- Where no workers run and the configuration can be loaded, a start goes on to the end, and then answers what a function
-- without a `return` gives; or it answers false with the driver stopped and no reason; or it answers
-- false because no adapter is in use, and the driver counts as starting up.
pub init_run-Started :
    (env : Environment) (app : Application)
    → app.workers ≡ none
    → Loadable app
    → (r : Bool × Application) × (init_run env app ≡ some r) × Started env.no_return app.held r
unfolding init_run
init_run-Started env app i h =
    let (app', e, w, x, s, r, k) = load_config-Loadable app h in
    (
      init_adapters env app',
      rw e refl,
      subst (λ held. Started env.no_return held (init_adapters env app')) k
          (init_adapters-Started env app' (w ∙ i) x s r),
    )

-- A start that answers true has gone on to the end.
pub Started-Ready :
    (g : Bool) (h : Held) (r : Bool × Application) → Started g h r → r.0 ≡ true → Ready h r.1
Started-Ready g h r (ready app k) e = k
Started-Ready g h r (failed app k m) e = absurd (false≢true e)
Started-Ready g h r (refused app k) e = absurd (false≢true e)

pub init_run-Ready :
    (env : Environment) (app app' : Application)
    → app.workers ≡ none
    → Loadable app
    → init_run env app ≡ some (true, app')
    → Ready app.held app'
init_run-Ready env app app' i h e =
    let (r, f, s) = init_run-Started env app i h in
    let p = some-injective r (true, app') (sym f ∙ e) in
    subst (λ x. Ready app.held x) (ap (λ x. x.1) p)
      (Started-Ready env.no_return app.held r s (ap (λ x. x.0) p))

-- A start that is defined had a configuration to load.
init_run-Loadable :
    (env : Environment) (app : Application) (r : Bool × Application)
    → init_run env app ≡ some r
    → Loadable app
unfolding init_run load_config starting
init_run-Loadable env app r h = elim (Option-cases app.conf_file) [
  | inl e ↦ elim (Bool-cases app.adapter_names) [
    | inl f ↦ ground (arith, h, e, f)
    | inr f ↦ inl (e, f)
  ]
  | inr (bytes, e) ↦ elim (Option-cases (read bytes)) [
    | inl f ↦ ground (arith, h, e, f)
    | inr (c, f) ↦ inr (bytes, e, c, f)
  ]
]

-- Where a start leaves the driver, whatever it answers.
pub Started-Settled :
    (g : Bool) (h : Held) (r : Bool × Application) → Started g h r → Stopped r.1 ⊎ Pending r.1
Started-Settled g h r (ready app k) = inr (Ready-Pending h app k)
Started-Settled g h r (failed app k m) = inl k
Started-Settled g h r (refused app k) = inr (Refused-Pending app k)

-- What a start that is defined did.
pub init_run_outcome :
    (env : Environment) (app : Application) (r : Bool × Application)
    → app.workers ≡ none
    → init_run env app ≡ some r
    → Started env.no_return app.held r
init_run_outcome env app r w e =
    let (r', f, s) = init_run-Started env app w (init_run-Loadable env app r e) in
    subst (Started env.no_return app.held) (some-injective r' r (sym f ∙ e)) s
