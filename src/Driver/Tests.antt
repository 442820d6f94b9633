-- ===== src/Driver/Tests.antt =====
-- A start and a shutdown at concrete inputs.
use treiber.Base.{◌≡◌, refl, Bool, true, some, List}
use treiber.AppConfig.{write}
use treiber.Adapters.{
  init, deactive_everything_but, has_activated_network_adapters, UdpWorkerConfig,
}
use treiber.Driver.{
  Application, initial, starting, default_config, get_adapter_handle, start_session, init_wintun,
  init_adapters, init_run, run, shutdown,
}
use treiber.Driver.Examples.{environment, fresh, fresh-Loadable, fresh_idle}
use treiber.Driver.Phases.{Stopped, Running, left_over}
use treiber.Driver.Start.{Started, init_run-Started}
use treiber.Driver.Stop.{start_stop_cycle}

init_run-Started_example :
    (r : Bool × Application) × (init_run environment fresh ≡ some r)
    × Started environment.no_return fresh.held r
init_run-Started_example = init_run-Started environment fresh fresh_idle fresh-Loadable

-- What the start leaves.
abbrev loaded : Application
loaded = record (starting fresh) {
  conf_file = some (write (default_config fresh.internal_config));
  internal_config = default_config fresh.internal_config;
  adapter_names = true;
}

abbrev ready_app : Application
ready_app = (init_adapters environment loaded).1

starts : init_run environment fresh ≡ some (true, ready_app)
unfolding init_run initial init_adapters default_config init deactive_everything_but
    has_activated_network_adapters init_wintun get_adapter_handle start_session
starts = refl

start_stop_cycle_example :
    (running : Application) × (stopped : Application) × (us : List UdpWorkerConfig) × (run
        environment ready_app
      ≡ some running)
    × Running fresh.held running
    × (shutdown running ≡ some stopped)
    × Stopped stopped
    × (running.udpconfigs ≡ some us)
    × (stopped.held ≡ left_over us fresh.held)
start_stop_cycle_example =
    start_stop_cycle environment fresh ready_app fresh_idle fresh-Loadable refl starts
