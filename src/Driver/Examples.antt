-- ===== src/Driver/Examples.antt =====
-- Concrete answers of the system and concrete states of the driver.
use treiber.Base.{◌≡◌, ◌+◌, refl, inl, true, false, none, some, List, [], ◌∷◌}
use treiber.Adapters.{AdapterInfo, Winsock}
use treiber.Driver.{Environment, Application, codes, initial, new_config}
use treiber.Driver.Phases.{Stopped, Running, Pending, acquired}
use treiber.Driver.Start.{Loadable}

abbrev pub winsock : Winsock
winsock = record {
  starts = true;
  create = λ a p. some p;
  binds = λ s a p. true;
  never_blocks = λ s. true;
}

-- The adapter of the default configuration, and another one.
abbrev pub infos : List AdapterInfo
infos =
    record { adapter_name = codes "other"; description = []; ip_address = codes "0.0.0.0" }
    ∷ record {
      adapter_name = codes "{8AB7398C-5F9B-44E1-BC1B-8B9A64EBDD30}";
      description = [];
      ip_address = codes "192.168.0.10";
    }
    ∷ []

abbrev pub environment : Environment
environment = record {
  adapter_infos = some infos;
  winsock = winsock;
  wintun_loads = true;
  adapter_opens = false;
  adapter_creates = true;
  session_starts = true;
  handler_installs = true;
  no_return = true;
}

abbrev pub fresh : Application
fresh = initial none

pub fresh-Loadable : Loadable fresh
unfolding initial
fresh-Loadable = inl (refl, refl)

pub fresh_idle : fresh.workers ≡ none
unfolding initial
fresh_idle = refl

pub fresh-Stopped : Stopped fresh
unfolding initial
fresh-Stopped = record { idle = refl; exited = refl; settled = refl }

-- A start has found no adapter in use.
abbrev pub pending : Application
pending = record fresh { exited = false; starting_up = true }

pub pending-Pending : Pending pending
unfolding initial
pending-Pending = record { idle = refl; started = refl; unsettled = refl }

-- Two workers run, without a socket.
abbrev pub running_app : Application
running_app = record fresh {
  exited = false;
  conf = some (record (new_config fresh.internal_config) { is_running = true });
  udpconfigs = some [];
  workers = some 2;
  held = record (acquired [] fresh.held) { workers = fresh.held.workers + 2 };
}

pub running_app-Running : Running fresh.held running_app
unfolding initial
running_app-Running = record {
  started = refl;
  settled = refl;
  configured = (record (new_config fresh.internal_config) { is_running = true }, refl, refl);
  working = ([], refl, refl, refl);
}
