-- ===== src/Driver.antt =====
-- `Treiber Winttun/Application.h` and `Treiber Winttun/Application.cpp`, the class Config of
-- `Treiber Winttun/Config.h`, `getAdapterHandle` of `Treiber Winttun/adapter.h`, and `closeSockets` and
-- `shutdownWSA` of `Treiber Winttun/UPDSocketWorker.cpp`. What the system answers in one call is an
-- Environment. `none` is undefined behaviour: the use of a pointer that is unset or null, or of variables
-- that a file that ends too early left unset.
pub mod Phases
pub mod Start
pub mod Stop
pub mod Signals
pub mod Examples
mod Tests
use Prim.Native.String.{String}
use treiber.Base.{
  ℕ, zero, suc, ◌+◌, ◌-◌, ◌^◌, Bool, true, false, not, ◌||◌, Option, none, some, List, [], ◌∷◌,
  ◌++◌, length, if◌then◌else◌, ◌>>=◌,
}
use treiber.Base.Int.{ℤ, pos}
use treiber.Buffer.Access.{wrap}
use treiber.Workqueue.{Workqueue, create, release_all}
use treiber.AppConfig.{NsIpAddress, AppConfig, read, write}
use treiber.Adapters.{
  AdapterInfo, Entry, Winsock, UdpWorkerConfig, Socket, unset, invalid, opened, closed, init,
  deactive_everything_but, has_activated_network_adapters, generate_udp_configs,
}

-- The bytes of a text of ASCII characters.
abbrev pub codes : String → List ℕ
codes String.[] = []
codes (String.◌∷◌ c s) = Prim.Native.Char.code c ∷ codes s

pub record Config : Type 0 where
  pub win_tun_adapter_ipv4_adress : NsIpAddress
  pub win_tun_adapter_subnet_bits : ℕ
  pub server_ipv4_adress : NsIpAddress
  pub server_port : ℕ
  pub log_level : ℤ
  pub is_running : Bool
  pub stats_running : Bool
  pub sending_packet_queue : Workqueue
  pub recieving_packet_queue : Workqueue

-- NS_QUEUE_SIZE
abbrev queue_size : ℕ
queue_size = 100

pub record Environment : Type 0 where
  pub adapter_infos : Option (List AdapterInfo)
  pub winsock : Winsock
  pub wintun_loads : Bool
  pub adapter_opens : Bool
  pub adapter_creates : Bool
  pub session_starts : Bool
  pub handler_installs : Bool
  -- What a caller sees of a function that ends without a `return`.
  pub no_return : Bool

-- The numbers of things of the system that the process holds.
pub record Held : Type 0 where
  pub modules : ℕ
  pub events : ℕ
  pub sockets : ℕ
  pub winsocks : ℕ
  pub adapters : ℕ
  pub sessions : ℕ
  pub workers : ℕ

pub record Application : Type 0 where
  -- The file at `confFilePath`.
  pub conf_file : Option (List ℕ)
  pub internal_config : AppConfig
  -- Whether `adapterNames` owns the names of `internalConfig`.
  pub adapter_names : Bool
  pub adapter_list : List Entry
  pub conf : Option Config
  pub udpconfigs : Option (List UdpWorkerConfig)
  -- The number of workers, where the array of their handles is allocated.
  pub workers : Option ℕ
  pub exited : Bool
  pub starting_up : Bool
  pub crashed : Bool
  pub crash_reason : String
  pub log_level : ℤ
  pub exit_handlers : ℕ
  pub held : Held

unfoldable pub is_running : Application → Bool
is_running app = not app.exited

unfoldable pub is_starting_up : Application → Bool
is_starting_up app = app.starting_up

-- The default of a missing configuration file; the names are added to those that are there.
pub default_config : AppConfig → AppConfig
default_config c = record {
  adapter_ip = record { ipp1 = 10; ipp2 = 0; ipp3 = 0; ipp4 = 3 };
  adapter_subnet_bits = pos 24;
  server_ip = record { ipp1 = 178; ipp2 = 63; ipp3 = 3; ipp4 = 159 };
  server_port = pos 5555;
  log_level = pos 2;
  names = c.names ++ (codes "{8AB7398C-5F9B-44E1-BC1B-8B9A64EBDD30}" ∷ []);
}

-- The first half of `initRun`. With a file, `read` makes a new vector of names; without one, the names of
-- an earlier run, which `adapterNames.reset` deletes and keeps, are used after that.
pub load_config : Application → Option Application
unfolding default_config
load_config app = elim app.conf_file [
  | none ↦
      if app.adapter_names
      then none
      else some (record app {
        conf_file = some (write (default_config app.internal_config));
        internal_config = default_config app.internal_config;
        adapter_names = true;
      })
  | some bytes ↦ do
    (c, rest) ← read bytes
    some (record app { internal_config = c; adapter_names = true })
]

-- `new Config()` and the assignments to it; `isRunning` stays unset until `run`.
pub new_config : AppConfig → Config
new_config c = record {
  win_tun_adapter_ipv4_adress = c.adapter_ip;
  win_tun_adapter_subnet_bits = wrap 256 c.adapter_subnet_bits;
  server_ipv4_adress = c.server_ip;
  server_port = wrap (2 ^ 16) c.server_port;
  log_level = c.log_level;
  is_running = false;
  stats_running = true;
  sending_packet_queue = create queue_size;
  recieving_packet_queue = create queue_size;
}

pub get_adapter_handle : Environment → Bool
get_adapter_handle env = env.adapter_opens || env.adapter_creates

-- The open sockets; each stands in two configurations, of which one sends.
pub open_sockets : List UdpWorkerConfig → ℕ
open_sockets [] = 0
open_sockets (c ∷ cs) =
    let rest = open_sockets cs in
    elim c.socket [
      | unset ↦ rest
      | invalid ↦ rest
      | opened s ↦ if c.reciever then rest else suc rest
      | closed s ↦ rest
    ]

-- The failures of `initRun` behind the loading of Wintun.
abbrev give_up : Application → Bool × Application
give_up app = (false, record app { exited = true; starting_up = false })

-- `initRun` from `WintunStartSession` on.
pub start_session : Environment → Application → Bool × Application
start_session env app =
    if env.session_starts
    then (env.no_return, record app { held = record app.held { sessions = suc app.held.sessions } })
    else give_up (record app { held = record app.held { adapters = app.held.adapters - 1 } })

-- `initRun` from `InitializeWintun` on.
pub init_wintun : Environment → Application → Bool × Application
unfolding start_session get_adapter_handle open_sockets
init_wintun env app =
    if env.wintun_loads
    then (let us = generate_udp_configs env.winsock app.adapter_list in
        let held = record app.held {
          modules = suc app.held.modules;
          events = suc app.held.events;
          sockets = app.held.sockets + open_sockets us;
          winsocks = app.held.winsocks + open_sockets us;
        } in
        let app' = record app { udpconfigs = some us; held = held } in
        if get_adapter_handle env
        then start_session env (record app' { held = record held { adapters = suc held.adapters } })
        else give_up app')
    else give_up app

-- `initRun` from the loading of the adapters on.
pub init_adapters : Environment → Application → Bool × Application
unfolding init_wintun new_config
init_adapters env app =
    let names = app.internal_config.names in
    let app' = record app {
      log_level = app.internal_config.log_level;
      conf = some (new_config app.internal_config);
      adapter_list = deactive_everything_but names (init env.adapter_infos []);
    } in
    if has_activated_network_adapters app'.adapter_list then init_wintun env app' else (
      false,
      record app' {
        conf = some (record (new_config app.internal_config) { stats_running = false });
        crashed = true;
        crash_reason = "NO_ACTIVATED_ADAPTERS";
      },
    )

-- The first assignments of `initRun`.
pub starting : Application → Application
starting app = record app { crashed = false; crash_reason = ""; exited = false; starting_up = true }

-- `initRun`
pub init_run : Environment → Application → Option (Bool × Application)
unfolding starting load_config init_adapters
init_run env app = do app' ← load_config (starting app); some (init_adapters env app')

-- `shutdown` as far as `releaseAll`: what the workers see before they are waited for.
signal_workers : Config → Config
signal_workers c = record c {
  stats_running = false;
  is_running = false;
  sending_packet_queue = release_all c.sending_packet_queue;
  recieving_packet_queue = release_all c.recieving_packet_queue;
}

-- `closeSockets`: each socket is closed for the first of its two configurations.
pub close_sockets : List UdpWorkerConfig → Held → Held
unfolding open_sockets
close_sockets us held = record held { sockets = held.sockets - open_sockets us }

-- `clearWorkers`, which waits for each worker to end.
pub clear_workers : ℕ → Held → Held
clear_workers n held = record held { workers = held.workers - n }

-- The calls of `shutdown` from `clearWorkers` on.
pub give_back : ℕ → List UdpWorkerConfig → Held → Held
unfolding clear_workers close_sockets
give_back n us held =
    let held' = close_sockets us (clear_workers n held) in
    record held' {
      winsocks = held'.winsocks - 1;
      sessions = held'.sessions - 1;
      adapters = held'.adapters - 1;
      events = held'.events - 1;
    }

-- `shutdown` from `clearWorkers` on.
pub release_resources : Application → Option Application
unfolding give_back
release_resources app = do
  n ← app.workers
  us ← app.udpconfigs
  some (record app {
    conf = none;
    workers = none;
    udpconfigs = none;
    held = give_back n us app.held;
  })

-- `shutdown`
pub shutdown : Application → Option Application
unfolding signal_workers release_resources
shutdown app = if app.exited then some app else do
  c ← app.conf
  release_resources (record app { exited = true; conf = some (signal_workers c) })

-- The first half of `run`, with the number of workers.
pub start_workers : ℕ → Config → Application → Application
start_workers n c app = record app {
  conf = some (record c { is_running = true });
  workers = some n;
  held = record app.held { workers = app.held.workers + n };
}

-- The second half of `run`. The handler that `atexit` is given is `shutdown`.
pub end_start : Application → Application
end_start app = record app { starting_up = false; exit_handlers = suc app.exit_handlers }

-- `run`: without the handler of the console it shuts down, and goes on.
pub run : Environment → Application → Option Application
unfolding shutdown start_workers end_start
run env app = do
  c ← app.conf
  us ← app.udpconfigs
  let started = start_workers (length us + 2) c app
  app' ← (if env.handler_installs then some started else shutdown started)
  some (end_start app')

-- `init`, without the thread that listens: the path of the file is fixed. The numbers
-- of the first configuration are unset.
unfoldable pub initial : Option (List ℕ) → Application
initial file = record {
  conf_file = file;
  internal_config = record {
    adapter_ip = record { ipp1 = 0; ipp2 = 0; ipp3 = 0; ipp4 = 0 };
    adapter_subnet_bits = pos 0;
    server_ip = record { ipp1 = 0; ipp2 = 0; ipp3 = 0; ipp4 = 0 };
    server_port = pos 0;
    log_level = pos 0;
    names = [];
  };
  adapter_names = false;
  adapter_list = [];
  conf = none;
  udpconfigs = none;
  workers = none;
  exited = true;
  starting_up = false;
  crashed = false;
  crash_reason = "";
  log_level = pos 1;
  exit_handlers = 0;
  held = record {
    modules = 0;
    events = 0;
    sockets = 0;
    winsocks = 0;
    adapters = 0;
    sessions = 0;
    workers = 0;
  };
}
