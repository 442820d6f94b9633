-- ===== src/Lib.antt =====
-- The Treiber driver: the Wintun driver with its packet queues, its state machine and the messages
-- that control it, and the support library in C of the first driver.
--
-- The program has three parts. `Treiber Winttun/` is the driver: a thread reads packets from the
-- tunnel adapter and hands them to the UDP workers through a bounded ring, `Workqueue`, and a second
-- ring takes the packets back. The class Application starts and stops the workers, for the adapters
-- that the stored configuration names; the configuration port takes messages in JSON that start and
-- stop it, end the process, or change the stored configuration. `NetShareCLI/` is the client of that
-- port. `Treiber/lib/` is the C library under the first driver; its buffers
-- carry every packet, and its lists of arguments and of environment variables start the tools that
-- set up an adapter.
--
-- Files, with the code each one models:
--   Base        shared names, tests on numbers, lists, words of 64 bits, signed integers
--   Workqueue   `Treiber Winttun/Workqueue.h`, `Workqueue.cpp`, `WorkPacket.h`: a method that runs
--               under the mutex is one step on the state; an interleaving of threads is a list of
--               such steps. `Workqueue.Refine` and `Schedule` relate the ring to a bounded FIFO.
--   Statistics  `Treiber Winttun/diagnostics.h`: the counters, and the statements of their thread, which takes
--               no lock, between those of the workers
--   Workers     `Treiber Winttun/UPDSocketWorker.cpp`, `WinTunLogic.h`: a round of each of the four
--               loops, on the queue of `Workqueue` and the counters of `Statistics`
--   AppConfig   `Treiber Winttun/AppConfig.h`, `AppConfig.cpp`: the stored configuration
--   Adapters    `Treiber Winttun/NetworkAdapter.h`, `NetworkAdapterList.h`, `UDPWorkerConfig.h`,
--               `initSocket` and `parseIpString`: which adapters are used, and the UDP configurations
--               of each. `Adapters.Ports` and `Names` say which these are.
--   Driver      `Treiber Winttun/Application.h`, `Application.cpp`: `initRun`, `run` and `shutdown`
--               on the state of the class, with counts of what the process holds. What the system
--               answers in a call is an Environment. `Driver.Phases` has the states in which the
--               driver waits for messages, `Start` and `Stop` the ways between them, `Signals` the
--               signals of the console.
--   Protocol    `Treiber Winttun/ConfigurationWorker.h`, `ConfigurationWorker.cpp`: every handler, and
--               the loop of a connection, on the state of `Driver`. `Protocol.Document` is a parsed
--               document; the parser and PopBack of RapidJSON are parameters. `Dispatch` and `States`
--               follow a state of the driver through all handlers, `Replies` has the answers,
--               `Settings` the changes of the stored configuration.
--   Client      `NetShareCLI/startDriver.cpp`, `stopDriver.cpp`, `KillDeamon.cpp`, `utils.cpp`: the
--               client of the configuration port. `Client.Sessions` follows a request from the client
--               through the handlers of `Protocol` and back. `Client.Configure` is the command of
--               `configureDriver.cpp` that asks for the adapters.
--   Wintun      `Treiber/lib/ring_buffer.h` and, of `Treiber/lib/tun.h`, `read_wintun`,
--               `write_wintun` and `is_ip_packet_valid`: the rings between the first driver and
--               Wintun. `Wintun.Fifo` says which packets the bytes of a ring hold.
--   Buffer      `Treiber/lib/buffer.h`, `Treiber/lib/buffer.c`: `struct buffer`. `Buffer.Access` has
--               the reads, writes and copies, `Buffer.Lines` the comparisons and lines. The theorems
--               speak of `rep pre c post`, the buffer whose content `c` stands between `pre` and
--               `post`; `Buffer.Inv` shows that the buffers that keep the invariant are those.
--   BufferList  `Treiber/lib/buffer.h`, `Treiber/lib/buffer.c`: `struct buffer_list`, with the entries
--               linked from `head` as a list and `tail` as an index of it. `BufferList.Holds` says
--               which queue of contents a list stands for.
--   Frame       `Treiber/lib/mtu.h`, `Treiber/lib/mtu.c`: the sizes of a packet with all that is added to
--               it, the size in force, and the buffer for it
--   Dhcp        `Treiber/lib/tun.c`: `build_dhcp_options_string` and the functions under it, on `Buffer`.
--               `Dhcp.Search` has the domains to search for, `Wire` a reader of the options.
--   Tuntap      `Treiber/main.cpp`, `init_tun`, and the functions of `Treiber/lib/tun.c` under it
--   Clock       `Treiber/lib/otime.h`, `otime.c`, `interval.h`, `interval.c`: the clock that does not go
--               back, sums and differences of times, the limit of a frequency, timers that recur,
--               and `struct interval`
--   Integer     `Treiber/lib/integer.h`: differences on a circle
--   EnvSet      `Treiber/lib/env_set.c`, `Treiber/lib/env_set.h`: environment variables. A set is the
--               list of its items; `EnvSet.Lookup` shows it to be a map from names to items.
--   Argv        `Treiber/lib/argv.c`, `array_mult_safe` of `Treiber/lib/buffer.c` and
--               `adjust_power_of_2` of `Treiber/lib/integer.h`: the arguments of a program.
--               `vsnprintf` and the parser of options are parameters.
--   Address     `Treiber/lib/socket.c`: the tests of texts of addresses; `sscanf` and `inet_pton` are
--               parameters
--   StreamBuf   `Treiber/lib/socket.c`: `struct stream_buf`, which takes packets out of a TCP stream
--   Chars       `Treiber/lib/buffer.c`: character classes and functions on C strings
--
-- A function keeps its name from the source. A pointer into memory is an index, NULL is `none`, C's
-- `int` is ℤ, or ℕ where it cannot be negative, and `size_t` wraps at 2 ^ 64. Undefined behaviour
-- answers `none`. A fatal message or a failed assertion ends the process
-- and answers `none`.
--
-- Loops whose bound is not a list are recursion on fuel, one more than the length of the content or
-- the string: each round reads or removes a byte, so the loop ends by its own test before the fuel
-- does, which the theorems on it show. `adjust_power_of_2` has fuel for the 64 shifts of a `size_t`,
-- `setenv_str_incr` for the 999 values of its counter, `tv_delta` for two rounds beyond the whole
-- seconds in the microseconds of the first time, and the loop that ends the driver's process
-- for one round, which is enough.
--
-- The driver's threads beside the queues and the counters are not interleaved: a message is handled as a
-- whole before the next one, and the round of a worker runs between two changes of its queue by others
-- and counts each packet in one step.
--
-- Not modelled: the command-line options of the client, the reading of the text file that nothing
-- calls, output and logging, the calls of the system that open and set up an adapter, the environment
-- variables that `init_tun` would set, sockets, events, proxies, the printf-like functions, memory that
-- cannot be allocated, and the third-party code (command-line parser, tracing, sockets, the Wintun
-- header).
pub mod Base
pub mod Workqueue
pub mod Statistics
pub mod Workers
pub mod AppConfig
pub mod Adapters
pub mod Driver
pub mod Protocol
pub mod Client
pub mod Wintun
pub mod Buffer
pub mod BufferList
pub mod Frame
pub mod Dhcp
pub mod Tuntap
pub mod Clock
pub mod Integer
pub mod EnvSet
pub mod Argv
pub mod Address
pub mod StreamBuf
pub mod Chars
