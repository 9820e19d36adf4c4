-- ===== src/Lib.antt =====
-- commmon: a daemon that owns serial ports and serves clients over TCP, one JSON message a line.
--
-- The parts, and how they interact. `commmon/src/daemon.rs` accepts connections; each connection has
-- a session (`ClientSession`) and a streaming task, which the session's handlers drive by commands
-- (`RxSubCommand`). `dispatch` answers a request with the session, with the one `SerialManager` of
-- `commmon/src/serial.rs`, which owns the ports and their logs, and with the monitor's handle. The
-- reader of a port broadcasts what it reads; sessions, streaming tasks and log tasks receive it.
--
-- The files, and the code that they model:
--   Base and its children: tests on numbers and texts, lists, maps, UTF-8, words, branching.
--   Json, Protocol, Protocol/Wire: serde_json's values and `commmon/src/protocol.rs`.
--   Channel, Env: what tokio, the serial port library, hex, the clock and the file system give. A
--     handler takes the results of its calls as an argument, an `Env`, and what it asks of the
--     runtime (write, spawn, abort, cancel, await) is a list in the manager's field `calls`.
--   Serial: `commmon/src/serial.rs`, the ports; Serial/Logs its logs, Serial/Tasks the reader, the
--     log task and the timer, Serial/Status `list_ports` and `port_status`; Serial/Config and
--     Serial/Writing are about opening and writing, Serial/Tidy about the tasks of the logs.
--   Filter: `FilterState`, `find_subslice` and the filter's part of the streaming task in
--     `commmon/src/daemon.rs`; Filter/Scan, Filter/Window and Filter/Exact are about what it reports,
--     Filter/Context and Filter/Bounds about how much it shows and keeps.
--   Daemon: the state in `commmon/src/daemon.rs`; Daemon/Session `ClientSession`, Daemon/Stream the
--     streaming task, Daemon/Rx and Daemon/Dispatch the commands of `dispatch`, Daemon/Client
--     `handle_client` for all connections at once, as a sequence of events; its children Agreement,
--     Closing and Tidy are about whole runs. Daemon/Dispatch also has the clean-up at SIGINT.
--   Conversation: which of the daemon's lines the command line client takes for answers.
--   Monitor: `commmon/src/monitor.rs`, the loop of the web monitor's event stream; Monitor/Server its
--     start, its stop and its routes.
--   Repl: `commmon/src/repl.rs`, what a typed line becomes; Repl/Numbers `str::parse`, Repl/Print what
--     is printed of answers and notifications, Repl/Session the loop of `run` and the usage texts.
--   Main: `commmon/src/main.rs`, which part a command line starts.
--   Sdk: `sdk/rust/src/lib.rs`, the Rust client; Sdk/Example `sdk/rust/examples/monitor.rs`.
--   The files Tests run the code, and Env/Sample is the runtime that they use.
--
-- A state is a record with the source's fields; a HashMap or HashSet is an association list, walked
-- in its order. A handler takes the state and returns the answer with the new state; a handler that
-- awaits is one step. The wait for the end of the monitor's server is a call of its own, which may
-- never come back (`ends` of `Env`): the clean-up at SIGINT stops there then; a request that waits
-- for ever has no answered line, and no event. A notification of the serial manager is an event
-- that writes to each open connection. A field that the source calls `data` is named `payload` or
-- `bytes`. Numbers are natural numbers; `as u32` and `as u16` are written out as remainders.
--
-- Fuel: the search loop of the filter runs on one more than the number of bytes that it searches,
-- which is enough since each round moves on by a byte at least (Filter/Scan). A number is printed
-- on one more than itself, and it loses a digit a round. All else is structural.
--
-- Not modelled: sockets and the printing of JSON (a parsed request is the result of a call, an
-- answer is a value), writes to a socket that fail, the capacity of the broadcast channels (a lag
-- is a result of `try_recv`), the tracing, axum's server behind the routes, the line editor with
-- its history file, clap's reading of the command line, the end of a connection's notification task
-- at a lag, the clients in other languages, and the interleaving of two handlers inside their
-- awaits. The end of a connection is that of the client's input, after which `handle_client` aborts
-- its two tasks.
pub mod Base
pub mod Channel
pub mod Conversation
pub mod Daemon
pub mod Env
pub mod Filter
pub mod Json
pub mod Main
pub mod Monitor
pub mod Protocol
pub mod Repl
pub mod Sdk
pub mod Serial
