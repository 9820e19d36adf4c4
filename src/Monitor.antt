-- ===== src/Monitor.antt =====
-- commmon/src/monitor.rs: the event stream of the web monitor. A round of its loop takes the ports
-- that are open, brings its receivers in line with them and sends what they hold.
pub mod Receivers
pub mod Server
mod Tests
use commmon.Base.{String, none, some, List, [], ◌∷◌, ◌++◌, if◌then◌else◌}
use commmon.Base.Maps.{Map, insert, contains_key}
use commmon.Base.Text.{from_utf8_lossy}
use commmon.Json.{Value, json, string}
use commmon.Channel.{RxEntry, Receiver, TryRecv, entry}
use commmon.Env.{Env, by_monitor}
use commmon.Serial.{SerialManager, subscribe, open_port_names}
use commmon.Daemon.Rx.{has}

-- The body of `for name in &port_names`.
unfoldable pub with_port : SerialManager → String → Map Receiver → Map Receiver
with_port serial name receivers =
    if contains_key name receivers
    then receivers
    else (elim (subscribe name serial) [ none ↦ receivers | some rx ↦ insert name rx receivers ])

unfoldable pub with_ports : SerialManager → List String → Map Receiver → Map Receiver
with_ports serial [] receivers = receivers
with_ports serial (name ∷ names) receivers =
    with_ports serial names (with_port serial name receivers)

-- `receivers.retain(|name, _| port_names.contains(name))`
unfoldable pub retain : List String → Map Receiver → Map Receiver
retain names [] = []
retain names ((name, rx) ∷ receivers) =
    let rest = retain names receivers in if has names name then (name, rx) ∷ rest else rest

unfoldable pub sync : SerialManager → Map Receiver → Map Receiver
unfolding open_port_names
sync serial receivers =
    let names = open_port_names serial in retain names (with_ports serial names receivers)

-- The data of an event.
unfoldable pub event_data : Env → String → RxEntry → Value
event_data env port e = json (
    ("port", string port)
    ∷ ("timestamp", string e.timestamp)
    ∷ ("ascii", string (from_utf8_lossy e.bytes))
    ∷ ("hex", string (env.hex_encode e.bytes))
    ∷ [])

-- `while let Ok(entry) = rx.try_recv()`
unfoldable pub port_events : Env → String → List TryRecv → List Value
port_events env port (entry e ∷ results) = event_data env port e ∷ port_events env port results
port_events env port _ = []

unfoldable pub all_events : Env → Map Receiver → List Value
all_events env [] = []
all_events env ((port, rx) ∷ receivers) =
    port_events env port (env.polled by_monitor rx) ++ all_events env receivers

-- A round: the receivers after it, and the events that it sends.
unfoldable pub round : Env → SerialManager → Map Receiver → Map Receiver × List Value
round env serial receivers =
    let receivers' = sync serial receivers in (receivers', all_events env receivers')
