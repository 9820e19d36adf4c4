-- ===== src/Daemon/Client.antt =====
-- commmon/src/daemon.rs: the request loop of `handle_client` and the accepting loop of `run`, for
-- all the connections of a daemon at once. Each connection has its session and the state of its
-- streaming task; an event is a line of one client that is answered, a new connection, a round of a
-- streaming task, a notification of the serial manager, which the notification task of every open
-- connection passes on, or the end of a client's input, with which its session and its tasks are
-- gone. A request whose handler never comes back from an `await` is no such line.
pub mod Invariant
pub mod Agreement
pub mod Closing
pub mod Refused
pub mod Tidy
mod Tests
use commmon.Base.{
  true, false, ℕ, String, Bool, Option, none, some, List, [], ◌∷◌, ◌++◌, map, eqb, if◌then◌else◌,
}
use commmon.Base.Text.{trim, is_empty, ◌<>◌}
use commmon.Protocol.{Request, Response, Notification, failure}
use commmon.Protocol.Wire.{response_value, notification_value}
use commmon.Json.{Value}
use commmon.Env.{Env, ok, err}
use commmon.Daemon.{DaemonState, ClientSession, StreamState, Handled, initial}
use commmon.Daemon.Session
use commmon.Daemon.Stream.{idle, apply_cmds, round}
use commmon.Daemon.Rx.{reply}
use commmon.Daemon.Dispatch.{dispatch}

-- What a line is answered with; `none` for a blank line.
unfoldable pub handle_line : Env → String → DaemonState → ClientSession → Option Handled
handle_line env text d s =
    let line = trim text in
    if is_empty line then none else (elim (env.parse_request line) [
      | ok req ↦ some (dispatch env req d s)
      | err e ↦ some (reply (failure ("JSON 파싱 오류: " <> e)) d s)
    ])

-- `is_open` from the connection's acceptance to its end, as long as its two tasks are there.
pub record Connection : Type 0 where
  pub is_open : Bool
  pub session : ClientSession
  pub stream : StreamState

pub record World : Type 0 where
  pub daemon : DaemonState
  pub clients : ℕ → Connection

abbrev pub connected : Connection
connected = record { is_open = true; session = Session.new; stream = idle }

abbrev pub unconnected : Connection
unconnected = record { is_open = false; session = Session.new; stream = idle }

abbrev pub start : World
start = record { daemon = initial; clients = λ _. unconnected }

abbrev pub with_client : ℕ → Connection → (ℕ → Connection) → ℕ → Connection
with_client i c clients j = if eqb i j then c else clients j

pub data Event : Type 0 where
  connect : ℕ → Event
  line : ℕ → Env → String → Event
  poll : ℕ → Env → Event
  notice : Notification → Event
  disconnect : ℕ → Event

-- The streaming task takes the commands in the order in which they were sent.
unfoldable pub after_line : World → ℕ → Option Handled → World
after_line w i none = w
after_line w i (some r) = record {
  daemon = r.daemon;
  clients =
      with_client i
        (record (w.clients i) {
          session = r.session;
          stream = apply_cmds (w.clients i).stream r.sent;
        })
        w.clients;
}

unfoldable pub step : World → Event → World
unfolding after_line
step w (connect i) = record w { clients = with_client i connected w.clients }
step w (line i env text) = after_line w i (handle_line env text w.daemon (w.clients i).session)
step w (poll i env) = record w {
  clients =
      with_client i (record (w.clients i) { stream = (round env (w.clients i).stream).state })
        w.clients;
}
step w (notice n) = w
step w (disconnect i) = record w { clients = with_client i unconnected w.clients }

unfoldable pub run : World → List Event → World
run w [] = w
run w (e ∷ es) = run (step w e) es

-- What is written to the client's socket: an answer, if the line is none of the blank ones.
abbrev pub answer_line : Option Handled → List Value
answer_line none = []
answer_line (some r) = response_value r.response ∷ []

-- What the connection's notification task writes.
abbrev pass_on : Connection → Notification → List Value
pass_on c n = if c.is_open then notification_value n ∷ [] else []

-- What an event makes the daemon write to the client `j`; a notification of the serial manager goes
-- to every open connection.
unfoldable pub written : World → Event → ℕ → List Value
written w (connect i) j = []
written w (line i env text) j =
    if eqb i j then answer_line (handle_line env text w.daemon (w.clients i).session) else []
written w (poll i env) j =
    if eqb i j then map notification_value (round env (w.clients i).stream).sent else []
written w (notice n) j = pass_on (w.clients j) n
written w (disconnect i) j = []

-- All that a client gets, in order.
unfoldable pub output : World → List Event → ℕ → List Value
output w [] i = []
output w (e ∷ es) i = written w e i ++ output (step w e) es i
