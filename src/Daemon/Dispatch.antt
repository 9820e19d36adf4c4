-- ===== src/Daemon/Dispatch.antt =====
-- commmon/src/daemon.rs: `dispatch`, which answers one request of one client.
pub mod Valid
pub mod Effects
pub mod Keywords
pub mod Tidy
use commmon.Base.{
  ℕ, String, Bool, true, false, Option, none, some, List, [], ◌∷◌, ◌==◌, ◌%◌, ◌^◌, if◌then◌else◌,
}
use commmon.Base.Text.{decimal, ◌<>◌}
use commmon.Json.{Value, bool, string, json, array_of, str_of, u64_of, bool_of}
use commmon.Protocol.{Response, Request, success_msg, failure}
use commmon.Env.{Env, all_return, ok, err, cancel}
use commmon.Serial
use commmon.Serial.{SerialManager, unwrap_or, port_needed, not_open, is_port_open}
use commmon.Serial.Logs
use commmon.Serial.Status
use commmon.Monitor.Server
use commmon.Monitor.Server.{MonitorHandle}
use commmon.Daemon.{DaemonState, ClientSession, Handled}
use commmon.Daemon.Session
use commmon.Daemon.Rx
use commmon.Daemon.Rx.{reply}

-- The arms of `match cmd`.
pub data Command : Type 0 where
  list_ports open_port close_port subscribe_rx unsubscribe_rx filter_rx add_filter_rx : Command
  unfilter_rx write_port read_port port_status start_log update_log stop_log : Command
  open_monitor close_monitor : Command
  unknown : String → Command

unfoldable pub command_of : String → Command
command_of cmd =
    if cmd == "list_ports"
    then list_ports
    else if cmd == "open_port"
    then open_port
    else if cmd == "close_port"
    then close_port
    else if cmd == "subscribe_rx"
    then subscribe_rx
    else if cmd == "unsubscribe_rx"
    then unsubscribe_rx
    else if cmd == "filter_rx"
    then filter_rx
    else if cmd == "add_filter_rx"
    then add_filter_rx
    else if cmd == "unfilter_rx"
    then unfilter_rx
    else if cmd == "write_port"
    then write_port
    else if cmd == "read_port"
    then read_port
    else if cmd == "port_status"
    then port_status
    else if cmd == "start_log"
    then start_log
    else if cmd == "update_log"
    then update_log
    else if cmd == "stop_log"
    then stop_log
    else if cmd == "open_monitor"
    then open_monitor
    else if cmd == "close_monitor"
    then close_monitor
    else unknown cmd

-- An answer of the serial manager that is passed on.
abbrev pub by_serial : Response × SerialManager → DaemonState → ClientSession → Handled
by_serial (r, serial) d s = reply r (record d { serial = serial }) s

after_open : Value → Response → SerialManager → ClientSession → ClientSession
after_open args r serial s =
    if r.ok
    then (elim (str_of "port" args) [
      | none ↦ s
      | some port ↦ Session.ensure_subscribed port serial s
    ])
    else s

open_port_arm : Env → Value → DaemonState → ClientSession → Handled
unfolding after_open
open_port_arm env args d s =
    let (r, serial) = Serial.open_port env args d.serial in
    reply r (record d { serial = serial }) (after_open args r serial s)

read_open_port : Env → String → Value → DaemonState → ClientSession → Handled
read_open_port env port args d s =
    let subscribed = Session.ensure_subscribed port d.serial s in
    let (r, s') = Session.read_port env port (unwrap_or true (bool_of "clear" args)) subscribed in
    reply r d s'

read_port_arm : Env → Value → DaemonState → ClientSession → Handled
unfolding read_open_port
read_port_arm env args d s = elim (str_of "port" args) [
  | none ↦ reply (failure port_needed) d s
  | some port ↦
      if is_port_open port d.serial
      then read_open_port env port args d s
      else reply (failure (not_open port)) d s
]

abbrev pub monitor_url : ℕ → String
monitor_url port = "http://127.0.0.1:" <> decimal port

unfoldable pub monitor_value : Option MonitorHandle → Value
monitor_value none = json (("active", bool false) ∷ [])
monitor_value (some h) =
    json (("active", bool true) ∷ ("url", string (monitor_url h.http_port)) ∷ [])

-- The response's data is taken out and put back under "ports", beside the monitor's state.
unfoldable pub with_monitor : Option MonitorHandle → Response → Response
unfolding monitor_value
with_monitor monitor r = record r {
  payload = some (
      json
        (("ports", unwrap_or (array_of []) r.payload) ∷ ("monitor", monitor_value monitor) ∷ []));
}

-- `as u16`
abbrev u16 : ℕ → ℕ
u16 n = n % 2 ^ 16

open_monitor_arm : Env → Value → DaemonState → ClientSession → Handled
open_monitor_arm env args d s =
    let port = u16 (unwrap_or 8765 (u64_of "httpPort" args)) in
    elim d.monitor [
      | some h ↦ reply (success_msg ("모니터가 이미 실행 중입니다: " <> monitor_url h.http_port)) d s
      | none ↦ elim (Server.start env port) [
        | ok handle ↦
            reply (success_msg ("모니터 시작: " <> monitor_url handle.http_port))
              (record d { monitor = some handle }) s
        | err e ↦ reply (failure ("모니터 시작 실패: " <> e)) d s
      ]
    ]

-- The answer is given when the end of the server has come.
close_monitor_arm : DaemonState → ClientSession → Handled
close_monitor_arm d s = elim d.monitor [
  | some h ↦
      reply (success_msg "모니터 종료")
        (record { serial = Serial.issue (Server.stop h) d.serial; monitor = none }) s
  | none ↦ reply (failure "모니터가 실행 중이 아닙니다.") d s
]

unfoldable pub handle : Env → Command → Value → DaemonState → ClientSession → Handled
unfolding open_port_arm read_port_arm with_monitor open_monitor_arm close_monitor_arm
handle env list_ports args d s = reply (Status.list_ports env) d s
handle env open_port args d s = open_port_arm env args d s
handle env close_port args d s = Rx.close_port env args d s
handle env subscribe_rx args d s = Rx.subscribe_rx env args d s
handle env unsubscribe_rx args d s = Rx.unsubscribe_rx env args d s
handle env filter_rx args d s = Rx.filter_rx env args d s
handle env add_filter_rx args d s = Rx.add_filter_rx env args d s
handle env unfilter_rx args d s = Rx.unfilter_rx env args d s
handle env write_port args d s = by_serial (Serial.write_port env args d.serial) d s
handle env read_port args d s = read_port_arm env args d s
handle env port_status args d s =
    reply (with_monitor d.monitor (Status.port_status env d.serial)) d s
handle env start_log args d s = by_serial (Logs.start_log env args d.serial) d s
handle env update_log args d s = by_serial (Logs.update_log env args d.serial) d s
handle env stop_log args d s = by_serial (Logs.stop_log args d.serial) d s
handle env open_monitor args d s = open_monitor_arm env args d s
handle env close_monitor args d s = close_monitor_arm d s
handle env (unknown cmd) args d s = reply (failure ("알 수 없는 명령: " <> cmd)) d s

unfoldable pub dispatch : Env → Request → DaemonState → ClientSession → Handled
unfolding handle command_of
dispatch env req d s = handle env (command_of req.cmd) req.args d s

-- What the task that waits for SIGINT has come to; `exited` if the process ends.
pub record CleanUp : Type 0 where
  pub daemon : DaemonState
  pub exited : Bool

abbrev close_rest : SerialManager → CleanUp
close_rest serial = record {
  daemon = record { serial = Logs.close_all serial; monitor = none };
  exited = true;
}

-- SIGINT: the monitor is taken and stopped, then every log and every port. While the end of the
-- monitor's server does not come, nothing else happens.
unfoldable pub clean_up : Env → DaemonState → CleanUp
clean_up env d = elim d.monitor [
  | none ↦ close_rest d.serial
  | some h ↦
      let serial = Serial.issue (Server.stop h) d.serial in
      if all_return env (Server.stop h)
      then close_rest serial
      else record { daemon = record { serial = serial; monitor = none }; exited = false }
]
