-- ===== src/Repl/Print/Answers.antt =====
-- How the client shows what the daemon answers.
use commmon.Base.{
  String, ◌≡◌, refl, ap, ◌∙◌, ◌≤◌, length, take_last, eq_refl, Bool, Option, none, some, List, [],
  ◌∷◌, ◌++◌, map,
}
use commmon.Base.Maps.{Map, get, map_laws}
use commmon.Base.Text.{decimal, from_utf8_lossy, ◌<>◌}
use commmon.Json.{Value, items, array_of}
use commmon.Protocol.{failure, success, success_msg}
use commmon.Protocol.Wire.{response_value}
use commmon.Channel.{RxEntry, Receiver}
use commmon.Env.{Env, by_session}
use commmon.Serial.{OpenPort, LogState, config_text}
use commmon.Serial.Status.{port_status, status_value, log_info}
use commmon.Monitor.Server.{MonitorHandle}
use commmon.Daemon.{DaemonState, ClientSession}
use commmon.Daemon.Session.{
  max_buffer_entries, drain, drain_receiver, read_port, entry_value, answer_buffer,
}
use commmon.Daemon.Session.Buffer.{delivered, drain-take_last}
use commmon.Daemon.Dispatch.{dispatch, handle, command_of, monitor_url, monitor_value, with_monitor}
use commmon.Repl.Print.{
  Print, out_line, err_line, Printer, print_answer, format_data, format_array, format_items,
  format_item, format_object, format_ports, format_monitor, log_note,
}

-- A message is shown as it is, and an error on the other stream.
pub print_answer-message :
    (p : Printer) (msg : String)
    → (print_answer p (response_value (success_msg msg)) ≡ out_line msg ∷ [])
      × (print_answer p (response_value (failure msg)) ≡ err_line ("오류: " <> msg) ∷ [])
unfolding print_answer response_value format_data
print_answer-message p msg = (refl, refl)

-- The line of a port in the status.
abbrev log_part : Option LogState → String
log_part none = ""
log_part (some l) = " [로그: " <> l.file_path <> "]"

abbrev pub port_line : Map LogState → String × OpenPort → Print
port_line logs (name, port) = out_line (
    "  "
    <> name
    <> " "
    <> decimal port.baud_rate
    <> "bps "
    <> config_text port
    <> log_part (get name logs))

abbrev pub monitor_lines : Option MonitorHandle → List Print
monitor_lines none = []
monitor_lines (some h) = out_line ("  모니터: " <> monitor_url h.http_port) ∷ []

abbrev pub port_lines : Map LogState → Map OpenPort → List Print
port_lines logs [] = out_line "열린 포트 없음" ∷ []
port_lines logs (e ∷ m) = map (port_line logs) (e ∷ m)

log_note-log_info : (o : Option LogState) → log_note (some (log_info o)) ≡ log_part o
log_note-log_info none = refl
log_note-log_info (some l) = refl

format_item-status_value :
    (p : Printer) (env : Env) (logs : Map LogState) (e : String × OpenPort)
    → format_item p (status_value env logs e) ≡ port_line logs e
unfolding format_item status_value
format_item-status_value p env logs (name, port) = rw (log_note-log_info (get name logs))

format_items-status_value :
    (p : Printer) (env : Env) (logs : Map LogState) (m : Map OpenPort)
    → format_items p (items (map (status_value env logs) m)) ≡ map (port_line logs) m
unfolding format_items
format_items-status_value p env logs [] = refl
format_items-status_value p env logs (e ∷ m) =
    rw (format_item-status_value p env logs e, format_items-status_value p env logs m)

format_ports-status :
    (p : Printer) (env : Env) (logs : Map LogState) (m : Map OpenPort)
    → format_ports p (array_of (map (status_value env logs) m)) ≡ port_lines logs m
unfolding format_ports format_array
format_ports-status p env logs [] = refl
format_ports-status p env logs (e ∷ m) = format_items-status_value p env logs (e ∷ m)

format_monitor-monitor_value :
    (o : Option MonitorHandle) → format_monitor (some (monitor_value o)) ≡ monitor_lines o
unfolding format_monitor monitor_value
format_monitor-monitor_value none = refl
format_monitor-monitor_value (some h) = refl

-- The answer to "port_status" is shown as a line for each open port, with its rate, its settings
-- and the file of its log if it has one, or as a text that there is none, and a line for the
-- monitor if it runs.
pub print_answer-port_status :
    (p : Printer) (env : Env) (args : Value) (d : DaemonState) (s : ClientSession)
    → print_answer p
        (response_value (dispatch env (record { cmd = "port_status"; args = args }) d s).response)
      ≡ port_lines d.serial.logs d.serial.ports ++ monitor_lines d.monitor
unfolding print_answer response_value dispatch handle command_of with_monitor port_status
    format_data format_object
print_answer-port_status p env args d s =
    rw (
      format_ports-status p env d.serial.logs d.serial.ports,
      format_monitor-monitor_value d.monitor,
    )

-- The lines of the entries of a buffer.
abbrev pub entry_print : RxEntry → Print
entry_print e = out_line ("[" <> e.timestamp <> "] " <> from_utf8_lossy e.bytes)

abbrev pub entry_prints : List RxEntry → List Print
entry_prints [] = out_line "(비어 있음)" ∷ []
entry_prints (e ∷ es) = map entry_print (e ∷ es)

format_items-entry_value :
    (p : Printer) (es : List RxEntry)
    → format_items p (items (map entry_value es)) ≡ map entry_print es
unfolding format_items format_item entry_value
format_items-entry_value p [] = refl
format_items-entry_value p (e ∷ es) = rw (format_items-entry_value p es)

format_data-entries :
    (p : Printer) (es : List RxEntry)
    → format_data p (array_of (map entry_value es)) ≡ entry_prints es
unfolding format_data format_array
format_data-entries p [] = refl
format_data-entries p (e ∷ es) = format_items-entry_value p (e ∷ es)

shown_entries :
    (p : Printer) (es : List RxEntry)
    → print_answer p (response_value (success (array_of (map entry_value es)))) ≡ entry_prints es
unfolding print_answer response_value
shown_entries p es = format_data-entries p es

answer_buffer-some :
    (port : String) (clear : Bool) (s : ClientSession) (b : List RxEntry)
    → get port s.buffers ≡ some b
    → (answer_buffer port clear s).0 ≡ success (array_of (map entry_value b))
unfolding answer_buffer
answer_buffer-some port clear s b e = rw (e, answer_buffer) refl

drained_buffer :
    (env : Env) (port : String) (s : ClientSession) (rx : Receiver) (b : List RxEntry)
    → get port s.receivers ≡ some rx
    → get port s.buffers ≡ some b
    → get port (drain_receiver env port s).buffers ≡ some (drain b (env.polled by_session rx))
unfolding drain_receiver
drained_buffer env port s rx b has e = rw (has, drain_receiver) (rw e (simp (map_laws, eq_refl)))

-- For a port with a receiver and a buffer of at most 200 entries: a read shows the last 200 of the
-- buffer's entries and of those that the receiver hands over, each with its time and its text, in
-- their order, or a text that there is none.
pub print_answer-read_port :
    (p : Printer) (env : Env) (port : String) (clear : Bool) (s : ClientSession) (rx : Receiver)
    (b : List RxEntry)
    → get port s.receivers ≡ some rx
    → get port s.buffers ≡ some b
    → length b ≤ max_buffer_entries
    → print_answer p (response_value (read_port env port clear s).0)
      ≡ entry_prints (take_last max_buffer_entries (b ++ delivered (env.polled by_session rx)))
unfolding read_port
print_answer-read_port p env port clear s rx b has e short =
    let filled = drained_buffer env port s rx b has e in
    rw (answer_buffer-some port clear (drain_receiver env port s) _ filled) (
      shown_entries p (drain b (env.polled by_session rx))
      ∙ ap entry_prints (drain-take_last b (env.polled by_session rx) short))
