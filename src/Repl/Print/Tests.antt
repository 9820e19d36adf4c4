-- ===== src/Repl/Print/Tests.antt =====
-- Answers and notifications as the user sees them.
use commmon.Base.{
  ◌≡◌, refl, some, true, List, [], ◌∷◌, ◌++◌, map, any, arith, take_last, if◌then◌else◌,
}
use commmon.Base.Maps.{get}
use commmon.Base.Text.{as_bytes, ◌<>◌}
use commmon.Json.{json, string, array_of}
use commmon.Channel.{TryRecv, entry, lagged, closed}
use commmon.Protocol.Wire.{response_value}
use commmon.Env.{by_session}
use commmon.Env.Sample.{env, one_port}
use commmon.Serial.Tasks.{received, log_loop, hit, timer_fires}
use commmon.Daemon.{DaemonState, ClientSession}
use commmon.Daemon.Session.{max_buffer_entries, read_port}
use commmon.Daemon.Session.Buffer.{delivered}
use commmon.Daemon.Stream.{poll_rx}
use commmon.Daemon.Stream.Polling.{met}
use commmon.Daemon.Dispatch.{dispatch}
use commmon.Repl.Print.{
  out_line, err_line, Printer, format_data, format_array, format_items, format_item, format_object,
  format_other, print_answer,
}
use commmon.Repl.Print.Answers.{
  port_lines, monitor_lines, entry_prints, print_answer-port_status, print_answer-read_port,
}
use commmon.Repl.Print.Notices.{shown, entry_line, keyword_text, shown-poll_rx, shown-log_end}

abbrev printer : Printer
printer = record { pretty = λ v. "{ }"; compact = λ v. "{}" }

-- An object with a file, a list of ports, and an empty answer.
log_stopped_answer :
    format_data printer (json (("port", string "COM3") ∷ ("file", string "f") ∷ []))
    ≡ out_line "COM3 로그 중지: f" ∷ []
unfolding format_data format_object format_other
log_stopped_answer = refl

listed_answer :
    format_data printer (
      array_of
        (json (("path", string "COM3") ∷ ("manufacturer", string "FTDI") ∷ []) ∷ json [] ∷ []))
    ≡ out_line "  COM3 (FTDI)" ∷ out_line "  { }" ∷ []
unfolding format_data format_array format_items format_item
listed_answer = refl

empty_answer : format_data printer (array_of []) ≡ out_line "(비어 있음)" ∷ []
unfolding format_data format_array
empty_answer = refl

abbrev watched_daemon : DaemonState
watched_daemon = record {
  serial = one_port;
  monitor = some (record { cancel = 20; task = 21; http_port = 8765 });
}

abbrev reading : ClientSession
reading = record {
  receivers = ("COM3", record { channel = 1 }) ∷ [];
  buffers = ("COM3", []) ∷ [];
  rx_subscriptions = [];
  filter_subscriptions = [];
}

print_answer-port_status_example :
    print_answer printer (
      response_value
        (dispatch env
          (record { cmd = "port_status"; args = json [] })
          watched_daemon
          reading).response)
    ≡ port_lines watched_daemon.serial.logs watched_daemon.serial.ports
      ++ monitor_lines watched_daemon.monitor
print_answer-port_status_example =
    print_answer-port_status printer env (json []) watched_daemon reading

print_answer-read_port_example :
    print_answer printer (response_value (read_port env "COM3" true reading).0)
    ≡ entry_prints (
        take_last max_buffer_entries
          ([] ++ delivered (env.polled by_session (record { channel = 1 }))))
unfolding get
print_answer-read_port_example =
    print_answer-read_port printer env "COM3" true reading (record { channel = 1 }) [] refl refl
      (omega arith)

abbrev results : List TryRecv
results =
    entry (record { timestamp = "t"; bytes = as_bytes "boot" })
    ∷ lagged 3
    ∷ entry (record { timestamp = "u"; bytes = as_bytes "login: " })
    ∷ closed
    ∷ []

shown-poll_rx_example :
    shown printer (poll_rx env "COM3" results).sent ≡ map (entry_line "COM3") (met results)
shown-poll_rx_example = shown-poll_rx printer env "COM3" results

shown-log_end_example :
    (shown printer
        (log_loop "COM3" "f" (map (λ e. received e (some "login")) (met results))).notified
      ≡ (if any (λ e. hit e (some "login")) (met results)
          then err_line (keyword_text "COM3" "f" "login") ∷ []
          else []))
    × (shown printer ((timer_fires "COM3" "f" 10).1 ∷ [])
        ≡ err_line ("\n[알림] " <> "COM3" <> " 로그 중지 (시간 만료): " <> "f") ∷ [])
shown-log_end_example = shown-log_end printer "COM3" "f" "login" (met results) 10
