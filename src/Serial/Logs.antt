-- ===== src/Serial/Logs.antt =====
-- commmon/src/serial.rs: starting, changing and stopping the log of a port, closing a port (which
-- stops its log first) and closing everything.
use commmon.Base.{ℕ, String, Option, none, some, List, [], ◌∷◌, ◌++◌, ◌==◌, if◌then◌else◌}
use commmon.Base.Maps.{Map, get, insert, remove, contains_key}
use commmon.Base.Text.{decimal, join, ◌<>◌}
use commmon.Json.{Value, json, string, get as get_arg, as_str, str_of, u64_of}
use commmon.Protocol.{Response, success, success_msg, failure}
use commmon.Channel.{Receiver}
use commmon.Env.{Env, Call, abort, cancel, spawn_log, spawn_timer}
use commmon.Serial.{
  OpenPort, LogState, SerialManager, unwrap_or, port_needed, not_open, issue, close_removed,
  subscribe,
}

abbrev pub no_log : String → String
no_log port = port <> "의 활성 로그가 없습니다."

-- `if let Some(t) = task { t.abort(); }`
abbrev pub abort_timer : Option ℕ → List Call
abort_timer none = []
abort_timer (some t) = abort t ∷ []

abbrev pub stop_calls : LogState → List Call
stop_calls log = cancel log.cancel ∷ abort_timer log.duration_task

-- The file of the log that was stopped. The wait of at most a second for its task changes nothing.
unfoldable pub stop_log_internal : String → SerialManager → Option String × SerialManager
stop_log_internal port m = elim (get port m.logs) [
  | none ↦ (none, m)
  | some log ↦ (some log.file_path, issue (stop_calls log) (record m { logs = remove port m.logs }))
]

unfoldable pub close_port : Value → SerialManager → Response × SerialManager
unfolding stop_log_internal close_removed
close_port args m = elim (str_of "port" args) [
  | none ↦ (failure port_needed, m)
  | some port ↦ close_removed port (stop_log_internal port m).1
]

unfoldable pub log_file : Env → String → Value → String
log_file env port args = elim (str_of "filePath" args) [
  | some p ↦ p
  | none ↦ env.in_temp_dir ("commmon_" <> port <> "_" <> env.file_stamp <> ".log")
]

abbrev pub timer_calls : Env → Value → (token : ℕ) → (port file : String) → List Call
timer_calls env args token port file = elim (u64_of "duration" args) [
  | none ↦ []
  | some secs ↦ spawn_timer env.new_timer secs token port file ∷ []
]

unfoldable pub start_logging :
    Env → String → Value → Receiver → SerialManager → Response × SerialManager
unfolding log_file
start_logging env port args rx m =
    if contains_key port m.logs
    then (failure (port <> "의 로그가 이미 실행 중입니다."), m)
    else let file = log_file env port args in
      let keyword = str_of "stopKeyword" args in
      let log : LogState = record {
        file_path = file;
        stop_keyword = keyword;
        cancel = env.new_token;
        task = env.new_log_task;
        duration_task = elim (u64_of "duration" args) [ none ↦ none | some _ ↦ some env.new_timer ];
      } in
      (
        success_msg (port <> " 로그 시작: " <> file),
        issue
            (spawn_log env.new_log_task rx file port keyword env.new_token
              ∷ timer_calls env args env.new_token port file)
            (record m { logs = insert port log m.logs }),
      )

unfoldable pub start_log : Env → Value → SerialManager → Response × SerialManager
unfolding start_logging subscribe
start_log env args m = elim (str_of "port" args) [
  | none ↦ (failure port_needed, m)
  | some port ↦ elim (subscribe port m) [
    | none ↦ (failure (not_open port), m)
    | some rx ↦ start_logging env port args rx m
  ]
]

-- The value of `stopKeyword`: an empty text clears the keyword, and so does what is no text.
unfoldable pub new_keyword : Value → Option String
new_keyword v = elim (as_str v) [ none ↦ none | some s ↦ if s == "" then none else some s ]

abbrev pub with_keyword : Option Value → LogState → LogState
with_keyword none log = log
with_keyword (some v) log = record log { stop_keyword = new_keyword v }

abbrev pub keyword_note : Option Value → List String
keyword_note none = []
keyword_note (some v) = ("키워드: " <> unwrap_or "(해제)" (new_keyword v)) ∷ []

abbrev pub with_timer : Env → Option ℕ → LogState → LogState
with_timer env none log = log
with_timer env (some secs) log = record log { duration_task = some env.new_timer }

abbrev pub timer_note : Option ℕ → List String
timer_note none = []
timer_note (some secs) = ("타이머: " <> decimal secs <> "초") ∷ []

abbrev pub new_timer_calls : Env → Option ℕ → String → LogState → List Call
new_timer_calls env none port log = []
new_timer_calls env (some secs) port log =
    abort_timer log.duration_task
    ++ spawn_timer env.new_timer secs log.cancel port log.file_path ∷ []

unfoldable pub update_logging :
    Env → String → Value → LogState → SerialManager → Response × SerialManager
unfolding new_keyword
update_logging env port args log m =
    let keyword = get_arg "stopKeyword" args in
    let secs = u64_of "duration" args in
    let log' = with_timer env secs (with_keyword keyword log) in
    let m' =
      issue (new_timer_calls env secs port log) (record m { logs = insert port log' m.logs }) in
    elim (keyword_note keyword ++ timer_note secs) [
      | [] ↦ (failure "업데이트할 파라미터가 없습니다. (stopKeyword, duration)", m)
      | note ∷ notes ↦ (success_msg (port <> " 로그 업데이트: " <> join ", " (note ∷ notes)), m')
    ]

unfoldable pub update_log : Env → Value → SerialManager → Response × SerialManager
unfolding update_logging
update_log env args m = elim (str_of "port" args) [
  | none ↦ (failure port_needed, m)
  | some port ↦ elim (get port m.logs) [
    | none ↦ (failure (no_log port), m)
    | some log ↦ update_logging env port args log m
  ]
]

abbrev pub stopped_answer : String → Option String × SerialManager → Response × SerialManager
stopped_answer port (some file, m) =
    (success (json (("port", string port) ∷ ("file", string file) ∷ [])), m)
stopped_answer port (none, m) = (failure (no_log port), m)

unfoldable pub stop_log : Value → SerialManager → Response × SerialManager
stop_log args m = elim (str_of "port" args) [
  | none ↦ (failure port_needed, m)
  | some port ↦ stopped_answer port (stop_log_internal port m)
]

abbrev pub stop_all_logs : Map LogState → List Call
stop_all_logs [] = []
stop_all_logs ((name, log) ∷ logs) = stop_calls log ++ stop_all_logs logs

abbrev pub abort_all_reads : Map OpenPort → List Call
abort_all_reads [] = []
abort_all_reads ((name, p) ∷ ports) = abort p.read_task ∷ abort_all_reads ports

unfoldable pub close_all : SerialManager → SerialManager
close_all m = record {
  ports = [];
  logs = [];
  calls = (m.calls ++ stop_all_logs m.logs) ++ abort_all_reads m.ports;
}
