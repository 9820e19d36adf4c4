-- ===== src/Repl/Session.antt =====
-- commmon/src/repl.rs: `run`, the loop that reads lines and sends requests, and the task that takes
-- the daemon's lines apart. An input of the loop comes with the answer that the daemon gives if the
-- line turns into a request; `none` stands for a write that fails, a channel that is closed, or
-- five seconds without an answer.
pub mod Requests
mod Tests
use commmon.Base.{
  ℕ, String, Bool, true, false, ◌||◌, Option, none, some, List, [], ◌∷◌, ◌++◌, ◌==◌, if◌then◌else◌,
}
use commmon.Base.Text.{decimal, join, trim, is_empty, split_whitespace, ◌<>◌}
use commmon.Json.{Value}
use commmon.Env.{Result, ok, err}
use commmon.Repl.{parse_command, is_notification}
use commmon.Repl.Print.{Print, out_line, err_line, Printer, print_response, print_notification}

-- The connection: what is printed, and whether the loop is entered.
unfoldable pub connect : ℕ → Result (Unit {0}) → List Print × Bool
connect port (ok _) = (out_line ("데몬 접속 완료 (127.0.0.1:" <> decimal port <> ")") ∷ [], true)
connect port (err e) = (
  err_line ("데몬에 접속할 수 없습니다. (127.0.0.1:" <> decimal port <> ")")
      ∷ err_line "먼저 데몬을 실행하세요: commmon daemon"
      ∷ [],
  false,
)

-- What the receiving task does with a line of the daemon.
pub data Routed : Type 0 where
  ignored : Routed
  shown : Print → Routed
  answer : String → Routed

unfoldable pub route : Printer → String → Result Value → Routed
route p text parsed =
    let line = trim text in
    if is_empty line then ignored else (elim parsed [
      | ok v ↦ if is_notification v then shown (print_notification p v) else answer line
      | err e ↦ answer line
    ])

-- `print_help`
abbrev pub help_lines : List String
help_lines =
    "명령어:" ∷ "  list                           포트 목록" ∷ "  open <포트> [baud] [8N1]       포트 열기"
    ∷ "  close <포트>                   포트 닫기" ∷ "  write <포트> <데이터>          ASCII 전송"
    ∷ "  write <포트> --hex <HEX>       HEX 전송" ∷ "  read <포트>                    수신 버퍼 읽기"
    ∷ "  subscribe <포트>               실시간 RX 데이터 구독" ∷ "  unsubscribe <포트>             실시간 RX 구독 해제"
    ∷ "  log start <포트> [옵션]        로그 시작" ∷ "    --file <경로>                  파일 경로"
    ∷ "    --duration <초>                자동 중지 시간" ∷ "    --keyword <키워드>             감지 시 중지"
    ∷ "  log update <포트> [옵션]       로그 설정 변경" ∷ "  log stop <포트>                로그 중지"
    ∷ "  status                         전체 상태" ∷ "  monitor start [--port N]       웹 모니터 시작"
    ∷ "  monitor stop                   웹 모니터 종료" ∷ "  help                           이 도움말"
    ∷ "  exit                           종료" ∷ []

abbrev usage_line : String → List Print
usage_line text = err_line ("사용법: " <> text) ∷ []

-- The text if the command's argument is missing.
abbrev usage_if_bare : String → List String → List Print
usage_if_bare text [] = usage_line text
usage_if_bare text (s ∷ ss) = []

abbrev usage_write : List String → List Print
usage_write (port ∷ text ∷ more) = []
usage_write _ = usage_line "write <포트> <데이터> [--hex]"

usage_log : List String → List Print
usage_log [] = usage_line "log start|stop|update <포트> [옵션]"
usage_log (action ∷ more) =
    if action == "start"
    then usage_if_bare "log start <포트> [--duration N] [--keyword K] [--file F]" more
    else if action == "stop"
    then usage_if_bare "log stop <포트>" more
    else if action == "update"
    then usage_if_bare "log update <포트> [--keyword K] [--duration N]" more
    else usage_line "log start|stop|update <포트>"

usage_monitor : List String → List Print
usage_monitor [] = usage_line "monitor start|stop [--port N]"
usage_monitor (action ∷ more) =
    if action == "start" || action == "stop" then [] else usage_line "monitor start|stop"

-- What `parse_command` prints where it returns no request.
unfoldable pub usage : List String → List Print
unfolding usage_log usage_monitor
usage [] = []
usage (word ∷ more) =
    if word == "open"
    then usage_if_bare "open <포트> [baud] [8N1]" more
    else if word == "close"
    then usage_if_bare "close <포트>" more
    else if word == "write" || word == "send"
    then usage_write more
    else if word == "read"
    then usage_if_bare "read <포트>" more
    else if word == "log"
    then usage_log more
    else if word == "subscribe" || word == "sub"
    then usage_if_bare "subscribe <포트>" more
    else if word == "unsubscribe" || word == "unsub"
    then usage_if_bare "unsubscribe <포트>" more
    else if word == "monitor"
    then usage_monitor more
    else []

pub data Input : Type 0 where
  typed : String → Option (String × Result Value) → Input
  interrupted eof : Input
  failed : String → Input

-- What the loop has done: the requests that it went to write, what was printed, the lines put into
-- the history, and whether it has ended.
pub record Run : Type 0 where
  pub requests : List Value
  pub printed : List Print
  pub history : List String
  pub ended : Bool

abbrev stopped : List Print → Run
stopped ps = record { requests = []; printed = ps; history = []; ended = true }

abbrev with_prints : List Print → Run → Run
with_prints ps r = record r { printed = ps ++ r.printed }

abbrev with_history : String → Run → Run
with_history line r = record r { history = line ∷ r.history }

abbrev with_request : Value → Run → Run
with_request v r = record r { requests = v ∷ r.requests }

-- The `match resp`; `rest` is what the loop does then.
unfoldable pub answered : Printer → Option (String × Result Value) → Run → Run
answered p none rest = stopped (err_line "서버 응답 없음 또는 연결 끊김" ∷ [])
answered p (some (line, parsed)) rest = with_prints (print_response p line parsed) rest

-- A line that is no word of the loop itself.
unfoldable pub request_line : Printer → String → Option (String × Result Value) → Run → Run
unfolding answered
request_line p line reply rest = elim (parse_command line) [
  | none ↦
      with_prints (usage (split_whitespace line) ++ err_line "알 수 없는 명령입니다. 'help'를 입력하세요." ∷ [])
        rest
  | some v ↦ with_request v (answered p reply rest)
]

abbrev pub is_exit : String → Bool
is_exit line = line == "exit" || line == "quit"

unfoldable pub typed_line : Printer → String → Option (String × Result Value) → Run → Run
unfolding request_line
typed_line p line reply rest =
    if is_empty line
    then rest
    else with_history line (
        if is_exit line
        then stopped []
        else if line == "help"
        then with_prints (out_line (join "\n" help_lines) ∷ []) rest
        else request_line p line reply rest)

-- The loop; where the list ends it waits for a line.
unfoldable pub repl_loop : Printer → List Input → Run
unfolding typed_line
repl_loop p [] = record { requests = []; printed = []; history = []; ended = false }
repl_loop p (interrupted ∷ inputs) = stopped []
repl_loop p (eof ∷ inputs) = stopped []
repl_loop p (failed e ∷ inputs) = stopped (err_line ("입력 오류: " <> e) ∷ [])
repl_loop p (typed text reply ∷ inputs) = typed_line p (trim text) reply (repl_loop p inputs)
