-- ===== src/Repl/Session/Tests.antt =====
-- Sessions at the command line.
use commmon.Base.{◌≡◌, refl, true, false, some, none, List, [], ◌∷◌}
use commmon.Base.Text.{trim, split_whitespace, decimal}
use commmon.Json.{Value, json, string, bool}
use commmon.Env.{ok, err}
use commmon.Repl.{parse_command, parse_parts, parse_log}
use commmon.Repl.Print.{err_line, Printer, print_response}
use commmon.Repl.Session.{
  connect, ignored, answer, route, usage, Input, typed, answered, request_line, typed_line,
  repl_loop,
}
use commmon.Repl.Session.Requests.{all_known, repl_loop-all_known, repl_loop-ended}

abbrev printer : Printer
printer = record { pretty = λ v. "{ }"; compact = λ v. "{}" }

no_daemon : connect 9900 (err "refused") ≡ (
  err_line "데몬에 접속할 수 없습니다. (127.0.0.1:9900)" ∷ err_line "먼저 데몬을 실행하세요: commmon daemon" ∷ [],
  false,
)
unfolding connect decimal
no_daemon = refl

-- A line that is no JSON is handed on as an answer, a blank one is passed over.
no_json : route printer " nonsense\r" (err "expected value") ≡ answer "nonsense"
unfolding route trim
no_json = refl

blank_line : route printer "\r" (err "expected value") ≡ ignored
unfolding route trim
blank_line = refl

log_usage : usage ("log" ∷ "show" ∷ []) ≡ err_line "사용법: log start|stop|update <포트>" ∷ []
unfolding usage
log_usage = refl

abbrev opened : Value
opened = json (("ok", bool true) ∷ ("data", string "COM3 열기 성공") ∷ [])

abbrev inputs : List Input
inputs =
    typed " open COM3" (some ("{}", ok opened))
    ∷ typed "log show" none
    ∷ typed "close COM3 " none
    ∷ typed "status" none
    ∷ []

-- The client ends by itself when there is no answer.
no_answer :
    let r = repl_loop printer inputs in
    (r.history ≡ "open COM3" ∷ "log show" ∷ "close COM3" ∷ []) × (r.ended ≡ true)
unfolding repl_loop typed_line request_line answered trim print_response parse_command parse_parts
    split_whitespace parse_log
no_answer = (refl, refl)

repl_loop-all_known_example : all_known (repl_loop printer inputs).requests ≡ true
repl_loop-all_known_example = repl_loop-all_known printer inputs

abbrev leaving : List Input
leaving = typed " open COM3" (some ("{}", ok opened)) ∷ typed "exit " none ∷ []

repl_loop-ended_example : (repl_loop printer leaving).ended ≡ true
unfolding trim
repl_loop-ended_example = repl_loop-ended printer leaving refl
