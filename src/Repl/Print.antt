-- ===== src/Repl/Print.antt =====
-- commmon/src/repl.rs: what the command line client prints: `print_response`, `format_data` and
-- `print_notification`. A print is a line with its end.
pub mod Answers
pub mod Notices
mod Tests
use commmon.Base.{
  ℕ, String, Bool, true, false, Option, none, some, List, [], ◌∷◌, ◌++◌, ◌==◌, if◌then◌else◌,
}
use commmon.Base.Text.{decimal, ◌<>◌}
use commmon.Json.{
  Value, Items, nil, cons, null, bool, number, other_number, string, array, object, get, str_of,
  u64_of, and_then,
}
use commmon.Env.{Result, ok, err}
use commmon.Serial.{unwrap_or}

-- `println!` and `eprintln!`
pub data Print : Type 0 where
  out_line err_line : String → Print

-- serde_json's `to_string_pretty` and `to_string`
pub record Printer : Type 0 where
  pub pretty : Value → String
  pub compact : Value → String

abbrev pub is_true : Option Value → Bool
is_true (some (bool b)) = b
is_true _ = false

-- `data.get(key).and_then(|v| v.as_str()).unwrap_or("")`
abbrev pub text_of : String → Value → String
text_of k v = unwrap_or "" (str_of k v)

-- The parts of a port's line that may be missing.
abbrev pub part : String → Option String → String → String
part before none after = ""
part before (some s) after = before <> s <> after

abbrev pub log_note : Option Value → String
log_note none = ""
log_note (some null) = ""
log_note (some v) = part " [로그: " (str_of "file" v) "]"

abbrev pub listed_port : String → Value → String
listed_port path v =
    path <> part " (" (str_of "manufacturer" v) ")" <> part " - " (str_of "product" v) ""

abbrev pub status_line : String → Value → String
status_line port v =
    "  "
    <> port
    <> " "
    <> decimal (unwrap_or 0 (u64_of "baudRate" v))
    <> "bps "
    <> text_of "config" v
    <> log_note (get "log" v)

-- A port's status, or what is none of the known items.
status_item : Printer → Value → Print
status_item p v = elim (str_of "port" v) [
  | some port ↦ out_line (status_line port v)
  | none ↦ out_line ("  " <> p.pretty v)
]

-- A received entry, if the item has both members.
entry_item : Printer → Value → Print
unfolding status_item
entry_item p v = elim (str_of "timestamp" v) [
  | none ↦ status_item p v
  | some ts ↦ elim (str_of "data" v) [
    | none ↦ status_item p v
    | some d ↦ out_line ("[" <> ts <> "] " <> d)
  ]
]

-- One round of `for item in arr`.
unfoldable pub format_item : Printer → Value → Print
unfolding entry_item
format_item p v = elim (str_of "path" v) [
  | some path ↦ out_line ("  " <> listed_port path v)
  | none ↦ entry_item p v
]

unfoldable pub format_items : Printer → Items → List Print
format_items p nil = []
format_items p (cons v vs) = format_item p v ∷ format_items p vs

-- The arm of an array.
unfoldable pub format_array : Printer → String → Items → List Print
format_array p empty nil = out_line empty ∷ []
format_array p empty (cons v vs) = format_items p (cons v vs)

unfoldable pub format_ports : Printer → Value → List Print
format_ports p (array vs) = format_array p "열린 포트 없음" vs
format_ports p _ = []

unfoldable pub format_monitor : Option Value → List Print
format_monitor none = []
format_monitor (some mon) =
    if is_true (get "active" mon) then out_line ("  모니터: " <> text_of "url" mon) ∷ [] else []

-- An object without "ports": the answer of "stop_log", or any other.
unfoldable pub format_other : Printer → Value → List Print
format_other p v = elim (str_of "file" v) [
  | some file ↦ out_line (text_of "port" v <> " 로그 중지: " <> file) ∷ []
  | none ↦ out_line (p.pretty v) ∷ []
]

unfoldable pub format_object : Printer → Value → List Print
format_object p v = elim (get "ports" v) [
  | some ports ↦ format_ports p ports ++ format_monitor (get "monitor" v)
  | none ↦ format_other p v
]

unfoldable pub format_data : Printer → Value → List Print
format_data p (string s) = out_line s ∷ []
format_data p (array vs) = format_array p "(비어 있음)" vs
format_data p (object fs) = format_object p (object fs)
format_data p v = out_line (p.compact v) ∷ []

abbrev format_optional : Printer → Option Value → List Print
format_optional p none = []
format_optional p (some v) = format_data p v

abbrev print_error : Option String → List Print
print_error none = []
print_error (some e) = err_line ("오류: " <> e) ∷ []

-- The parsed line of an answer.
unfoldable pub print_answer : Printer → Value → List Print
print_answer p v =
    if is_true (get "ok" v)
    then format_optional p (get "data" v)
    else print_error (str_of "error" v)

-- `print_response`, with what the parser makes of the line.
unfoldable pub print_response : Printer → String → Result Value → List Print
unfolding print_answer
print_response p line (err e) = out_line line ∷ []
print_response p line (ok v) = print_answer p v

-- The end of a log.
unfoldable pub log_stopped_text : Value → String
log_stopped_text v =
    let port = text_of "port" v in
    let file = text_of "file" v in
    let reason = text_of "reason" v in
    if reason == "keyword"
    then "\n[알림] " <> port <> " 로그 중지 (키워드 '" <> text_of "keyword" v <> "' 감지): " <> file
    else if reason == "duration"
    then "\n[알림] " <> port <> " 로그 중지 (시간 만료): " <> file
    else "\n[알림] " <> port <> " 로그 중지: " <> file

-- The parsed line of a notification.
unfoldable pub print_notification : Printer → Value → Print
unfolding log_stopped_text
print_notification p v =
    let notify = text_of "notify" v in
    let payload = unwrap_or null (get "data" v) in
    if notify == "log_stopped"
    then err_line (log_stopped_text payload)
    else if notify == "port_error"
    then err_line ("\n[알림] " <> text_of "port" payload <> " 오류: " <> text_of "error" payload)
    else if notify == "rx_data"
    then err_line (
        "\n["
        <> text_of "timestamp" payload
        <> "] ["
        <> text_of "port" payload
        <> "] "
        <> text_of "ascii" payload)
    else err_line ("\n[알림] " <> p.compact v)
