-- ===== src/Repl.antt =====
-- commmon/src/repl.rs: what the command line client makes of a line that is typed, as the JSON
-- value that it prints and sends (`None` is answered with a usage text), and how it tells the
-- daemon's lines apart.
pub mod Numbers
pub mod Flags
pub mod Known
pub mod Config
pub mod Write
pub mod Print
pub mod Session
mod Tests
use commmon.Base.{
  ℕ, String, Bool, ◌||◌, Option, none, some, List, [], ◌∷◌, ◌==◌, if◌then◌else◌, eqb,
}
use commmon.Base.Maps.{is_some}
use commmon.Base.Text.{join, chr, split_whitespace}
use commmon.Json.{Value, number, string, json, get, set, and_then}
use commmon.Serial.{unwrap_or}
use Prim.Native.Char.{code}
use commmon.Repl.Numbers.{parse_u64, parse_u16}

abbrev pub head : List String → Option String
head [] = none
head (s ∷ ss) = some s

abbrev pub tail : List String → List String
tail [] = []
tail (s ∷ ss) = ss

abbrev pub bare : String → Option Value
bare cmd = some (json (("cmd", string cmd) ∷ []))

abbrev pub command : String → Value → Option Value
command cmd args = some (json (("cmd", string cmd) ∷ ("args", args) ∷ []))

abbrev pub port_args : String → Value
port_args port = json (("port", string port) ∷ [])

-- A command whose only argument is a port: the parts behind the command's name.
abbrev pub on_port : String → List String → Option Value
on_port cmd [] = none
on_port cmd (port ∷ more) = command cmd (port_args port)

-- 'N' | 'n', 'E' | 'e', 'O' | 'o', and all else
unfoldable pub parity_word : ℕ → String
parity_word c =
    if eqb c 0x4e || eqb c 0x6e
    then "none"
    else if eqb c 0x45 || eqb c 0x65
    then "even"
    else if eqb c 0x4f || eqb c 0x6f
    then "odd"
    else "none"

-- "8N1": three characters, or it is passed over.
unfoldable pub with_config : Option String → Value → Value
with_config (some (String.◌∷◌ d (String.◌∷◌ p (String.◌∷◌ s String.[])))) args =
    set "stopBits" (string (String.◌∷◌ s "")) (
      set "parity" (string (parity_word (code p))) (set "dataBits" (string (String.◌∷◌ d "")) args))
with_config _ args = args

unfoldable pub parse_open : List String → Option Value
parse_open [] = none
parse_open (port ∷ more) =
    let baud = unwrap_or 115200 (and_then (head more) parse_u64) in
    command "open_port" (
      with_config (head (tail more))
        (json (("port", string port) ∷ ("baudRate", number baud) ∷ [])))

unfoldable pub parse_write : List String → Option Value
parse_write (port ∷ first ∷ more) =
    if first == "--hex"
    then command "write_port" (
        json (
          ("port", string port)
          ∷ ("data", string (join "" more))
          ∷ ("encoding", string "hex")
          ∷ []))
    else command "write_port"
        (json (("port", string port) ∷ ("data", string (join " " (first ∷ more))) ∷ []))
parse_write _ = none

-- The member that a flag and the part behind it set.
unfoldable pub flag_member : String → String → Option (String × Value)
flag_member flag value =
    if flag == "--duration"
    then (elim (parse_u64 value) [ none ↦ none | some n ↦ some ("duration", number n) ])
    else if flag == "--keyword"
    then some ("stopKeyword", string value)
    else if flag == "--file"
    then some ("filePath", string value)
    else none

-- The last part has none behind it, so that it sets nothing.
unfoldable pub parse_log_flags : List String → Value → Value
parse_log_flags [] args = args
parse_log_flags (flag ∷ []) args = args
parse_log_flags (flag ∷ value ∷ more) args = elim (flag_member flag value) [
  | none ↦ parse_log_flags (value ∷ more) args
  | some (k, v) ↦ parse_log_flags more (set k v args)
]

abbrev pub on_log : String → List String → Option Value
on_log cmd [] = none
on_log cmd (port ∷ flags) = command cmd (parse_log_flags flags (port_args port))

unfoldable pub parse_log : List String → Option Value
parse_log [] = none
parse_log (action ∷ more) =
    if action == "start"
    then on_log "start_log" more
    else if action == "stop"
    then on_port "stop_log" more
    else if action == "update"
    then on_log "update_log" more
    else none

-- The part behind the first "--port".
abbrev pub behind_port : List String → Option String
behind_port [] = none
behind_port (s ∷ ss) = let rest = behind_port ss in if s == "--port" then head ss else rest

abbrev with_http_port : Option ℕ → Value
with_http_port none = json []
with_http_port (some n) = set "httpPort" (number n) (json [])

unfoldable pub parse_monitor : List String → Option Value
parse_monitor [] = none
parse_monitor (action ∷ more) =
    if action == "start"
    then command "open_monitor" (with_http_port (and_then (behind_port more) parse_u16))
    else if action == "stop"
    then bare "close_monitor"
    else none

unfoldable pub parse_parts : List String → Option Value
unfolding parse_open parse_write parse_log parse_monitor
parse_parts [] = none
parse_parts (word ∷ more) =
    if word == "list" || word == "ls"
    then bare "list_ports"
    else if word == "open"
    then parse_open more
    else if word == "close"
    then on_port "close_port" more
    else if word == "write" || word == "send"
    then parse_write more
    else if word == "read"
    then on_port "read_port" more
    else if word == "log"
    then parse_log more
    else if word == "subscribe" || word == "sub"
    then on_port "subscribe_rx" more
    else if word == "unsubscribe" || word == "unsub"
    then on_port "unsubscribe_rx" more
    else if word == "status"
    then bare "port_status"
    else if word == "monitor"
    then parse_monitor more
    else none

unfoldable pub parse_command : String → Option Value
parse_command input = parse_parts (split_whitespace input)

-- Whether a parsed line is shown as a notification; else it answers the last request.
unfoldable pub is_notification : Value → Bool
is_notification v = is_some (get "notify" v)
