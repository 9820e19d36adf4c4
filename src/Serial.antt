-- ===== src/Serial.antt =====
-- commmon/src/serial.rs: the ports of `SerialManager`. Its logs are in Serial/Logs.antt, the log
-- task in Serial/Tasks.antt and the status in Serial/Status.antt. Each handler is one step: the
-- tasks of other clients run before it or after it.
pub mod Logs
pub mod Tasks
pub mod Status
pub mod Invariant
pub mod Effects
pub mod Config
pub mod Writing
pub mod Tidy
mod Tests
use commmon.Base.{
  ℕ, ◌%◌, ◌^◌, String, Bool, Option, none, some, List, [], ◌∷◌, ◌++◌, ◌==◌, if◌then◌else◌, length,
}
use commmon.Base.Maps.{Map, get, insert, remove, contains_key, keys}
use commmon.Base.Text.{as_bytes, decimal, ◌<>◌}
use commmon.Json.{Value, str_of, u64_of}
use commmon.Protocol.{Response, success_msg, failure}
use commmon.Channel.{Sender, Receiver, subscribe_to}
use commmon.Env.{
  Env, Result, ok, err, DataBits, five, six, seven, eight, StopBits, one, two, Parity, no_parity,
  odd, even, Builder, Stream, Call, write_all, abort,
}

pub record OpenPort : Type 0 where
  pub tx : Sender
  pub writer : ℕ
  pub read_task : ℕ
  pub baud_rate : ℕ
  pub data_bits : ℕ
  pub parity : String
  pub stop_bits : ℕ

pub record LogState : Type 0 where
  pub file_path : String
  pub stop_keyword : Option String
  pub cancel : ℕ
  pub task : ℕ
  pub duration_task : Option ℕ

-- `calls` is what has been asked of the runtime so far, by the manager and for its clients.
pub record SerialManager : Type 0 where
  pub ports : Map OpenPort
  pub logs : Map LogState
  pub calls : List Call

unfoldable pub new : SerialManager
new = record { ports = []; logs = []; calls = [] }

abbrev pub unwrap_or {ℓ} : {A : Type ℓ} → A → Option A → A
unwrap_or d none = d
unwrap_or d (some a) = a

abbrev pub port_needed : String
port_needed = "port 파라미터가 필요합니다."

abbrev pub not_open : String → String
not_open port = port <> "가 열려 있지 않습니다."

unfoldable pub data_bits_of : String → DataBits
data_bits_of s =
    if s == "5" then five else if s == "6" then six else if s == "7" then seven else eight

unfoldable pub stop_bits_of : String → StopBits
stop_bits_of s = if s == "2" then two else one

unfoldable pub parity_of : String → Parity
parity_of s = if s == "even" then even else if s == "odd" then odd else no_parity

unfoldable pub data_bits_number : String → ℕ
data_bits_number s = if s == "5" then 5 else if s == "6" then 6 else if s == "7" then 7 else 8

unfoldable pub parity_letter : String → String
parity_letter s = if s == "even" then "E" else if s == "odd" then "O" else "N"

unfoldable pub stop_bits_number : String → ℕ
stop_bits_number s = if s == "2" then 2 else 1

-- `as u32`
abbrev pub u32 : ℕ → ℕ
u32 n = n % 2 ^ 32

abbrev pub baud_rate_of : Value → ℕ
baud_rate_of args = u32 (unwrap_or 115200 (u64_of "baudRate" args))

abbrev text_or : String → String → Value → String
text_or d k args = unwrap_or d (str_of k args)

unfoldable pub builder : String → Value → Builder
builder port args = record {
  path = port;
  baud_rate = baud_rate_of args;
  data_bits = data_bits_of (text_or "8" "dataBits" args);
  stop_bits = stop_bits_of (text_or "1" "stopBits" args);
  parity = parity_of (text_or "none" "parity" args);
}

unfoldable pub opened_port : Value → Stream → OpenPort
opened_port args s = record {
  tx = s.tx;
  writer = s.writer;
  read_task = s.read_task;
  baud_rate = baud_rate_of args;
  data_bits = data_bits_number (text_or "8" "dataBits" args);
  parity = parity_letter (text_or "none" "parity" args);
  stop_bits = stop_bits_number (text_or "1" "stopBits" args);
}

-- "8N1"
unfoldable pub config_text : OpenPort → String
config_text p = decimal p.data_bits <> p.parity <> decimal p.stop_bits

open_named : Env → String → Value → SerialManager → Response × SerialManager
open_named env port args m =
    if contains_key port m.ports
    then (failure (port <> "는 이미 열려 있습니다."), m)
    else (elim (env.open_stream (builder port args)) [
      | err e ↦ (failure (port <> " 열기 실패: " <> e), m)
      | ok s ↦
          let p = opened_port args s in
          (
            success_msg
                (port <> " 열기 성공 (" <> decimal p.baud_rate <> "bps, " <> config_text p <> ")"),
            record m { ports = insert port p m.ports },
          )
    ])

pub open_port : Env → Value → SerialManager → Response × SerialManager
unfolding open_named
open_port env args m = elim (str_of "port" args) [
  | none ↦ (failure port_needed, m)
  | some port ↦ open_named env port args m
]

abbrev pub issue : List Call → SerialManager → SerialManager
issue cs m = record m { calls = m.calls ++ cs }

unfoldable pub close_removed : String → SerialManager → Response × SerialManager
close_removed port m = elim (get port m.ports) [
  | none ↦ (failure (not_open port), m)
  | some p ↦ (
    success_msg (port <> " 닫기 성공"),
    issue (abort p.read_task ∷ []) (record m { ports = remove port m.ports }),
  )
]

-- The bytes that `data` stands for.
pub payload_bytes : Env → String → String → Result (List ℕ)
payload_bytes env encoding text =
    if encoding == "hex"
    then (elim (env.hex_decode text) [ ok b ↦ ok b | err e ↦ err ("HEX 디코딩 실패: " <> e) ])
    else ok (as_bytes text)

write_bytes : Env → String → List ℕ → SerialManager → Response × SerialManager
write_bytes env port bytes m = elim (get port m.ports) [
  | none ↦ (failure (not_open port), m)
  | some p ↦
      let m' = issue (write_all p.writer bytes ∷ []) m in
      elim (env.write_result p.writer bytes) [
        | ok _ ↦ (success_msg (port <> " 전송 완료 (" <> decimal (length bytes) <> " 바이트)"), m')
        | err e ↦ (failure (port <> " 전송 실패: " <> e), m')
      ]
]

write_text : Env → String → String → String → SerialManager → Response × SerialManager
unfolding write_bytes
write_text env port encoding text m = elim (payload_bytes env encoding text) [
  | err e ↦ (failure e, m)
  | ok bytes ↦ write_bytes env port bytes m
]

pub write_port : Env → Value → SerialManager → Response × SerialManager
unfolding write_text
write_port env args m = elim (str_of "port" args) [
  | none ↦ (failure port_needed, m)
  | some port ↦ elim (str_of "data" args) [
    | none ↦ (failure "data 파라미터가 필요합니다.", m)
    | some text ↦ write_text env port (text_or "ascii" "encoding" args) text m
  ]
]

unfoldable pub subscribe : String → SerialManager → Option Receiver
subscribe port m = elim (get port m.ports) [ none ↦ none | some p ↦ some (subscribe_to p.tx) ]

unfoldable pub is_port_open : String → SerialManager → Bool
is_port_open port m = contains_key port m.ports

unfoldable pub open_port_names : SerialManager → List String
open_port_names m = keys m.ports
