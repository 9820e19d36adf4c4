-- ===== src/Serial/Tests.antt =====
-- Runs of the serial manager.
use commmon.Base.{◌≡◌, refl, none, [], ◌∷◌}
use commmon.Base.Maps.{get, insert, remove}
use commmon.Base.Text.{decimal}
use commmon.Protocol.{success}
use commmon.Serial.Status.{list_ports, port_status}
use commmon.Json.{Value, null, number, string, json, array_of}
use commmon.Env.{seven, two, even, abort, cancel, write_all, spawn_log}
use commmon.Env.Sample.{env, port_args, one_port}
use commmon.Serial.{
  new, open_port, write_port, builder, opened_port, payload_bytes, data_bits_of, stop_bits_of,
  parity_of, data_bits_number, parity_letter, stop_bits_number, config_text,
}
use commmon.Serial.Config.{Outcome, open_port-Outcome}
use commmon.Serial.Writing.{Written, target, meant, write_port-Written}
use commmon.Serial.Logs.{start_log, close_port}

abbrev write_args : Value
write_args =
    json (("port", string "COM3") ∷ ("data", string "4f4b") ∷ ("encoding", string "hex") ∷ [])

-- Open, write in hexadecimal, log, close: what the runtime is asked for.
calls_of_a_session :
    let opened = (open_port env (port_args "COM3") new).1 in
    let written = (write_port env write_args opened).1 in
    let logged = (start_log env (port_args "COM3") written).1 in
    (close_port (port_args "COM3") logged).1.calls
    ≡ write_all 2 (0x4f ∷ 0x4b ∷ [])
      ∷ spawn_log 11 (record { channel = 1 }) "/tmp/commmon_COM3_20250101_000000.log" "COM3" none 10
      ∷ cancel 10
      ∷ abort 3
      ∷ []
unfolding open_port write_port start_log close_port builder opened_port new payload_bytes get insert
    remove
calls_of_a_session = refl

abbrev even_args : Value
even_args = json (
    ("port", string "COM3")
    ∷ ("baudRate", number 4294976896)
    ∷ ("dataBits", string "7")
    ∷ ("parity", string "even")
    ∷ ("stopBits", string "2")
    ∷ [])

-- A rate of 2^32 + 9600 is cut to 9600.
even_builder :
    builder "COM3" even_args
    ≡ record { path = "COM3"; baud_rate = 9600; data_bits = seven; stop_bits = two; parity = even }
unfolding builder data_bits_of stop_bits_of parity_of
even_builder = refl

status_test :
    port_status env (open_port env even_args new).1
    ≡ success (
        array_of (
          json (
            ("port", string "COM3")
            ∷ ("baudRate", number 9600)
            ∷ ("config", string "7E2")
            ∷ ("subscribers", number 1)
            ∷ ("log", null)
            ∷ [])
          ∷ []))
unfolding open_port new builder opened_port data_bits_number parity_letter stop_bits_number
    config_text port_status get insert decimal
status_test = refl

list_test : list_ports env ≡ success (array_of (json (("path", string "COM3") ∷ []) ∷ []))
unfolding list_ports
list_test = refl

open_port-Outcome_example : Outcome env "COM3" even_args new (open_port env even_args new)
open_port-Outcome_example = open_port-Outcome env "COM3" even_args new refl

write_port-Written_example :
    Written env one_port
      (target write_args one_port)
      (meant env write_args)
      (write_port env write_args one_port)
write_port-Written_example = write_port-Written env write_args one_port
