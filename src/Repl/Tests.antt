-- ===== src/Repl/Tests.antt =====
-- Runs of the command line client.
use commmon.Base.{◌≡◌, refl, true, false, some, List, [], ◌∷◌, arith, ◌==◌, if◌then◌else◌}
use commmon.Base.Text.{split_whitespace, decimal, join, as_bytes}
use commmon.Json.{Value, string, number, json}
use commmon.Protocol.{Response, Notification, failure}
use commmon.Protocol.Wire.{response_value, notification_value}
use commmon.Repl.{
  parse_command, parse_parts, parse_open, with_config, parity_word, parse_log_flags, port_args,
  is_notification, command,
}
use commmon.Env.{seven, two, even, Stream}
use commmon.Env.Sample.{env, one_port}
use commmon.Serial.Config.{Outcome}
use commmon.Serial.{open_port, builder, opened_port, config_text}
use commmon.Serial.Writing.{value_of}
use commmon.Repl.Config.{notation, parse_parts-open}
use commmon.Repl.Write.{Writes, parse_parts-write}
use commmon.Repl.Numbers.{parse_u64, digits_behind}
use commmon.Repl.Flags.{Flag, duration, keyword, file, typed, asked, parse_log_flags-typed}
use commmon.Repl.Known.{is_notification_lem}

open_test :
    parse_command " open COM3 9600 7E2"
    ≡ some (
        json (
          ("cmd", string "open_port")
          ∷ (
            "args",
            json (
                ("port", string "COM3")
                ∷ ("baudRate", number 9600)
                ∷ ("dataBits", string "7")
                ∷ ("parity", string "even")
                ∷ ("stopBits", string "2")
                ∷ []),
          )
          ∷ []))
unfolding parse_command parse_parts parse_open with_config parity_word split_whitespace parse_u64
    digits_behind
open_test = refl

abbrev status_request : Value
status_request = json (("cmd", string "port_status") ∷ [])

abbrev flags : List Flag
flags = keyword "login:" ∷ duration 30 ∷ file "boot.log" ∷ duration 60 ∷ []

parse_log_flags-typed_example :
    parse_log_flags (typed flags) (port_args "COM3") ≡ asked flags (port_args "COM3")
parse_log_flags-typed_example =
    parse_log_flags-typed flags (port_args "COM3") (omega arith, (omega arith, tt))

abbrev refusal : Response
refusal = failure "no"

abbrev stop_note : Notification
stop_note = record { notify = "log_stopped"; payload = json [] }

is_notification_lem_example :
    (is_notification (response_value refusal) ≡ false)
    × (is_notification (notification_value stop_note) ≡ true)
is_notification_lem_example = is_notification_lem refusal stop_note

parse_parts-open_example :
    (args : Value) × Outcome env "COM3" args one_port (open_port env args one_port)
    × (parse_parts ("open" ∷ "COM3" ∷ decimal 9600 ∷ notation seven even two ∷ [])
        ≡ command "open_port" args)
    × (builder "COM3" args ≡ record {
      path = "COM3";
      baud_rate = 9600;
      data_bits = seven;
      stop_bits = two;
      parity = even;
    })
    × ((st : Stream) → config_text (opened_port args st) ≡ notation seven even two)
parse_parts-open_example = parse_parts-open "COM3" 9600 seven even two (omega arith) env one_port

parse_parts-write_example :
    Writes env one_port "COM3"
      (if "--hex" == "--hex"
        then value_of (env.hex_decode (join "" ("4f" ∷ "4b" ∷ [])))
        else some (as_bytes (join " " ("--hex" ∷ "4f" ∷ "4b" ∷ []))))
      (parse_parts ("write" ∷ "COM3" ∷ "--hex" ∷ "4f" ∷ "4b" ∷ []))
parse_parts-write_example = parse_parts-write env one_port "COM3" "--hex" ("4f" ∷ "4b" ∷ [])
