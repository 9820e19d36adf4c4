-- ===== src/Env/Sample.antt =====
-- A concrete runtime for the tests: one port, calls that work, and a fixed queue for each receiver.
use commmon.Base.{String, true, none, [], ◌∷◌, ◌==◌, if◌then◌else◌}
use commmon.Base.Text.{as_bytes, ◌<>◌}
use commmon.Json.{Value, string, json, array_of}
use commmon.Channel.{entry, lagged, nothing}
use commmon.Serial.{SerialManager}
use commmon.Env.{Env, ok, err}

abbrev pub port_args : String → Value
port_args port = json (("port", string port) ∷ [])

abbrev pub keyword_args : Value
keyword_args =
    json (("port", string "COM3") ∷ ("keywords", array_of (string "OK" ∷ string "" ∷ [])) ∷ [])

abbrev pub env : Env
env = record {
  available_ports = ok (record { port_name = "COM3"; usb = none } ∷ []);
  open_stream = λ b.
      if b.path == "COM3"
      then ok (record { tx = record { channel = 1 }; writer = 2; read_task = 3 })
      else err "no such port";
  write_result = λ w bytes. ok tt;
  receiver_count = λ tx. 1;
  hex_decode = λ s. if s == "4f4b" then ok (0x4f ∷ 0x4b ∷ []) else err "odd";
  hex_encode = λ bytes. "4f4b";
  hex4 = λ n. "10C4";
  file_stamp = "20250101_000000";
  in_temp_dir = λ name. "/tmp/" <> name;
  new_token = 10;
  new_log_task = 11;
  new_timer = 12;
  polled = λ who rx.
      entry (record { timestamp = "t"; bytes = as_bytes "boot OK" })
      ∷ lagged 3
      ∷ entry (record { timestamp = "u"; bytes = as_bytes "rea" })
      ∷ nothing
      ∷ [];
  stream_alive = true;
  parse_request = λ line.
      if line == "open"
      then ok (record { cmd = "open_port"; args = port_args "COM3" })
      else if line == "sub"
      then ok (record { cmd = "subscribe_rx"; args = port_args "COM3" })
      else if line == "filter"
      then ok (record { cmd = "filter_rx"; args = keyword_args })
      else if line == "read"
      then ok (record { cmd = "read_port"; args = port_args "COM3" })
      else if line == "log"
      then ok (record { cmd = "start_log"; args = port_args "COM3" })
      else if line == "more"
      then ok (record { cmd = "add_filter_rx"; args = keyword_args })
      else if line == "monitor"
      then ok (record { cmd = "open_monitor"; args = json [] })
      else if line == "close"
      then ok (record { cmd = "close_port"; args = port_args "COM3" })
      else err "expected value";
  bind_http = λ address. ok tt;
  new_server = 20;
  ends = λ task. true;
}

-- A serial manager with one open port.
abbrev pub one_port : SerialManager
one_port = record {
  ports =
      (
        "COM3",
        record {
          tx = record { channel = 1 };
          writer = 2;
          read_task = 3;
          baud_rate = 9600;
          data_bits = 8;
          parity = "N";
          stop_bits = 1;
        },
      )
      ∷ [];
  logs = [];
  calls = [];
}
