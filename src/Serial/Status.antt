-- ===== src/Serial/Status.antt =====
-- commmon/src/serial.rs: what `list_ports` and `port_status` answer.
use commmon.Base.{String, Option, none, some, List, [], ◌∷◌, ◌++◌, map}
use commmon.Base.Maps.{Map, get}
use commmon.Base.Text.{◌<>◌}
use commmon.Json.{Value, null, number, string, array_of, json, option_string}
use commmon.Protocol.{Response, success, failure}
use commmon.Env.{Env, ok, err, SerialPortInfo, UsbPortInfo}
use commmon.Serial.{OpenPort, LogState, SerialManager, config_text}

abbrev named : String → Option String → List (String × Value)
named k none = []
named k (some s) = (k, string s) ∷ []

abbrev usb_fields : Env → Option UsbPortInfo → List (String × Value)
usb_fields env none = []
usb_fields env (some info) =
    named "manufacturer" info.manufacturer
    ++ (named "product" info.product
        ++ (named "serialNumber" info.serial_number
            ++ ("vendorId", string (env.hex4 info.vid))
              ∷ ("productId", string (env.hex4 info.pid))
              ∷ []))

unfoldable pub port_info_value : Env → SerialPortInfo → Value
port_info_value env p = json (("path", string p.port_name) ∷ usb_fields env p.usb)

unfoldable pub list_ports : Env → Response
unfolding port_info_value
list_ports env = elim env.available_ports [
  | ok ports ↦ success (array_of (map (port_info_value env) ports))
  | err e ↦ failure ("포트 목록 조회 실패: " <> e)
]

abbrev pub log_info : Option LogState → Value
log_info none = null
log_info (some l) =
    json (("file", string l.file_path) ∷ ("stopKeyword", option_string l.stop_keyword) ∷ [])

unfoldable pub status_value : Env → Map LogState → String × OpenPort → Value
status_value env logs (name, p) = json (
    ("port", string name)
    ∷ ("baudRate", number p.baud_rate)
    ∷ ("config", string (config_text p))
    ∷ ("subscribers", number (env.receiver_count p.tx))
    ∷ ("log", log_info (get name logs))
    ∷ [])

unfoldable pub port_status : Env → SerialManager → Response
unfolding status_value
port_status env m = success (array_of (map (status_value env m.logs) m.ports))
