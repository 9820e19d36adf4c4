-- ===== src/Protocol.antt =====
-- commmon/src/protocol.rs: the messages between the clients and the daemon.
pub mod Wire
use commmon.Base.{String, Bool, true, false, Option, none, some}
use commmon.Json.{Value, string}

pub record Request : Type 0 where
  pub cmd : String
  pub args : Value

pub record Response : Type 0 where
  pub ok : Bool
  -- the field `data`, a reserved word here
  pub payload : Option Value
  pub error : Option String

abbrev pub success : Value → Response
success v = record { ok = true; payload = some v; error = none }

abbrev pub success_msg : String → Response
success_msg msg = record { ok = true; payload = some (string msg); error = none }

abbrev pub failure : String → Response
failure msg = record { ok = false; payload = none; error = some msg }

pub record Notification : Type 0 where
  pub notify : String
  pub payload : Value
