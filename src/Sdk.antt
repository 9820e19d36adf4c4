-- ===== src/Sdk.antt =====
-- sdk/rust/src/lib.rs: the Rust client. A line that its task has parsed comes as a JSON value; what
-- it hands to its broadcast channel is the result.
pub mod Delivery
pub mod Subscription
pub mod Example
mod Tests
use commmon.Base.{String, Option, none, some, List, [], ◌∷◌, ◌==◌, if◌then◌else◌}
use commmon.Json.{
  Value, Items, nil, cons, null, bool, number, other_number, string, array, object, json, get,
  str_of, ◌>>=◌,
}
use commmon.Protocol.{Request}

pub record RxData : Type 0 where
  pub port : String
  pub timestamp : String
  pub ascii : String
  pub hex : String

-- `from_value::<RxData>` of an object: four texts.
unfoldable pub rx_data_of : Value → Option RxData
rx_data_of v = do
  port ← str_of "port" v
  timestamp ← str_of "timestamp" v
  ascii ← str_of "ascii" v
  hex ← str_of "hex" v
  some (record { port = port; timestamp = timestamp; ascii = ascii; hex = hex })

-- One parsed line: `from_str::<Notification>`, the test on `notify`, and what is sent on.
unfoldable pub on_line : Value → Option RxData
on_line v = do
  notify ← str_of "notify" v
  payload ← get "data" v
  if notify == "rx_data" then rx_data_of payload else none

-- The task over the lines of a connection.
unfoldable pub recv_task : List Value → List RxData
recv_task [] = []
recv_task (v ∷ vs) = elim (on_line v) [ none ↦ recv_task vs | some d ↦ d ∷ recv_task vs ]

unfoldable pub subscribe : String → Request
subscribe com_port = record { cmd = "subscribe_rx"; args = json (("port", string com_port) ∷ []) }

unfoldable pub unsubscribe : String → Request
unsubscribe com_port = record {
  cmd = "unsubscribe_rx";
  args = json (("port", string com_port) ∷ []);
}
