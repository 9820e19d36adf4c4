-- ===== src/Daemon.antt =====
-- commmon/src/daemon.rs: the state of the daemon and of one client's connection, the commands to
-- the connection's streaming task, and what a handler gives back.
pub mod Session
pub mod Stream
pub mod Rx
pub mod Dispatch
pub mod Client
mod Tests
use commmon.Base.{ℕ, String, Option, none, List, [], ◌∷◌}
use commmon.Base.Maps.{Map}
use commmon.Protocol.{Response}
use commmon.Channel.{RxEntry, Receiver}
use commmon.Serial.{SerialManager}
use commmon.Serial
use commmon.Filter.{FilterState}
use commmon.Monitor.Server.{MonitorHandle}

pub record DaemonState : Type 0 where
  pub serial : SerialManager
  pub monitor : Option MonitorHandle

-- the state that `run` starts with
unfoldable pub initial : DaemonState
initial = record { serial = Serial.new; monitor = none }

pub record ClientSession : Type 0 where
  pub receivers : Map Receiver
  pub buffers : Map (List RxEntry)
  pub rx_subscriptions : Map (Unit {0})
  pub filter_subscriptions : Map (List String)

pub data RxSubCommand : Type 0 where
  subscribe : String → Receiver → RxSubCommand
  unsubscribe : String → RxSubCommand
  add_filter : String → List String → Receiver → RxSubCommand
  remove_filter : String → RxSubCommand
  set_filter_keywords : String → List String → RxSubCommand

-- The two maps of the streaming task.
pub record StreamState : Type 0 where
  pub rx_receivers : Map Receiver
  pub filter_states : Map FilterState

-- What a handler leaves: `sent` are the commands that the streaming task's channel took.
pub record Handled : Type 0 where
  pub response : Response
  pub daemon : DaemonState
  pub session : ClientSession
  pub sent : List RxSubCommand
