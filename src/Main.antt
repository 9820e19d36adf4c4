-- ===== src/Main.antt =====
-- commmon/src/main.rs: the command line, and which part of the program it starts. What clap hands
-- over are the options that were given.
mod Tests
use commmon.Base.{ℕ, Option, none, some}
use commmon.Serial.{unwrap_or}

-- `default_value_t` of both options
abbrev default_port : ℕ
default_port = 9900

pub data Commands : Type 0 where
  daemon : (port : ℕ) → Commands

pub record Cli : Type 0 where
  pub command : Option Commands
  pub port : ℕ

-- `commmon [--port P]`, or `commmon [--port P] daemon [--port Q]`
pub parse : (port : Option ℕ) → (subcommand : Option (Option ℕ)) → Cli
parse port none = record { command = none; port = unwrap_or default_port port }
parse port (some q) = record {
  command = some (daemon (unwrap_or default_port q));
  port = unwrap_or default_port port;
}

-- `daemon::run(port)` or `repl::run(port)`
pub data Part : Type 0 where
  daemon_run : ℕ → Part
  repl_run : ℕ → Part

pub main : Cli → Part
main cli = elim cli.command [ some (daemon port) ↦ daemon_run port | none ↦ repl_run cli.port ]
