-- ===== src/Daemon/Client/Invariant.antt =====
-- What holds of a connection, and of the daemon and a session at their start.
use commmon.Base.{refl}
use commmon.Base.Maps.{get}
use commmon.Serial
use commmon.Serial.Invariant.{LogsOpen}
use commmon.Daemon.{initial}
use commmon.Daemon.Session
use commmon.Daemon.Session.Keeps.{BuffersValid}
use commmon.Daemon.Stream.{idle}
use commmon.Daemon.Rx.Agreement.{Agrees}
use commmon.Daemon.Rx.Usable.{Usable}
use commmon.Daemon.Client.{Connection}

pub record Coherent (c : Connection) : Type 0 where
  pub agrees : Agrees c.session c.stream
  pub buffers : BuffersValid c.session
  pub keywords : Usable c.session

pub new-Agrees : Agrees Session.new idle
unfolding Session.new get
new-Agrees j = record { subscribed = refl; filtered = refl }

pub new-BuffersValid : BuffersValid Session.new
unfolding Session.new get
new-BuffersValid p = (refl, λ b e. cc)

pub initial-LogsOpen : LogsOpen initial.serial
unfolding initial Serial.new get
initial-LogsOpen p e = cc

pub new-Usable : Usable Session.new
unfolding Session.new get
new-Usable = record { all = λ p. refl }
