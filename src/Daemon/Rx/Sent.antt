-- ===== src/Daemon/Rx/Sent.antt =====
-- What a subscription that succeeds tells the streaming task.
use commmon.Base.{String, ◌≡◌, refl, true, false, some, [], ◌∷◌}
use commmon.Base.Maps.{get, contains_key}
use commmon.Json.{string, json}
use commmon.Channel.{subscribe_to}
use commmon.Env.{Env}
use commmon.Serial
use commmon.Serial.{OpenPort, is_port_open}
use commmon.Daemon.{DaemonState, ClientSession, subscribe}
use commmon.Daemon.Rx.{subscribe_rx}

pub subscribe_rx-sent :
    (env : Env) (port : String) (p : OpenPort) (d : DaemonState) (s : ClientSession)
    → env.stream_alive ≡ true
    → get port d.serial.ports ≡ some p
    → contains_key port s.rx_subscriptions ≡ false
    → (subscribe_rx env (json (("port", string port) ∷ [])) d s).sent
      ≡ subscribe port (subscribe_to p.tx) ∷ []
unfolding subscribe_rx is_port_open Serial.subscribe
subscribe_rx-sent env port p d s alive open_now fresh = rw (open_now, fresh, alive) refl
