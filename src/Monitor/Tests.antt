-- ===== src/Monitor/Tests.antt =====
-- Runs of the monitor.
use commmon.Base.{◌≡◌, refl, none, [], ◌∷◌, if◌then◌else◌, some}
use commmon.Base.Maps.{Map, get, insert, contains_key}
use commmon.Channel.{Receiver}
use commmon.Base.Text.{decimal}
use commmon.Env.{ok, err}
use commmon.Env.Sample.{env, one_port}
use commmon.Monitor.Server.{start, route, event_stream}
use commmon.Serial.{subscribe, open_port_names}
use commmon.Monitor.{sync, with_ports, with_port, retain}
use commmon.Monitor.Receivers.{get-sync}

abbrev old_receivers : Map Receiver
old_receivers = ("COM9", record { channel = 9 }) ∷ []

-- A closed port goes, an open one comes.
changed_ports : sync one_port old_receivers ≡ ("COM3", record { channel = 1 }) ∷ []
unfolding sync with_ports with_port retain subscribe get insert open_port_names
changed_ports = refl

get-sync_example : get "COM3" (sync one_port old_receivers) ≡ (
    if contains_key "COM3" one_port.ports
    then if contains_key "COM3" old_receivers
      then get "COM3" old_receivers
      else subscribe "COM3" one_port
    else none)
get-sync_example = get-sync one_port old_receivers "COM3"

-- The server, on a port that is free and on one that is taken.
started : start env 8765 ≡ ok (record { cancel = 10; task = 20; http_port = 8765 })
unfolding start
started = refl

taken : start (record env { bind_http = λ address. err address }) 8765 ≡ err "127.0.0.1:8765"
unfolding start decimal
taken = refl

events_route : route "<html>" "/events" ≡ some event_stream
unfolding route
events_route = refl
