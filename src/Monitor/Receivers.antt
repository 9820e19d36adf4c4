-- ===== src/Monitor/Receivers.antt =====
-- Which receivers the monitor has after a round.
use commmon.Base.{
  String, ◌≡◌, refl, none, List, [], ◌∷◌, ◌==◌, arith, eq_iff, if◌then◌else◌, Option-cases, inl,
  inr,
}
use commmon.Base.Maps.{Map, get, contains_key, keys, get-insert}
use commmon.Channel.{Receiver}
use commmon.Serial.{SerialManager, subscribe}
use commmon.Daemon.Rx.{has}
use commmon.Monitor.{with_port, with_ports, retain, sync}

has-keys : {V : Type 0} (p : String) (m : Map V) → has (keys m) p ≡ contains_key p m
unfolding get
has-keys p [] = refl
has-keys p ((j, v) ∷ m) = ground (arith, has-keys p m)

get-retain :
    (p : String) (names : List String) (m : Map Receiver)
    → get p (retain names m) ≡ (if has names p then get p m else none)
unfolding get retain
get-retain p names [] = ground arith
get-retain p names ((j, rx) ∷ m) = ground (arith, get-retain p names m, eq_iff j p)

-- The receiver of `p` once a port has been looked at.
get-with_port :
    (serial : SerialManager) (p name : String) (m : Map Receiver)
    → get p (with_port serial name m)
      ≡ (if contains_key p m then get p m else if name == p then subscribe p serial else none)
unfolding with_port
get-with_port serial p name m = elim (Option-cases (subscribe name serial)) [
  | inl e ↦ rw e (ground (arith, eq_iff name p, e))
  | inr (rx, e) ↦ rw e (ground (arith, eq_iff name p, e, get-insert name p rx m))
]

get-with_ports :
    (serial : SerialManager) (p : String) (names : List String) (m : Map Receiver)
    → get p (with_ports serial names m)
      ≡ (if contains_key p m then get p m else if has names p then subscribe p serial else none)
unfolding with_ports
get-with_ports serial p [] m = ground arith
get-with_ports serial p (name ∷ names) m =
    ground (
      arith,
      get-with_ports serial p names (with_port serial name m),
      get-with_port serial p name m,
    )

-- After a round starts, the monitor has a receiver exactly for the ports that are open: the one
-- that it had if it had one, a new one otherwise.
pub get-sync :
    (serial : SerialManager) (receivers : Map Receiver) (port : String)
    → get port (sync serial receivers) ≡ (
        if contains_key port serial.ports
        then if contains_key port receivers then get port receivers else subscribe port serial
        else none)
unfolding sync
get-sync serial receivers port = ground (
  arith,
  get-retain port (keys serial.ports) (with_ports serial (keys serial.ports) receivers),
  get-with_ports serial port (keys serial.ports) receivers,
  has-keys port serial.ports,
)
