-- ===== src/Daemon/Dispatch/Effects.antt =====
-- The daemon, seen from outside as the sets of its open and its logged ports.
use commmon.Base.{
  String, ◌≡◌, refl, ap, subst, Bool, true, false, Bool-cases, inl, inr, ◌&&◌, ◌==◌, eq_iff,
  if◌then◌else◌,
}
use commmon.Base.Branches.{on_if, on_option}
use commmon.Base.Maps.{contains_key}
use commmon.Json.{Value, str_of, u64_of}
use commmon.Protocol.{Request, Response}
use commmon.Env.{Env, on_result}
use commmon.Serial.{SerialManager, is_port_open, unwrap_or}
use commmon.Serial.Invariant.{LogsOpen}
use commmon.Serial.Effects.{
  Effect, opening, closing, log_starting, log_stopping, no_effect, open_after, logged_after,
  is_text,
}
use commmon.Serial.Effects
use commmon.Monitor.Server
use commmon.Daemon.{DaemonState, ClientSession, Handled}
use commmon.Daemon.Rx
use commmon.Daemon.Rx.{reply}
use commmon.Daemon.Rx.Untouched
use commmon.Daemon.Dispatch.{
  Command, list_ports, open_port, close_port, subscribe_rx, unsubscribe_rx, filter_rx,
  add_filter_rx, unfilter_rx, write_port, read_port, port_status, start_log, update_log, stop_log,
  open_monitor, close_monitor, unknown, by_serial, open_port_arm, read_open_port, read_port_arm,
  open_monitor_arm, close_monitor_arm, handle, u16, command_of, dispatch,
}

-- What a command is for, seen from outside.
abbrev pub effect_of : Command → Effect
effect_of open_port = opening
effect_of close_port = closing
effect_of start_log = log_starting
effect_of stop_log = log_stopping
effect_of _ = no_effect

-- The port `j` after a request, named by it or not.
pub record Refines (e : Effect) (j : String) (named : Bool) (d : DaemonState) (r : Handled)
    : Type 0 where
  pub opened :
      contains_key j r.daemon.serial.ports
      ≡ open_after e (r.response.ok && named) (contains_key j d.serial.ports)
  pub logged :
      contains_key j r.daemon.serial.logs
      ≡ logged_after e (r.response.ok && named) (contains_key j d.serial.logs)

module _ (env : Env) (d : DaemonState) (s : ClientSession) (j : String) where
  by_serial-Refines :
      (e : Effect) (named : Bool) (r : Response × SerialManager)
      → Effects.Effects e j named d.serial r
      → Refines e j named d (by_serial r d s)
  by_serial-Refines e named r k = record { opened = k.opened; logged = k.logged }

  same_serial :
      (named : Bool) (r : Handled) → r.daemon.serial ≡ d.serial → Refines no_effect j named d r
  same_serial named r e = record {
    opened = ap (λ (m : SerialManager). contains_key j m.ports) e;
    logged = ap (λ (m : SerialManager). contains_key j m.logs) e;
  }

  answered :
      (named : Bool) (r : Response) (s' : ClientSession)
      → Refines no_effect j named d (reply r d s')
  answered named r s' = same_serial named _ refl

  untouched : (named : Bool) (r : Handled) → Untouched.Untouched d r → Refines no_effect j named d r
  untouched named r u = same_serial named r (ap (λ (x : DaemonState). x.serial) u.daemon)

  read_port-Refines :
      (named : Bool) (args : Value) → Refines no_effect j named d (read_port_arm env args d s)
  unfolding read_port_arm read_open_port
  read_port-Refines named args =
      on_option (Refines no_effect j named d) (str_of "port" args) _ _ (λ _. answered named _ s)
        λ port _.
          on_if (Refines no_effect j named d) (is_port_open port d.serial) _ _
            (λ _. answered named _ _) (λ _. answered named _ s)

  open_monitor-Refines :
      (named : Bool) (args : Value) → Refines no_effect j named d (open_monitor_arm env args d s)
  unfolding open_monitor_arm
  open_monitor-Refines named args =
      let P = Refines no_effect j named d in
      on_option P d.monitor _ _
        (λ _.
          on_result P (Server.start env (u16 (unwrap_or 8765 (u64_of "httpPort" args)))) _ _
            (λ server _. same_serial named _ refl) (λ _ _. answered named _ s))
        (λ m _. answered named _ s)

  close_monitor-Refines : (named : Bool) → Refines no_effect j named d (close_monitor_arm d s)
  unfolding close_monitor_arm
  close_monitor-Refines named =
      on_option (Refines no_effect j named d) d.monitor _ _ (λ _. answered named _ s)
        (λ m _. record { opened = refl; logged = refl })

  close_port-Refines :
      (args : Value)
      → LogsOpen d.serial
      → Refines closing j (is_text j (str_of "port" args)) d (Rx.close_port env args d s)
  close_port-Refines args h =
      let k = Effects.close_port-Effects env d.serial j args h in
      let p = Untouched.close_port-Passed env args d s in
      record {
        opened = rw (p.response, p.serial) k.opened;
        logged = rw (p.response, p.serial) k.logged;
      }

  handle-Refines :
      (c : Command) (args : Value)
      → LogsOpen d.serial
      → Refines (effect_of c) j (is_text j (str_of "port" args)) d (handle env c args d s)
  unfolding handle open_port_arm
  handle-Refines list_ports args h = answered _ _ s
  handle-Refines open_port args h =
      let k = Effects.open_port-Effects env d.serial j args in
      record { opened = k.opened; logged = k.logged }
  handle-Refines close_port args h = close_port-Refines args h
  handle-Refines subscribe_rx args h = untouched _ _ (Untouched.subscribe_rx-Untouched env d s args)
  handle-Refines unsubscribe_rx args h =
      untouched _ _ (Untouched.unsubscribe_rx-Untouched env d s args)
  handle-Refines filter_rx args h = untouched _ _ (Untouched.filter_rx-Untouched env d s args)
  handle-Refines add_filter_rx args h =
      untouched _ _ (Untouched.add_filter_rx-Untouched env d s args)
  handle-Refines unfilter_rx args h = untouched _ _ (Untouched.unfilter_rx-Untouched env d s args)
  handle-Refines write_port args h =
      by_serial-Refines no_effect _ _ (Effects.write_port-Effects env d.serial j args)
  handle-Refines read_port args h = read_port-Refines _ args
  handle-Refines port_status args h = answered _ _ s
  handle-Refines start_log args h =
      by_serial-Refines log_starting _ _ (Effects.start_log-Effects env d.serial j args)
  handle-Refines update_log args h =
      by_serial-Refines no_effect _ _ (Effects.update_log-Effects env d.serial j args)
  handle-Refines stop_log args h =
      by_serial-Refines log_stopping _ _ (Effects.stop_log-Effects env d.serial j args)
  handle-Refines open_monitor args h = open_monitor-Refines _ args
  handle-Refines close_monitor args h = close_monitor-Refines _
  handle-Refines (unknown cmd) args h = answered _ _ s

-- What the protocol promises of a command's name, whatever arm the code takes for it.
abbrev pub promised : String → Effect
promised cmd =
    if cmd == "open_port"
    then opening
    else if cmd == "close_port"
    then closing
    else if cmd == "start_log"
    then log_starting
    else if cmd == "stop_log"
    then log_stopping
    else no_effect

same_if : (b : Bool) (e : Effect) → (if b then e else e) ≡ e
same_if true e = refl
same_if false e = refl

effect_of-if :
    (b : Bool) (x y : Command)
    → effect_of (if b then x else y) ≡ (if b then effect_of x else effect_of y)
effect_of-if true x y = refl
effect_of-if false x y = refl

effect_of-command_of : (cmd : String) → effect_of (command_of cmd) ≡ promised cmd
unfolding command_of
effect_of-command_of cmd = elim (Bool-cases (cmd == "open_port")) [
  | inl e ↦ rw ((eq_iff cmd "open_port").0 e) refl
  | inr a ↦ elim (Bool-cases (cmd == "close_port")) [
    | inl e ↦ rw ((eq_iff cmd "close_port").0 e) refl
    | inr b ↦ elim (Bool-cases (cmd == "start_log")) [
      | inl e ↦ rw ((eq_iff cmd "start_log").0 e) refl
      | inr c ↦ elim (Bool-cases (cmd == "stop_log")) [
        | inl e ↦ rw ((eq_iff cmd "stop_log").0 e) refl
        | inr d ↦ rw (a, b, c, d, command_of) (simp (effect_of-if, same_if))
      ]
    ]
  ]
]

-- Of a daemon whose logs belong to open ports, seen as the set of its open and the set of its
-- logged ports: a successful request called "open_port" puts the port that it names into the first
-- set, "start_log" into the second; a successful "stop_log" takes it out of the second,
-- "close_port" out of both; all else, a refused request, an unknown command and what happens to
-- every other port included, leaves both sets as they are.
pub dispatch-Refines :
    (env : Env) (req : Request) (d : DaemonState) (s : ClientSession) (j : String)
    → LogsOpen d.serial
    → Refines (promised req.cmd) j (is_text j (str_of "port" req.args)) d (dispatch env req d s)
unfolding dispatch
dispatch-Refines env req d s j h =
    subst
      (λ (e : Effect). Refines e j (is_text j (str_of "port" req.args)) d (dispatch env req d s))
      (effect_of-command_of req.cmd) (handle-Refines env d s j (command_of req.cmd) req.args h)
