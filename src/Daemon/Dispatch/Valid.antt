-- ===== src/Daemon/Dispatch/Valid.antt =====
-- Every request: what stays valid, and that a refused one changes nothing.
use commmon.Base.{String, ◌≡◌, refl, ap, ◌∙◌, true, false, some}
use commmon.Base.Branches.{on_if, on_option}
use commmon.Base.Maps.{get, contains_key}
use commmon.Json.{Value, str_of, u64_of}
use commmon.Protocol.{Request, Response, failure}
use commmon.Env.{Env, on_result}
use commmon.Serial
use commmon.Serial.{SerialManager, is_port_open, unwrap_or}
use commmon.Serial.Invariant.{LogsOpen}
use commmon.Serial.Invariant
use commmon.Monitor.Server
use commmon.Daemon.{DaemonState, ClientSession, StreamState}
use commmon.Daemon.Stream.{apply_cmds}
use commmon.Daemon.Session.Keeps.{
  BuffersValid, Keeps, ensure_subscribed-Keeps, read_subscribed-Answers,
}
use commmon.Daemon.Rx.{reply}
use commmon.Daemon.Rx.Agreement.{Agrees}
use commmon.Daemon.Rx.Sound
use commmon.Daemon.Dispatch.{
  Command, list_ports, open_port, subscribe_rx, unsubscribe_rx, filter_rx, add_filter_rx,
  unfilter_rx, write_port, read_port, port_status, start_log, update_log, stop_log, open_monitor,
  close_monitor, unknown, by_serial, after_open, open_port_arm, read_open_port, read_port_arm,
  open_monitor_arm, close_monitor_arm, handle, u16, close_port, command_of, dispatch,
}

module _ (env : Env) (alive : env.stream_alive ≡ true) (d : DaemonState) (s : ClientSession)
    (t : StreamState) (h : Agrees s t) (valid : BuffersValid s)
    (logs_open : LogsOpen d.serial) where
  refused : (msg : String) → Sound.Sound d s t (reply (failure msg) d s)
  refused msg = Sound.refused env alive d s t h valid logs_open msg

  -- An answer that leaves the session's subscriptions and the serial manager's maps in order.
  answered :
      (r : Response) (d' : DaemonState) (s' : ClientSession)
      → Keeps s s'
      → LogsOpen d'.serial
      → (r.ok ≡ false → Invariant.SameMaps d.serial d'.serial × (d'.monitor ≡ d.monitor) × (s' ≡ s))
      → Sound.Sound d s t (reply r d' s')
  unfolding apply_cmds
  answered r d' s' k l e = record {
    agrees = λ j. record {
      subscribed = ap (contains_key j) k.rx ∙ (h j).subscribed;
      filtered = ap (get j) k.filters ∙ (h j).filtered;
    };
    buffers = k.buffers;
    logs_open = l;
    on_error = λ f. let (a, b, c) = e f in (a, b, c, refl);
  }

  unchanged : Keeps s s
  unchanged = record { buffers = valid; rx = refl; filters = refl }

  -- What the serial manager answers.
  serial_answered :
      (r : Response × SerialManager)
      → Invariant.Sound d.serial r
      → Sound.Sound d s t (by_serial r d s)
  serial_answered (r, m) k =
      answered r (record d { serial = m }) s unchanged k.logs_open (λ e. (k.on_error e, refl, refl))

  open_port-Sound : (args : Value) → Sound.Sound d s t (open_port_arm env args d s)
  unfolding open_port_arm after_open
  open_port-Sound args =
      let m = Serial.open_port env args d.serial in
      let k = Invariant.open_port-Sound env d.serial logs_open args in
      let after : Keeps s (after_open args m.0 m.1 s) =
        on_if (Keeps s) m.0.ok _ _
          (λ _.
            on_option (Keeps s) (str_of "port" args) _ _ (λ _. unchanged)
              λ port _. ensure_subscribed-Keeps s valid port m.1)
          (λ _. unchanged) in
      answered m.0 (record d { serial = m.1 }) _ after k.logs_open
        (λ e. (k.on_error e, refl, rw e refl))

  read_port-Sound : (args : Value) → Sound.Sound d s t (read_port_arm env args d s)
  unfolding read_port_arm read_open_port is_port_open
  read_port-Sound args =
      on_option (Sound.Sound d s t) (str_of "port" args) _ _ (λ _. refused _)
        λ port _.
          on_if (Sound.Sound d s t) (is_port_open port d.serial) _ _
            (λ open_now.
              let a = read_subscribed-Answers env port _ d.serial s valid open_now in
              answered _ d _ a.keeps logs_open (λ e. cc (a.answered)))
            (λ _. refused _)

  open_monitor-Sound : (args : Value) → Sound.Sound d s t (open_monitor_arm env args d s)
  unfolding open_monitor_arm
  open_monitor-Sound args =
      on_option (Sound.Sound d s t) d.monitor _ _
        (λ e.
          on_result (Sound.Sound d s t)
            (Server.start env (u16 (unwrap_or 8765 (u64_of "httpPort" args)))) _ _
            (λ handle _.
              answered _ (record d { monitor = some handle }) s unchanged logs_open (λ f. cc))
            (λ f _. refused _))
        (λ m e. answered _ d s unchanged logs_open (λ f. cc))

  close_monitor-Sound : Sound.Sound d s t (close_monitor_arm d s)
  unfolding close_monitor_arm
  close_monitor-Sound =
      on_option (Sound.Sound d s t) d.monitor _ _ (λ _. refused _)
        λ m _. answered _ _ s unchanged logs_open (λ e. cc)

  handle-Sound : (c : Command) (args : Value) → Sound.Sound d s t (handle env c args d s)
  unfolding handle
  handle-Sound list_ports args =
      answered _ d s unchanged logs_open (λ _. ((refl, refl), refl, refl))
  handle-Sound open_port args = open_port-Sound args
  handle-Sound close_port args = Sound.Sound-close_port env alive d s t h valid logs_open args
  handle-Sound subscribe_rx args = Sound.Sound-subscribe_rx env alive d s t h valid logs_open args
  handle-Sound unsubscribe_rx args =
      Sound.Sound-unsubscribe_rx env alive d s t h valid logs_open args
  handle-Sound filter_rx args = Sound.Sound-filter_rx env alive d s t h valid logs_open args
  handle-Sound add_filter_rx args = Sound.Sound-add_filter_rx env alive d s t h valid logs_open args
  handle-Sound unfilter_rx args = Sound.Sound-unfilter_rx env alive d s t h valid logs_open args
  handle-Sound write_port args =
      serial_answered _ (Invariant.write_port-Sound env d.serial logs_open args)
  handle-Sound read_port args = read_port-Sound args
  handle-Sound port_status args =
      answered _ d s unchanged logs_open (λ _. ((refl, refl), refl, refl))
  handle-Sound start_log args =
      serial_answered _ (Invariant.start_log-Sound env d.serial logs_open args)
  handle-Sound update_log args =
      serial_answered _ (Invariant.update_log-Sound env d.serial logs_open args)
  handle-Sound stop_log args =
      serial_answered _ (Invariant.stop_log-Sound env d.serial logs_open args)
  handle-Sound open_monitor args = open_monitor-Sound args
  handle-Sound close_monitor args = close_monitor-Sound
  handle-Sound (unknown cmd) args = refused _

-- For a session that agrees with its streaming task and has valid buffers, a daemon whose logs
-- belong to open ports, and a streaming task that takes commands: every request, known or not,
-- leaves session and task in agreement once the sent commands are applied, the buffers valid and
-- the logs on open ports; and a request that is refused leaves the ports, the logs, the monitor and
-- the session as they were and sends no command.
pub dispatch-Sound :
    (env : Env) (req : Request) (d : DaemonState) (s : ClientSession) (t : StreamState)
    → env.stream_alive ≡ true
    → Agrees s t
    → BuffersValid s
    → LogsOpen d.serial
    → Sound.Sound d s t (dispatch env req d s)
unfolding dispatch
dispatch-Sound env req d s t alive h valid logs_open =
    handle-Sound env alive d s t h valid logs_open (command_of req.cmd) req.args
