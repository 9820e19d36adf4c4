-- ===== src/Daemon/Dispatch/Tidy.antt =====
-- Requests leave the tasks of the logs registered or stopped.
use commmon.Base.{refl}
use commmon.Base.Branches.{on_if, on_option}
use commmon.Json.{Value, str_of, u64_of}
use commmon.Protocol.{Request, Response}
use commmon.Env.{Env, on_result}
use commmon.Serial.{SerialManager, is_port_open, unwrap_or}
use commmon.Serial.Tidy.{Tidy, step-Tidy, same-Carries}
use commmon.Serial.Tidy.Handlers
use commmon.Serial.Tidy.Logs
use commmon.Monitor.Server
use commmon.Daemon.{DaemonState, ClientSession, Handled}
use commmon.Daemon.Rx
use commmon.Daemon.Rx.{reply}
use commmon.Daemon.Rx.Untouched
use commmon.Daemon.Dispatch.{
  Command, list_ports, open_port, close_port, subscribe_rx, unsubscribe_rx, filter_rx,
  add_filter_rx, unfilter_rx, write_port, read_port, port_status, start_log, update_log, stop_log,
  open_monitor, close_monitor, unknown, by_serial, open_port_arm, read_open_port, read_port_arm,
  open_monitor_arm, close_monitor_arm, handle, u16, command_of, dispatch,
}

-- After a handler.
record Leaves (r : Handled) : Type 0 where
  left : Tidy r.daemon.serial

module _ (env : Env) (d : DaemonState) (s : ClientSession) (h : Tidy d.serial) where
  answered : (r : Response) (s' : ClientSession) → Leaves (reply r d s')
  answered r s' = record { left = h }

  untouched : (r : Handled) → Untouched.Untouched d r → Leaves r
  untouched r u = record { left = rw u.daemon h }

  by_serial-Leaves :
      (r : Response × SerialManager) → Handlers.Leaves Response r → Leaves (by_serial r d s)
  by_serial-Leaves r k = record { left = k.left }

  close_port-Leaves : (args : Value) → Leaves (Rx.close_port env args d s)
  close_port-Leaves args =
      let k = Handlers.close_port-Leaves env d.serial h args in
      let p = Untouched.close_port-Passed env args d s in record { left = rw p.serial k.left }

  read_port-Leaves : (args : Value) → Leaves (read_port_arm env args d s)
  unfolding read_port_arm read_open_port
  read_port-Leaves args =
      on_option Leaves (str_of "port" args) _ _ (λ _. answered _ s)
        λ port _.
          on_if Leaves (is_port_open port d.serial) _ _ (λ _. answered _ _) (λ _. answered _ s)

  open_monitor-Leaves : (args : Value) → Leaves (open_monitor_arm env args d s)
  unfolding open_monitor_arm
  open_monitor-Leaves args =
      on_option Leaves d.monitor _ _
        (λ _.
          on_result Leaves (Server.start env (u16 (unwrap_or 8765 (u64_of "httpPort" args)))) _ _
            (λ _ _. record { left = h }) (λ _ _. answered _ s))
        (λ _ _. answered _ s)

  close_monitor-Leaves : Leaves (close_monitor_arm d s)
  unfolding close_monitor_arm
  close_monitor-Leaves =
      on_option Leaves d.monitor _ _ (λ _. answered _ s)
        λ m _. record {
          left = step-Tidy d.serial _ (Server.stop m) refl (same-Carries d.serial.logs _) refl h;
        }

  handle-Leaves : (c : Command) (args : Value) → Leaves (handle env c args d s)
  unfolding handle open_port_arm
  handle-Leaves list_ports args = answered _ s
  handle-Leaves open_port args = record {
    left = (Handlers.open_port-Leaves env d.serial h args).left;
  }
  handle-Leaves close_port args = close_port-Leaves args
  handle-Leaves subscribe_rx args = untouched _ (Untouched.subscribe_rx-Untouched env d s args)
  handle-Leaves unsubscribe_rx args = untouched _ (Untouched.unsubscribe_rx-Untouched env d s args)
  handle-Leaves filter_rx args = untouched _ (Untouched.filter_rx-Untouched env d s args)
  handle-Leaves add_filter_rx args = untouched _ (Untouched.add_filter_rx-Untouched env d s args)
  handle-Leaves unfilter_rx args = untouched _ (Untouched.unfilter_rx-Untouched env d s args)
  handle-Leaves write_port args =
      by_serial-Leaves _ (Handlers.write_port-Leaves env d.serial h args)
  handle-Leaves read_port args = read_port-Leaves args
  handle-Leaves port_status args = answered _ s
  handle-Leaves start_log args = by_serial-Leaves _ (Logs.start_log-Leaves env d.serial h args)
  handle-Leaves update_log args = by_serial-Leaves _ (Logs.update_log-Leaves env d.serial h args)
  handle-Leaves stop_log args = by_serial-Leaves _ (Handlers.stop_log-Leaves env d.serial h args)
  handle-Leaves open_monitor args = open_monitor-Leaves args
  handle-Leaves close_monitor args = close_monitor-Leaves
  handle-Leaves (unknown cmd) args = answered _ s

pub dispatch-Tidy :
    (env : Env) (req : Request) (d : DaemonState) (s : ClientSession)
    → Tidy d.serial
    → Tidy (dispatch env req d s).daemon.serial
unfolding dispatch
dispatch-Tidy env req d s h = (handle-Leaves env d s h (command_of req.cmd) req.args).left
