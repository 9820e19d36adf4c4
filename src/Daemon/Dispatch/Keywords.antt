-- ===== src/Daemon/Dispatch/Keywords.antt =====
-- Every request leaves the keywords of the session's filters usable.
use commmon.Base.Branches.{on_if, on_option}
use commmon.Json.{Value, str_of, u64_of}
use commmon.Protocol.{Request, Response}
use commmon.Env.{Env, on_result}
use commmon.Serial
use commmon.Serial.{is_port_open, unwrap_or}
use commmon.Monitor.Server
use commmon.Daemon.{DaemonState, ClientSession}
use commmon.Daemon.Session.Keeps.{BuffersValid, ensure_subscribed-Keeps, read_subscribed-Answers}
use commmon.Daemon.Rx.{reply}
use commmon.Daemon.Rx.Usable
use commmon.Daemon.Rx.Usable.{Usable, Leaves, same_filters}
use commmon.Daemon.Dispatch.{
  Command, list_ports, open_port, close_port, subscribe_rx, unsubscribe_rx, filter_rx,
  add_filter_rx, unfilter_rx, write_port, read_port, port_status, start_log, update_log, stop_log,
  open_monitor, close_monitor, unknown, after_open, open_port_arm, read_open_port, read_port_arm,
  open_monitor_arm, close_monitor_arm, handle, u16, command_of, dispatch,
}

module _ (env : Env) (d : DaemonState) (s : ClientSession) (h : Usable s)
    (valid : BuffersValid s) where
  same_session : (r : Response) (d' : DaemonState) → Leaves (reply r d' s)
  same_session r d' = record { left = h }

  open_port-Leaves : (args : Value) → Leaves (open_port_arm env args d s)
  unfolding open_port_arm after_open
  open_port-Leaves args =
      let m = Serial.open_port env args d.serial in
      record {
        left =
            on_if Usable m.0.ok _ _
              (λ _.
                on_option Usable (str_of "port" args) _ _ (λ _. h)
                  λ port _. same_filters s _ h (ensure_subscribed-Keeps s valid port m.1).filters)
              (λ _. h);
      }

  read_port-Leaves : (args : Value) → Leaves (read_port_arm env args d s)
  unfolding read_port_arm read_open_port is_port_open
  read_port-Leaves args =
      on_option Leaves (str_of "port" args) _ _ (λ _. same_session _ d)
        λ port _.
          on_if Leaves (is_port_open port d.serial) _ _
            (λ open_now. record {
              left =
                  same_filters s _ h
                    (read_subscribed-Answers env port _ d.serial s valid open_now).keeps.filters;
            })
            (λ _. same_session _ d)

  open_monitor-Leaves : (args : Value) → Leaves (open_monitor_arm env args d s)
  unfolding open_monitor_arm
  open_monitor-Leaves args =
      on_option Leaves d.monitor _ _
        (λ _.
          on_result Leaves (Server.start env (u16 (unwrap_or 8765 (u64_of "httpPort" args)))) _ _
            (λ _ _. same_session _ _) (λ _ _. same_session _ d))
        (λ _ _. same_session _ d)

  close_monitor-Leaves : Leaves (close_monitor_arm d s)
  unfolding close_monitor_arm
  close_monitor-Leaves =
      on_option Leaves d.monitor _ _ (λ _. same_session _ d) (λ _ _. same_session _ _)

  handle-Leaves : (c : Command) (args : Value) → Leaves (handle env c args d s)
  unfolding handle
  handle-Leaves list_ports args = same_session _ d
  handle-Leaves open_port args = open_port-Leaves args
  handle-Leaves close_port args = Usable.close_port-Leaves env d s h args
  handle-Leaves subscribe_rx args = Usable.subscribe_rx-Leaves env d s h args
  handle-Leaves unsubscribe_rx args = Usable.unsubscribe_rx-Leaves env d s h args
  handle-Leaves filter_rx args = Usable.filter_rx-Leaves env d s h args
  handle-Leaves add_filter_rx args = Usable.add_filter_rx-Leaves env d s h args
  handle-Leaves unfilter_rx args = Usable.unfilter_rx-Leaves env d s h args
  handle-Leaves write_port args = same_session _ _
  handle-Leaves read_port args = read_port-Leaves args
  handle-Leaves port_status args = same_session _ d
  handle-Leaves start_log args = same_session _ _
  handle-Leaves update_log args = same_session _ _
  handle-Leaves stop_log args = same_session _ _
  handle-Leaves open_monitor args = open_monitor-Leaves args
  handle-Leaves close_monitor args = close_monitor-Leaves
  handle-Leaves (unknown cmd) args = same_session _ d

pub dispatch-Leaves :
    (env : Env) (req : Request) (d : DaemonState) (s : ClientSession)
    → Usable s
    → BuffersValid s
    → Leaves (dispatch env req d s)
unfolding dispatch
dispatch-Leaves env req d s h valid = handle-Leaves env d s h valid (command_of req.cmd) req.args
