-- ===== src/Sdk/Subscription.antt =====
-- The client's `subscribe`, from its request to the data that it receives.
use commmon.Base.{String, ◌≡◌, true, false, some, map}
use commmon.Base.Maps.{get, insert, contains_key}
use commmon.Channel.{subscribe_to}
use commmon.Protocol.Wire.{notification_value}
use commmon.Env.{Env}
use commmon.Serial.{OpenPort}
use commmon.Daemon.{DaemonState, ClientSession, StreamState}
use commmon.Daemon.Stream.{apply_cmd, apply_cmds, round}
use commmon.Daemon.Rx.Sent.{subscribe_rx-sent}
use commmon.Daemon.Dispatch.{dispatch, handle, command_of}
use commmon.Sdk.{recv_task, subscribe}
use commmon.Sdk.Delivery.{delivered, recv_task-round}

-- For a port that is open and that the session has not subscribed to, and a streaming task that
-- takes commands: when the client's request is answered and the task has taken the command, the
-- client's channel gets from the task's next round the entries of that port, received from a new
-- receiver of its channel, with those of the ports subscribed to before.
pub dispatch-subscribe :
    (env later : Env) (port : String) (p : OpenPort) (d : DaemonState) (s : ClientSession)
    (t : StreamState)
    → env.stream_alive ≡ true
    → get port d.serial.ports ≡ some p
    → contains_key port s.rx_subscriptions ≡ false
    → recv_task (
        map notification_value
          (round later (apply_cmds t (dispatch env (subscribe port) d s).sent)).sent)
      ≡ delivered later (insert port (subscribe_to p.tx) t.rx_receivers)
unfolding dispatch handle command_of subscribe apply_cmds apply_cmd
dispatch-subscribe env later port p d s t alive open_now fresh =
    rw (subscribe_rx-sent env port p d s alive open_now fresh) (recv_task-round later _)
