-- ===== src/Sdk/Tests.antt =====
-- Runs of the Rust client.
use commmon.Base.Maps.{get, insert}
use commmon.Base.{◌≡◌, refl, none, [], ◌∷◌, map, some}
use commmon.Protocol.Wire.{notification_value}
use commmon.Env.Sample.{env, one_port}
use commmon.Channel.{subscribe_to}
use commmon.Serial.{OpenPort}
use commmon.Daemon.{DaemonState, StreamState}
use commmon.Daemon.Session
use commmon.Daemon.Dispatch.{dispatch}
use commmon.Daemon.Stream.{idle, apply_cmds, round}
use commmon.Sdk.{recv_task, subscribe, unsubscribe}
use commmon.Env.{ok, err}
use commmon.Repl.Print.{out_line}
use commmon.Sdk.Example.{received, ctrl_c, failed, main, watch, watching, finish}
use commmon.Sdk.Subscription.{dispatch-subscribe}
use commmon.Sdk.Delivery.{delivered, recv_task-round}

abbrev both : StreamState
both = record {
  rx_receivers = ("COM3", record { channel = 1 }) ∷ [];
  filter_states =
      ("COM3", record { rx = record { channel = 1 }; keywords = "OK" ∷ []; carry = [] }) ∷ [];
}

recv_task-round_example :
    recv_task (map notification_value (round env both).sent) ≡ delivered env both.rx_receivers
recv_task-round_example = recv_task-round env both

abbrev one_port_daemon : DaemonState
one_port_daemon = record { serial = one_port; monitor = none }

abbrev com3 : OpenPort
com3 = record {
  tx = record { channel = 1 };
  writer = 2;
  read_task = 3;
  baud_rate = 9600;
  data_bits = 8;
  parity = "N";
  stop_bits = 1;
}

dispatch-subscribe_example :
    recv_task (
      map notification_value
        (round env (
          apply_cmds idle (dispatch env (subscribe "COM3") one_port_daemon Session.new).sent)).sent)
    ≡ delivered env (insert "COM3" (subscribe_to com3.tx) idle.rx_receivers)
unfolding get Session.new
dispatch-subscribe_example =
    dispatch-subscribe env env "COM3" com3 one_port_daemon Session.new idle refl refl refl

-- The example prints an entry and is interrupted; and it cannot subscribe.
interrupted :
    main (ok tt) (ok tt) (ok tt) (
      received (record { port = "COM14"; timestamp = "t"; ascii = "boot"; hex = "626f6f74" })
      ∷ ctrl_c
      ∷ failed "late"
      ∷ [])
    ≡ record {
      requests = subscribe "COM14" ∷ unsubscribe "COM14" ∷ [];
      printed =
          out_line "데몬 접속 완료"
          ∷ out_line "COM14 구독 시작. Ctrl+C로 종료합니다."
          ∷ out_line "[t] [COM14] boot"
          ∷ out_line "\n종료 중..."
          ∷ out_line "종료"
          ∷ [];
      result = some (ok tt);
    }
unfolding main watch watching finish
interrupted = refl

not_subscribed : main (ok tt) (err "broken pipe") (ok tt) [] ≡ record {
  requests = subscribe "COM14" ∷ [];
  printed = out_line "데몬 접속 완료" ∷ [];
  result = some (err "broken pipe");
}
unfolding main
not_subscribed = refl
