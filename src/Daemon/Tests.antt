-- ===== src/Daemon/Tests.antt =====
-- Runs of the handlers and of the streaming task.
use commmon.Base.{
  ◌≡◌, refl, true, false, List, [], ◌∷◌, ◌++◌, map, take_last, arith, if◌then◌else◌, some, none,
}
use commmon.Base.Maps.{get}
use commmon.Base.Text.{as_bytes}
use commmon.Channel.{TryRecv, entry, lagged, closed}
use commmon.Protocol.{Request}
use commmon.Env.Sample.{env, one_port, port_args, keyword_args}
use commmon.Filter.{FilterState, filter_entries}
use commmon.Daemon.{initial}
use commmon.Daemon.Session
use commmon.Daemon.Session.{drain, max_buffer_entries, read_port, ensure_subscribed}
use commmon.Daemon.Session.Buffer.{delivered, drain-take_last}
use commmon.Daemon.Session.Keeps.{Answers, read_subscribed-Answers}
use commmon.Daemon.Stream.{idle, poll_rx, poll_filter, rx_data}
use commmon.Daemon.Stream.Polling.{met, ends_closed, poll_rx_lem, poll_filter_lem}
use commmon.Daemon.Rx.Sound
use commmon.Filter.Exact.{copies}
use commmon.Daemon.Rx.{has, merge}
use commmon.Daemon.Rx.Merge.{copies-merge}
use commmon.Serial.Logs.{close_all}
use commmon.Env.{abort, await, cancel}
use commmon.Daemon.Dispatch.{clean_up, dispatch}
use commmon.Daemon.Dispatch.Effects.{Refines, promised, dispatch-Refines}
use commmon.Serial.Effects.{is_text}
use commmon.Json.{str_of}
use commmon.Daemon.Dispatch.Valid.{dispatch-Sound}
use commmon.Daemon.Client.Invariant.{new-Agrees, new-BuffersValid, initial-LogsOpen}

abbrev filter_request : Request
filter_request = record { cmd = "filter_rx"; args = keyword_args }

dispatch-Sound_example :
    Sound.Sound initial Session.new idle (dispatch env filter_request initial Session.new)
dispatch-Sound_example =
    dispatch-Sound env filter_request initial Session.new idle refl new-Agrees new-BuffersValid
      initial-LogsOpen

abbrev results : List TryRecv
results =
    entry (record { timestamp = "t"; bytes = as_bytes "a O" })
    ∷ lagged 2
    ∷ entry (record { timestamp = "u"; bytes = as_bytes "K" })
    ∷ closed
    ∷ []

drain-take_last_example : drain [] results ≡ take_last max_buffer_entries ([] ++ delivered results)
drain-take_last_example = drain-take_last [] results (omega arith)

poll_rx_lem_example :
    ((poll_rx env "COM3" results).sent ≡ map (rx_data env "COM3") (met results))
    × ((poll_rx env "COM3" results).is_closed ≡ ends_closed results)
poll_rx_lem_example = poll_rx_lem env "COM3" results

abbrev ok_filter : FilterState
ok_filter = record { rx = record { channel = 1 }; keywords = "OK" ∷ []; carry = [] }

poll_filter_lem_example :
    ((poll_filter "COM3" ok_filter results).sent
      ≡ (filter_entries "COM3" ok_filter (met results)).0)
    × ((poll_filter "COM3" ok_filter results).state
        ≡ (filter_entries "COM3" ok_filter (met results)).1)
    × ((poll_filter "COM3" ok_filter results).is_closed ≡ ends_closed results)
poll_filter_lem_example = poll_filter_lem "COM3" ok_filter results

read_subscribed-Answers_example :
    Answers Session.new (read_port env "COM3" false (ensure_subscribed "COM3" one_port Session.new))
unfolding get
read_subscribed-Answers_example =
    read_subscribed-Answers env "COM3" false one_port Session.new new-BuffersValid refl

copies-merge_example : copies "OK" (merge ("OK" ∷ "FAIL" ∷ []) ("OK" ∷ "done" ∷ "done" ∷ [])) ≡ (
    if has ("OK" ∷ "FAIL" ∷ []) "OK"
    then copies "OK" ("OK" ∷ "FAIL" ∷ [])
    else if has ("OK" ∷ "done" ∷ "done" ∷ []) "OK"
    then 1
    else 0)
copies-merge_example = copies-merge "OK" ("OK" ∷ "FAIL" ∷ []) ("OK" ∷ "done" ∷ "done" ∷ [])

abbrev open_request : Request
open_request = record { cmd = "open_port"; args = port_args "COM3" }

dispatch-Refines_example :
    Refines
      (promised "open_port")
      "COM3"
      (is_text "COM3" (str_of "port" (port_args "COM3")))
      initial
      (dispatch env open_request initial Session.new)
dispatch-Refines_example =
    dispatch-Refines env open_request initial Session.new "COM3" initial-LogsOpen

-- SIGINT with a monitor and an open port.
cleaned :
    clean_up env (record {
      serial = one_port;
      monitor = some (record { cancel = 20; task = 21; http_port = 8765 });
    })
    ≡ record {
      daemon = record {
        serial = record { ports = []; logs = []; calls = cancel 20 ∷ await 21 ∷ abort 3 ∷ [] };
        monitor = none;
      };
      exited = true;
    }
unfolding clean_up close_all
cleaned = refl
