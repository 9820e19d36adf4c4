-- ===== src/Daemon/Client/Tests.antt =====
-- Runs with several clients.
use commmon.Base.{
  ℕ, ◌≡◌, ◌≢◌, refl, true, false, some, none, ◌||◌, ◌+◌, ◌*◌, List, [], ◌∷◌, ◌++◌, eqb,
  if◌then◌else◌, arith,
}
use commmon.Base.Maps.{is_some, get}
use commmon.Base.Text.{trim, as_bytes}
use commmon.Json.{Value, string, json, array_of}
use commmon.Channel.{RxEntry, closed}
use commmon.Filter.{FilterState, filter_entries}
use commmon.Filter.Window.{occurrences}
use commmon.Filter.Exact.{reports, copies, stream}
use commmon.Daemon.Rx.{merge, add_filter_rx}
use commmon.Daemon.Rx.Extend.{add_filter_rx-unbroken}
use commmon.Serial.{is_port_open}
use commmon.Env.{Env, cancel, await}
use commmon.Protocol.{failure}
use commmon.Protocol.Wire.{response_value}
use commmon.Env.Sample.{env, one_port}
use commmon.Serial.Invariant.{LogsOpen}
use commmon.Daemon.{initial, DaemonState, ClientSession, StreamState}
use commmon.Daemon.Stream.{apply_cmds, round}
use commmon.Daemon.Stream.Idle.{waiting_rx, waiting_filters, round-got_data}
use commmon.Daemon.Client.{
  Event, connect, line, poll, disconnect, handle_line, start, run, step, written,
}
use commmon.Serial.Tidy.{Tidy}
use commmon.Daemon.Dispatch.{clean_up, dispatch}
use commmon.Monitor.Server
use commmon.Daemon.Client.Tidy.{CleanedUp, run-Tidy, clean_up-CleanedUp}
use commmon.Daemon.Client.Invariant.{Coherent}
use commmon.Daemon.Client.Agreement.{run-Coherent}
use commmon.Daemon.Client.Closing.{Follows, run-Follows, run-usable_in}
use commmon.Daemon.Rx.Usable.{usable_in}
use commmon.Daemon.Rx.Agreement.{keywords_in}
use commmon.Daemon.Client.Refused.{step-refused}

-- Every channel has ended.
abbrev env_closed : Env
env_closed = record env { polled = λ who rx. closed ∷ [] }

-- The first client filters a port that the second one closes and opens again.
abbrev reopened : List Event
reopened =
    connect 1
    ∷ line 1 env "open"
    ∷ line 1 env "filter"
    ∷ line 2 env "close"
    ∷ poll 1 env_closed
    ∷ line 2 env "open"
    ∷ disconnect 2
    ∷ []

run-Follows_example :
    LogsOpen (run start reopened).daemon.serial
    × ((i : ℕ) → Follows ((run start reopened).clients i))
run-Follows_example = run-Follows reopened (tt, (refl, (refl, (refl, (tt, (refl, (tt, tt)))))))

abbrev filtering : StreamState
filtering = record { rx_receivers = ("COM3", record { channel = 1 }) ∷ []; filter_states = [] }

round-got_data_example :
    (round env filtering).got_data
    ≡ (waiting_rx env filtering.rx_receivers || waiting_filters env filtering.filter_states)
round-got_data_example = round-got_data env filtering

abbrev one_port_daemon : DaemonState
one_port_daemon = record { serial = one_port; monitor = none }

abbrev filtering_session : ClientSession
filtering_session = record {
  receivers = [];
  buffers = [];
  rx_subscriptions = [];
  filter_subscriptions = ("COM3", "OK" ∷ []) ∷ [];
}

abbrev ok_filter : FilterState
ok_filter = record { rx = record { channel = 1 }; keywords = "OK" ∷ []; carry = [] }

-- An "O" comes before the request, and its "K" after it.
abbrev first_entries : List RxEntry
first_entries = record { timestamp = "t"; bytes = as_bytes "boot O" } ∷ []

abbrev later_entries : List RxEntry
later_entries = record { timestamp = "u"; bytes = as_bytes "K OK" } ∷ []

abbrev more_args : Value
more_args =
    json (("port", string "COM3") ∷ ("keywords", array_of (string "FAIL" ∷ string "OK" ∷ [])) ∷ [])

abbrev ok_task : StreamState
ok_task = record {
  rx_receivers = [];
  filter_states = ("COM3", (filter_entries "COM3" ok_filter first_entries).1) ∷ [];
}

ok_bytes : as_bytes "OK" ≢ []
unfolding as_bytes
ok_bytes = λ e. cc

add_filter_rx-unbroken_example :
    (next : FilterState) × ((add_filter_rx env more_args one_port_daemon
        filtering_session).response.ok
      ≡ true)
    × (get "COM3"
          (apply_cmds ok_task
            (add_filter_rx env more_args one_port_daemon filtering_session).sent).filter_states
        ≡ some next)
    × (next.keywords ≡ merge ok_filter.keywords ("FAIL" ∷ "OK" ∷ []))
    × (reports "OK" (filter_entries "COM3" ok_filter first_entries).0
          + reports "OK" (filter_entries "COM3" next later_entries).0
        ≡ copies "OK" ok_filter.keywords
          * occurrences (as_bytes "OK") (stream first_entries ++ stream later_entries))
unfolding get is_port_open
add_filter_rx-unbroken_example =
    add_filter_rx-unbroken env more_args one_port_daemon filtering_session ok_task "COM3" "OK"
      "FAIL" ("OK" ∷ []) ok_filter first_entries later_entries refl refl refl refl refl refl refl
      ok_bytes (omega arith)

both_found : occurrences (as_bytes "OK") (stream first_entries ++ stream later_entries) ≡ 2
unfolding as_bytes
both_found = refl

step-refused_example :
    ((j : ℕ)
      → written start (line 1 env "nonsense") j
        ≡ (if eqb 1 j then response_value (failure "JSON 파싱 오류: expected value") ∷ [] else []))
    × ((failure "JSON 파싱 오류: expected value").ok ≡ false)
    × ((step start (line 1 env "nonsense")).daemon ≡ start.daemon)
    × ((j : ℕ) → (step start (line 1 env "nonsense")).clients j ≡ start.clients j)
unfolding trim
step-refused_example =
    step-refused start 1 env "nonsense" (failure "JSON 파싱 오류: expected value") refl refl

-- A log and a monitor that are left to the daemon's end.
abbrev logging : List Event
logging =
    connect 1 ∷ line 1 env "open" ∷ line 1 env "log" ∷ line 1 env "monitor" ∷ disconnect 1 ∷ []

monitored : is_some (run start logging).daemon.monitor ≡ true
unfolding run step handle_line trim dispatch initial Server.start
monitored = refl

run-Tidy_example : Tidy (run start logging).daemon.serial
run-Tidy_example = run-Tidy logging

clean_up-CleanedUp_example :
    CleanedUp env (run start logging).daemon (clean_up env (run start logging).daemon)
clean_up-CleanedUp_example = clean_up-CleanedUp logging env

-- A browser holds the event stream of the monitor open: the daemon does not end.
abbrev env_watched : Env
env_watched = record env { ends = λ task. false }

left_open :
    clean_up env_watched (record {
      serial = one_port;
      monitor = some (record { cancel = 20; task = 21; http_port = 8765 });
    })
    ≡ record {
      daemon = record {
        serial = record one_port { calls = cancel 20 ∷ await 21 ∷ [] };
        monitor = none;
      };
      exited = false;
    }
unfolding clean_up
left_open = refl

run-usable_in_example :
    usable_in (keywords_in (get "COM3" ((run start reopened).clients 1).stream.filter_states))
    ≡ true
run-usable_in_example =
    run-usable_in reopened 1 "COM3" (tt, (refl, (refl, (refl, (tt, (refl, (tt, tt)))))))

-- The channel that the second client's task polls ends, the first client's goes on.
abbrev other_ends : List Event
other_ends =
    connect 1
    ∷ connect 2
    ∷ line 1 env "open"
    ∷ line 1 env "sub"
    ∷ line 2 env "filter"
    ∷ line 1 env "filter"
    ∷ poll 1 env
    ∷ poll 2 env_closed
    ∷ line 1 env "more"
    ∷ line 2 env "nonsense"
    ∷ disconnect 2
    ∷ []

run-Coherent_example :
    LogsOpen (run start other_ends).daemon.serial × Coherent ((run start other_ends).clients 1)
run-Coherent_example =
    run-Coherent other_ends 1
      (tt, (tt, (refl, (refl, (refl, (refl, (tt, (tt, (refl, (refl, (tt, tt)))))))))))
      (tt, (tt, (tt, (tt, (tt, (tt, ((λ e who rx. refl), ((λ e. cc), (tt, (tt, (tt, tt)))))))))))
