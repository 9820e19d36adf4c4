-- ===== src/Daemon/Client/Tidy.antt =====
-- No task of a log is forgotten, in any run and at the daemon's end.
use commmon.Base.{
  ◌++◌, false, arith, ℕ, String, ◌≡◌, refl, Bool, true, Option, none, some, List, [], ◌∷◌,
  Option-cases, inl, inr,
}
use commmon.Base.Branches.{on_if}
use commmon.Base.Maps.{get}
use commmon.Base.Text.{trim, is_empty}
use commmon.Env.{Env, Call, all_return, on_result}
use commmon.Serial
use commmon.Serial.{OpenPort, SerialManager, issue}
use commmon.Serial.Tidy.{Tidy, step-Tidy, same-Carries, aborts, cancels, cancels-append}
use commmon.Serial.Tidy.Closing.{close_all-Tidy, aborts-close_all}
use commmon.Serial.Logs.{close_all, stop_all_logs, abort_all_reads}
use commmon.Monitor.Server
use commmon.Monitor.Server.{MonitorHandle}
use commmon.Daemon.{DaemonState, Handled, initial}
use commmon.Daemon.Dispatch.{CleanUp, clean_up}
use commmon.Daemon.Dispatch.Tidy.{dispatch-Tidy}
use commmon.Daemon.Client.{
  World, start, Event, connect, line, poll, notice, disconnect, handle_line, after_line, step, run,
}

line-Tidy :
    (w : World) (i : ℕ) (env : Env) (text : String)
    → Tidy w.daemon.serial
    → Tidy (after_line w i (handle_line env text w.daemon (w.clients i).session)).daemon.serial
unfolding handle_line after_line
line-Tidy w i env text h =
    let P = λ (r : Option Handled). Tidy (after_line w i r).daemon.serial in
    on_if P (is_empty (trim text)) _ _ (λ _. h)
      (λ _.
        on_result P (env.parse_request (trim text)) _ _
          (λ req _. dispatch-Tidy env req w.daemon (w.clients i).session h) (λ e _. h))

step-Leaves : (w : World) (e : Event) → Tidy w.daemon.serial → Tidy (step w e).daemon.serial
unfolding step
step-Leaves w (connect i) h = h
step-Leaves w (line i env text) h = line-Tidy w i env text h
step-Leaves w (poll i env) h = h
step-Leaves w (notice n) h = h
step-Leaves w (disconnect i) h = h

run_from-Tidy : (w : World) (es : List Event) → Tidy w.daemon.serial → Tidy (run w es).daemon.serial
unfolding run
run_from-Tidy w [] h = h
run_from-Tidy w (e ∷ es) h = run_from-Tidy (step w e) es (step-Leaves w e h)

initial-Tidy : Tidy initial.serial
unfolding initial Serial.new
initial-Tidy = record { all = refl }

-- Whatever the clients send, from the start of the daemon on and in whatever order: each log task
-- that was started is the one that the manager has registered for its port, or its token has been
-- cancelled; and each timer that was started is registered with the log of its port, or has been
-- aborted.
pub run-Tidy : (es : List Event) → Tidy (run start es).daemon.serial
run-Tidy es = run_from-Tidy start es initial-Tidy

-- Whether the reader of a port has been aborted, if there is one.
abbrev pub reader_stopped : Option OpenPort → List Call → Bool
reader_stopped none calls = true
reader_stopped (some p) calls = aborts p.read_task calls

-- Whether the server of the monitor has been cancelled, if there is one.
abbrev pub server_stopped : Option MonitorHandle → List Call → Bool
server_stopped none calls = true
server_stopped (some h) calls = cancels h.cancel calls

-- Whether the end of the monitor's server comes, if there is one.
abbrev pub server_ends : Env → Option MonitorHandle → Bool
server_ends env none = true
server_ends env (some h) = env.ends h.task

pub record NothingLeft (d d' : DaemonState) : Type 0 where
  pub no_logs : d'.serial.logs ≡ []
  pub no_ports : d'.serial.ports ≡ []
  pub readers : (port : String) → reader_stopped (get port d.serial.ports) d'.serial.calls ≡ true

pub record AllLeft (d d' : DaemonState) : Type 0 where
  pub logs : d'.serial.logs ≡ d.serial.logs
  pub ports : d'.serial.ports ≡ d.serial.ports

-- The ports and the logs, if the process ends and if it does not.
abbrev pub Rest : Bool → DaemonState → DaemonState → Type 0
Rest true d d' = NothingLeft d d'
Rest false d d' = AllLeft d d'

-- What the clean-up makes of `d`.
pub record CleanedUp (env : Env) (d : DaemonState) (r : CleanUp) : Type 0 where
  pub exits : r.exited ≡ server_ends env d.monitor
  pub server : server_stopped d.monitor r.daemon.serial.calls ≡ true
  pub tidy : Tidy r.daemon.serial
  pub rest : Rest r.exited d r.daemon

issue-stop-Tidy : (h : MonitorHandle) (m : SerialManager) → Tidy m → Tidy (issue (Server.stop h) m)
issue-stop-Tidy h m k = step-Tidy m _ (Server.stop h) refl (same-Carries m.logs _) refl k

cancels-issue-stop :
    (h : MonitorHandle) (m : SerialManager)
    → cancels h.cancel (issue (Server.stop h) m).calls ≡ true
cancels-issue-stop h m = ground (arith, cancels-append h.cancel m.calls (Server.stop h))

-- What `m` has asked for is still asked for when everything is closed.
cancels-close_all :
    (t : ℕ) (m : SerialManager) → cancels t m.calls ≡ true → cancels t (close_all m).calls ≡ true
unfolding close_all
cancels-close_all t m k = ground (
  arith,
  cancels-append t (m.calls ++ stop_all_logs m.logs) (abort_all_reads m.ports),
  cancels-append t m.calls (stop_all_logs m.logs),
  k,
)

close_all-NothingLeft :
    (d : DaemonState) (m : SerialManager)
    → m.ports ≡ d.serial.ports
    → NothingLeft d (record { serial = close_all m; monitor = none })
unfolding close_all
close_all-NothingLeft d m same = record {
  no_logs = refl;
  no_ports = refl;
  readers = λ port. elim (Option-cases (get port d.serial.ports)) [
    | inl e ↦ rw e refl
    | inr (p, e) ↦ rw e (aborts-close_all m port p (rw same e))
  ];
}

clean_up_lem :
    (env : Env) (m : SerialManager) (o : Option MonitorHandle)
    → Tidy m
    → CleanedUp env
        (record { serial = m; monitor = o })
        (clean_up env (record { serial = m; monitor = o }))
unfolding clean_up
clean_up_lem env m none k = record {
  exits = refl;
  server = refl;
  tidy = close_all-Tidy m k;
  rest = close_all-NothingLeft (record { serial = m; monitor = none }) m refl;
}
clean_up_lem env m (some h) k =
    let d : DaemonState = record { serial = m; monitor = some h } in
    let n = issue (Server.stop h) m in
    let tidy = issue-stop-Tidy h m k in
    let stopped = cancels-issue-stop h m in
    on_if (CleanedUp env d) (all_return env (Server.stop h)) _ _
      (λ f. record {
        exits = ground arith;
        server = cancels-close_all h.cancel n stopped;
        tidy = close_all-Tidy n tidy;
        rest = close_all-NothingLeft d n refl;
      })
      (λ f. record {
        exits = ground arith;
        server = stopped;
        tidy = tidy;
        rest = record { logs = refl; ports = refl };
      })

-- After any run, the clean-up at SIGINT, with a monitor or without: the monitor's server is
-- cancelled, and the process ends exactly if there is no monitor or the end of its server comes. If
-- it ends, no port and no log is left, each log task and each timer that was ever started has been
-- cancelled or aborted, and so has the reader of each port that was open. If it does not end, the
-- ports and the logs stay as they were.
pub clean_up-CleanedUp :
    (es : List Event) (env : Env)
    → CleanedUp env (run start es).daemon (clean_up env (run start es).daemon)
clean_up-CleanedUp es env =
    let d = (run start es).daemon in clean_up_lem env d.serial d.monitor (run-Tidy es)
