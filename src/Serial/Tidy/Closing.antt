-- ===== src/Serial/Tidy/Closing.antt =====
-- `close_all` stops every task.
use commmon.Base.{
  ℕ, String, ◌≡◌, refl, true, false, Option, none, some, List, [], ◌∷◌, ◌++◌, arith, append_assoc,
}
use commmon.Base.Maps.{Map, get}
use commmon.Env.{Call}
use commmon.Serial.{OpenPort, LogState, SerialManager}
use commmon.Serial.Logs.{stop_calls, abort_timer, stop_all_logs, abort_all_reads, close_all}
use commmon.Serial.Tidy.{
  Tidy, Carries, step-Tidy, all_settled, all_settled-append, cancels, cancels-append, aborts,
  aborts-append, has_token, has_timer, is_handle,
}

cancels-abort_timer : (t : ℕ) (o : Option ℕ) → cancels t (abort_timer o) ≡ false
cancels-abort_timer t none = refl
cancels-abort_timer t (some u) = refl

aborts_timer : (t : ℕ) (o : Option ℕ) → aborts t (abort_timer o) ≡ is_handle t o
aborts_timer t none = refl
aborts_timer t (some u) = ground arith

-- What stops the tasks of all the logs.
cancels-stop_all_logs :
    (t : ℕ) (port : String) (logs : Map LogState)
    → has_token t (get port logs) ≡ true
    → cancels t (stop_all_logs logs) ≡ true
unfolding get
cancels-stop_all_logs t port [] h = cc
cancels-stop_all_logs t port ((name, log) ∷ logs) h = ground (
  arith,
  cancels-append t (stop_calls log) (stop_all_logs logs),
  cancels-stop_all_logs t port logs,
  h,
)

aborts-stop_all_logs :
    (t : ℕ) (port : String) (logs : Map LogState)
    → has_timer t (get port logs) ≡ true
    → aborts t (stop_all_logs logs) ≡ true
unfolding get
aborts-stop_all_logs t port [] h = cc
aborts-stop_all_logs t port ((name, log) ∷ logs) h = ground (
  arith,
  aborts-append t (stop_calls log) (stop_all_logs logs),
  aborts_timer t log.duration_task,
  aborts-stop_all_logs t port logs,
  h,
)

aborts-abort_all_reads :
    (port : String) (ports : Map OpenPort) (p : OpenPort)
    → get port ports ≡ some p
    → aborts p.read_task (abort_all_reads ports) ≡ true
unfolding get
aborts-abort_all_reads port [] p h = cc
aborts-abort_all_reads port ((name, q) ∷ ports) p h =
    ground (arith, aborts-abort_all_reads port ports p, h)

timer_settled :
    (logs : Map LogState) (calls : List Call) (o : Option ℕ)
    → all_settled logs calls (abort_timer o) ≡ true
timer_settled logs calls none = refl
timer_settled logs calls (some t) = refl

stops_settled :
    (logs : Map LogState) (calls : List Call) (old : Map LogState)
    → all_settled logs calls (stop_all_logs old) ≡ true
stops_settled logs calls [] = refl
stops_settled logs calls ((name, log) ∷ old) = ground (
  arith,
  all_settled-append logs calls (stop_calls log) (stop_all_logs old),
  timer_settled logs calls log.duration_task,
  stops_settled logs calls old,
)

reads_settled :
    (logs : Map LogState) (calls : List Call) (ports : Map OpenPort)
    → all_settled logs calls (abort_all_reads ports) ≡ true
reads_settled logs calls [] = refl
reads_settled logs calls ((name, p) ∷ ports) = reads_settled logs calls ports

-- What is asked of the runtime when everything is closed.
abbrev pub closing_calls : SerialManager → List Call
closing_calls m = stop_all_logs m.logs ++ abort_all_reads m.ports

close_all-Carries : (m : SerialManager) (port : String) → Carries m.logs [] (closing_calls m) port
close_all-Carries m port = record {
  token = λ t k. ground (
    arith,
    cancels-append t (stop_all_logs m.logs) (abort_all_reads m.ports),
    cancels-stop_all_logs t port m.logs k,
  );
  timer = λ t k. ground (
    arith,
    aborts-append t (stop_all_logs m.logs) (abort_all_reads m.ports),
    aborts-stop_all_logs t port m.logs k,
  );
}

pub close_all-Tidy : (m : SerialManager) → Tidy m → Tidy (close_all m)
unfolding close_all
close_all-Tidy m h =
    let calls = (m.calls ++ stop_all_logs m.logs) ++ abort_all_reads m.ports in
    step-Tidy m _ (closing_calls m) (append_assoc m.calls _ _) (close_all-Carries m)
      (ground (
        arith,
        all_settled-append [] calls (stop_all_logs m.logs) (abort_all_reads m.ports),
        stops_settled [] calls m.logs,
        reads_settled [] calls m.ports,
      ))
      h

pub aborts-close_all :
    (m : SerialManager) (port : String) (p : OpenPort)
    → get port m.ports ≡ some p
    → aborts p.read_task (close_all m).calls ≡ true
unfolding close_all
aborts-close_all m port p e = ground (
  arith,
  aborts-append p.read_task (m.calls ++ stop_all_logs m.logs) (abort_all_reads m.ports),
  aborts-abort_all_reads port m.ports p e,
)
