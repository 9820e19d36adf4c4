-- ===== src/Daemon/Client/Refused.antt =====
-- Lines that the daemon cannot make anything of.
use commmon.Base.{
  if◌then◌else◌, ℕ, String, ◌≡◌, refl, ap, false, Option, none, some, [], ◌∷◌, arith, eqb, inl, inr,
  Bool-cases,
}
use commmon.Base.Text.{trim, is_empty, ◌<>◌}
use commmon.Protocol.{Request, Response, failure}
use commmon.Protocol.Wire.{response_value}
use commmon.Env.{Env, Result, ok, err}
use commmon.Daemon.{DaemonState, ClientSession}
use commmon.Daemon.Stream.{apply_cmds}
use commmon.Daemon.Rx.{reply}
use commmon.Daemon.Dispatch.{
  dispatch, handle, command_of, Command, unknown, list_ports, open_port, close_port, subscribe_rx,
  unsubscribe_rx, filter_rx, add_filter_rx, unfilter_rx, write_port, read_port, port_status,
  start_log, update_log, stop_log, open_monitor, close_monitor,
}
use commmon.Json.{Value}
use commmon.Daemon.Client.{
  Connection, World, with_client, line, handle_line, after_line, step, written,
}

-- The answer to a command that has no arm.
abbrev pub refusal_of : Command → Option Response
refusal_of (unknown cmd) = some (failure ("알 수 없는 명령: " <> cmd))
refusal_of _ = none

-- The answer to what is no request, or one whose command has no arm.
abbrev pub refusal : Result Request → Option Response
refusal (err e) = some (failure ("JSON 파싱 오류: " <> e))
refusal (ok req) = refusal_of (command_of req.cmd)

-- A connection that is put back is where it was.
with_client-same :
    (i j : ℕ) (clients : ℕ → Connection) → with_client i (clients i) clients j ≡ clients j
with_client-same i j clients = elim (Bool-cases (eqb i j)) [
  | inl e ↦ let same : i ≡ j = ground arith in rw (e, same) refl
  | inr e ↦ rw e refl
]

module _ (env : Env) (d : DaemonState) (s : ClientSession) (r : Response) where
  handle-refused :
      (c : Command) (args : Value)
      → refusal_of c ≡ some r
      → (handle env c args d s ≡ reply r d s) × (r.ok ≡ false)
  unfolding handle
  handle-refused list_ports args e = cc
  handle-refused open_port args e = cc
  handle-refused close_port args e = cc
  handle-refused subscribe_rx args e = cc
  handle-refused unsubscribe_rx args e = cc
  handle-refused filter_rx args e = cc
  handle-refused add_filter_rx args e = cc
  handle-refused unfilter_rx args e = cc
  handle-refused write_port args e = cc
  handle-refused read_port args e = cc
  handle-refused port_status args e = cc
  handle-refused start_log args e = cc
  handle-refused update_log args e = cc
  handle-refused stop_log args e = cc
  handle-refused open_monitor args e = cc
  handle-refused close_monitor args e = cc
  handle-refused (unknown cmd) args e = (cc, cc)

  handle_line-refused :
      (text : String)
      → is_empty (trim text) ≡ false
      → refusal (env.parse_request (trim text)) ≡ some r
      → (handle_line env text d s ≡ some (reply r d s)) × (r.ok ≡ false)
  unfolding handle_line dispatch
  handle_line-refused text h e = rw (h, handle_line) (parsed (env.parse_request (trim text)) e)
    where
      parsed :
          (res : Result Request)
          → refusal res ≡ some r
          → ((elim res [
            | ok req ↦ some (dispatch env req d s)
            | err e ↦ some (reply (failure ("JSON 파싱 오류: " <> e)) d s)
          ])
              ≡ some (reply r d s))
            × (r.ok ≡ false)
      parsed (ok req) e =
          let (a, b) = handle-refused (command_of req.cmd) req.args e in (ap some a, b)
      parsed (err e) f = (cc, cc)

-- A line that is not blank and is no request, or is one whose command the daemon does not know: it
-- is answered with one error, and the daemon, every session and every streaming task are as they
-- were.
pub step-refused :
    (w : World) (i : ℕ) (env : Env) (text : String) (r : Response)
    → is_empty (trim text) ≡ false
    → refusal (env.parse_request (trim text)) ≡ some r
    → ((j : ℕ) → written w (line i env text) j ≡ (if eqb i j then response_value r ∷ [] else []))
      × (r.ok ≡ false)
      × ((step w (line i env text)).daemon ≡ w.daemon)
      × ((j : ℕ) → (step w (line i env text)).clients j ≡ w.clients j)
unfolding written step after_line apply_cmds
step-refused w i env text r h e =
    let (a, b) = handle_line-refused env w.daemon (w.clients i).session r text h e in
    rw a (λ j. refl, b, refl, λ j. with_client-same i j w.clients)
