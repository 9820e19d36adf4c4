-- ===== src/Daemon/Client/Agreement.antt =====
-- A session and its streaming task, as long as no channel that this task polls has ended.
use commmon.Base.{ℕ, String, ◌≡◌, sym, ◌∙◌, true, Option, List, [], ◌∷◌, eqb, arith}
use commmon.Base.Branches.{on_if}
use commmon.Base.Text.{trim, is_empty, ◌<>◌}
use commmon.Env.{Env, on_result}
use commmon.Serial.Invariant.{LogsOpen}
use commmon.Daemon.{ClientSession, StreamState, Handled}
use commmon.Daemon.Stream.{round}
use commmon.Daemon.Stream.Polling.{AllOpen, poll_receivers-state, poll_filters-keywords}
use commmon.Daemon.Rx.Agreement.{Agrees}
use commmon.Daemon.Rx.Sound
use commmon.Daemon.Dispatch.Valid.{dispatch-Sound}
use commmon.Daemon.Client.{
  Connection, World, connected, unconnected, start, with_client, Event, connect, line, poll, notice,
  disconnect, handle_line, after_line, step, run,
}
use commmon.Daemon.Client.Invariant.{Coherent, new-Agrees}
use commmon.Daemon.Client.Closing.{AllBehind, AllAlive, step-Behind, start-Behind}

-- No channel has ended that the streaming task of client `i` polls.
abbrev pub IsUndisturbed : ℕ → Event → Type 0
IsUndisturbed i (poll j env) = eqb j i ≡ true → AllOpen env
IsUndisturbed i _ = Unit

abbrev pub AllUndisturbed : ℕ → List Event → Type 0
AllUndisturbed i [] = Unit
AllUndisturbed i (e ∷ es) = IsUndisturbed i e × AllUndisturbed i es

abbrev InStep : Connection → Type 0
InStep c = Agrees c.session c.stream

round-Agrees :
    (env : Env) (s : ClientSession) (t : StreamState)
    → AllOpen env
    → Agrees s t
    → Agrees s (round env t).state
unfolding round
round-Agrees env s t h a j = record {
  subscribed = rw (poll_receivers-state env t.rx_receivers h) (a j).subscribed;
  filtered = (a j).filtered ∙ sym (poll_filters-keywords env j t.filter_states h);
}

-- A new connection of client `j` leaves that of `i` in step, if `j` is not `i` or the new one is.
with_client-Agrees :
    (j i : ℕ) (c : Connection) (clients : ℕ → Connection)
    → (j ≡ i → InStep c)
    → InStep (clients i)
    → InStep (with_client j c clients i)
with_client-Agrees j i c clients k h = on_if InStep (eqb j i) _ _ (λ e. k (ground arith)) (λ _. h)

line-Agrees :
    (w : World) (j i : ℕ) (env : Env) (text : String)
    → AllBehind w
    → InStep (w.clients i)
    → env.stream_alive ≡ true
    → InStep ((after_line w j (handle_line env text w.daemon (w.clients j).session)).clients i)
unfolding handle_line after_line
line-Agrees w j i env text v a alive =
    let k = v.clients j in
    let P = λ (r : Option Handled). InStep ((after_line w j r).clients i) in
    let mine : j ≡ i → InStep (w.clients j) = λ e. rw e a in
    on_if P (is_empty (trim text)) _ _ (λ _. a)
      (λ _.
        on_result P (env.parse_request (trim text)) _ _
          (λ req _.
            with_client-Agrees j i _ w.clients
              (λ e.
                (dispatch-Sound env req w.daemon (w.clients j).session (w.clients j).stream alive
                  (mine e) k.buffers v.logs_open).agrees)
              a)
          (λ e _.
            with_client-Agrees j i _ w.clients
              (λ q.
                (Sound.refused env alive w.daemon (w.clients j).session (w.clients j).stream
                  (mine q) k.buffers v.logs_open ("JSON 파싱 오류: " <> e)).agrees)
              a))

step-Agrees :
    (w : World) (i : ℕ) (e : Event)
    → AllBehind w
    → InStep (w.clients i)
    → AllAlive (e ∷ [])
    → IsUndisturbed i e
    → InStep ((step w e).clients i)
unfolding step
step-Agrees w i (connect j) v a h u = with_client-Agrees j i connected w.clients (λ _. new-Agrees) a
step-Agrees w i (line j env text) v a (h, _) u = line-Agrees w j i env text v a h
step-Agrees w i (poll j env) v a h u =
    with_client-Agrees j i _ w.clients (λ e. round-Agrees env _ _ (u (ground arith)) (rw e a)) a
step-Agrees w i (notice n) v a h u = a
step-Agrees w i (disconnect j) v a h u =
    with_client-Agrees j i unconnected w.clients (λ _. new-Agrees) a

run_from-Coherent :
    (w : World) (i : ℕ) (es : List Event)
    → AllBehind w
    → InStep (w.clients i)
    → AllAlive es
    → AllUndisturbed i es
    → LogsOpen (run w es).daemon.serial × Coherent ((run w es).clients i)
unfolding run
run_from-Coherent w i [] v a h u = (
  v.logs_open,
  record { agrees = a; buffers = (v.clients i).buffers; keywords = (v.clients i).keywords },
)
run_from-Coherent w i (e ∷ es) v a (h, hs) (u, us) =
    run_from-Coherent (step w e) i es (step-Behind w e v h) (step-Agrees w i e v a (h, tt) u) hs us

-- From the start of the daemon on, whatever the clients send, in whatever order of lines,
-- connections, disconnections, notifications and rounds: as long as the streaming task of a client
-- is there when a line of it is answered, and as long as no channel has ended in any round of
-- client `i`'s own streaming task, each log belongs to an open port, and of client `i`: the session
-- says the same as the streaming task of the subscriptions and of the filters' keywords, it has a
-- buffer exactly for the ports that it has a receiver for, with at most 200 entries, and the
-- keywords of each of its filters are at least one and none of them is empty. Channels may have
-- ended in the rounds of other clients' tasks.
pub run-Coherent :
    (es : List Event) (i : ℕ)
    → AllAlive es
    → AllUndisturbed i es
    → LogsOpen (run start es).daemon.serial × Coherent ((run start es).clients i)
run-Coherent es i h u = run_from-Coherent start i es start-Behind new-Agrees h u
