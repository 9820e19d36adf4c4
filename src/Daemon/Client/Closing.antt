-- ===== src/Daemon/Client/Closing.antt =====
-- Runs in which channels end, because a port is closed by another client or its device is gone: the
-- streaming task drops the port, and its session is not told.
use commmon.Base.{
  Bool, true, false, none, ℕ, String, ◌≡◌, refl, sym, ◌∙◌, true, Option, some, List, [], ◌∷◌, eqb,
}
use commmon.Base.Branches.{on_if}
use commmon.Base.Maps.{get, contains_key, is_some}
use commmon.Base.Text.{trim, is_empty, ◌<>◌}
use commmon.Env.{Env, on_result}
use commmon.Serial.Invariant.{LogsOpen}
use commmon.Daemon.{StreamState, Handled}
use commmon.Daemon.Session.Keeps.{BuffersValid}
use commmon.Daemon.Session
use commmon.Daemon.Stream.{idle, apply_cmds}
use commmon.Daemon.Stream.Below.{Below, apply_cmds-Below, round-Below}
use commmon.Daemon.Rx.Agreement.{Agrees, keywords_in}
use commmon.Daemon.Rx.Sound
use commmon.Daemon.Rx.Usable.{Usable, usable_in}
use commmon.Daemon.Dispatch.Keywords.{dispatch-Leaves}
use commmon.Daemon.Dispatch.Valid.{dispatch-Sound}
use commmon.Daemon.Client.{
  Connection, World, start, with_client, Event, connect, line, poll, notice, disconnect,
  handle_line, after_line, step, run,
}
use commmon.Daemon.Client.Invariant.{new-Agrees, new-BuffersValid, new-Usable, initial-LogsOpen}

-- The session agrees with a streaming task whose channels never end, and the real task has about
-- each port what that one has, or nothing.
pub record Behind (c : Connection) : Type 0 where
  pub ghost : StreamState
  pub agrees : Agrees c.session ghost
  pub below : (j : String) → Below j c.stream ghost
  pub buffers : BuffersValid c.session
  pub keywords : Usable c.session

pub record AllBehind (w : World) : Type 0 where
  pub logs_open : LogsOpen w.daemon.serial
  pub clients : (i : ℕ) → Behind (w.clients i)

-- The streaming task is there when its client's line is answered.
abbrev pub IsAlive : Event → Type 0
IsAlive (line i env text) = env.stream_alive ≡ true
IsAlive _ = Unit

abbrev pub AllAlive : List Event → Type 0
AllAlive [] = Unit
AllAlive (e ∷ es) = IsAlive e × AllAlive es

with_client-Behind :
    (i : ℕ) (c : Connection) (clients : ℕ → Connection)
    → Behind c
    → ((j : ℕ) → Behind (clients j))
    → (j : ℕ) → Behind (with_client i c clients j)
with_client-Behind i c clients k h j = on_if Behind (eqb i j) _ _ (λ _. k) (λ _. h j)

new-Behind : (b : Bool) → Behind (record { is_open = b; session = Session.new; stream = idle })
new-Behind b = record {
  ghost = idle;
  agrees = new-Agrees;
  below = λ j. record { receivers = λ e. e; filters = λ _. refl };
  buffers = new-BuffersValid;
  keywords = new-Usable;
}

answered-Behind :
    (w : World) (i : ℕ) (r : Handled)
    → (v : AllBehind w) → Sound.Sound w.daemon (w.clients i).session (v.clients i).ghost r
    → Usable r.session
    → AllBehind (after_line w i (some r))
unfolding after_line
answered-Behind w i r v k u = record {
  logs_open = k.logs_open;
  clients =
      with_client-Behind i _ w.clients
        (record {
          ghost = apply_cmds (v.clients i).ghost r.sent;
          agrees = k.agrees;
          below = λ j. apply_cmds-Below j r.sent _ _ ((v.clients i).below j);
          buffers = k.buffers;
          keywords = u;
        })
        v.clients;
}

line-Behind :
    (w : World) (i : ℕ) (env : Env) (text : String)
    → AllBehind w
    → env.stream_alive ≡ true
    → AllBehind (after_line w i (handle_line env text w.daemon (w.clients i).session))
unfolding handle_line after_line
line-Behind w i env text v alive =
    let c = w.clients i in
    let k = v.clients i in
    let P = λ (r : Option Handled). AllBehind (after_line w i r) in
    on_if P (is_empty (trim text)) _ _ (λ _. v)
      (λ _.
        on_result P (env.parse_request (trim text)) _ _
          (λ req _.
            answered-Behind w i _ v
              (dispatch-Sound env req w.daemon c.session k.ghost alive k.agrees k.buffers
                v.logs_open)
              (dispatch-Leaves env req w.daemon c.session k.keywords k.buffers).left)
          (λ e _.
            answered-Behind w i _ v
              (Sound.refused env alive w.daemon c.session k.ghost k.agrees k.buffers v.logs_open
                ("JSON 파싱 오류: " <> e))
              k.keywords))

pub step-Behind : (w : World) (e : Event) → AllBehind w → IsAlive e → AllBehind (step w e)
unfolding step
step-Behind w (connect i) v h = record {
  logs_open = v.logs_open;
  clients = with_client-Behind i _ w.clients (new-Behind true) v.clients;
}
step-Behind w (line i env text) v h = line-Behind w i env text v h
step-Behind w (poll i env) v h = record {
  logs_open = v.logs_open;
  clients =
      with_client-Behind i _ w.clients
        (record {
          ghost = (v.clients i).ghost;
          agrees = (v.clients i).agrees;
          below = λ j. round-Below env j _ _ ((v.clients i).below j);
          buffers = (v.clients i).buffers;
          keywords = (v.clients i).keywords;
        })
        v.clients;
}
step-Behind w (notice n) v h = v
step-Behind w (disconnect i) v h = record {
  logs_open = v.logs_open;
  clients = with_client-Behind i _ w.clients (new-Behind false) v.clients;
}

pub start-Behind : AllBehind start
start-Behind = record { logs_open = initial-LogsOpen; clients = λ i. new-Behind false }

run_from-Behind : (w : World) (es : List Event) → AllBehind w → AllAlive es → AllBehind (run w es)
unfolding run
run_from-Behind w [] v h = v
run_from-Behind w (e ∷ es) v (k, ks) = run_from-Behind (step w e) es (step-Behind w e v k) ks

-- What a connection still has when channels may have ended.
pub record Follows (c : Connection) : Type 0 where
  pub receives :
      (j : String)
      → contains_key j c.stream.rx_receivers ≡ true
      → contains_key j c.session.rx_subscriptions ≡ true
  pub filters :
      (j : String)
      → is_some (keywords_in (get j c.stream.filter_states)) ≡ true
      → keywords_in (get j c.stream.filter_states) ≡ get j c.session.filter_subscriptions
  pub buffers : BuffersValid c.session
  pub keywords : Usable c.session

Behind-Follows : (c : Connection) → Behind c → Follows c
Behind-Follows c b = record {
  receives = λ j e. (b.agrees j).subscribed ∙ (b.below j).receivers e;
  filters = λ j e. (b.below j).filters e ∙ sym (b.agrees j).filtered;
  buffers = b.buffers;
  keywords = b.keywords;
}

-- Whatever the clients send and whichever channels end, from the start of the daemon on, in
-- whatever order of lines, connections, disconnections and rounds: as long as the streaming task of
-- a client is there when a line of it is answered, each log belongs to an open port, and of each
-- connection, the streaming task receives a port only if its session has the subscription, and
-- filters a port only for the keywords that its session has; the session has a buffer exactly for
-- the ports that it has a receiver for, with at most 200 entries, and no filter without a keyword
-- or with an empty one.
pub run-Follows :
    (es : List Event)
    → AllAlive es
    → LogsOpen (run start es).daemon.serial × ((i : ℕ) → Follows ((run start es).clients i))
run-Follows es h =
    let v = run_from-Behind start es start-Behind h in
    (v.logs_open, λ i. Behind-Follows _ (v.clients i))

keywords_usable :
    (o k : Option (List String))
    → (is_some o ≡ true → o ≡ k)
    → usable_in k ≡ true
    → usable_in o ≡ true
keywords_usable none k same h = refl
keywords_usable (some kws) k same h = rw (← same refl) at h

-- Whatever the clients send and whichever channels end, as long as the streaming task of a client
-- is there when a line of it is answered, no streaming task ever filters for an empty keyword, or
-- for none: of any port and connection, the keywords of the task's filter are at least one and none
-- of them is empty.
pub run-usable_in :
    (es : List Event) (i : ℕ) (port : String)
    → AllAlive es
    → usable_in (keywords_in (get port ((run start es).clients i).stream.filter_states)) ≡ true
run-usable_in es i port h =
    let c = (run-Follows es h).1 i in keywords_usable _ _ (c.filters port) (c.keywords.all port)
