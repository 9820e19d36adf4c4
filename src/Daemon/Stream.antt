-- ===== src/Daemon/Stream.antt =====
-- commmon/src/daemon.rs: the streaming task of a connection: `apply_cmd!` and one round of its
-- loop. What it sends stands in the order of sending; a write that fails ends the task at that
-- point.
pub mod Polling
pub mod Below
pub mod Idle
use commmon.Base.{String, Bool, true, false, ◌||◌, none, some, List, [], ◌∷◌, ◌++◌}
use commmon.Base.Maps.{Map, get, insert, remove}
use commmon.Base.Text.{from_utf8_lossy}
use commmon.Json.{json, string}
use commmon.Protocol.{Notification}
use commmon.Channel.{RxEntry, Receiver, TryRecv, entry, lagged, nothing, closed}
use commmon.Env.{Env, by_stream, by_filter}
use commmon.Filter.{FilterState, filter_entry}
use commmon.Daemon.{
  RxSubCommand, subscribe, unsubscribe, add_filter, remove_filter, set_filter_keywords, StreamState,
}

abbrev pub idle : StreamState
idle = record { rx_receivers = []; filter_states = [] }

unfoldable pub set_keywords : String → List String → Map FilterState → Map FilterState
set_keywords port keywords states = elim (get port states) [
  | none ↦ states
  | some st ↦ insert port (record st { keywords = keywords }) states
]

unfoldable pub apply_cmd : StreamState → RxSubCommand → StreamState
unfolding set_keywords
apply_cmd t (subscribe port rx) = record t { rx_receivers = insert port rx t.rx_receivers }
apply_cmd t (unsubscribe port) = record t { rx_receivers = remove port t.rx_receivers }
apply_cmd t (add_filter port keywords rx) = record t {
  filter_states = insert port (record { rx = rx; keywords = keywords; carry = [] }) t.filter_states;
}
apply_cmd t (remove_filter port) = record t { filter_states = remove port t.filter_states }
apply_cmd t (set_filter_keywords port keywords) = record t {
  filter_states = set_keywords port keywords t.filter_states;
}

-- `while let Ok(cmd) = rx_cmd_rx.try_recv()`
unfoldable pub apply_cmds : StreamState → List RxSubCommand → StreamState
apply_cmds t [] = t
apply_cmds t (cmd ∷ cmds) = apply_cmds (apply_cmd t cmd) cmds

unfoldable pub rx_data : Env → String → RxEntry → Notification
rx_data env port e = record {
  notify = "rx_data";
  payload = json (
      ("port", string port)
      ∷ ("timestamp", string e.timestamp)
      ∷ ("ascii", string (from_utf8_lossy e.bytes))
      ∷ ("hex", string (env.hex_encode e.bytes))
      ∷ []);
}

-- What polling one receiver came to.
pub record Polled (S : Type 0) : Type 0 where
  pub sent : List Notification
  pub state : S
  pub got_data : Bool
  pub is_closed : Bool

abbrev pub quiet : {S : Type 0} → S → Bool → Polled S
quiet s c = record { sent = []; state = s; got_data = false; is_closed = c }

abbrev pub also : {S : Type 0} → List Notification → Polled S → Polled S
also ns p = record p { sent = ns ++ p.sent; got_data = true }

-- The polling loop of a subscribed port.
unfoldable pub poll_rx : Env → String → List TryRecv → Polled Unit
poll_rx env port [] = quiet tt false
poll_rx env port (entry e ∷ results) = also (rx_data env port e ∷ []) (poll_rx env port results)
poll_rx env port (lagged n ∷ results) = poll_rx env port results
poll_rx env port (nothing ∷ results) = quiet tt false
poll_rx env port (closed ∷ results) = quiet tt true

-- The polling loop of a filtered port.
unfoldable pub poll_filter : String → FilterState → List TryRecv → Polled FilterState
poll_filter port st [] = quiet st false
poll_filter port st (entry e ∷ results) =
    let (ns, st') = filter_entry port st e in also ns (poll_filter port st' results)
poll_filter port st (lagged n ∷ results) = poll_filter port st results
poll_filter port st (nothing ∷ results) = quiet st false
poll_filter port st (closed ∷ results) = quiet st true

-- A port whose channel is closed leaves the map.
unfoldable pub keep_open : {S : Type 0} → Bool → String → S → Map S → Map S
keep_open true port s rest = remove port rest
keep_open false port s rest = (port, s) ∷ rest

-- The first `for` loop, and the removal of the ports that were found closed.
unfoldable pub poll_receivers : Env → Map Receiver → Polled (Map Receiver)
poll_receivers env [] = quiet [] false
poll_receivers env ((port, rx) ∷ more) =
    let p = poll_rx env port (env.polled by_stream rx) in
    let rest = poll_receivers env more in
    record {
      sent = p.sent ++ rest.sent;
      state = keep_open p.is_closed port rx rest.state;
      got_data = p.got_data || rest.got_data;
      is_closed = false;
    }

-- The second one, over the filters.
unfoldable pub poll_filters : Env → Map FilterState → Polled (Map FilterState)
poll_filters env [] = quiet [] false
poll_filters env ((port, st) ∷ more) =
    let p = poll_filter port st (env.polled by_filter st.rx) in
    let rest = poll_filters env more in
    record {
      sent = p.sent ++ rest.sent;
      state = keep_open p.is_closed port p.state rest.state;
      got_data = p.got_data || rest.got_data;
      is_closed = false;
    }

-- A round of the task, once the commands are applied. With nothing to poll it waits for a command;
-- it sleeps 10 ms if `got_data` is false.
unfoldable pub round : Env → StreamState → Polled StreamState
round env t =
    let rxs = poll_receivers env t.rx_receivers in
    let filters = poll_filters env t.filter_states in
    record {
      sent = rxs.sent ++ filters.sent;
      state = record { rx_receivers = rxs.state; filter_states = filters.state };
      got_data = rxs.got_data || filters.got_data;
      is_closed = false;
    }
