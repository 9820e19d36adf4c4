-- ===== src/Sdk/Delivery.antt =====
-- From the daemon's streaming task to the client's channel.
use commmon.Base.{
  ℕ, String, ◌≡◌, refl, ap, ◌∙◌, List, [], ◌∷◌, ◌++◌, map, length, append_assoc, append-nil,
  Option-cases, inl, inr, map-append,
}
use commmon.Base.Maps.{Map}
use commmon.Base.Text.{from_utf8_lossy, as_bytes}
use commmon.Json.{Value}
use commmon.Protocol.{Notification}
use commmon.Protocol.Wire.{notification_value}
use commmon.Channel.{RxEntry, Receiver, TryRecv}
use commmon.Env.{Env, by_stream, by_filter}
use commmon.Filter.{
  FilterState, context, filter_hit, keyword_hits, all_hits, filter_entry, filter_entries,
}
use commmon.Daemon.{StreamState}
use commmon.Daemon.Stream.{rx_data, poll_rx, poll_filter, poll_receivers, poll_filters, round}
use commmon.Daemon.Stream.Polling.{met, poll_rx_lem, poll_filter_lem}
use commmon.Sdk.{RxData, rx_data_of, on_line, recv_task}

-- An entry as the client sees it.
abbrev pub as_rx_data : Env → String → RxEntry → RxData
as_rx_data env port e = record {
  port = port;
  timestamp = e.timestamp;
  ascii = from_utf8_lossy e.bytes;
  hex = env.hex_encode e.bytes;
}

recv_task-rx_data :
    (env : Env) (port : String) (es : List RxEntry)
    → recv_task (map notification_value (map (rx_data env port) es)) ≡ map (as_rx_data env port) es
unfolding recv_task on_line rx_data_of notification_value rx_data
recv_task-rx_data env port [] = refl
recv_task-rx_data env port (e ∷ es) = rw (recv_task-rx_data env port es)

recv_task-poll_rx :
    (env : Env) (port : String) (results : List TryRecv)
    → recv_task (map notification_value (poll_rx env port results).sent)
      ≡ map (as_rx_data env port) (met results)
recv_task-poll_rx env port results =
    rw (poll_rx_lem env port results).0 (recv_task-rx_data env port (met results))

-- No hit of the filter is taken for received data, whatever follows it.
abbrev Ignored : List Notification → Type 0
Ignored ns =
    (rest : List Notification)
    → recv_task (map notification_value (ns ++ rest)) ≡ recv_task (map notification_value rest)

hits-Ignored :
    (port kw timestamp : String) (text_at : ℕ → String) (ats : List ℕ)
    → Ignored (map (λ at. filter_hit port kw timestamp (text_at at)) ats)
unfolding recv_task on_line rx_data_of notification_value
hits-Ignored port kw timestamp text_at [] rest = refl
hits-Ignored port kw timestamp text_at (at ∷ ats) rest =
    hits-Ignored port kw timestamp text_at ats rest

append-Ignored : (ms ns : List Notification) → Ignored ms → Ignored ns → Ignored (ms ++ ns)
append-Ignored ms ns h k rest = rw (append_assoc ms, h (ns ++ rest)) (k rest)

all_hits-Ignored :
    (port timestamp : String) (hay : List ℕ) (c : ℕ) (kws : List String)
    → Ignored (all_hits port timestamp hay c kws)
unfolding all_hits keyword_hits
all_hits-Ignored port timestamp hay c [] = λ rest. refl
all_hits-Ignored port timestamp hay c (kw ∷ kws) =
    append-Ignored (keyword_hits port timestamp hay c kw) (all_hits port timestamp hay c kws)
      (hits-Ignored port kw timestamp (context hay (as_bytes kw)) _)
      (all_hits-Ignored port timestamp hay c kws)

filter_entries-Ignored :
    (port : String) (st : FilterState) (es : List RxEntry) → Ignored (filter_entries port st es).0
unfolding filter_entries filter_entry
filter_entries-Ignored port st [] = λ rest. refl
filter_entries-Ignored port st (e ∷ es) =
    append-Ignored (filter_entry port st e).0 (filter_entries port (filter_entry port st e).1 es).0
      (all_hits-Ignored port e.timestamp (st.carry ++ e.bytes) (length st.carry) st.keywords)
      (filter_entries-Ignored port (filter_entry port st e).1 es)

poll_filters-Ignored : (env : Env) (m : Map FilterState) → Ignored (poll_filters env m).sent
unfolding poll_filters
poll_filters-Ignored env [] = λ rest. refl
poll_filters-Ignored env ((port, st) ∷ m) =
    append-Ignored (poll_filter port st (env.polled by_filter st.rx)).sent (poll_filters env m).sent
      (λ rest.
        rw (poll_filter_lem port st (env.polled by_filter st.rx)).0
          (filter_entries-Ignored port st (met (env.polled by_filter st.rx)) rest))
      (poll_filters-Ignored env m)

-- What the client should see of a round: the polled entries of each subscribed port.
abbrev pub delivered : Env → Map Receiver → List RxData
delivered env [] = []
delivered env ((port, rx) ∷ m) =
    map (as_rx_data env port) (met (env.polled by_stream rx)) ++ delivered env m

recv_task-append : (vs ws : List Value) → recv_task (vs ++ ws) ≡ recv_task vs ++ recv_task ws
unfolding recv_task
recv_task-append [] ws = refl
recv_task-append (v ∷ vs) ws = elim (Option-cases (on_line v)) [
  | inl e ↦ rw (e, recv_task) (recv_task-append vs ws)
  | inr (d, e) ↦ rw (e, recv_task, recv_task-append vs ws)
]

recv_task-poll_receivers :
    (env : Env) (m : Map Receiver)
    → recv_task (map notification_value (poll_receivers env m).sent) ≡ delivered env m
unfolding poll_receivers recv_task
recv_task-poll_receivers env [] = refl
recv_task-poll_receivers env ((port, rx) ∷ m) = rw (
  map-append notification_value (poll_rx env port (env.polled by_stream rx)).sent
      (poll_receivers env m).sent,
  recv_task-append (map notification_value (poll_rx env port (env.polled by_stream rx)).sent),
  recv_task-poll_rx env port (env.polled by_stream rx),
  recv_task-poll_receivers env m,
)

filters_none :
    (env : Env) (m : Map FilterState)
    → recv_task (map notification_value (poll_filters env m).sent) ≡ []
unfolding recv_task
filters_none env m = let none_seen = poll_filters-Ignored env m [] in rw append-nil at none_seen

-- What the client's channel gets from a round of its streaming task is, for each subscribed port,
-- the entries that were polled, each with the port, its time, its text and its bytes in
-- hexadecimal, in their order; a lag is passed over, and the filters' hits are not taken for data.
pub recv_task-round :
    (env : Env) (t : StreamState)
    → recv_task (map notification_value (round env t).sent) ≡ delivered env t.rx_receivers
unfolding round
recv_task-round env t =
    let rxs = poll_receivers env t.rx_receivers in
    rw
      (
        map-append notification_value rxs.sent (poll_filters env t.filter_states).sent,
        recv_task-append (map notification_value rxs.sent),
        recv_task-poll_receivers env t.rx_receivers,
      )
      (ap (λ ds. delivered env t.rx_receivers ++ ds) (filters_none env t.filter_states)
        ∙ append-nil _)
