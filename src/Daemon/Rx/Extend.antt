-- ===== src/Daemon/Rx/Extend.antt =====
-- `add_filter_rx` for a port that is filtered already: the filter goes on where it was.
use commmon.Base.{
  ◌+◌, ◌*◌, ◌<◌, String, ◌≡◌, ◌≢◌, refl, sym, true, some, List, [], ◌∷◌, ◌++◌, arith, eq_refl,
  Bool-cases, inl, inr,
}
use commmon.Base.Maps.{get, map_laws}
use commmon.Base.Text.{as_bytes}
use commmon.Json.{Value, str_of, get as get_arg}
use commmon.Channel.{RxEntry}
use commmon.Env.{Env}
use commmon.Serial.{is_port_open}
use commmon.Filter.{FilterState, filter_entries}
use commmon.Filter.Window.{occurrences}
use commmon.Filter.Exact.{reports, copies, stream}
use commmon.Filter.Update.{filter_entries-replaced}
use commmon.Daemon.{DaemonState, ClientSession, StreamState}
use commmon.Daemon.Stream.{apply_cmd, apply_cmds, set_keywords}
use commmon.Daemon.Rx.{add_filter_rx, keywords_of, merge, has}
use commmon.Daemon.Rx.Merge.{copies-merge, copies_none}

has_copies : (key : String) (kws : List String) → 0 < copies key kws → has kws key ≡ true
has_copies key kws h = elim (Bool-cases (has kws key)) [
  | inl e ↦ e
  | inr e ↦ let none_there = copies_none key kws e in absurd (omega arith)
]

copies-merge_kept :
    (key : String) (old new : List String)
    → 0 < copies key old
    → copies key (merge old new) ≡ copies key old
copies-merge_kept key old new h =
    let all = copies-merge key old new in rw (has_copies key old h) at all

get-set_keywords :
    (port : String) (kws : List String) (t : StreamState) (st : FilterState)
    → get port t.filter_states ≡ some st
    → get port (set_keywords port kws t.filter_states) ≡ some (record st { keywords = kws })
unfolding set_keywords
get-set_keywords port kws t st e = rw (e, set_keywords) (simp (map_laws, eq_refl))

-- A port is open and filtered, with an empty carry at first, and entries have come; the session has
-- the filter's keywords, and the streaming task is there. Then `add_filter_rx` is asked for at
-- least one keyword, the streaming task takes what the handler sends, and more entries come. The
-- answer is a success, and the task filters on for the merged keywords; and a keyword of before
-- that is not empty is reported, in all, as often as its bytes stand in the bytes of all the
-- entries put together, those matches included that begin before the request and end after it,
-- times the number of its copies.
pub add_filter_rx-unbroken :
    (env : Env) (args : Value) (d : DaemonState) (s : ClientSession) (t : StreamState)
    (port key kw : String) (kws : List String) (st : FilterState) (before after : List RxEntry)
    → env.stream_alive ≡ true
    → str_of "port" args ≡ some port
    → keywords_of (get_arg "keywords" args) ≡ some (kw ∷ kws)
    → is_port_open port d.serial ≡ true
    → get port s.filter_subscriptions ≡ some st.keywords
    → get port t.filter_states ≡ some (filter_entries port st before).1
    → st.carry ≡ []
    → as_bytes key ≢ []
    → 0 < copies key st.keywords
    → (next : FilterState) × ((add_filter_rx env args d s).response.ok ≡ true)
      × (get port (apply_cmds t (add_filter_rx env args d s).sent).filter_states ≡ some next)
      × (next.keywords ≡ merge st.keywords (kw ∷ kws))
      × (reports key (filter_entries port st before).0
            + reports key (filter_entries port next after).0
          ≡ copies key st.keywords * occurrences (as_bytes key) (stream before ++ stream after))
unfolding add_filter_rx apply_cmds apply_cmd
add_filter_rx-unbroken env args d s t port key kw kws st before after alive named keywords opened
      mine running start ne here =
    let merged = merge st.keywords (kw ∷ kws) in
    let kept = copies-merge_kept key st.keywords (kw ∷ kws) here in
    (
      record (filter_entries port st before).1 { keywords = merged },
      rw (named, keywords, opened, mine, alive, add_filter_rx) refl,
      rw (named, keywords, opened, mine, alive, add_filter_rx, apply_cmds, apply_cmd)
          (get-set_keywords port merged t _ running),
      refl,
      rw (← kept) (
          filter_entries-replaced key port st merged before after ne start (rw kept here)
            (sym kept)),
    )
