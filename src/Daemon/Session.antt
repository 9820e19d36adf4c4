-- ===== src/Daemon/Session.antt =====
-- commmon/src/daemon.rs: `ClientSession`, the receive buffers of one client.
pub mod Buffer
pub mod Keeps
use commmon.Base.{
  ℕ, String, Bool, Option, none, some, List, [], ◌∷◌, ◌++◌, map, length, ltb, if◌then◌else◌,
}
use commmon.Base.Maps.{get, insert, remove, contains_key}
use commmon.Base.Text.{from_utf8_lossy, ◌<>◌}
use commmon.Json.{Value, string, json, array_of}
use commmon.Protocol.{Response, success, failure}
use commmon.Channel.{RxEntry, TryRecv, entry}
use commmon.Env.{Env, by_session}
use commmon.Serial.{SerialManager, subscribe, unwrap_or}
use commmon.Daemon.{ClientSession}

abbrev pub max_buffer_entries : ℕ
max_buffer_entries = 200

unfoldable pub new : ClientSession
new = record { receivers = []; buffers = []; rx_subscriptions = []; filter_subscriptions = [] }

abbrev pop_front : List RxEntry → List RxEntry
pop_front [] = []
pop_front (e ∷ es) = es

-- One round of the loop: the entry is put in, and the oldest one leaves a buffer that is too long.
pub push_entry : List RxEntry → RxEntry → List RxEntry
push_entry buffer e =
    let longer = buffer ++ e ∷ [] in
    if ltb max_buffer_entries (length longer) then pop_front longer else longer

-- `while let Ok(entry) = rx.try_recv()`
pub drain : List RxEntry → List TryRecv → List RxEntry
drain buffer [] = buffer
drain buffer (entry e ∷ results) = drain (push_entry buffer e) results
drain buffer (_ ∷ results) = buffer

unfoldable pub drain_receiver : Env → String → ClientSession → ClientSession
drain_receiver env port s = elim (get port s.receivers) [
  | none ↦ s
  | some rx ↦
      let buffer = drain (unwrap_or [] (get port s.buffers)) (env.polled by_session rx) in
      record s { buffers = insert port buffer s.buffers }
]

unfoldable pub ensure_subscribed : String → SerialManager → ClientSession → ClientSession
ensure_subscribed port serial s =
    if contains_key port s.receivers then s else (elim (subscribe port serial) [
      | none ↦ s
      | some rx ↦ record s {
        receivers = insert port rx s.receivers;
        buffers = insert port [] s.buffers;
      }
    ])

unfoldable pub entry_value : RxEntry → Value
entry_value e =
    json (("timestamp", string e.timestamp) ∷ ("data", string (from_utf8_lossy e.bytes)) ∷ [])

unfoldable pub answer_buffer : String → Bool → ClientSession → Response × ClientSession
unfolding entry_value
answer_buffer port clear s = elim (get port s.buffers) [
  | none ↦ (failure (port <> "의 수신 버퍼가 없습니다."), s)
  | some buffer ↦ (
    success (array_of (map entry_value buffer)),
    (if clear then record s { buffers = insert port [] s.buffers } else s),
  )
]

unfoldable pub read_port : Env → String → Bool → ClientSession → Response × ClientSession
unfolding answer_buffer
read_port env port clear s = answer_buffer port clear (drain_receiver env port s)

unfoldable pub on_port_closed : String → ClientSession → ClientSession
on_port_closed port s = record {
  receivers = remove port s.receivers;
  buffers = remove port s.buffers;
  rx_subscriptions = remove port s.rx_subscriptions;
  filter_subscriptions = remove port s.filter_subscriptions;
}
