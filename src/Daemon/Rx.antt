-- ===== src/Daemon/Rx.antt =====
-- commmon/src/daemon.rs, `dispatch`: the commands about the streaming task, "subscribe_rx",
-- "unsubscribe_rx", "filter_rx", "add_filter_rx" and "unfilter_rx", and "close_port".
pub mod Agreement
pub mod Merge
pub mod Untouched
pub mod Sent
pub mod Usable
pub mod Sound
pub mod Extend
use commmon.Base.{
  String, Bool, true, false, ◌||◌, Option, none, some, List, [], ◌∷◌, ◌++◌, ◌==◌, if◌then◌else◌,
}
use commmon.Base.Maps.{get, insert, remove, contains_key}
use commmon.Base.Text.{join, ◌<>◌}
use commmon.Json.{
  Value, Items, nil, cons, null, bool, number, other_number, string, array, object, get as get_arg,
  str_of,
}
use commmon.Protocol.{Response, success_msg, failure}
use commmon.Env.{Env, Result, ok, err}
use commmon.Serial.{port_needed, not_open, is_port_open}
use commmon.Serial
use commmon.Serial.Logs
use commmon.Daemon.{
  DaemonState, ClientSession, RxSubCommand, subscribe, unsubscribe, add_filter, remove_filter,
  set_filter_keywords, Handled,
}
use commmon.Daemon.Session.{on_port_closed}

abbrev pub reply : Response → DaemonState → ClientSession → Handled
reply r d s = record { response = r; daemon = d; session = s; sent = [] }

-- `rx_cmd_tx.send(cmd).await`, with the answer to give if it is taken and if it is not
abbrev pub send_or :
    Env → RxSubCommand → Response → Response → DaemonState → ClientSession → Handled
send_or env cmd taken refused d s =
    if env.stream_alive
    then record { response = taken; daemon = d; session = s; sent = cmd ∷ [] }
    else reply refused d s

abbrev pub not_delivered : Response
not_delivered = failure "스트리밍 태스크 전달 실패"

abbrev pub subscribe_failed : String → Response
subscribe_failed port = failure (port <> " 구독 실패")

subscribe_port : Env → String → DaemonState → ClientSession → Handled
subscribe_port env port d s =
    if is_port_open port d.serial
    then (if contains_key port s.rx_subscriptions
        then reply (failure (port <> "는 이미 구독 중입니다.")) d s
        else (elim (Serial.subscribe port d.serial) [
          | none ↦ reply (subscribe_failed port) d s
          | some rx ↦
              send_or env (subscribe port rx) (success_msg (port <> " 실시간 RX 구독 시작")) not_delivered
                d (record s { rx_subscriptions = insert port tt s.rx_subscriptions })
        ]))
    else reply (failure (not_open port)) d s

pub subscribe_rx : Env → Value → DaemonState → ClientSession → Handled
unfolding subscribe_port
subscribe_rx env args d s = elim (str_of "port" args) [
  | none ↦ reply (failure port_needed) d s
  | some port ↦ subscribe_port env port d s
]

unsubscribe_port : Env → String → DaemonState → ClientSession → Handled
unsubscribe_port env port d s =
    if contains_key port s.rx_subscriptions
    then (let done = success_msg (port <> " 실시간 RX 구독 해제") in
        send_or env (unsubscribe port) done done d
          (record s { rx_subscriptions = remove port s.rx_subscriptions }))
    else reply (failure (port <> "는 구독 중이 아닙니다.")) d s

pub unsubscribe_rx : Env → Value → DaemonState → ClientSession → Handled
unfolding unsubscribe_port
unsubscribe_rx env args d s = elim (str_of "port" args) [
  | none ↦ reply (failure port_needed) d s
  | some port ↦ unsubscribe_port env port d s
]

abbrev text_and : Value → List String → List String
text_and (string s) rest = if s == "" then rest else s ∷ rest
text_and _ rest = rest

-- `filter_map(as_str)`, then the texts that are not empty
abbrev pub texts : Items → List String
texts nil = []
texts (cons v vs) = text_and v (texts vs)

-- The `match args.get("keywords")`.
abbrev pub keywords_of : Option Value → Option (List String)
keywords_of (some (array vs)) = some (texts vs)
keywords_of (some (string s)) = if s == "" then none else some (s ∷ [])
keywords_of _ = none

abbrev pub keywords_needed : Response
keywords_needed = failure "keywords 파라미터(문자열 배열)가 필요합니다."

-- A new filter for an open port: `AddFilter` with a new receiver.
register_filter : Env → String → List String → String → DaemonState → ClientSession → Handled
register_filter env port keywords done d s = elim (Serial.subscribe port d.serial) [
  | none ↦ reply (subscribe_failed port) d s
  | some rx ↦
      send_or env (add_filter port keywords rx) (success_msg (port <> done <> join ", " keywords))
        not_delivered d
        (record s { filter_subscriptions = insert port keywords s.filter_subscriptions })
]

filter_port : Env → String → List String → DaemonState → ClientSession → Handled
unfolding register_filter
filter_port env port [] d s = reply (failure "등록할 키워드가 없습니다.") d s
filter_port env port (kw ∷ kws) d s =
    if is_port_open port d.serial
    then register_filter env port (kw ∷ kws) " 키워드 필터 등록: " d s
    else reply (failure (not_open port)) d s

pub filter_rx : Env → Value → DaemonState → ClientSession → Handled
unfolding filter_port
filter_rx env args d s = elim (str_of "port" args) [
  | none ↦ reply (failure port_needed) d s
  | some port ↦ elim (keywords_of (get_arg "keywords" args)) [
    | none ↦ reply keywords_needed d s
    | some keywords ↦ filter_port env port keywords d s
  ]
]

abbrev pub has : List String → String → Bool
has [] kw = false
has (k ∷ ks) kw = k == kw || has ks kw

-- `for kw in new_keywords`: each keyword that is not yet there is pushed to the end.
pub merge : List String → List String → List String
merge existing [] = existing
merge existing (kw ∷ kws) = merge (if has existing kw then existing else existing ++ kw ∷ []) kws

extend_filter : Env → String → List String → List String → DaemonState → ClientSession → Handled
extend_filter env port existing keywords d s =
    let merged = merge existing keywords in
    send_or env (set_filter_keywords port merged)
      (success_msg (port <> " 키워드 필터 추가 완료. 현재: " <> join ", " merged)) not_delivered d
      (record s { filter_subscriptions = insert port merged s.filter_subscriptions })

add_filter_port : Env → String → List String → DaemonState → ClientSession → Handled
unfolding register_filter extend_filter
add_filter_port env port [] d s = reply (failure "추가할 키워드가 없습니다.") d s
add_filter_port env port (kw ∷ kws) d s =
    if is_port_open port d.serial
    then (elim (get port s.filter_subscriptions) [
      | some existing ↦ extend_filter env port existing (kw ∷ kws) d s
      | none ↦ register_filter env port (kw ∷ kws) " 키워드 필터 신규 등록: " d s
    ])
    else reply (failure (not_open port)) d s

pub add_filter_rx : Env → Value → DaemonState → ClientSession → Handled
unfolding add_filter_port
add_filter_rx env args d s = elim (str_of "port" args) [
  | none ↦ reply (failure port_needed) d s
  | some port ↦ elim (keywords_of (get_arg "keywords" args)) [
    | none ↦ reply keywords_needed d s
    | some keywords ↦ add_filter_port env port keywords d s
  ]
]

unfilter_port : Env → String → DaemonState → ClientSession → Handled
unfilter_port env port d s =
    if contains_key port s.filter_subscriptions
    then (let done = success_msg (port <> " 키워드 필터 해제") in
        send_or env (remove_filter port) done done d
          (record s { filter_subscriptions = remove port s.filter_subscriptions }))
    else reply (failure (port <> "에 등록된 필터가 없습니다.")) d s

pub unfilter_rx : Env → Value → DaemonState → ClientSession → Handled
unfolding unfilter_port
unfilter_rx env args d s = elim (str_of "port" args) [
  | none ↦ reply (failure port_needed) d s
  | some port ↦ unfilter_port env port d s
]

-- The commands that follow a port that was closed.
abbrev pub closing_cmds : String → ClientSession → List RxSubCommand
closing_cmds port s =
    (if contains_key port s.rx_subscriptions then unsubscribe port ∷ [] else [])
    ++ (if contains_key port s.filter_subscriptions then remove_filter port ∷ [] else [])

-- What the "close_port" arm does when the serial manager has answered.
pub after_close : Env → Value → DaemonState → Response → ClientSession → Handled
after_close env args d r s =
    if r.ok
    then (elim (str_of "port" args) [
      | none ↦ reply r d s
      | some port ↦ record {
        response = r;
        daemon = d;
        session = on_port_closed port s;
        sent = if env.stream_alive then closing_cmds port s else [];
      }
    ])
    else reply r d s

pub close_port : Env → Value → DaemonState → ClientSession → Handled
unfolding after_close
close_port env args d s =
    let (r, serial) = Logs.close_port args d.serial in
    after_close env args (record d { serial = serial }) r s
