-- ===== src/Monitor/Server.antt =====
-- commmon/src/monitor.rs: `start` and `MonitorHandle`, and the routes of the server. The page
-- itself is an argument.
use commmon.Base.{ℕ, String, Option, none, some, List, [], ◌∷◌, ◌==◌, if◌then◌else◌}
use commmon.Base.Text.{decimal, ◌<>◌}
use commmon.Env.{Env, Result, ok, err, Call, cancel as cancel_call, await}

pub record MonitorHandle : Type 0 where
  pub cancel : ℕ
  pub task : ℕ
  pub http_port : ℕ

-- `format!("127.0.0.1:{}", http_port)`
abbrev address : ℕ → String
address port = "127.0.0.1:" <> decimal port

-- The listener is bound first; then the server is spawned, with a token that stops it.
unfoldable pub start : Env → ℕ → Result MonitorHandle
start env http_port = elim (env.bind_http (address http_port)) [
  | ok _ ↦ ok (record { cancel = env.new_token; task = env.new_server; http_port = http_port })
  | err e ↦ err e
]

-- `stop`: the end of the server's task is awaited. A graceful shutdown waits for the open
-- connections, so that it need not come while an event stream is open.
abbrev pub stop : MonitorHandle → List Call
stop h = cancel_call h.cancel ∷ await h.task ∷ []

-- What a path is answered with.
pub data Answer : Type 0 where
  html : String → Answer
  event_stream : Answer

unfoldable pub route : (page : String) → String → Option Answer
route page path =
    if path == "/" then some (html page) else if path == "/events" then some event_stream else none
