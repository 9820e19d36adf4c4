-- ===== src/Serial/Tasks.antt =====
-- commmon/src/serial.rs: the tasks that run beside the handlers: the reader of a port, the log task
-- and the duration timer. What wakes a task comes as a list, in the order of its coming.
pub mod Logged
pub mod Ending
mod Tests
use commmon.Base.{
  ℕ, String, Bool, true, false, Option, none, some, List, [], ◌∷◌, ◌++◌, if◌then◌else◌,
}
use commmon.Base.Text.{from_utf8_lossy, contains, ◌<>◌}
use commmon.Json.{json, string}
use commmon.Protocol.{Notification}
use commmon.Channel.{RxEntry}
use commmon.Env.{Result, ok, err, Call, cancel}

-- `reader.read(&mut buf).await`, with the time at which it came back.
pub data Read : Type 0 where
  chunk : (timestamp : String) → List ℕ → Read
  failed : String → Read

-- The entries that the reader of a port sends: one for each read, until one of no bytes or a
-- failure.
pub read_task : List Read → List RxEntry
read_task [] = []
read_task (chunk t [] ∷ reads) = []
read_task (chunk t (b ∷ bs) ∷ reads) = record { timestamp = t; bytes = b ∷ bs } ∷ read_task reads
read_task (failed e ∷ reads) = []

-- What the `select!` of the log task meets; an entry comes with the keyword then in force.
pub data Wake : Type 0 where
  cancelled : Wake
  received : RxEntry → Option String → Wake
  lagged : ℕ → Wake
  closed : Wake

pub record LogRun : Type 0 where
  pub lines : List String
  pub notified : List Notification
  pub ended : Bool

pub log_line : RxEntry → String
log_line e = "[" <> e.timestamp <> "] " <> from_utf8_lossy e.bytes <> "\n"

-- Whether the keyword stands in the entry's text.
pub hit : RxEntry → Option String → Bool
hit e none = false
hit e (some kw) = contains (from_utf8_lossy e.bytes) kw

abbrev pub keyword_stop : (port file : String) → Option String → List Notification
keyword_stop port file none = []
keyword_stop port file (some kw) =
    record {
      notify = "log_stopped";
      payload = json (
          ("port", string port)
          ∷ ("reason", string "keyword")
          ∷ ("keyword", string kw)
          ∷ ("file", string file)
          ∷ []);
    }
    ∷ []

abbrev stopped : LogRun
stopped = record { lines = []; notified = []; ended = true }

abbrev add_line : String → LogRun → LogRun
add_line l r = record r { lines = l ∷ r.lines }

-- The loop of `log_task`; where the list ends the task still waits.
pub log_loop : (port file : String) → List Wake → LogRun
log_loop port file [] = record { lines = []; notified = []; ended = false }
log_loop port file (cancelled ∷ wakes) = stopped
log_loop port file (closed ∷ wakes) = stopped
log_loop port file (lagged n ∷ wakes) = log_loop port file wakes
log_loop port file (received e kw ∷ wakes) =
    let rest = log_loop port file wakes in
    if hit e kw
    then record { lines = log_line e ∷ []; notified = keyword_stop port file kw; ended = true }
    else add_line (log_line e) rest

-- A file that cannot be created ends the task before it reads anything.
pub log_task : (port file : String) → Result (Unit {0}) → List Wake → LogRun
log_task port file (err e) wakes = stopped
log_task port file (ok _) wakes = log_loop port file wakes

-- When the seconds are over.
unfoldable pub timer_fires : (port file : String) → (token : ℕ) → Call × Notification
timer_fires port file token = (
  cancel token,
  record {
    notify = "log_stopped";
    payload =
        json (("port", string port) ∷ ("reason", string "duration") ∷ ("file", string file) ∷ []);
  },
)
