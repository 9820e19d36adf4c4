-- ===== src/Conversation.antt =====
-- The daemon's connection and the command line client together: which of the lines that the daemon
-- writes are taken for answers.
mod Tests
use commmon.Base.{
  ℕ, ◌+◌, String, Bool, true, false, not, ◌&&◌, ◌≡◌, refl, ap, ◌∙◌, Option, none, some, List, [],
  ◌∷◌, ◌++◌, map, length, keep_if, arith, eqb, if◌then◌else◌, Bool-cases, inl, inr,
}
use commmon.Base.Branches.{on_if}
use commmon.Base.Text.{trim, is_empty, ◌<>◌}
use commmon.Json.{Value}
use commmon.Protocol.{Response, Notification, failure}
use commmon.Protocol.Wire.{response_value, notification_value}
use commmon.Env.{Env, on_result}
use commmon.Daemon.{Handled}
use commmon.Daemon.Stream.{round}
use commmon.Daemon.Rx.{reply}
use commmon.Daemon.Dispatch.{dispatch}
use commmon.Daemon.Client.{
  World, start, Event, connect, line, poll, notice, disconnect, handle_line, step, answer_line,
  written, output,
}
use commmon.Repl.{is_notification}
use commmon.Repl.Known.{is_notification_lem}

-- The lines that the client hands on as answers.
abbrev pub answers : List Value → List Value
answers = keep_if (λ v. not (is_notification v))

-- Whether an event is a request of the client `i`: a line that is not blank.
abbrev is_request_of : ℕ → Event → Bool
is_request_of i (line j env text) = eqb j i && not (is_empty (trim text))
is_request_of i _ = false

-- How many requests the client `i` makes.
abbrev pub requests_of : List Event → ℕ → ℕ
requests_of [] i = 0
requests_of (e ∷ es) i = (if is_request_of i e then 1 else 0) + requests_of es i

length-answers-append :
    (xs ys : List Value) → length (answers (xs ++ ys)) ≡ length (answers xs) + length (answers ys)
length-answers-append [] ys = omega arith
length-answers-append (x ∷ xs) ys = ground (arith, length-answers-append xs ys)

answers-notifications : (ns : List Notification) → answers (map notification_value ns) ≡ []
answers-notifications [] = refl
answers-notifications (n ∷ ns) =
    rw ((is_notification_lem (failure "") n).1, answers-notifications ns)

answers-response : (r : Response) → length (answers (response_value r ∷ [])) ≡ 1
answers-response r = rw (is_notification_lem r (record { notify = ""; payload = Value.null })).0

record OneAnswer (o : Option Handled) : Type 0 where
  count : length (answers (answer_line o)) ≡ 1

length-answers-handle_line :
    (w : World) (i : ℕ) (env : Env) (text : String)
    → length (answers (answer_line (handle_line env text w.daemon (w.clients i).session)))
      ≡ (if not (is_empty (trim text)) then 1 else 0)
unfolding handle_line
length-answers-handle_line w i env text = elim (Bool-cases (is_empty (trim text))) [
  | inl e ↦ rw e
  | inr e ↦
      rw e
        (on_result OneAnswer (env.parse_request (trim text)) _ _
          (λ req _. record { count = answers-response _ })
          (λ msg _. record { count = answers-response _ })).count
]

length-answers-written :
    (w : World) (e : Event) (i : ℕ)
    → length (answers (written w e i)) ≡ (if is_request_of i e then 1 else 0)
unfolding written
length-answers-written w (connect j) i = refl
length-answers-written w (line j env text) i = elim (Bool-cases (eqb j i)) [
  | inl e ↦ rw e (length-answers-handle_line w j env text)
  | inr e ↦ rw e refl
]
length-answers-written w (poll j env) i = elim (Bool-cases (eqb j i)) [
  | inl e ↦ rw e (ap length (answers-notifications (round env (w.clients j).stream).sent))
  | inr e ↦ rw e refl
]
length-answers-written w (notice n) i = elim (Bool-cases (w.clients i).is_open) [
  | inl e ↦ rw e (ap length (answers-notifications (n ∷ [])))
  | inr e ↦ rw e refl
]
length-answers-written w (disconnect j) i = refl

-- From any state on and in any order of events: a client is written exactly one line that is taken
-- for an answer for each of its lines that is not blank, valid or not, whatever notifications and
-- received data are written between.
pub length-answers-output :
    (es : List Event) (w : World) (i : ℕ) → length (answers (output w es i)) ≡ requests_of es i
unfolding output
length-answers-output [] w i = refl
length-answers-output (e ∷ es) w i = omega (
  arith,
  length-answers-append (written w e i) (output (step w e) es i),
  length-answers-written w e i,
  length-answers-output es (step w e) i,
)
