-- ===== src/Repl/Session/Requests.antt =====
-- What the client sends over a whole session, and when the session ends.
use commmon.Base.{
  String, Bool, true, ◌&&◌, ◌≡◌, refl, Option, none, some, List, [], ◌∷◌, any, Bool-cases, inl, inr,
  ◌==◌,
}
use commmon.Base.Branches.{on_if, on_option}
use commmon.Base.Text.{trim, is_empty}
use commmon.Json.{Value, str_of}
use commmon.Env.{Result}
use commmon.Repl.{parse_command}
use commmon.Repl.Known.{known_cmd, parse_command-is_known}
use commmon.Repl.Print.{Printer}
use commmon.Repl.Session.{
  Input, typed, interrupted, eof, failed, Run, answered, request_line, is_exit, typed_line,
  repl_loop,
}

abbrev pub all_known : List Value → Bool
all_known [] = true
all_known (v ∷ vs) = known_cmd (str_of "cmd" v) && all_known vs

record AllKnown (r : Run) : Type 0 where
  known : all_known r.requests ≡ true

answered-AllKnown :
    (p : Printer) (reply : Option (String × Result Value)) (rest : Run)
    → AllKnown rest
    → AllKnown (answered p reply rest)
unfolding answered
answered-AllKnown p none rest h = record { known = refl }
answered-AllKnown p (some (line, parsed)) rest h = record { known = h.known }

request_line-AllKnown :
    (p : Printer) (line : String) (reply : Option (String × Result Value)) (rest : Run)
    → AllKnown rest
    → AllKnown (request_line p line reply rest)
unfolding request_line
request_line-AllKnown p line reply rest h =
    on_option AllKnown (parse_command line) _ _ (λ _. record { known = h.known })
      λ v e. record {
        known = rw (parse_command-is_known line v e) (answered-AllKnown p reply rest h).known;
      }

typed_line-AllKnown :
    (p : Printer) (line : String) (reply : Option (String × Result Value)) (rest : Run)
    → AllKnown rest
    → AllKnown (typed_line p line reply rest)
unfolding typed_line
typed_line-AllKnown p line reply rest h =
    on_if AllKnown (is_empty line) _ _ (λ _. h)
      λ _. record {
        known =
            (on_if AllKnown (is_exit line) _ _ (λ _. record { known = refl })
              λ _.
                on_if AllKnown (line == "help") _ _ (λ _. record { known = h.known })
                  (λ _. request_line-AllKnown p line reply rest h)).known;
      }

repl_loop-AllKnown : (p : Printer) (inputs : List Input) → AllKnown (repl_loop p inputs)
unfolding repl_loop
repl_loop-AllKnown p [] = record { known = refl }
repl_loop-AllKnown p (interrupted ∷ inputs) = record { known = refl }
repl_loop-AllKnown p (eof ∷ inputs) = record { known = refl }
repl_loop-AllKnown p (failed e ∷ inputs) = record { known = refl }
repl_loop-AllKnown p (typed text reply ∷ inputs) =
    typed_line-AllKnown p (trim text) reply _ (repl_loop-AllKnown p inputs)

-- Whatever the user does in a session and whatever the daemon answers, every request that the
-- client writes has a command that the daemon's `dispatch` has an arm for.
pub repl_loop-all_known :
    (p : Printer) (inputs : List Input) → all_known (repl_loop p inputs).requests ≡ true
repl_loop-all_known p inputs = (repl_loop-AllKnown p inputs).known

-- What ends a session: the end of the input, or "exit" or "quit" alone on a line.
abbrev pub ends : Input → Bool
ends interrupted = true
ends eof = true
ends (failed e) = true
ends (typed text reply) = is_exit (trim text)

record Ended (r : Run) : Type 0 where
  ended : r.ended ≡ true

exit-Ended :
    (p : Printer) (line : String) (reply : Option (String × Result Value)) (rest : Run)
    → is_exit line ≡ true
    → Ended (typed_line p line reply rest)
unfolding typed_line
exit-Ended p String.[] reply rest h = cc
exit-Ended p (String.◌∷◌ c s) reply rest h = rw h (record { ended = refl })

answered-Ended :
    (p : Printer) (reply : Option (String × Result Value)) (rest : Run)
    → Ended rest
    → Ended (answered p reply rest)
unfolding answered
answered-Ended p none rest h = record { ended = refl }
answered-Ended p (some (line, parsed)) rest h = record { ended = h.ended }

typed_line-Ended :
    (p : Printer) (line : String) (reply : Option (String × Result Value)) (rest : Run)
    → Ended rest
    → Ended (typed_line p line reply rest)
unfolding typed_line request_line
typed_line-Ended p line reply rest h =
    on_if Ended (is_empty line) _ _ (λ _. h)
      λ _. record {
        ended =
            (on_if Ended (is_exit line) _ _ (λ _. record { ended = refl })
              λ _.
                on_if Ended (line == "help") _ _ (λ _. record { ended = h.ended })
                  λ _.
                    on_option Ended (parse_command line) _ _ (λ _. record { ended = h.ended })
                      λ v _. record { ended = (answered-Ended p reply rest h).ended }).ended;
      }

repl_loop-Ended :
    (p : Printer) (inputs : List Input) → any ends inputs ≡ true → Ended (repl_loop p inputs)
unfolding repl_loop
repl_loop-Ended p [] h = cc
repl_loop-Ended p (interrupted ∷ inputs) h = record { ended = refl }
repl_loop-Ended p (eof ∷ inputs) h = record { ended = refl }
repl_loop-Ended p (failed e ∷ inputs) h = record { ended = refl }
repl_loop-Ended p (typed text reply ∷ inputs) h = elim (Bool-cases (is_exit (trim text))) [
  | inl e ↦ exit-Ended p (trim text) reply _ e
  | inr e ↦ typed_line-Ended p (trim text) reply _ (repl_loop-Ended p inputs (rw e at h))
]

-- A session ends if, among the inputs, there is the end of the input, an interrupt, a failure to
-- read, or a line that is "exit" or "quit" but for space around it.
pub repl_loop-ended :
    (p : Printer) (inputs : List Input) → any ends inputs ≡ true → (repl_loop p inputs).ended ≡ true
repl_loop-ended p inputs h = (repl_loop-Ended p inputs h).ended
