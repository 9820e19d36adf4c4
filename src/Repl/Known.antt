-- ===== src/Repl/Known.antt =====
-- What the command line client sends is what the daemon's `dispatch` knows, and what the daemon
-- sends the client tells apart.
use commmon.Base.{
  String, Bool, true, false, ◌≡◌, refl, Option, none, some, List, [], ◌∷◌, ◌==◌, ◌||◌, Option-cases,
  inl, inr,
}
use commmon.Base.Branches.{on_if}
use commmon.Protocol.{Response, Notification}
use commmon.Protocol.Wire.{response_value, notification_value}
use commmon.Repl.{
  is_notification, command, bare, on_port, parse_open, parse_write, on_log, parse_log,
  parse_monitor, parse_parts, parse_command,
}
use commmon.Base.Text.{split_whitespace}
use commmon.Json.{Value, str_of}
use commmon.Daemon.Dispatch.{Command, unknown, command_of}

abbrev pub is_known : Command → Bool
is_known (unknown cmd) = false
is_known _ = true

-- Of the values that the client makes, the daemon knows the command.
abbrev pub known_cmd : Option String → Bool
known_cmd none = false
known_cmd (some cmd) = is_known (command_of cmd)

abbrev sendable : Option Value → Bool
sendable none = true
sendable (some v) = known_cmd (str_of "cmd" v)

record Known (o : Option Value) : Type 0 where
  known : sendable o ≡ true

usage : Known none
usage = record { known = refl }

module _ (cmd : String) (h : is_known (command_of cmd) ≡ true) where
  bare-Known : Known (bare cmd)
  bare-Known = record { known = h }

  command-Known : (args : Value) → Known (command cmd args)
  command-Known args = record { known = h }

  on_port-Known : (more : List String) → Known (on_port cmd more)
  on_port-Known [] = usage
  on_port-Known (port ∷ more) = record { known = h }

  on_log-Known : (more : List String) → Known (on_log cmd more)
  on_log-Known [] = usage
  on_log-Known (port ∷ flags) = record { known = h }

parse_open-Known : (more : List String) → Known (parse_open more)
unfolding parse_open command_of
parse_open-Known [] = usage
parse_open-Known (port ∷ more) = command-Known "open_port" refl _

parse_write-Known : (more : List String) → Known (parse_write more)
unfolding parse_write command_of
parse_write-Known [] = usage
parse_write-Known (port ∷ []) = usage
parse_write-Known (port ∷ first ∷ more) =
    on_if Known (first == "--hex") _ _ (λ _. command-Known "write_port" refl _)
      (λ _. command-Known "write_port" refl _)

parse_log-Known : (more : List String) → Known (parse_log more)
unfolding parse_log command_of
parse_log-Known [] = usage
parse_log-Known (action ∷ more) =
    on_if Known (action == "start") _ _ (λ _. on_log-Known "start_log" refl more)
      λ _.
        on_if Known (action == "stop") _ _ (λ _. on_port-Known "stop_log" refl more)
          λ _.
            on_if Known (action == "update") _ _ (λ _. on_log-Known "update_log" refl more)
              (λ _. usage)

parse_monitor-Known : (more : List String) → Known (parse_monitor more)
unfolding parse_monitor command_of
parse_monitor-Known [] = usage
parse_monitor-Known (action ∷ more) =
    on_if Known (action == "start") _ _ (λ _. command-Known "open_monitor" refl _)
      λ _. on_if Known (action == "stop") _ _ (λ _. bare-Known "close_monitor" refl) (λ _. usage)

parse_parts-Known : (parts : List String) → Known (parse_parts parts)
unfolding parse_parts command_of
parse_parts-Known [] = usage
parse_parts-Known (word ∷ more) =
    on_if Known (word == "list" || word == "ls") _ _ (λ _. bare-Known "list_ports" refl)
      λ _.
        on_if Known (word == "open") _ _ (λ _. parse_open-Known more)
          λ _.
            on_if Known (word == "close") _ _ (λ _. on_port-Known "close_port" refl more)
              λ _.
                on_if Known (word == "write" || word == "send") _ _ (λ _. parse_write-Known more)
                  λ _.
                    on_if Known (word == "read") _ _ (λ _. on_port-Known "read_port" refl more)
                      λ _.
                        on_if Known (word == "log") _ _ (λ _. parse_log-Known more)
                          λ _.
                            on_if Known (word == "subscribe" || word == "sub") _ _
                              (λ _. on_port-Known "subscribe_rx" refl more)
                              λ _.
                                on_if Known (word == "unsubscribe" || word == "unsub") _ _
                                  (λ _. on_port-Known "unsubscribe_rx" refl more)
                                  λ _.
                                    on_if Known (word == "status") _ _
                                      (λ _. bare-Known "port_status" refl)
                                      λ _.
                                        on_if Known (word == "monitor") _ _
                                          (λ _. parse_monitor-Known more) (λ _. usage)

-- Whatever is typed: if the client sends a request for it, then with a command that the daemon's
-- `dispatch` has an arm for.
pub parse_command-is_known :
    (input : String) (v : Value) → parse_command input ≡ some v → known_cmd (str_of "cmd" v) ≡ true
unfolding parse_command
parse_command-is_known input v e =
    let k = (parse_parts-Known (split_whitespace input)).known in rw e at k

-- Of the daemon's lines, an answer is never shown as a notification, whatever it carries, and a
-- notification always is.
pub is_notification_lem :
    (r : Response) (n : Notification)
    → (is_notification (response_value r) ≡ false) × (is_notification (notification_value n) ≡ true)
unfolding is_notification response_value notification_value
is_notification_lem r n = elim (Option-cases r.payload) [
  | inl e ↦ elim (Option-cases r.error) [
    | inl f ↦ rw (e, f) (refl, refl)
    | inr (msg, f) ↦ rw (e, f) (refl, refl)
  ]
  | inr (v, e) ↦ elim (Option-cases r.error) [
    | inl f ↦ rw (e, f) (refl, refl)
    | inr (msg, f) ↦ rw (e, f) (refl, refl)
  ]
]
