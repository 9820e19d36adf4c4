-- ===== src/Conversation/Tests.antt =====
-- A conversation of two clients with the daemon.
use commmon.Base.{◌≡◌, refl, List, [], ◌∷◌, length}
use commmon.Base.Text.{trim}
use commmon.Env.Sample.{env}
use commmon.Protocol.{Notification}
use commmon.Json.{null}
use commmon.Daemon.Client.{Event, connect, line, poll, notice, disconnect, start, output}
use commmon.Conversation.{answers, requests_of, length-answers-output}

abbrev stopped_notice : Notification
stopped_notice = record { notify = "log_stopped"; payload = null }

abbrev events : List Event
events =
    connect 1
    ∷ line 1 env "open"
    ∷ line 1 env "  "
    ∷ line 1 env "sub"
    ∷ poll 1 env
    ∷ line 2 env "open"
    ∷ notice stopped_notice
    ∷ line 1 env "nonsense"
    ∷ disconnect 1
    ∷ []

three_requests : requests_of events 1 ≡ 3
unfolding trim
three_requests = refl

length-answers-output_example : length (answers (output start events 1)) ≡ requests_of events 1
length-answers-output_example = length-answers-output events start 1
