-- ===== src/Repl/Print/Notices.antt =====
-- How the client shows what the daemon reports of its own accord.
use commmon.Base.{
  ℕ, String, ◌≡◌, refl, some, List, [], ◌∷◌, map, any, if◌then◌else◌, Bool-cases, inl, inr,
}
use commmon.Base.Text.{from_utf8_lossy, ◌<>◌}
use commmon.Protocol.{Notification}
use commmon.Protocol.Wire.{notification_value}
use commmon.Channel.{RxEntry, TryRecv}
use commmon.Env.{Env}
use commmon.Daemon.Stream.{rx_data, poll_rx}
use commmon.Daemon.Stream.Polling.{met, poll_rx_lem}
use commmon.Serial.Tasks.{keyword_stop, timer_fires, received, log_loop, hit}
use commmon.Serial.Tasks.Logged.{log_loop-through_first}
use commmon.Repl.Print.{Print, err_line, Printer, print_notification}

-- What a list of notifications looks like to the user.
abbrev pub shown : Printer → List Notification → List Print
shown p [] = []
shown p (n ∷ ns) = print_notification p (notification_value n) ∷ shown p ns

abbrev pub entry_line : String → RxEntry → Print
entry_line port e =
    err_line ("\n[" <> e.timestamp <> "] [" <> port <> "] " <> from_utf8_lossy e.bytes)

shown-rx_data :
    (p : Printer) (env : Env) (port : String) (es : List RxEntry)
    → shown p (map (rx_data env port) es) ≡ map (entry_line port) es
unfolding rx_data notification_value print_notification
shown-rx_data p env port [] = refl
shown-rx_data p env port (e ∷ es) = rw (shown-rx_data p env port es)

-- A polled subscription is shown entry by entry, with its time, the port and the text, in order.
pub shown-poll_rx :
    (p : Printer) (env : Env) (port : String) (results : List TryRecv)
    → shown p (poll_rx env port results).sent ≡ map (entry_line port) (met results)
shown-poll_rx p env port results =
    rw (poll_rx_lem env port results).0 (shown-rx_data p env port (met results))

abbrev pub keyword_text : (port file kw : String) → String
keyword_text port file kw = "\n[알림] " <> port <> " 로그 중지 (키워드 '" <> kw <> "' 감지): " <> file

shown-keyword_stop :
    (p : Printer) (port file kw : String)
    → shown p (keyword_stop port file (some kw)) ≡ err_line (keyword_text port file kw) ∷ []
unfolding notification_value print_notification
shown-keyword_stop p port file kw = refl

-- While nobody cancels, closes or changes the keyword, a log over any entries is reported to the
-- user once, with the port, the keyword and the file, if the keyword stands in the text of an
-- entry, and not at all otherwise; the timer that ends a log is reported as such, with the port and
-- the file.
pub shown-log_end :
    (p : Printer) (port file kw : String) (es : List RxEntry) (token : ℕ)
    → (shown p (log_loop port file (map (λ e. received e (some kw)) es)).notified
        ≡ (if any (λ e. hit e (some kw)) es then err_line (keyword_text port file kw) ∷ [] else []))
      × (shown p ((timer_fires port file token).1 ∷ [])
          ≡ err_line ("\n[알림] " <> port <> " 로그 중지 (시간 만료): " <> file) ∷ [])
unfolding notification_value print_notification timer_fires
shown-log_end p port file kw es token = (rw (log_loop-through_first port file kw es) ends, refl)
  where
    ends :
        shown p (if any (λ e. hit e (some kw)) es then keyword_stop port file (some kw) else [])
        ≡ (if any (λ e. hit e (some kw)) es then err_line (keyword_text port file kw) ∷ [] else [])
    ends = elim (Bool-cases (any (λ e. hit e (some kw)) es)) [
      | inl h ↦ rw h (shown-keyword_stop p port file kw)
      | inr h ↦ rw h
    ]
