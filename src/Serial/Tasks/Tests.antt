-- ===== src/Serial/Tasks/Tests.antt =====
-- Runs of the tasks.
use commmon.Base.{◌≡◌, refl, true, some, none, List, [], ◌∷◌, ◌++◌, map, take, any, if◌then◌else◌}
use commmon.Base.Text.{as_bytes, from_utf8_lossy, contains}
use commmon.Channel.{RxEntry}
use commmon.Env.{cancel, err}
use commmon.Filter.Exact.{stream}
use commmon.Serial.Tasks.{
  Wake, cancelled, Read, chunk, failed, read_task, received, log_loop, log_task, log_line, hit,
  keyword_stop, timer_fires,
}
use commmon.Serial.Tasks.Ending.{log_loop-ends}
use commmon.Serial.Tasks.Logged.{
  through_first, log_loop-through_first, bytes_read, stream-read_task,
}

no_file :
    log_task "COM3" "f" (err "denied") (received (record { timestamp = "t"; bytes = [] }) none ∷ [])
    ≡ record { lines = []; notified = []; ended = true }
unfolding log_task
no_file = refl

timer_test : (timer_fires "COM3" "f" 10).0 ≡ cancel 10
unfolding timer_fires
timer_test = refl

abbrev logged_entries : List RxEntry
logged_entries =
    record { timestamp = "t"; bytes = as_bytes "boot" }
    ∷ record { timestamp = "u"; bytes = as_bytes "login: " }
    ∷ record { timestamp = "v"; bytes = as_bytes "late" }
    ∷ []

two_lines :
    (log_loop "COM3" "f" (map (λ e. received e (some "login")) logged_entries)).lines
    ≡ "[t] boot\n" ∷ "[u] login: \n" ∷ []
unfolding log_loop log_line hit as_bytes from_utf8_lossy contains
two_lines = refl

log_loop-through_first_example :
    log_loop "COM3" "f" (map (λ e. received e (some "login")) logged_entries) ≡ record {
      lines = map log_line (through_first (λ e. hit e (some "login")) logged_entries);
      notified =
          if any (λ e. hit e (some "login")) logged_entries
          then keyword_stop "COM3" "f" (some "login")
          else [];
      ended = any (λ e. hit e (some "login")) logged_entries;
    }
log_loop-through_first_example = log_loop-through_first "COM3" "f" "login" logged_entries

abbrev three_reads : List Read
three_reads = chunk "t" (1 ∷ 2 ∷ []) ∷ chunk "u" (3 ∷ []) ∷ failed "gone" ∷ chunk "v" (4 ∷ []) ∷ []

stream-read_task_example : stream (read_task three_reads) ≡ bytes_read three_reads
stream-read_task_example = stream-read_task three_reads

abbrev first_wakes : List Wake
first_wakes = map (λ e. received e (some "late")) (take 2 logged_entries)

log_loop-ends_example :
    log_loop "COM3" "f" (first_wakes ++ cancelled ∷ map (λ e. received e none) logged_entries)
    ≡ record (log_loop "COM3" "f" first_wakes) { ended = true }
log_loop-ends_example =
    log_loop-ends "COM3" "f" first_wakes cancelled (map (λ e. received e none) logged_entries) refl
