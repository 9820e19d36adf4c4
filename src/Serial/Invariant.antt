-- ===== src/Serial/Invariant.antt =====
-- A log belongs to an open port, and a request that is refused leaves the maps as they were.
use commmon.Base.{
  ℕ, String, ◌≡◌, refl, true, false, none, some, List, arith, eq_iff, Option-cases, inl, inr,
}
use commmon.Base.Branches.{on_if, on_option}
use commmon.Base.Maps.{get, insert, remove, contains_key, map_laws}
use commmon.Json.{Value, str_of, u64_of, get as get_arg}
use commmon.Channel.{Receiver}
use commmon.Protocol.{Response, success_msg, failure}
use commmon.Env.{Env, Call, on_result}
use commmon.Serial.{
  LogState, SerialManager, open_port, builder, write_port, write_text, write_bytes, payload_bytes,
  issue, subscribe,
}
use commmon.Serial.Logs.{
  stop_calls, stop_log_internal, close_port, start_log, update_log, update_logging, stop_log,
}

abbrev pub LogsOpen : SerialManager → Type 0
LogsOpen m = (p : String) → contains_key p m.logs ≡ true → contains_key p m.ports ≡ true

abbrev pub SameMaps : SerialManager → SerialManager → Type 0
SameMaps m m' = (m'.ports ≡ m.ports) × (m'.logs ≡ m.logs)

pub record Sound (m : SerialManager) (r : Response × SerialManager) : Type 0 where
  pub logs_open : LogsOpen r.1
  pub on_error : r.0.ok ≡ false → SameMaps m r.1

subscribe-open :
    (port : String) (m : SerialManager) {rx : Receiver}
    → subscribe port m ≡ some rx
    → contains_key port m.ports ≡ true
unfolding subscribe
subscribe-open port m e = ground arith

pub stop_log_internal-none :
    (port : String) (m : SerialManager)
    → get port m.logs ≡ none
    → stop_log_internal port m ≡ (none, m)
unfolding stop_log_internal
stop_log_internal-none port m e = rw (e, stop_log_internal)

pub stop_log_internal-some :
    (port : String) (m : SerialManager) {log : LogState}
    → get port m.logs ≡ some log
    → stop_log_internal port m
      ≡ (some log.file_path, issue (stop_calls log) (record m { logs = remove port m.logs }))
unfolding stop_log_internal
stop_log_internal-some port m e = rw (e, stop_log_internal)

module _ (env : Env) (m : SerialManager) (h : LogsOpen m) where
  refused : (msg : String) → Sound m (failure msg, m)
  refused msg = record { logs_open = h; on_error = λ _. (refl, refl) }

  pub open_port-Sound : (args : Value) → Sound m (open_port env args m)
  unfolding open_port
  open_port-Sound args =
      on_option (Sound m) (str_of "port" args) _ _ (λ _. refused _)
        λ port _.
          on_if (Sound m) (contains_key port m.ports) _ _ (λ _. refused _)
            λ fresh.
              on_result (Sound m) (env.open_stream (builder port args)) _ _
                (λ st _. record {
                  logs_open = λ p. simp map_laws (ground (arith, h p));
                  on_error = λ e. cc;
                })
                (λ e _. refused _)

  write_bytes-Sound : (port : String) (bytes : List ℕ) → Sound m (write_bytes env port bytes m)
  unfolding write_bytes
  write_bytes-Sound port bytes =
      on_option (Sound m) (get port m.ports) _ _ (λ _. refused _)
        λ p _.
          on_result (Sound m) (env.write_result p.writer bytes) _ _
            (λ _ _. record { logs_open = h; on_error = λ _. (refl, refl) })
            (λ _ _. record { logs_open = h; on_error = λ _. (refl, refl) })

  write_text-Sound : (port encoding text : String) → Sound m (write_text env port encoding text m)
  unfolding write_text
  write_text-Sound port encoding text =
      on_result (Sound m) (payload_bytes env encoding text) _ _
        (λ bytes _. write_bytes-Sound port bytes) (λ e _. refused _)

  pub write_port-Sound : (args : Value) → Sound m (write_port env args m)
  unfolding write_port
  write_port-Sound args =
      on_option (Sound m) (str_of "port" args) _ _ (λ _. refused _)
        λ port _.
          on_option (Sound m) (str_of "data" args) _ _ (λ _. refused _)
            λ text _. write_text-Sound port _ text

  pub start_log-Sound : (args : Value) → Sound m (start_log env args m)
  unfolding start_log
  start_log-Sound args =
      on_option (Sound m) (str_of "port" args) _ _ (λ _. refused _)
        λ port _.
          on_option (Sound m) (subscribe port m) _ _ (λ _. refused _)
            λ rx opened.
              on_if (Sound m) (contains_key port m.logs) _ _ (λ _. refused _)
                λ fresh. record {
                  logs_open = λ p.
                      simp map_laws
                        (ground (arith, h p, eq_iff port p, subscribe-open port m opened));
                  on_error = λ e. cc;
                }

  update_logging-Sound :
      (port : String) (args : Value) (log : LogState)
      → get port m.logs ≡ some log
      → Sound m (update_logging env port args log m)
  unfolding update_logging
  update_logging-Sound port args log active = elim (Option-cases (get_arg "stopKeyword" args)) [
    | inl k ↦ elim (Option-cases (u64_of "duration" args)) [
      | inl u ↦ rw (k, u, update_logging) (refused _)
      | inr (secs, u) ↦ rw (k, u, update_logging) (updated _ _ _)
    ]
    | inr (v, k) ↦ elim (Option-cases (u64_of "duration" args)) [
      | inl u ↦ rw (k, u, update_logging) (updated _ _ _)
      | inr (secs, u) ↦ rw (k, u, update_logging) (updated _ _ _)
    ]
  ]
    where
      updated :
          (msg : String) (cs : List Call) (log' : LogState)
          → Sound m (success_msg msg, issue cs (record m { logs = insert port log' m.logs }))
      updated msg cs log' = record {
        logs_open = λ p. simp map_laws (ground (arith, h p, eq_iff port p));
        on_error = λ e. cc;
      }

  pub update_log-Sound : (args : Value) → Sound m (update_log env args m)
  unfolding update_log
  update_log-Sound args =
      on_option (Sound m) (str_of "port" args) _ _ (λ _. refused _)
        λ port _.
          on_option (Sound m) (get port m.logs) _ _ (λ _. refused _)
            λ log active. update_logging-Sound port args log active

  pub close_port-Sound : (args : Value) → Sound m (close_port args m)
  unfolding close_port
  close_port-Sound args =
      on_option (Sound m) (str_of "port" args) _ _ (λ _. refused _)
        λ port _. elim (Option-cases (get port m.logs)) [
          | inl e ↦ rw (stop_log_internal-none port m e) (
              on_option (Sound m) (get port m.ports) _ _ (λ _. refused _)
                λ p _. record {
                  logs_open = λ j. simp map_laws (ground (arith, h j, eq_iff port j));
                  on_error = λ x. cc;
                })
          | inr (log, e) ↦ rw (stop_log_internal-some port m e) (
              on_option (Sound m) (get port m.ports) _ _
                (λ f. absurd (ground (arith, h port, e, f)))
                λ p _. record {
                  logs_open = λ j. simp map_laws (ground (arith, h j, eq_iff port j));
                  on_error = λ x. cc;
                })
        ]

  pub stop_log-Sound : (args : Value) → Sound m (stop_log args m)
  unfolding stop_log
  stop_log-Sound args =
      on_option (Sound m) (str_of "port" args) _ _ (λ _. refused _)
        λ port _. elim (Option-cases (get port m.logs)) [
          | inl e ↦ rw (stop_log_internal-none port m e) (refused _)
          | inr (log, e) ↦
              rw (stop_log_internal-some port m e) (record {
                logs_open = λ j. simp map_laws (ground (arith, h j));
                on_error = λ x. cc;
              })
        ]
