-- ===== src/Serial/Tidy/Logs.antt =====
-- Starting and updating a log leaves the tasks of the logs registered or stopped.
use commmon.Base.{
  ℕ, String, ◌≡◌, refl, true, ◌||◌, Option, none, some, List, [], ◌∷◌, ◌++◌, arith, eq_iff, eq_refl,
  Option-cases, inl, inr,
}
use commmon.Base.Branches.{on_if, on_option}
use commmon.Base.Maps.{Map, get, insert, contains_key, map_laws}
use commmon.Json.{Value, str_of, u64_of, get as get_arg}
use commmon.Channel.{Receiver}
use commmon.Protocol.{Response, success_msg}
use commmon.Env.{Env, Call, spawn_log, spawn_timer}
use commmon.Serial.{LogState, SerialManager, issue, subscribe}
use commmon.Serial.Logs.{
  abort_timer, start_log, start_logging, update_log, update_logging, timer_calls, new_timer_calls,
  with_timer, with_keyword,
}
use commmon.Serial.Tidy.{Tidy, Carries, step-Tidy, settled, all_settled, aborts, is_handle}
use commmon.Serial.Tidy.Handlers.{Leaves}

fresh-Carries :
    (m : SerialManager) (port p : String) (log : LogState) (cs : List Call)
    → get port m.logs ≡ none
    → Carries m.logs (insert port log m.logs) cs p
fresh-Carries m port p log cs e = record {
  token = λ t k. simp map_laws (ground (arith, eq_iff port p, e, k));
  timer = λ t k. simp map_laws (ground (arith, eq_iff port p, e, k));
}

replaced-Carries :
    (m : SerialManager) (port p : String) (log log' : LogState) (cs : List Call)
    → get port m.logs ≡ some log
    → log'.cancel ≡ log.cancel
    → ((t : ℕ)
        → is_handle t log.duration_task ≡ true
        → (is_handle t log'.duration_task || aborts t cs) ≡ true)
    → Carries m.logs (insert port log' m.logs) cs p
replaced-Carries m port p log log' cs e same timers = record {
  token = λ t k. simp map_laws (ground (arith, eq_iff port p, e, same, k));
  timer = λ t k. simp map_laws (ground (arith, eq_iff port p, e, timers t, k));
}

with_keyword-same :
    (keyword : Option Value) (log : LogState)
    → ((with_keyword keyword log).cancel ≡ log.cancel)
      × ((with_keyword keyword log).duration_task ≡ log.duration_task)
with_keyword-same none log = (refl, refl)
with_keyword-same (some v) log = (refl, refl)

aborts-abort_timer :
    (t : ℕ) (o : Option ℕ) (cs : List Call)
    → is_handle t o ≡ true
    → aborts t (abort_timer o ++ cs) ≡ true
aborts-abort_timer t none cs k = cc
aborts-abort_timer t (some u) cs k = ground (arith, k)

timer_settled :
    (logs : Map LogState) (calls : List Call) (o : Option ℕ) (c : Call)
    → settled logs calls c ≡ true
    → all_settled logs calls (abort_timer o ++ c ∷ []) ≡ true
timer_settled logs calls none c k = rw k refl
timer_settled logs calls (some u) c k = rw k refl

module _ (env : Env) (m : SerialManager) (h : Tidy m) where
  as_before : (r : Response) → Leaves Response (r, m)
  as_before r = record { left = h }

  start_logging-Leaves :
      (port : String) (args : Value) (rx : Receiver)
      → get port m.logs ≡ none
      → Leaves Response (start_logging env port args rx m)
  unfolding start_logging
  start_logging-Leaves port args rx e =
      on_if (Leaves Response) (contains_key port m.logs) _ _ (λ _. as_before _)
        λ _. elim (Option-cases (u64_of "duration" args)) [
          | inl u ↦
              rw (u, start_logging, timer_calls)
                (record {
                  left =
                      step-Tidy m _ (spawn_log _ _ _ port _ env.new_token ∷ []) refl
                        (λ p. fresh-Carries m port p _ _ e)
                        (simp map_laws (ground (arith, eq_refl port))) h;
                })
          | inr (secs, u) ↦
              rw (u, start_logging, timer_calls)
                (record {
                  left =
                      step-Tidy m _
                        (spawn_log _ _ _ port _ env.new_token
                          ∷ spawn_timer env.new_timer secs env.new_token port _
                          ∷ [])
                        refl (λ p. fresh-Carries m port p _ _ e)
                        (simp map_laws (ground (arith, eq_refl port))) h;
                })
        ]

  update-Tidy :
      (port : String) (log : LogState) (keyword : Option Value) (secs : Option ℕ)
      → get port m.logs ≡ some log
      → Tidy (
          issue (new_timer_calls env secs port log) (record m {
            logs = insert port (with_timer env secs (with_keyword keyword log)) m.logs;
          }))
  update-Tidy port log keyword none e =
      let (c, d) = with_keyword-same keyword log in
      step-Tidy m _ [] refl
        (λ p. replaced-Carries m port p log _ [] e c (λ t k. rw d (ground (arith, k)))) refl h
  update-Tidy port log keyword (some secs) e =
      let (c, d) = with_keyword-same keyword log in
      let log' = with_timer env (some secs) (with_keyword keyword log) in
      let spawn = spawn_timer env.new_timer secs log.cancel port log.file_path in
      let logs' = insert port log' m.logs in
      let calls' = m.calls ++ new_timer_calls env (some secs) port log in
      step-Tidy m _ (new_timer_calls env (some secs) port log) refl
        (λ p. replaced-Carries m port p log log' _ e c (λ t k.
          let gone = aborts-abort_timer t log.duration_task (spawn ∷ []) k in ground (arith, gone)))
        (timer_settled logs' calls' log.duration_task spawn
          (simp map_laws (ground (arith, eq_refl port))))
        h

  update_logging-Leaves :
      (port : String) (args : Value) (log : LogState)
      → get port m.logs ≡ some log
      → Leaves Response (update_logging env port args log m)
  unfolding update_logging
  update_logging-Leaves port args log e = elim (Option-cases (get_arg "stopKeyword" args)) [
    | inl k ↦ elim (Option-cases (u64_of "duration" args)) [
      | inl u ↦ rw (k, u, update_logging) (as_before _)
      | inr (secs, u) ↦ rw (k, u, update_logging) (updated _ _ _)
    ]
    | inr (v, k) ↦ elim (Option-cases (u64_of "duration" args)) [
      | inl u ↦ rw (k, u, update_logging) (updated _ (get_arg "stopKeyword" args) none)
      | inr (secs, u) ↦
          rw (k, u, update_logging) (updated _ (get_arg "stopKeyword" args) (some secs))
    ]
  ]
    where
      updated :
          (msg : String) (keyword : Option Value) (secs : Option ℕ)
          → Leaves Response (
            success_msg msg,
            issue (new_timer_calls env secs port log) (record m {
              logs = insert port (with_timer env secs (with_keyword keyword log)) m.logs;
            }),
          )
      updated msg keyword secs = record { left = update-Tidy port log keyword secs e }

  pub update_log-Leaves : (args : Value) → Leaves Response (update_log env args m)
  unfolding update_log
  update_log-Leaves args =
      on_option (Leaves Response) (str_of "port" args) _ _ (λ _. as_before _)
        λ port _.
          on_option (Leaves Response) (get port m.logs) _ _ (λ _. as_before _)
            λ log e. update_logging-Leaves port args log e

  pub start_log-Leaves : (args : Value) → Leaves Response (start_log env args m)
  unfolding start_log
  start_log-Leaves args =
      on_option (Leaves Response) (str_of "port" args) _ _ (λ _. as_before _)
        λ port _.
          on_option (Leaves Response) (subscribe port m) _ _ (λ _. as_before _)
            λ rx _. elim (Option-cases (get port m.logs)) [
              | inl e ↦ start_logging-Leaves port args rx e
              | inr (log, e) ↦ rw (e, start_logging) (as_before _)
            ]
