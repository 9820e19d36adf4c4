-- ===== src/Serial/Tidy/Handlers.antt =====
-- The handlers of ports, and those that stop a log, leave the tasks of the logs registered or
-- stopped.
use commmon.Base.{
  ℕ, String, ◌≡◌, refl, true, some, List, [], ◌∷◌, ◌++◌, arith, eq_iff, Option-cases, inl, inr,
}
use commmon.Base.Branches.{on_if, on_option}
use commmon.Base.Maps.{Map, get, remove, contains_key, map_laws}
use commmon.Json.{Value, str_of}
use commmon.Protocol.{Response}
use commmon.Env.{Env, Call, write_all, abort, on_result}
use commmon.Serial.{
  LogState, SerialManager, issue, open_port, builder, write_port, write_text, write_bytes,
  payload_bytes, close_removed,
}
use commmon.Serial.Logs.{stop_calls, stop_log_internal, close_port, stop_log}
use commmon.Serial.Invariant.{stop_log_internal-none, stop_log_internal-some}
use commmon.Serial.Tidy.{Tidy, Carries, step-Tidy, same-Carries, all_settled}

-- After a handler.
pub record Leaves {ℓ} (A : Type ℓ) (r : A × SerialManager) : Type ℓ where
  pub left : Tidy r.1

stop-Carries :
    (m : SerialManager) (port p : String) (log : LogState)
    → get port m.logs ≡ some log
    → Carries m.logs (remove port m.logs) (stop_calls log) p
stop-Carries m port p log e = record {
  token = λ t k. simp map_laws (ground (arith, eq_iff port p, e, k));
  timer = λ t k. elim (Option-cases log.duration_task) [
    | inl f ↦ rw f (simp map_laws (ground (arith, eq_iff port p, e, f, k)))
    | inr (u, f) ↦ rw f (simp map_laws (ground (arith, eq_iff port p, e, f, k)))
  ];
}

stop_settled :
    (logs : Map LogState) (calls : List Call) (log : LogState)
    → all_settled logs calls (stop_calls log) ≡ true
stop_settled logs calls log = elim (Option-cases log.duration_task) [
  | inl f ↦ rw f refl
  | inr (u, f) ↦ rw f refl
]

pub stop_log_internal-Tidy :
    (port : String) (m : SerialManager) → Tidy m → Tidy (stop_log_internal port m).1
stop_log_internal-Tidy port m h = elim (Option-cases (get port m.logs)) [
  | inl e ↦ rw (stop_log_internal-none port m e) h
  | inr (log, e) ↦ rw (stop_log_internal-some port m e) (
      step-Tidy m _ (stop_calls log) refl (λ p. stop-Carries m port p log e)
        (stop_settled _ (m.calls ++ stop_calls log) log) h)
]

module _ (env : Env) (m : SerialManager) (h : Tidy m) where
  as_before : (r : Response) → Leaves Response (r, m)
  as_before r = record { left = h }

  pub open_port-Leaves : (args : Value) → Leaves Response (open_port env args m)
  unfolding open_port
  open_port-Leaves args =
      on_option (Leaves Response) (str_of "port" args) _ _ (λ _. as_before _)
        λ port _.
          on_if (Leaves Response) (contains_key port m.ports) _ _ (λ _. as_before _)
            λ _.
              on_result (Leaves Response) (env.open_stream (builder port args)) _ _
                (λ st _. record { left = record { all = h.all } }) (λ e _. as_before _)

  write_bytes-Leaves :
      (port : String) (bytes : List ℕ) → Leaves Response (write_bytes env port bytes m)
  unfolding write_bytes
  write_bytes-Leaves port bytes =
      on_option (Leaves Response) (get port m.ports) _ _ (λ _. as_before _)
        λ p _.
          let written =
            step-Tidy m (issue (write_all p.writer bytes ∷ []) m) (write_all p.writer bytes ∷ [])
              refl (same-Carries m.logs _) refl h in
          on_result (Leaves Response) (env.write_result p.writer bytes) _ _
            (λ _ _. record { left = written }) (λ _ _. record { left = written })

  write_text-Leaves :
      (port encoding text : String) → Leaves Response (write_text env port encoding text m)
  unfolding write_text
  write_text-Leaves port encoding text =
      on_result (Leaves Response) (payload_bytes env encoding text) _ _
        (λ bytes _. write_bytes-Leaves port bytes) (λ e _. as_before _)

  pub write_port-Leaves : (args : Value) → Leaves Response (write_port env args m)
  unfolding write_port
  write_port-Leaves args =
      on_option (Leaves Response) (str_of "port" args) _ _ (λ _. as_before _)
        λ port _.
          on_option (Leaves Response) (str_of "data" args) _ _ (λ _. as_before _)
            λ text _. write_text-Leaves port _ text

  pub close_port-Leaves : (args : Value) → Leaves Response (close_port args m)
  unfolding close_port close_removed
  close_port-Leaves args =
      on_option (Leaves Response) (str_of "port" args) _ _ (λ _. as_before _)
        λ port _.
          let m' = (stop_log_internal port m).1 in
          let stopped = stop_log_internal-Tidy port m h in
          on_option (Leaves Response) (get port m'.ports) _ _ (λ _. record { left = stopped })
            λ p _. record {
              left =
                  step-Tidy m' _ (abort p.read_task ∷ []) refl (same-Carries m'.logs _) refl
                    stopped;
            }

  pub stop_log-Leaves : (args : Value) → Leaves Response (stop_log args m)
  unfolding stop_log
  stop_log-Leaves args =
      on_option (Leaves Response) (str_of "port" args) _ _ (λ _. as_before _)
        λ port _. elim (Option-cases (get port m.logs)) [
          | inl e ↦ rw (stop_log_internal-none port m e) (as_before _)
          | inr (log, e) ↦
              let stopped = stop_log_internal-Tidy port m h in
              let stopped' = rw (stop_log_internal-some port m e) at stopped in
              rw (stop_log_internal-some port m e) (record { left = stopped' })
        ]
