-- ===== src/Serial/Effects.antt =====
-- What each handler does to the sets of open and of logged ports.
use commmon.Base.{
  ℕ, String, ◌≡◌, refl, Bool, true, false, ◌&&◌, Option, none, some, List, arith, eq_iff, ◌==◌,
  if◌then◌else◌, Option-cases, inl, inr,
}
use commmon.Base.Branches.{on_if, on_option}
use commmon.Base.Maps.{get, insert, contains_key, map_laws}
use commmon.Json.{Value, str_of, u64_of, get as get_arg}
use commmon.Protocol.{Response, success_msg, failure}
use commmon.Env.{Env, Call, on_result}
use commmon.Serial.{
  LogState, SerialManager, open_port, builder, write_port, write_text, write_bytes, payload_bytes,
  issue, subscribe,
}
use commmon.Serial.Logs.{close_port, start_log, update_log, update_logging, stop_log}
use commmon.Serial.Invariant.{LogsOpen, stop_log_internal-none, stop_log_internal-some}

pub data Effect : Type 0 where
  opening closing log_starting log_stopping no_effect : Effect

-- Whether a port is open after the effect, which happened to it or not.
abbrev pub open_after : Effect → (happened was : Bool) → Bool
open_after opening b was = if b then true else was
open_after closing b was = if b then false else was
open_after _ b was = was

-- Whether it is logged; a port that is closed is no longer logged.
abbrev pub logged_after : Effect → (happened was : Bool) → Bool
logged_after log_starting b was = if b then true else was
logged_after log_stopping b was = if b then false else was
logged_after closing b was = if b then false else was
logged_after _ b was = was

-- Whether a request is about the port `j`.
abbrev pub is_text : String → Option String → Bool
is_text j none = false
is_text j (some port) = port == j

-- About the port `j`, which the request names or not.
pub record Effects (e : Effect) (j : String) (named : Bool) (m : SerialManager)
    (r : Response × SerialManager) : Type 0 where
  pub opened : contains_key j r.1.ports ≡ open_after e (r.0.ok && named) (contains_key j m.ports)
  pub logged : contains_key j r.1.logs ≡ logged_after e (r.0.ok && named) (contains_key j m.logs)

open_after_refused : (e : Effect) (was : Bool) → was ≡ open_after e false was
open_after_refused opening was = refl
open_after_refused closing was = refl
open_after_refused log_starting was = refl
open_after_refused log_stopping was = refl
open_after_refused no_effect was = refl

logged_after_refused : (e : Effect) (was : Bool) → was ≡ logged_after e false was
logged_after_refused opening was = refl
logged_after_refused closing was = refl
logged_after_refused log_starting was = refl
logged_after_refused log_stopping was = refl
logged_after_refused no_effect was = refl

by_port :
    (e : Effect) (j : String) (m : SerialManager) (o : Option String) (x : Response × SerialManager)
    (f : String → Response × SerialManager)
    → Effects e j false m x
    → ((port : String) → o ≡ some port → Effects e j (port == j) m (f port))
    → Effects e j (is_text j o) m (elim o [ none ↦ x | some port ↦ f port ])
by_port e j m none x f p q = p
by_port e j m (some port) x f p q = q port refl

module _ (env : Env) (m : SerialManager) (j : String) where
  refused : (e : Effect) (named : Bool) (msg : String) → Effects e j named m (failure msg, m)
  refused e named msg = record {
    opened = open_after_refused e (contains_key j m.ports);
    logged = logged_after_refused e (contains_key j m.logs);
  }

  pub open_port-Effects :
      (args : Value) → Effects opening j (is_text j (str_of "port" args)) m (open_port env args m)
  unfolding open_port
  open_port-Effects args = by_port opening j m (str_of "port" args) _ _ (refused _ _ _) λ port _.
      on_if (Effects opening j (port == j) m) (contains_key port m.ports) _ _ (λ _. refused _ _ _)
        λ fresh.
          on_result (Effects opening j (port == j) m) (env.open_stream (builder port args)) _ _
            (λ st _. record { opened = simp map_laws (ground arith); logged = refl })
            (λ _ _. refused _ _ _)

  pub close_port-Effects :
      (args : Value)
      → LogsOpen m
      → Effects closing j (is_text j (str_of "port" args)) m (close_port args m)
  unfolding close_port
  close_port-Effects args h = by_port closing j m (str_of "port" args) _ _ (refused _ _ _) λ port _.
      elim (Option-cases (get port m.logs)) [
        | inl e ↦ rw (stop_log_internal-none port m e) (
            on_option (Effects closing j (port == j) m) (get port m.ports) _ _ (λ _. refused _ _ _)
              λ p _. record {
                opened = simp map_laws (ground arith);
                logged = ground (arith, eq_iff port j, e);
              })
        | inr (log, e) ↦ rw (stop_log_internal-some port m e) (
            on_option (Effects closing j (port == j) m) (get port m.ports) _ _
              (λ f. absurd (ground (arith, h port, e, f)))
              λ p _. record {
                opened = simp map_laws (ground arith);
                logged = simp map_laws (ground arith);
              })
      ]

  pub start_log-Effects :
      (args : Value)
      → Effects log_starting j (is_text j (str_of "port" args)) m (start_log env args m)
  unfolding start_log
  start_log-Effects args =
      by_port log_starting j m (str_of "port" args) _ _ (refused _ _ _) λ port _.
        on_option (Effects log_starting j (port == j) m) (subscribe port m) _ _ (λ _. refused _ _ _)
          λ rx _.
            on_if (Effects log_starting j (port == j) m) (contains_key port m.logs) _ _
              (λ _. refused _ _ _)
              λ fresh. record { opened = refl; logged = simp map_laws (ground arith) }

  pub stop_log-Effects :
      (args : Value) → Effects log_stopping j (is_text j (str_of "port" args)) m (stop_log args m)
  unfolding stop_log
  stop_log-Effects args =
      by_port log_stopping j m (str_of "port" args) _ _ (refused _ _ _) λ port _.
        elim (Option-cases (get port m.logs)) [
          | inl e ↦ rw (stop_log_internal-none port m e) (refused _ _ _)
          | inr (log, e) ↦
              rw (stop_log_internal-some port m e)
                (record { opened = refl; logged = simp map_laws (ground arith) })
        ]

  write_bytes-Effects :
      (named : Bool) (port : String) (bytes : List ℕ)
      → Effects no_effect j named m (write_bytes env port bytes m)
  unfolding write_bytes
  write_bytes-Effects named port bytes =
      on_option (Effects no_effect j named m) (get port m.ports) _ _ (λ _. refused _ _ _)
        λ p _.
          on_result (Effects no_effect j named m) (env.write_result p.writer bytes) _ _
            (λ _ _. record { opened = refl; logged = refl })
            (λ _ _. record { opened = refl; logged = refl })

  pub write_port-Effects :
      (args : Value)
      → Effects no_effect j (is_text j (str_of "port" args)) m (write_port env args m)
  unfolding write_port write_text
  write_port-Effects args = by_port no_effect j m (str_of "port" args) _ _ (refused _ _ _) λ port _.
      on_option (Effects no_effect j (port == j) m) (str_of "data" args) _ _ (λ _. refused _ _ _)
        λ text _.
          on_result (Effects no_effect j (port == j) m) (payload_bytes env _ text) _ _
            (λ bytes _. write_bytes-Effects _ port bytes) (λ e _. refused _ _ _)

  update_logging-Effects :
      (named : Bool) (port : String) (args : Value) (log : LogState)
      → get port m.logs ≡ some log
      → Effects no_effect j named m (update_logging env port args log m)
  unfolding update_logging
  update_logging-Effects named port args log active =
      elim (Option-cases (get_arg "stopKeyword" args)) [
        | inl k ↦ elim (Option-cases (u64_of "duration" args)) [
          | inl u ↦ rw (k, u, update_logging) (refused _ _ _)
          | inr (secs, u) ↦ rw (k, u, update_logging) (updated _ _ _)
        ]
        | inr (v, k) ↦ elim (Option-cases (u64_of "duration" args)) [
          | inl u ↦ rw (k, u, update_logging) (updated _ _ _)
          | inr (secs, u) ↦ rw (k, u, update_logging) (updated _ _ _)
        ]
      ]
    where
      updated :
          (msg : String) (cs : List Call) (log' : LogState)
          → Effects no_effect j named m
              (success_msg msg, issue cs (record m { logs = insert port log' m.logs }))
      updated msg cs log' = record {
        opened = refl;
        logged = simp map_laws (ground (arith, eq_iff port j, active));
      }

  pub update_log-Effects :
      (args : Value)
      → Effects no_effect j (is_text j (str_of "port" args)) m (update_log env args m)
  unfolding update_log
  update_log-Effects args = by_port no_effect j m (str_of "port" args) _ _ (refused _ _ _) λ port _.
      on_option (Effects no_effect j (port == j) m) (get port m.logs) _ _ (λ _. refused _ _ _)
        λ log active. update_logging-Effects _ port args log active
