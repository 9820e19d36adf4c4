-- ===== src/Serial/Tidy.antt =====
-- The tasks that the logs have started: each log task is registered or its token is cancelled, and
-- each timer is registered or aborted.
pub mod Handlers
pub mod Logs
pub mod Closing
use commmon.Base.{
  ℕ, String, ◌≡◌, refl, Bool, true, false, ◌&&◌, ◌||◌, Option, none, some, List, [], ◌∷◌, ◌++◌,
  arith, eqb, if◌then◌else◌, ◌==◌, eq_iff, Option-cases, inl, inr,
}
use commmon.Base.Maps.{Map, get, insert, remove, map_laws}
use commmon.Env.{Call, write_all, abort, cancel, await, spawn_log, spawn_timer}
use commmon.Serial.{LogState, SerialManager, issue}
use commmon.Serial.Logs.{stop_calls, abort_timer, stop_all_logs}

abbrev pub cancels : ℕ → List Call → Bool
cancels t [] = false
cancels t (cancel u ∷ cs) = eqb t u || cancels t cs
cancels t (write_all w b ∷ cs) = cancels t cs
cancels t (abort u ∷ cs) = cancels t cs
cancels t (await u ∷ cs) = cancels t cs
cancels t (spawn_log task rx file port kw token ∷ cs) = cancels t cs
cancels t (spawn_timer task secs token port file ∷ cs) = cancels t cs

abbrev pub aborts : ℕ → List Call → Bool
aborts t [] = false
aborts t (abort u ∷ cs) = eqb t u || aborts t cs
aborts t (write_all w b ∷ cs) = aborts t cs
aborts t (cancel u ∷ cs) = aborts t cs
aborts t (await u ∷ cs) = aborts t cs
aborts t (spawn_log task rx file port kw token ∷ cs) = aborts t cs
aborts t (spawn_timer task secs token port file ∷ cs) = aborts t cs

abbrev pub is_handle : ℕ → Option ℕ → Bool
is_handle t none = false
is_handle t (some u) = eqb t u

abbrev pub has_token : ℕ → Option LogState → Bool
has_token t none = false
has_token t (some log) = eqb t log.cancel

abbrev pub has_timer : ℕ → Option LogState → Bool
has_timer t none = false
has_timer t (some log) = is_handle t log.duration_task

-- What has become of a call, when `calls` are all that were made: a spawned log task is registered
-- for its port or cancelled, a spawned timer is registered or aborted.
abbrev pub settled : Map LogState → List Call → Call → Bool
settled logs calls (spawn_log task rx file port kw token) =
    has_token token (get port logs) || cancels token calls
settled logs calls (spawn_timer task secs token port file) =
    has_timer task (get port logs) || aborts task calls
settled logs calls (write_all w b) = true
settled logs calls (abort t) = true
settled logs calls (cancel t) = true
settled logs calls (await t) = true

abbrev pub all_settled : Map LogState → (calls some_calls : List Call) → Bool
all_settled logs calls [] = true
all_settled logs calls (c ∷ cs) = settled logs calls c && all_settled logs calls cs

pub record Tidy (m : SerialManager) : Type 0 where
  pub all : all_settled m.logs m.calls m.calls ≡ true

pub cancels-append :
    (t : ℕ) (cs ds : List Call) → cancels t (cs ++ ds) ≡ (cancels t cs || cancels t ds)
cancels-append t [] ds = refl
cancels-append t (cancel u ∷ cs) ds = ground (arith, cancels-append t cs ds)
cancels-append t (write_all w b ∷ cs) ds = cancels-append t cs ds
cancels-append t (abort u ∷ cs) ds = cancels-append t cs ds
cancels-append t (await u ∷ cs) ds = cancels-append t cs ds
cancels-append t (spawn_log task rx file port kw token ∷ cs) ds = cancels-append t cs ds
cancels-append t (spawn_timer task secs token port file ∷ cs) ds = cancels-append t cs ds

pub aborts-append : (t : ℕ) (cs ds : List Call) → aborts t (cs ++ ds) ≡ (aborts t cs || aborts t ds)
aborts-append t [] ds = refl
aborts-append t (abort u ∷ cs) ds = ground (arith, aborts-append t cs ds)
aborts-append t (write_all w b ∷ cs) ds = aborts-append t cs ds
aborts-append t (cancel u ∷ cs) ds = aborts-append t cs ds
aborts-append t (await u ∷ cs) ds = aborts-append t cs ds
aborts-append t (spawn_log task rx file port kw token ∷ cs) ds = aborts-append t cs ds
aborts-append t (spawn_timer task secs token port file ∷ cs) ds = aborts-append t cs ds

pub all_settled-append :
    (logs : Map LogState) (calls cs ds : List Call)
    → all_settled logs calls (cs ++ ds) ≡ (all_settled logs calls cs && all_settled logs calls ds)
all_settled-append logs calls [] ds = refl
all_settled-append logs calls (c ∷ cs) ds = ground (arith, all_settled-append logs calls cs ds)

-- What the logs and the new calls `cs` must have of the old logs, about one port.
pub record Carries (logs logs' : Map LogState) (cs : List Call) (port : String) : Type 0 where
  pub token :
      (t : ℕ)
      → has_token t (get port logs) ≡ true
      → (has_token t (get port logs') || cancels t cs) ≡ true
  pub timer :
      (t : ℕ)
      → has_timer t (get port logs) ≡ true
      → (has_timer t (get port logs') || aborts t cs) ≡ true

module _ (logs logs' : Map LogState) (calls cs : List Call)
    (h : (port : String) → Carries logs logs' cs port) where
  settled-step : (c : Call) → settled logs calls c ≡ true → settled logs' (calls ++ cs) c ≡ true
  settled-step (spawn_log task rx file port kw token) k =
      ground (arith, cancels-append token calls cs, (h port).token token)
  settled-step (spawn_timer task secs token port file) k =
      ground (arith, aborts-append task calls cs, (h port).timer task)
  settled-step (write_all w b) k = refl
  settled-step (abort t) k = refl
  settled-step (cancel t) k = refl
  settled-step (await t) k = refl

  all_settled-step :
      (ds : List Call)
      → all_settled logs calls ds ≡ true
      → all_settled logs' (calls ++ cs) ds ≡ true
  all_settled-step [] k = refl
  all_settled-step (d ∷ ds) k = ground (arith, settled-step d, all_settled-step ds)

-- A step that registers, cancels and aborts as it should, with its own calls settled.
pub step-Tidy :
    (m m' : SerialManager) (cs : List Call)
    → m'.calls ≡ m.calls ++ cs
    → ((port : String) → Carries m.logs m'.logs cs port)
    → all_settled m'.logs m'.calls cs ≡ true
    → Tidy m
    → Tidy m'
step-Tidy m m' cs e h new tidy = record {
  all =
      let old = all_settled-step m.logs m'.logs m.calls cs h m.calls tidy.all in
      ground (arith, all_settled-append m'.logs m'.calls m.calls cs, e, old, new);
}

pub same-Carries :
    (logs : Map LogState) (cs : List Call) (port : String) → Carries logs logs cs port
same-Carries logs cs port = record {
  token = λ t k. ground (arith, k);
  timer = λ t k. ground (arith, k);
}
