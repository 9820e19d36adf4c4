-- ===== src/Serial/Tasks/Ending.antt =====
-- What ends the log task.
use commmon.Base.{◌≡◌, refl, String, Bool, true, false, List, [], ◌∷◌, ◌++◌, Bool-cases, inl, inr}
use commmon.Serial.Tasks.{Wake, cancelled, received, lagged, closed, log_loop, hit}

abbrev pub is_end : Wake → Bool
is_end cancelled = true
is_end (received e kw) = false
is_end (lagged n) = false
is_end closed = true

-- Whatever has come before and whatever would come after it: once its token is cancelled or its
-- channel is closed, the log task has ended, with the lines and the notifications that it had by
-- then and no others.
pub log_loop-ends :
    (port file : String) (wakes : List Wake) (end : Wake) (later : List Wake)
    → is_end end ≡ true
    → log_loop port file (wakes ++ end ∷ later) ≡ record (log_loop port file wakes) { ended = true }
unfolding log_loop
log_loop-ends port file [] cancelled later h = refl
log_loop-ends port file [] (received e kw) later h = cc
log_loop-ends port file [] (lagged n) later h = cc
log_loop-ends port file [] closed later h = refl
log_loop-ends port file (cancelled ∷ wakes) end later h = refl
log_loop-ends port file (closed ∷ wakes) end later h = refl
log_loop-ends port file (lagged n ∷ wakes) end later h = log_loop-ends port file wakes end later h
log_loop-ends port file (received e kw ∷ wakes) end later h = elim (Bool-cases (hit e kw)) [
  | inl k ↦ rw k refl
  | inr k ↦ rw (k, log_loop-ends port file wakes end later h) refl
]
