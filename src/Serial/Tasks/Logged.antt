-- ===== src/Serial/Tasks/Logged.antt =====
-- What ends up in a log file, and in the channel of a port.
use commmon.Base.{
  ℕ, ◌≡◌, refl, String, Bool, some, List, [], ◌∷◌, ◌++◌, map, if◌then◌else◌, any, Bool-cases, inl,
  inr,
}
use commmon.Channel.{RxEntry}
use commmon.Filter.Exact.{stream}
use commmon.Serial.Tasks.{
  Read, chunk, failed, read_task, received, log_loop, log_line, hit, keyword_stop,
}

-- The list up to its first member that passes the test, that one included.
abbrev pub through_first {ℓ} : {A : Type ℓ} → (A → Bool) → List A → List A
through_first p [] = []
through_first p (x ∷ xs) = let rest = through_first p xs in if p x then x ∷ [] else x ∷ rest

-- While nobody cancels, closes or changes the keyword, the log task writes the lines of the entries
-- up to and including the first one whose text holds the keyword, sends one stop notification if
-- there is such an entry and none otherwise, and has ended exactly in the first case.
pub log_loop-through_first :
    (port file kw : String) (es : List RxEntry)
    → log_loop port file (map (λ e. received e (some kw)) es) ≡ record {
      lines = map log_line (through_first (λ e. hit e (some kw)) es);
      notified = if any (λ e. hit e (some kw)) es then keyword_stop port file (some kw) else [];
      ended = any (λ e. hit e (some kw)) es;
    }
unfolding log_loop
log_loop-through_first port file kw [] = refl
log_loop-through_first port file kw (e ∷ es) = elim (Bool-cases (hit e (some kw))) [
  | inl h ↦ rw h
  | inr h ↦ rw (h, log_loop-through_first port file kw es)
]

-- The bytes of the reads before the first one that is empty or failed.
abbrev pub bytes_read : List Read → List ℕ
bytes_read [] = []
bytes_read (chunk t [] ∷ reads) = []
bytes_read (chunk t (b ∷ bs) ∷ reads) = (b ∷ bs) ++ bytes_read reads
bytes_read (failed e ∷ reads) = []

-- The entries that a reader broadcasts hold together, in order, the bytes of its reads up to the
-- first one that is empty or fails.
pub stream-read_task : (reads : List Read) → stream (read_task reads) ≡ bytes_read reads
unfolding read_task
stream-read_task [] = refl
stream-read_task (chunk t [] ∷ reads) = refl
stream-read_task (chunk t (b ∷ bs) ∷ reads) = rw (stream-read_task reads)
stream-read_task (failed e ∷ reads) = refl
