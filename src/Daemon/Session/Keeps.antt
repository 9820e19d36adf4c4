-- ===== src/Daemon/Session/Keeps.antt =====
-- What the session's own operations keep.
use commmon.Base.{
  String, ◌≡◌, ◌≤◌, refl, ap, Bool, true, Option, none, some, List, [], ◌++◌, length, arith, ◌∙◌,
  eq_refl, eq_iff, length-take_last,
}
use commmon.Base.Branches.{on_if, on_option}
use commmon.Base.Maps.{get, insert, contains_key, map_laws}
use commmon.Protocol.{Response}
use commmon.Channel.{RxEntry, TryRecv}
use commmon.Env.{Env, by_session}
use commmon.Serial.{SerialManager, subscribe, unwrap_or}
use commmon.Daemon.{ClientSession}
use commmon.Daemon.Session.{
  max_buffer_entries, drain, drain_receiver, ensure_subscribed, answer_buffer, read_port,
  on_port_closed,
}
use commmon.Daemon.Session.Buffer.{delivered, drain-take_last}

-- A port has a buffer if it has a receiver, of at most 200 entries.
abbrev pub BuffersValid : ClientSession → Type 0
BuffersValid s =
    (p : String)
    → (contains_key p s.receivers ≡ contains_key p s.buffers)
      × ((b : List RxEntry) → get p s.buffers ≡ some b → length b ≤ max_buffer_entries)

-- The new session's buffers are valid, and the subscriptions are those of the old one.
pub record Keeps (s s' : ClientSession) : Type 0 where
  pub buffers : BuffersValid s'
  pub rx : s'.rx_subscriptions ≡ s.rx_subscriptions
  pub filters : s'.filter_subscriptions ≡ s.filter_subscriptions

-- A buffer that is found, or a new one, is short enough, drained or not.
drain_short :
    (b : List RxEntry) (results : List TryRecv)
    → length b ≤ max_buffer_entries
    → length (drain b results) ≤ max_buffer_entries
drain_short b results h = omega (
  arith,
  ap length (drain-take_last b results h),
  length-take_last max_buffer_entries (b ++ delivered results),
)

buffer_short :
    (o : Option (List RxEntry))
    → ((b : List RxEntry) → o ≡ some b → length b ≤ max_buffer_entries)
    → length (unwrap_or [] o) ≤ max_buffer_entries
buffer_short none h = omega arith
buffer_short (some b) h = h b refl

module _ (s : ClientSession) (valid : BuffersValid s) where
  same : Keeps s s
  same = record { buffers = valid; rx = refl; filters = refl }

  -- A buffer that is put in for a port with a receiver.
  with_buffer :
      (port : String) (b : List RxEntry)
      → contains_key port s.receivers ≡ true
      → length b ≤ max_buffer_entries
      → Keeps s (record s { buffers = insert port b s.buffers })
  with_buffer port b has short = record {
    buffers = λ p. (
      simp map_laws (ground (arith, (valid p).0, eq_iff port p)),
      λ c. simp map_laws (ground (arith, (valid p).1 c)),
    );
    rx = refl;
    filters = refl;
  }

  pub drain_receiver-Keeps : (env : Env) (port : String) → Keeps s (drain_receiver env port s)
  unfolding drain_receiver
  drain_receiver-Keeps env port =
      on_option (Keeps s) (get port s.receivers) _ _ (λ _. same)
        λ rx e. with_buffer port _ (ground (arith, e)) (
          drain_short _ (env.polled by_session rx)
            (buffer_short (get port s.buffers) (valid port).1))

  pub ensure_subscribed-Keeps :
      (port : String) (m : SerialManager) → Keeps s (ensure_subscribed port m s)
  unfolding ensure_subscribed
  ensure_subscribed-Keeps port m =
      on_if (Keeps s) (contains_key port s.receivers) _ _ (λ _. same)
        λ fresh.
          on_option (Keeps s) (subscribe port m) _ _ (λ _. same)
            λ rx _. record {
              buffers = λ p. (
                simp map_laws (ground (arith, (valid p).0)),
                λ c. simp map_laws (ground (arith, (valid p).1 c)),
              );
              rx = refl;
              filters = refl;
            }

  pub on_port_closed-BuffersValid : (port : String) → BuffersValid (on_port_closed port s)
  unfolding on_port_closed
  on_port_closed-BuffersValid port p = (
    simp map_laws (ground (arith, (valid p).0)),
    λ c. simp map_laws (ground (arith, (valid p).1 c)),
  )

record HasReceiver (port : String) (s : ClientSession) : Type 0 where
  has : contains_key port s.receivers ≡ true

ensure_subscribed-HasReceiver :
    (port : String) (m : SerialManager) (s : ClientSession)
    → contains_key port m.ports ≡ true
    → HasReceiver port (ensure_subscribed port m s)
unfolding ensure_subscribed subscribe
ensure_subscribed-HasReceiver port m s open_now =
    on_if (HasReceiver port) (contains_key port s.receivers) _ _ (λ e. record { has = e })
      λ _.
        on_option (HasReceiver port) (subscribe port m) _ _ (λ e. absurd (ground arith))
          λ rx _. record { has = simp (map_laws, eq_refl) }

drain_receiver-HasReceiver :
    (env : Env) (port : String) (s : ClientSession)
    → HasReceiver port s
    → HasReceiver port (drain_receiver env port s)
unfolding drain_receiver
drain_receiver-HasReceiver env port s h =
    on_option (HasReceiver port) (get port s.receivers) _ _ (λ _. h) λ rx e. record { has = h.has }

-- A read that answers with the entries.
pub record Answers (s : ClientSession) (r : Response × ClientSession) : Type 0 where
  pub keeps : Keeps s r.1
  pub answered : r.0.ok ≡ true

answer_buffer-Answers :
    (port : String) (clear : Bool) (s : ClientSession)
    → BuffersValid s
    → HasReceiver port s
    → Answers s (answer_buffer port clear s)
unfolding answer_buffer
answer_buffer-Answers port clear s valid h =
    on_option (Answers s) (get port s.buffers) _ _
      (λ e. absurd (ground (arith, (valid port).0, h.has)))
      λ b _. record {
        keeps =
            on_if (Keeps s) clear _ _ (λ _. with_buffer s valid port [] h.has (omega arith))
              (λ _. same s valid);
        answered = refl;
      }

Keeps-trans : (a b c : ClientSession) → Keeps a b → Keeps b c → Keeps a c
Keeps-trans a b c p q = record {
  buffers = q.buffers;
  rx = q.rx ∙ p.rx;
  filters = q.filters ∙ p.filters;
}

-- For a session with valid buffers and a port that is open: the read that follows the subscription
-- always succeeds, whatever the receiver hands over, and keeps the buffers valid and the
-- subscriptions as they were.
pub read_subscribed-Answers :
    (env : Env) (port : String) (clear : Bool) (m : SerialManager) (s : ClientSession)
    → BuffersValid s
    → contains_key port m.ports ≡ true
    → Answers s (read_port env port clear (ensure_subscribed port m s))
unfolding read_port
read_subscribed-Answers env port clear m s valid open_now =
    let first = ensure_subscribed-Keeps s valid port m in
    let s1 = ensure_subscribed port m s in
    let second = drain_receiver-Keeps s1 first.buffers env port in
    let has = ensure_subscribed-HasReceiver port m s open_now in
    let third =
      answer_buffer-Answers port clear (drain_receiver env port s1) second.buffers
        (drain_receiver-HasReceiver env port s1 has) in
    record {
      keeps = Keeps-trans s s1 _ first (Keeps-trans s1 _ _ second third.keeps);
      answered = third.answered;
    }
