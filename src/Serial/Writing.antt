-- ===== src/Serial/Writing.antt =====
-- What a `write_port` request asks of the runtime.
use commmon.Base.{
  ℕ, ◌≡◌, refl, String, Bool, true, false, Option, none, some, List, [], ◌∷◌, ◌==◌, if◌then◌else◌,
  Bool-cases, inl, inr, Option-cases, ◌⊎◌,
}
use commmon.Base.Maps.{get}
use commmon.Base.Text.{as_bytes}
use commmon.Json.{Value, str_of, and_then}
use commmon.Protocol.{Response, failure}
use commmon.Env.{Env, Result, ok, err, on_result, write_all}
use commmon.Serial.{
  OpenPort, SerialManager, issue, unwrap_or, write_port, write_text, write_bytes, payload_bytes,
}

abbrev pub value_of {ℓ} : {A : Type ℓ} → Result A → Option A
value_of (ok a) = some a
value_of (err e) = none

abbrev is_ok {ℓ} : {A : Type ℓ} → Result A → Bool
is_ok (ok a) = true
is_ok (err e) = false

-- The bytes that a request means: those of "data", or what "data" spells in hex.
abbrev pub meant : Env → Value → Option (List ℕ)
meant env args = and_then (str_of "data" args) (λ text.
    if unwrap_or "ascii" (str_of "encoding" args) == "hex"
    then value_of (env.hex_decode text)
    else some (as_bytes text))

-- The port that a request names, if it is open.
abbrev pub target : Value → SerialManager → Option OpenPort
target args m = and_then (str_of "port" args) (λ port. get port m.ports)

-- What the manager and the answer are after the writing of `bytes` to `p`, if there are both.
abbrev pub Written :
    Env → SerialManager → Option OpenPort → Option (List ℕ) → Response × SerialManager → Type 0
Written env m (some p) (some bytes) r =
    (r.1 ≡ issue (write_all p.writer bytes ∷ []) m)
    × (r.0.ok ≡ is_ok (env.write_result p.writer bytes))
Written env m _ _ r = (r.1 ≡ m) × (r.0.ok ≡ false)

result_cases {ℓ} :
    {A : Type ℓ} (r : Result A) → ((a : A) × (r ≡ ok a)) ⊎ ((e : String) × (r ≡ err e))
result_cases (ok a) = inl (a, refl)
result_cases (err e) = inr (e, refl)

write_bytes-Written :
    (env : Env) (port : String) (bytes : List ℕ) (m : SerialManager)
    → Written env m (get port m.ports) (some bytes) (write_bytes env port bytes m)
unfolding write_bytes
write_bytes-Written env port bytes m = elim (Option-cases (get port m.ports)) [
  | inl e ↦ rw (e, write_bytes) (refl, refl)
  | inr (p, e) ↦
      rw (e, write_bytes)
        (on_result (Written env m (some p) (some bytes)) (env.write_result p.writer bytes) _ _
          (λ a f. (refl, rw f refl)) (λ x f. (refl, rw f refl)))
]

nothing_meant :
    (env : Env) (m : SerialManager) (o : Option OpenPort) (msg : String)
    → Written env m o none (failure msg, m)
nothing_meant env m none msg = (refl, refl)
nothing_meant env m (some p) msg = (refl, refl)

write_text-Written :
    (env : Env) (port encoding text : String) (m : SerialManager)
    → Written env m
        (get port m.ports)
        (if encoding == "hex" then value_of (env.hex_decode text) else some (as_bytes text))
        (write_text env port encoding text m)
unfolding write_text payload_bytes
write_text-Written env port encoding text m = elim (Bool-cases (encoding == "hex")) [
  | inl h ↦ elim (result_cases (env.hex_decode text)) [
    | inl (bytes, e) ↦ rw (h, e, write_text, payload_bytes) (write_bytes-Written env port bytes m)
    | inr (x, e) ↦ rw (h, e, write_text, payload_bytes) (nothing_meant env m _ _)
  ]
  | inr h ↦ rw (h, write_text, payload_bytes) (write_bytes-Written env port (as_bytes text) m)
]

-- A `write_port` request asks for one write, of exactly the bytes that it means and to the writer
-- of the port that it names, and is answered well exactly if that write works, when the port is
-- open and the text can be decoded. If the port or the data is missing, the port is not open or the
-- text is no hex, it is answered with an error and asks for nothing, and the manager is as it was.
pub write_port-Written :
    (env : Env) (args : Value) (m : SerialManager)
    → Written env m (target args m) (meant env args) (write_port env args m)
unfolding write_port
write_port-Written env args m = elim (Option-cases (str_of "port" args)) [
  | inl e ↦ rw (e, write_port) (refl, refl)
  | inr (port, e) ↦ elim (Option-cases (str_of "data" args)) [
    | inl f ↦ rw (e, f, write_port) (nothing_meant env m _ _)
    | inr (text, f) ↦ rw (e, f, write_port) (write_text-Written env port _ text m)
  ]
]
