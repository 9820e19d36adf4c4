-- ===== src/Repl/Write.antt =====
-- "write": the words that are typed are the bytes that the daemon writes.
use commmon.Base.{
  ℕ, String, ◌≡◌, refl, Option, some, List, [], ◌∷◌, ◌==◌, Bool-cases, inl, inr, if◌then◌else◌,
}
use commmon.Base.Maps.{get}
use commmon.Base.Text.{as_bytes, join}
use commmon.Json.{Value, json, string}
use commmon.Env.{Env}
use commmon.Serial.{SerialManager}
use commmon.Serial.Writing.{meant, target, value_of}
use commmon.Repl.{command, parse_parts, parse_write}

-- What a request for the port does if it is to write the bytes `o`.
abbrev pub Writes : Env → SerialManager → String → Option (List ℕ) → Option Value → Type 0
Writes env m port o request =
    (args : Value) × (request ≡ command "write_port" args)
    × (meant env args ≡ o)
    × (target args m ≡ get port m.ports)

-- The words that are typed behind "write" and a port name become a `write_port` request for that
-- port. If the first of them is "--hex", it means what the other words, put together without a gap,
-- spell in hex; otherwise it means the UTF-8 bytes of all the words with one blank between them.
pub parse_parts-write :
    (env : Env) (m : SerialManager) (port first : String) (more : List String)
    → Writes env m port
        (if first == "--hex"
          then value_of (env.hex_decode (join "" more))
          else some (as_bytes (join " " (first ∷ more))))
        (parse_parts ("write" ∷ port ∷ first ∷ more))
unfolding parse_parts parse_write
parse_parts-write env m port first more = elim (Bool-cases (first == "--hex")) [
  | inl h ↦ rw (h, parse_write) (hex_args, refl, refl, refl)
  | inr h ↦ rw (h, parse_write) (text_args, refl, refl, refl)
]
  where
    hex_args : Value
    hex_args =
        json (
          ("port", string port) ∷ ("data", string (join "" more)) ∷ ("encoding", string "hex") ∷ [])

    text_args : Value
    text_args = json (("port", string port) ∷ ("data", string (join " " (first ∷ more))) ∷ [])
