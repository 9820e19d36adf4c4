-- ===== src/Repl/Config.antt =====
-- "open": the configuration that is typed is the one that the device is opened with.
use commmon.Base.{ℕ, ◌^◌, ◌<◌, String, ◌≡◌, refl, some, [], ◌∷◌, arith}
use commmon.Base.Text.{chr, decimal, digits_onto, ◌<>◌}
use commmon.Json.{Value, string, number, json, set}
use commmon.Env.{
  DataBits, five, six, seven, eight, StopBits, one, two, Parity, no_parity, odd, even, Env, Stream,
}
use commmon.Serial.{
  open_port, SerialManager, builder, opened_port, config_text, u32, data_bits_of, stop_bits_of,
  parity_of,
}
use commmon.Serial.Config.{
  Outcome, open_port-Outcome, bits, stops, letter, bits_lem, stops_lem, letter_lem,
}
use commmon.Repl.{command, parse_parts, parse_open, with_config, parity_word}
use commmon.Repl.Flags.{parse_u64-decimal}

-- "8N1"
abbrev pub notation : DataBits → Parity → StopBits → String
notation d p s = decimal (bits d) <> letter p <> decimal (stops s)

abbrev word : Parity → String
word no_parity = "none"
word odd = "odd"
word even = "even"

with_config-notation :
    (d : DataBits) (p : Parity) (s : StopBits) (args : Value)
    → with_config (some (notation d p s)) args
      ≡ set "stopBits"
          (string (decimal (stops s)))
          (set "parity" (string (word p)) (set "dataBits" (string (decimal (bits d))) args))
unfolding with_config parity_word decimal digits_onto chr
with_config-notation five no_parity one args = refl
with_config-notation five no_parity two args = refl
with_config-notation five odd one args = refl
with_config-notation five odd two args = refl
with_config-notation five even one args = refl
with_config-notation five even two args = refl
with_config-notation six no_parity one args = refl
with_config-notation six no_parity two args = refl
with_config-notation six odd one args = refl
with_config-notation six odd two args = refl
with_config-notation six even one args = refl
with_config-notation six even two args = refl
with_config-notation seven no_parity one args = refl
with_config-notation seven no_parity two args = refl
with_config-notation seven odd one args = refl
with_config-notation seven odd two args = refl
with_config-notation seven even one args = refl
with_config-notation seven even two args = refl
with_config-notation eight no_parity one args = refl
with_config-notation eight no_parity two args = refl
with_config-notation eight odd one args = refl
with_config-notation eight odd two args = refl
with_config-notation eight even one args = refl
with_config-notation eight even two args = refl

data_bits_of-bits : (d : DataBits) → data_bits_of (decimal (bits d)) ≡ d
unfolding data_bits_of decimal digits_onto chr
data_bits_of-bits five = refl
data_bits_of-bits six = refl
data_bits_of-bits seven = refl
data_bits_of-bits eight = refl

stop_bits_of-stops : (s : StopBits) → stop_bits_of (decimal (stops s)) ≡ s
unfolding stop_bits_of decimal digits_onto chr
stop_bits_of-stops one = refl
stop_bits_of-stops two = refl

parity_of-word : (p : Parity) → parity_of (word p) ≡ p
unfolding parity_of
parity_of-word no_parity = refl
parity_of-word odd = refl
parity_of-word even = refl

abbrev pub open_args : String → ℕ → DataBits → Parity → StopBits → Value
open_args port n d p s = set "stopBits" (string (decimal (stops s))) (
    set "parity" (string (word p)) (
      set "dataBits" (string (decimal (bits d)))
        (json (("port", string port) ∷ ("baudRate", number n) ∷ []))))

-- A port name, a baud rate below 2^32 in decimal and data bits, parity and stop bits as in "8N1",
-- typed behind "open": the request is an "open_port" whose arguments name that port for the
-- daemon's `open_port`, so that it opens the port unless it is open or the serial library refuses;
-- the device is opened with exactly the typed configuration, and what the daemon then shows of it
-- is the typed text again.
pub parse_parts-open :
    (port : String) (n : ℕ) (d : DataBits) (p : Parity) (s : StopBits)
    → n < 2 ^ 32
    → (env : Env) (m : SerialManager)
    → (args : Value) × Outcome env port args m (open_port env args m)
      × (parse_parts ("open" ∷ port ∷ decimal n ∷ notation d p s ∷ []) ≡ command "open_port" args)
      × (builder port args
          ≡ record { path = port; baud_rate = n; data_bits = d; stop_bits = s; parity = p })
      × ((st : Stream) → config_text (opened_port args st) ≡ notation d p s)
unfolding parse_parts parse_open builder opened_port config_text
parse_parts-open port n d p s h env m = (
  open_args port n d p s,
  open_port-Outcome env port (open_args port n d p s) m refl,
  rw (parse_u64-decimal n (omega arith), parse_open, with_config-notation d p s _) refl,
  (let small : u32 n ≡ n = omega arith in
      rw (builder, data_bits_of-bits d, stop_bits_of-stops s, parity_of-word p, small) refl),
  (λ st.
      rw
        (
          config_text,
          opened_port,
          bits_lem (decimal (bits d)),
          letter_lem (word p),
          stops_lem (decimal (stops s)),
          data_bits_of-bits d,
          stop_bits_of-stops s,
          parity_of-word p,
        )
        refl),
)
