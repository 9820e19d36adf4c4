-- ===== src/Serial/Config.antt =====
-- The configuration that a port is opened with, and what the manager keeps of it: the code writes
-- the tables of the values twice.
use commmon.Base.{ℕ, ◌^◌, ◌<◌, String, ◌≡◌, refl, ◌⊎◌, true, false, eq_refl, some, arith, inl, inr}
use commmon.Base.Branches.{on_if}
use commmon.Base.Maps.{get, contains_key, map_laws}
use commmon.Json.{Value, str_of}
use commmon.Protocol.{Response}
use commmon.Env.{
  Env, ok, err, on_result, DataBits, five, six, seven, eight, StopBits, one, two, Parity, no_parity,
  odd, even, Builder, Stream,
}
use commmon.Serial.{
  OpenPort, SerialManager, open_port, builder, opened_port, data_bits_of, data_bits_number,
  stop_bits_of, stop_bits_number, parity_of, parity_letter,
}

-- What the serial library's values stand for.
abbrev pub bits : DataBits → ℕ
bits five = 5
bits six = 6
bits seven = 7
bits eight = 8

abbrev pub stops : StopBits → ℕ
stops one = 1
stops two = 2

abbrev pub letter : Parity → String
letter no_parity = "N"
letter odd = "O"
letter even = "E"

-- The port's values are those that its device was opened with.
pub record Shows (b : Builder) (p : OpenPort) : Type 0 where
  pub baud_rate : p.baud_rate ≡ b.baud_rate
  pub data_bits : p.data_bits ≡ bits b.data_bits
  pub parity : p.parity ≡ letter b.parity
  pub stop_bits : p.stop_bits ≡ stops b.stop_bits
  pub in_range : p.baud_rate < 2 ^ 32

pub bits_lem : (s : String) → data_bits_number s ≡ bits (data_bits_of s)
unfolding data_bits_number data_bits_of
bits_lem s = ground arith

pub stops_lem : (s : String) → stop_bits_number s ≡ stops (stop_bits_of s)
unfolding stop_bits_number stop_bits_of
stops_lem s = ground arith

pub letter_lem : (s : String) → parity_letter s ≡ letter (parity_of s)
unfolding parity_letter parity_of
letter_lem s = ground arith

opened_port-Shows :
    (port : String) (args : Value) (st : Stream) → Shows (builder port args) (opened_port args st)
unfolding builder opened_port
opened_port-Shows port args st = record {
  baud_rate = refl;
  data_bits = bits_lem _;
  parity = letter_lem _;
  stop_bits = stops_lem _;
  in_range = omega arith;
}

-- What `m` has of the port after it was opened with `args`.
pub record Opened (env : Env) (port : String) (args : Value) (m : SerialManager) : Type 0 where
  pub device : Stream
  pub answered : env.open_stream (builder port args) ≡ ok device
  pub kept : get port m.ports ≡ some (opened_port args device)
  pub shows : Shows (builder port args) (opened_port args device)

abbrev pub Outcome :
    Env → (port : String) → Value → SerialManager → Response × SerialManager → Type 0
Outcome env port args m r =
    ((r.0.ok ≡ true) × Opened env port args r.1)
    ⊎ ((r.0.ok ≡ false)
        × ((contains_key port m.ports ≡ true)
            ⊎ ((e : String) × (env.open_stream (builder port args) ≡ err e))))

-- For any arguments that name a port: if `open_port` answers well, the serial library has opened a
-- device for the configuration that the arguments ask for, the manager has the port, and the baud
-- rate, data bits, parity and stop bits that it keeps and shows are those of that configuration;
-- the baud rate is below 2^32. If it answers with an error, the port was open before or the library
-- has refused.
pub open_port-Outcome :
    (env : Env) (port : String) (args : Value) (m : SerialManager)
    → str_of "port" args ≡ some port
    → Outcome env port args m (open_port env args m)
unfolding open_port
open_port-Outcome env port args m named =
    let P = Outcome env port args m in
    rw (named, open_port)
      (on_if P (contains_key port m.ports) _ _ (λ e. inr (refl, inl e))
        λ fresh.
          on_result P (env.open_stream (builder port args)) _ _
            (λ st e. inl (
              refl,
              record {
                device = st;
                answered = e;
                kept = simp map_laws (ground (arith, eq_refl port));
                shows = opened_port-Shows port args st;
              },
            ))
            (λ e f. inr (refl, inr (e, f))))
