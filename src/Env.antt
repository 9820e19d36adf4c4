-- ===== src/Env.antt =====
-- What the code under commmon/src calls and does not implement: the serial port library, tokio,
-- hex, serde_json's printer and parser, the clock and the file system. Each enters as an argument:
-- a handler is given the results of the calls that it makes, and what it asks of the runtime
-- (writing, spawning, aborting, cancelling) is a list of calls in their order. A handle is a number
-- that the runtime chose.
pub mod Sample
use commmon.Base.{ℕ, String, Bool, true, false, Option, List, [], ◌∷◌, ◌≡◌, refl, if◌then◌else◌}
use commmon.Protocol.{Request}
use commmon.Channel.{Sender, Receiver, TryRecv}

pub data Result {ℓ} (A : Type ℓ) : Type ℓ where
  ok : A → Result A
  err : String → Result A

-- A predicate holds of what follows a result if it holds after both kinds.
pub on_result {ℓ κ} :
    {R : Type ℓ} (P : R → Type κ) {A : Type 0} (r : Result A) (f : A → R) (g : String → R)
    → ((a : A) → r ≡ ok a → P (f a))
    → ((e : String) → r ≡ err e → P (g e))
    → P (elim r [ ok a ↦ f a | err e ↦ g e ])
on_result P (ok a) f g p q = p a refl
on_result P (err e) f g p q = q e refl

-- tokio_serial::{DataBits, StopBits, Parity}
pub data DataBits : Type 0 where
  five six seven eight : DataBits

pub data StopBits : Type 0 where
  one two : StopBits

pub data Parity : Type 0 where
  no_parity odd even : Parity

-- The builder that `SerialStream::open` is given.
pub record Builder : Type 0 where
  pub path : String
  pub baud_rate : ℕ
  pub data_bits : DataBits
  pub stop_bits : StopBits
  pub parity : Parity

-- The two halves of an open stream, its new broadcast channel and the spawned reader.
pub record Stream : Type 0 where
  pub tx : Sender
  pub writer : ℕ
  pub read_task : ℕ

-- serialport::SerialPortInfo
pub record UsbPortInfo : Type 0 where
  pub manufacturer : Option String
  pub product : Option String
  pub serial_number : Option String
  pub vid : ℕ
  pub pid : ℕ

pub record SerialPortInfo : Type 0 where
  pub port_name : String
  pub usb : Option UsbPortInfo

pub data Call : Type 0 where
  -- writer.write_all(bytes)
  write_all : ℕ → List ℕ → Call
  -- task.abort()
  abort : ℕ → Call
  -- token.cancel()
  cancel : ℕ → Call
  -- task.await
  await : ℕ → Call
  -- tokio::spawn(log_task(rx, file, port, keyword, token)) with the handle of the task
  spawn_log : (task : ℕ) → Receiver → (file port : String) → Option String → (token : ℕ) → Call
  -- tokio::spawn of a timer: the handle, the seconds, the token to cancel, the port and the file
  spawn_timer : (task secs token : ℕ) → (port file : String) → Call

-- Who polls: each has receivers of its own, with a place of their own in the channel's queue.
pub data Poller : Type 0 where
  by_session by_stream by_filter by_monitor : Poller

pub record Env : Type 0 where
  pub available_ports : Result (List SerialPortInfo)
  pub open_stream : Builder → Result Stream
  pub write_result : ℕ → List ℕ → Result (Unit {0})
  pub receiver_count : Sender → ℕ
  pub hex_decode : String → Result (List ℕ)
  pub hex_encode : List ℕ → String
  -- `{:04X}`
  pub hex4 : ℕ → String
  -- Local::now().format("%Y%m%d_%H%M%S"), and temp_dir().join(name) as a text
  pub file_stamp : String
  pub in_temp_dir : String → String
  -- the handles of a new token, a spawned log task and a spawned timer
  pub new_token : ℕ
  pub new_log_task : ℕ
  pub new_timer : ℕ
  -- the results of the `try_recv` calls on a receiver, which belongs to one of the pollers
  pub polled : Poller → Receiver → List TryRecv
  -- whether the channel to the streaming task takes a command
  pub stream_alive : Bool
  -- serde_json::from_str::<Request>
  pub parse_request : String → Result Request
  -- TcpListener::bind(address), and the handle of the spawned server
  pub bind_http : String → Result (Unit {0})
  pub new_server : ℕ
  -- whether the end of a task, once it is awaited, ever comes
  pub ends : ℕ → Bool

-- Whether the code behind some calls is reached: not if one of them waits for what never comes.
abbrev pub all_return : Env → List Call → Bool
all_return env [] = true
all_return env (await task ∷ calls) = if env.ends task then all_return env calls else false
all_return env (_ ∷ calls) = all_return env calls
