-- ===== src/Channel.antt =====
-- tokio's broadcast channels, as far as commmon/src names them: the handles, and what a receive
-- returns. A channel is known by a number; what its queue holds shows only in the results of
-- `try_recv`, which come as arguments of the code that polls.
use commmon.Base.{ℕ, String, List}

-- serial.rs: RxEntry (its field `data` is a reserved word here)
pub record RxEntry : Type 0 where
  pub timestamp : String
  pub bytes : List ℕ

pub record Sender : Type 0 where
  pub channel : ℕ

pub record Receiver : Type 0 where
  pub channel : ℕ

-- `tx.subscribe()`
abbrev pub subscribe_to : Sender → Receiver
subscribe_to tx = record { channel = tx.channel }

-- The result of one `try_recv()`.
pub data TryRecv : Type 0 where
  entry : RxEntry → TryRecv
  lagged : ℕ → TryRecv
  nothing : TryRecv
  closed : TryRecv
