-- ===== src/Logging.antt =====
-- logging/papertrail.go: sending a log line, with one reconnect. The TLS connection is Go's: dialing,
-- writing and closing are parameters, each of which changes the world. The handler's mutex is held.
pub mod Delivery
pub mod Setup
pub mod Fanout
pub mod Line
pub mod Samples
use aibap_mcp.Base.{Bool, true, false, Option, none, some, Text, Result, ok, err}

pub record Net : Type 1 where
  pub World : Type 0
  pub Conn : Type 0
  pub Failure : Type 0
  pub dial : World → Result Failure Conn × World
  pub write : Conn → Text → World → Result Failure (Unit {0}) × World
  pub close : Conn → World → World

module _ (n : Net) where
  open n use {World, Conn, Failure, dial, write, close}

  -- The connection of a `papertrailHandler`, the answer of an operation on it, and the world.
  abbrev pub Sent : Type 0
  Sent = Result Failure (Unit {0}) × Option Conn × World

  connected : Result Failure Conn × World → Sent
  connected (ok c, w) = (ok tt, some c, w)
  connected (err e, w) = (err e, none, w)

  -- `connect`, without a connection before it.
  unfoldable pub connect : World → Sent
  unfolding connected
  connect w = connected (dial w)

  write_on : Text → Conn → World → Sent
  write_on line c w = let (answer, w') = write c line w in (answer, some c, w')

  after_connect : Text → Sent → Sent
  unfolding write_on
  after_connect line (err e, conn, w) = (err e, conn, w)
  after_connect line (ok _, none, w) = (ok tt, none, w)
  after_connect line (ok _, some c, w) = write_on line c w

  -- `send`
  unfoldable pub send : Text → Option Conn → World → Sent
  unfolding after_connect write_on
  send line none w = after_connect line (connect w)
  send line (some c) w = write_on line c w

  close_any : Option Conn → World → World
  close_any none w = w
  close_any (some c) w = close c w

  retry : Text → Sent → Sent
  unfolding after_connect close_any
  retry line (ok _, conn, w) = (ok tt, conn, w)
  retry line (err _, conn, w) = after_connect line (connect (close_any conn w))

  -- `Handle`, of the rendered line.
  unfoldable pub handle : Text → Option Conn → World → Sent
  unfolding retry
  handle line conn w = retry line (send line conn w)
