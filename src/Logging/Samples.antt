-- ===== src/Logging/Samples.antt =====
-- An endpoint that closed every connection but the last one dialed, and a line sent to it.
pub mod Handlers
use aibap_mcp.Base.{ℕ, ◌+◌, refl, Bool, true, false, some, bytes, Result, ok, err, ◌==◌, arith}
use aibap_mcp.Logging.{Net, handle}
use aibap_mcp.Logging.Delivery.{Delivered, Reachable, handle-Delivered}

data Failure : Type 0 where
  broken_pipe : Failure

-- The world is the number of the last connection.
abbrev answer : Bool → Result Failure (Unit {0})
answer true = ok tt
answer false = err broken_pipe

abbrev sample : Net
sample = record {
  World = ℕ;
  Conn = ℕ;
  Failure = Failure;
  dial = λ w. (ok (w + 1), w + 1);
  write = λ c line w. (answer (c == w), w);
  close = λ c w. w;
}

sample-Reachable : Reachable sample
sample-Reachable w = (w + 1, refl, λ line. ground arith)

handle-Delivered_example :
    Delivered sample (bytes "<14>line") (handle sample (bytes "<14>line") (some 3) 5)
handle-Delivered_example = handle-Delivered sample (bytes "<14>line") (some 3) 5 sample-Reachable
